-- ===== src/WebServer/Open.antt =====
-- deal_connection of practice/web_server/webServer.cpp.
use study_record.Common.{
  ℕ, ◌+◌, ◌*◌, ◌<◌, ◌≡◌, ◌∙◌, refl, sym, ap, subst, List, [], ◌∷◌, ◌++◌, Option, none, some, true,
  false, ◌==◌, ==_iff, ltb, ◌⊎◌, inl, inr, Bool-cases, if◌then◌else◌, arith,
}
use study_record.Common.Int.{pos, ◌+ℤ◌}
use study_record.Common.Run.{ok}
use study_record.Common.Threads.{
  update, update_self, update_other, update-update, update-all, count_if, count_if-update,
}
use study_record.Common.Links.{has}
use study_record.TimeWheel.{Wheel, ticks_of}
use study_record.TimeWheel.Invariant.{IsWheel, not_live-IsFree}
use study_record.TimeWheel.Due.{due}
use study_record.TimeWheel.Set.{add_timer_lem}
use study_record.Http.Write
use study_record.Http.Process.{is_closed}
use study_record.WebServer.{
  User, Server, Effect, addfd, send_error, max_fd, time_slot, emit, open_user, is_full,
  deal_connection,
}
use study_record.WebServer.Invariant.{
  is_open, is_none, Owned, Somewhere, IsServer, IsServer-effects,
}
use study_record.WebServer.Close.{Serves}

IsWheel-user_data :
    (w : Wheel) (ts : ℕ → List ℕ) (d : ℕ → ℕ)
    → IsWheel w ts
    → IsWheel (record w { user_data = d }) ts
IsWheel-user_data w ts d v = record {
  heads = v.heads;
  linked = v.linked;
  distinct = v.distinct;
  places = v.places;
  range = v.range;
  cursor = v.cursor;
}

add_one : (n : ℕ) → pos n +ℤ pos 1 ≡ pos (n + 1)
add_one n = ground arith

three_ticks : ticks_of (3 * time_slot) ≡ 3
unfolding ticks_of
three_ticks = refl

-- A new timer of a connection that was closed.
module _ (s : Server) (ts : ℕ → List ℕ) (fd t slot : ℕ) (w' : Wheel) (u : User) (log : List Effect)
    (v : IsServer s ts) (lt : fd < max_fd) (shut : is_closed (s.users fd).m_sockfd ≡ true)
    (dead : s.tw.links.live t ≡ false) (shape : IsWheel w' (update ts slot (t ∷ ts slot)))
    (data_same : w'.user_data ≡ s.tw.user_data) (opened : is_closed u.m_sockfd ≡ false)
    (timed : u.timer ≡ some t) where
  abbrev ts' : ℕ → List ℕ
  ts' = update ts slot (t ∷ ts slot)

  abbrev s' : Server
  s' = record s {
    users = update s.users fd u;
    m_user_count = s.m_user_count +ℤ pos 1;
    initialised = update s.initialised fd true;
    tw = record w' { user_data = update w'.user_data t fd };
    effects = log;
  }

  untimed : (s.users fd).timer ≡ none
  untimed = none_of (s.users fd).timer (sym (v.shut fd) ∙ shut)
    where
      none_of : (o : Option ℕ) → is_none o ≡ true → o ≡ none
      none_of none e = refl
      none_of (some t) e = cc

  old_data : (x : ℕ) → (t == x) ≡ false → s'.tw.user_data x ≡ s.tw.user_data x
  old_data x d = update_other w'.user_data t x fd d ∙ ap (λ f. f x) data_same

  old_apart : (n x : ℕ) → has x (ts n) ≡ true → (t == x) ≡ false
  old_apart n x h = elim (Bool-cases (t == x)) [
    | inl e ↦
        let same : t ≡ x = ground arith in
        absurd (ground (arith, ap (λ k. has k (ts n)) same, not_live-IsFree v.wheel t dead n))
    | inr d ↦ d
  ]

  old-Owned : (n x : ℕ) → has x (ts n) ≡ true → Owned s' x
  old-Owned n x h =
      let (x_lt, x_timer) = v.owned n x h in
      let e = old_data x (old_apart n x h) in
      (
        subst (λ k. k < max_fd) (sym e) x_lt,
        ap (λ k. (update s.users fd u k).timer) e ∙ (elim (Bool-cases (fd == s.tw.user_data x)) [
          | inl same ↦
              let here : fd ≡ s.tw.user_data x = ground arith in
              absurd (clash (sym untimed ∙ ap (λ k. (s.users k).timer) here ∙ x_timer))
          | inr d ↦ ap (λ y. y.timer) (update_other s.users fd (s.tw.user_data x) u d) ∙ x_timer
        ]),
      )
    where
      clash : ◌≡◌ {A = Option ℕ} none (some x) → ⊥
      clash e = cc

  new-Owned : Owned s' t
  new-Owned =
      let e = update_self w'.user_data t fd in
      (
        subst (λ k. k < max_fd) (sym e) lt,
        ap (λ k. (update s.users fd u k).timer) e
            ∙ ap (λ y. y.timer) (update_self s.users fd u)
            ∙ timed,
      )

  all-Owned : (n x : ℕ) → has x (ts' n) ≡ true → Owned s' x
  all-Owned n x =
      update-all (λ i xs. has x xs ≡ true → Owned s' x) ts slot (t ∷ ts slot)
        (λ h. elim (Bool-cases (x == t)) [
          | inl e ↦ subst (Owned s') (ground (arith, ==_iff x t)) new-Owned
          | inr d ↦ old-Owned slot x (ground arith)
        ])
        (λ i d h. old-Owned i x h) n

  some_same : (a b : ℕ) → ◌≡◌ {A = Option ℕ} (some a) (some b) → a ≡ b
  some_same a b e = cc

  in_front : (x : ℕ) → Somewhere ts x ⊎ (has x [] ≡ true) → Somewhere ts' x ⊎ (has x [] ≡ true)
  in_front x (inl (n, h)) = inl (
    n,
    update-all (λ i xs. has x (ts i) ≡ true → has x xs ≡ true) ts slot (t ∷ ts slot)
        (λ h. ground arith) (λ i d h. h) n h,
  )
  in_front x (inr h) = cc

  pub IsServer-open : IsServer s' ts'
  IsServer-open = record {
    wheel = IsWheel-user_data w' ts' (update w'.user_data t fd) shape;
    owned = all-Owned;
    timed =
        update-all
          (λ i y.
            (x : ℕ)
            → y.timer ≡ some x
            → (Somewhere ts' x ⊎ (has x [] ≡ true)) × (s'.tw.user_data x ≡ i))
          s.users fd u
          (λ x h.
            let e : t ≡ x = some_same t x (sym timed ∙ h) in
            (
              inl (
                slot,
                subst (λ k. has k (ts' slot) ≡ true) e
                    (ap (has t) (update_self ts slot (t ∷ ts slot)) ∙ ground (arith, ==_iff t t)),
              ),
              sym (ap s'.tw.user_data e) ∙ update_self w'.user_data t fd,
            ))
          (λ i d x h.
            let (place, owner) = v.timed i x h in
            (in_front x place, old_data x (timer_apart x place) ∙ owner));
    expected = λ x h. cc;
    outside = λ n x h. cc;
    once = refl;
    shut =
        update-all (λ i y. is_closed y.m_sockfd ≡ is_none y.timer) s.users fd u
          (opened ∙ sym (ap is_none timed)) (λ i d. v.shut i);
    named =
        update-all (λ i b. b ≡ true → i < max_fd) s.initialised fd true (λ e. lt)
          (λ i d. v.named i);
    set = λ i x.
        update-all (λ i b. (update s.users fd u i).timer ≡ some x → b ≡ true) s.initialised fd true
          (λ h. refl)
          (λ i d h. v.set i x (sym (ap (λ y. y.timer) (update_other s.users fd i u d)) ∙ h)) i;
    count =
        ap (λ c. c +ℤ pos 1) v.count
        ∙ add_one (count_if is_open max_fd s.users)
        ∙ ap pos (more (count_if-update is_open max_fd s.users fd u lt));
  }
    where
      timer_apart : (x : ℕ) → Somewhere ts x ⊎ (has x [] ≡ true) → (t == x) ≡ false
      timer_apart x (inl (n, h)) = old_apart n x h
      timer_apart x (inr h) = cc

      more :
          count_if is_open max_fd (update s.users fd u) + (if is_open (s.users fd) then 1 else 0)
            ≡ count_if is_open max_fd s.users + (if is_open u then 1 else 0)
          → count_if is_open max_fd s.users + 1 ≡ count_if is_open max_fd (update s.users fd u)
      more h = ground (arith, opened, shut)

module _ (s : Server) (ts : ℕ → List ℕ) (v : IsServer s ts) (t : ℕ)
    (dead : s.tw.links.live t ≡ false) where
  -- In a server whose timers and connections agree, when accept returns a descriptor below MAX_FD
  -- whose entry of `users` is closed, the server is not full and `new` returns an address where no
  -- timer lives, that entry becomes an open connection with a new timer that is due after three
  -- ticks, no other entry is touched, and timers and connections agree as before.
  pub deal_connection_lem :
      (fd : ℕ)
      → fd < max_fd
      → is_full s.m_user_count ≡ false
      → is_closed (s.users fd).m_sockfd ≡ true
      → (s' : Server) × (ts' : ℕ → List ℕ) × (deal_connection (some fd) t s ≡ ok s')
        × IsServer s' ts'
        × ((s'.users fd).m_sockfd ≡ pos fd)
        × ((s'.users fd).timer ≡ some t)
        × (due s'.tw t ≡ 3)
        × ((i : ℕ) → (fd == i) ≡ false → s'.users i ≡ s.users i)
  unfolding deal_connection open_user
  deal_connection_lem fd lt room shut =
      let (slot, w', run, shape, _, later, _, data_same) =
        add_timer_lem s.tw ts v.wheel t (3 * time_slot) dead in
      let u = record (s.users fd) {
        m_sockfd = pos fd;
        conn = Write.init (s.users fd).conn;
        timer = some t;
      } in
      let log = s.effects ++ addfd fd ∷ [] in
      let y = record (s.users fd) { m_sockfd = pos fd; conn = Write.init (s.users fd).conn } in
      let below : ltb fd max_fd ≡ true = ground arith in
      (
        record s {
          users = update s.users fd u;
          initialised = update s.initialised fd true;
          m_user_count = s.m_user_count +ℤ pos 1;
          tw = record w' { user_data = update w'.user_data t fd };
          effects = log;
        },
        update ts slot (t ∷ ts slot),
        rw (room, below, run, update_self s.users fd y, update-update s.users fd y u) refl,
        IsServer-open s ts fd t slot w' u log v lt shut dead shape data_same refl refl,
        ap (λ y. y.m_sockfd) (update_self s.users fd u),
        ap (λ y. y.timer) (update_self s.users fd u),
        later ∙ three_ticks,
        λ i d. update_other s.users fd i u d,
      )

  -- Whatever accept returns, as long as it is not the descriptor of an open connection.
  pub deal_connection-Serves :
      (accepted : Option ℕ)
      → ((fd : ℕ) → accepted ≡ some fd → (fd < max_fd) × (is_closed (s.users fd).m_sockfd ≡ true))
      → Serves (deal_connection accepted t s)
  unfolding deal_connection
  deal_connection-Serves none fresh = (s, ts, refl, v)
  deal_connection-Serves (some fd) fresh = elim (Bool-cases (is_full s.m_user_count)) [
    | inl e ↦ (
      emit (send_error fd) s,
      ts,
      rw e refl,
      IsServer-effects s ts (s.effects ++ send_error fd ∷ []) v,
    )
    | inr e ↦
        let (lt, shut) = fresh fd refl in
        let (s', ts', run, shape, _, _, _, _) = deal_connection_lem fd lt e shut in
        (s', ts', run, shape)
  ]
