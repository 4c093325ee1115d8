-- ===== src/WebServer/Timers.antt =====
-- tick of the wheel and the callbacks that it makes in practice/web_server/webServer.cpp.
use study_record.Common.{
  ℕ, ◌+◌, ◌%◌, ◌<◌, ◌≤◌, ◌≡◌, ◌∙◌, refl, sym, ap, subst, List, [], ◌∷◌, ◌++◌, map, all, length,
  Option, none, some, Bool, true, false, ◌==◌, ==_iff, ltb, not, ◌&&◌, inl, inr, Bool-cases,
  if◌then◌else◌, arith,
}
use study_record.Common.Int.{pos, negsuc, ◌-ℤ◌}
use study_record.Common.Run.{ok}
use study_record.Common.Threads.{
  update, update_self, update_other, update-update, update-all, count_if, count_if-update,
  count_if_le,
}
use study_record.Common.Links.{has, is_distinct}
use study_record.Common.Links.Laws.{distinct_cons, ==_sym}
use study_record.TimeWheel.{Wheel, n_slots}
use study_record.TimeWheel
use study_record.TimeWheel.Invariant.{elsewhere}
use study_record.TimeWheel.Tick.{expired, surviving}
use study_record.TimeWheel.Due.{
  next_lists, tick_lem, has-expired, expired-has, has-surviving, expired_sub,
}
use study_record.Http.Process.{removefd, is_closed}
use study_record.WebServer.{Server, call, max_fd, timer_func, timer_cb_func}
use study_record.WebServer.Loop.{callbacks, tick_timers}
use study_record.WebServer.Invariant.{
  is_none, Owned, Somewhere, IsPending, IsServer, IsPending-close,
}
use study_record.WebServer.Close.{Serves, IsPending-wheel}

-- As many distinct timers as entries of `users`, at most.
abbrev is_some : Option ℕ → Bool
is_some o = not (is_none o)

owners_le :
    (n : ℕ) (f : ℕ → ℕ) (g : ℕ → Option ℕ) (xs : List ℕ)
    → is_distinct xs ≡ true
    → ((x : ℕ) → has x xs ≡ true → (f x < n) × (g (f x) ≡ some x))
    → length xs ≤ count_if is_some n g
owners_le n f g [] d own = omega arith
owners_le n f g (x ∷ xs) d own =
    let (x_lt, x_own) = own x (ground (arith, ==_iff x x)) in
    let (out, d') = distinct_cons x xs d in
    let rest =
      owners_le n f (update g (f x) none) xs d'
        (λ y h. still y h out x_own (own y (ground arith))) in
    fewer x_own rest (count_if-update is_some n g (f x) none x_lt)
  where
    still :
        (y : ℕ)
        → has y xs ≡ true
        → has x xs ≡ false
        → g (f x) ≡ some x
        → (f y < n) × (g (f y) ≡ some y)
        → (f y < n) × (update g (f x) none (f y) ≡ some y)
    still y h out x_own (lt, own_y) = (
      lt,
      elim (Bool-cases (f x == f y)) [
        | inl e ↦
            let same : x ≡ y = some_same (sym x_own ∙ ap g (ground arith) ∙ own_y) in
            absurd (ground (arith, ap (λ k. has k xs) same))
        | inr e ↦ update_other g (f x) (f y) none e ∙ own_y
      ],
    )
      where
        some_same : ◌≡◌ {A = Option ℕ} (some x) (some y) → x ≡ y
        some_same e = cc

    fewer :
        g (f x) ≡ some x
        → length xs ≤ count_if is_some n (update g (f x) none)
        → count_if is_some n (update g (f x) none) + (if is_some (g (f x)) then 1 else 0)
          ≡ count_if is_some n g + (if is_some none then 1 else 0)
        → length (x ∷ xs) ≤ count_if is_some n g
    fewer e h k = ground (arith, ap is_some e)

pub timers_le : (s : Server) (ts : ℕ → List ℕ) (n : ℕ) → IsServer s ts → length (ts n) ≤ max_fd
timers_le s ts n v =
    let few =
      owners_le max_fd s.tw.user_data (λ fd. (s.users fd).timer) (ts n) (v.wheel.distinct n)
        (v.owned n) in
    omega (arith, few, count_if_le is_some max_fd (λ fd. (s.users fd).timer))

surviving-has :
    (r : ℕ → ℕ) (u : ℕ) (xs : List ℕ)
    → has u (surviving r xs) ≡ true
    → (has u xs ≡ true) × (0 < r u)
surviving-has r u [] h = cc
surviving-has r u (x ∷ xs) h = ground (arith, ==_iff u x, surviving-has r u xs)

pub expired_from : (r : ℕ → ℕ) (u : ℕ) (xs : List ℕ) → has u (expired r xs) ≡ true → has u xs ≡ true
expired_from r u [] h = h
expired_from r u (x ∷ xs) h = ground (arith, expired_from r u xs)

is_distinct-expired :
    (r : ℕ → ℕ) (xs : List ℕ) → is_distinct xs ≡ true → is_distinct (expired r xs) ≡ true
is_distinct-expired r [] d = refl
is_distinct-expired r (x ∷ xs) d = ground (arith, expired_sub r x xs, is_distinct-expired r xs)

survives :
    (r : ℕ → ℕ) (u : ℕ) (xs : List ℕ)
    → has u xs ≡ true
    → has u (expired r xs) ≡ false
    → has u (surviving r xs) ≡ true
survives r u xs h e = elim (Bool-cases (ltb 0 (r u))) [
  | inl more ↦ has-surviving r u xs h (ground arith)
  | inr over ↦ absurd (ground (arith, has-expired r u xs h))
]

-- timer_cb_func closes the connection of a timer that has been deleted.
cb_open :
    (s : Server) (fd : ℕ)
    → is_closed (s.users fd).m_sockfd ≡ false
    → timer_cb_func fd s ≡ record s {
      users = update s.users fd (record (s.users fd) { m_sockfd = negsuc 0; timer = none });
      m_user_count = s.m_user_count -ℤ pos 1;
      effects = s.effects ++ call (removefd (s.users fd).m_sockfd) ∷ [];
    }
unfolding timer_cb_func timer_func
cb_open s fd e =
    let y = record (s.users fd) { m_sockfd = negsuc 0 } in
    rw (e, update_self s.users fd y, update-update s.users fd y (record y { timer = none })) refl

callbacks-IsServer :
    (s : Server) (ts : ℕ → List ℕ) (todo : List ℕ)
    → IsPending s ts todo
    → IsServer (callbacks (map s.tw.user_data todo) s) ts
unfolding callbacks
callbacks-IsServer s ts [] v = v
callbacks-IsServer s ts (t ∷ todo) v =
    let fd = s.tw.user_data t in
    let owner = v.expected t (ground (arith, ==_iff t t)) in
    let opened : is_closed (s.users fd).m_sockfd ≡ false = v.shut fd ∙ ap is_none owner.1 in
    let u = record (s.users fd) { m_sockfd = negsuc 0; timer = none } in
    let log = s.effects ++ call (removefd (s.users fd).m_sockfd) ∷ [] in
    let s1 = record s {
      users = update s.users fd u;
      m_user_count = s.m_user_count -ℤ pos 1;
      effects = log;
    } in
    subst (λ p. IsServer (callbacks (map s.tw.user_data todo) p) ts) (sym (cb_open s fd opened))
      (callbacks-IsServer s1 ts todo (IsPending-close s ts t todo v u log refl refl))

module _ (s : Server) (ts : ℕ → List ℕ) (v : IsServer s ts) where
  abbrev now : List ℕ
  now = ts s.tw.cur_slot

  abbrev pub gone : List ℕ
  gone = expired s.tw.rotation now

  abbrev next : ℕ → List ℕ
  next = next_lists ts s.tw

  next_back : (n u : ℕ) → has u (next n) ≡ true → Somewhere ts u × (has u gone ≡ false)
  next_back n u =
      update-all (λ i xs. has u xs ≡ true → Somewhere ts u × (has u gone ≡ false)) ts s.tw.cur_slot
        (surviving s.tw.rotation now)
        (λ h.
          let (here, more) = surviving-has s.tw.rotation u now h in
          ((s.tw.cur_slot, here), expired-has s.tw.rotation u now more))
        (λ i d h. (
          (i, h),
          expired_sub s.tw.rotation u now
              (elsewhere v.wheel i s.tw.cur_slot u h (==_sym s.tw.cur_slot i d)),
        ))
        n

  next_kept : (n u : ℕ) → has u (ts n) ≡ true → has u gone ≡ false → Somewhere next u
  next_kept n u h out = (
    n,
    update-all (λ i xs. has u (ts i) ≡ true → has u xs ≡ true) ts s.tw.cur_slot
        (surviving s.tw.rotation now) (λ g. survives s.tw.rotation u now g out) (λ i d g. g) n h,
  )

  all_set :
      (xs : List ℕ)
      → ((u : ℕ) → has u xs ≡ true → Owned s u)
      → all s.initialised (map s.tw.user_data xs) ≡ true
  all_set [] own = refl
  all_set (x ∷ xs) own =
      let here = v.set (s.tw.user_data x) x (own x (ground (arith, ==_iff x x))).1 in
      let rest = all_set xs (λ u h. own u (ground arith)) in ground (arith, here, rest)

  -- The timers that are due are deleted, and then their connections are closed.
  pub tick_timers-run :
      (w1 : Wheel) × (TimeWheel.tick (max_fd + 1) s.tw ≡ ok (map s.tw.user_data gone, w1))
      × (tick_timers s ≡ ok (callbacks (map s.tw.user_data gone) (record s { tw = w1 })))
      × IsServer (callbacks (map s.tw.user_data gone) (record s { tw = w1 })) next
      × ((u : ℕ) → w1.links.live u ≡ (s.tw.links.live u && not (has u gone)))
  unfolding tick_timers
  tick_timers-run =
      let (w', run, shape, T) =
        tick_lem (max_fd + 1) s.tw ts v.wheel (omega (arith, timers_le s ts s.tw.cur_slot v)) in
      let w1 = record w' { cur_slot = (s.tw.cur_slot + 1) % n_slots } in
      let p : IsPending (record s { tw = w1 }) next gone =
        IsPending-wheel s ts next gone w1 v shape T.data_kept
          (is_distinct-expired s.tw.rotation now (v.wheel.distinct s.tw.cur_slot)) next_back
          next_kept (λ u h. (s.tw.cur_slot, expired_from s.tw.rotation u now h)) in
      let same : map w1.user_data gone ≡ map s.tw.user_data gone =
        ap (λ f. map f gone) T.data_kept in
      (
        w1,
        run,
        rw (run, all_set gone (λ u h. v.owned s.tw.cur_slot u (expired_from s.tw.rotation u now h)))
            refl,
        subst (λ fds. IsServer (callbacks fds (record s { tw = w1 })) next) same
            (callbacks-IsServer (record s { tw = w1 }) next gone p),
        T.alive,
      )

  pub tick_timers-Serves : Serves (tick_timers s)
  tick_timers-Serves =
      let (w1, _, run, shape, _) = tick_timers-run in
      (callbacks (map s.tw.user_data gone) (record s { tw = w1 }), next, run, shape)
