-- ===== src/WebServer/Close.antt =====
-- close_conn of practice/web_server/webServer.cpp on the connections and the wheel.
use study_record.Common.{
  ℕ, ◌≡◌, ◌∙◌, refl, sym, ap, subst, List, [], ◌∷◌, ◌++◌, Option, none, some, true, false, ◌==◌,
  ==_iff, ltb, ◌&&◌, ◌⊎◌, inl, inr, Bool-cases, arith,
}
use study_record.Common.Int.{pos, negsuc, ◌-ℤ◌}
use study_record.Common.Run.{Run, ok}
use study_record.Common.Threads.{update, update_self, update_other, update-all}
use study_record.Common.Links.{has, is_distinct, without}
use study_record.Common.Links.Laws.{has-without}
use study_record.TimeWheel.{Wheel}
use study_record.TimeWheel
use study_record.TimeWheel.Invariant.{IsWheel, without-IsFree}
use study_record.TimeWheel.Due.{Holds}
use study_record.TimeWheel.Set.{del_timer_lem}
use study_record.Http.Process.{removefd, del_timer, is_closed, close_conn}
use study_record.WebServer.{User, Server, Effect, call, max_fd, perform, close_user}
use study_record.WebServer.Invariant.{
  is_none, Owned, Somewhere, IsPending, IsServer, IsServer-conn, IsPending-close,
}

-- The run ends with a server that is well formed.
abbrev pub Serves : Run Server → Type 0
Serves r = (s' : Server) × (ts' : ℕ → List ℕ) × (r ≡ ok s') × IsServer s' ts'

-- The timers `gone` leave the wheel.
pub IsPending-wheel :
    (s : Server) (ts ts' : ℕ → List ℕ) (gone : List ℕ) (w' : Wheel)
    → IsServer s ts
    → IsWheel w' ts'
    → w'.user_data ≡ s.tw.user_data
    → is_distinct gone ≡ true
    → ((n u : ℕ) → has u (ts' n) ≡ true → Somewhere ts u × (has u gone ≡ false))
    → ((n u : ℕ) → has u (ts n) ≡ true → has u gone ≡ false → Somewhere ts' u)
    → ((u : ℕ) → has u gone ≡ true → Somewhere ts u)
    → IsPending (record s { tw = w' }) ts' gone
IsPending-wheel s ts ts' gone w' v shape data_same distinct back kept from = record {
  wheel = shape;
  owned = λ n u h. owned_still u (back n u h).0;
  timed = λ fd u h. (stays u (v.timed fd u h).0, ap (λ f. f u) data_same ∙ (v.timed fd u h).1);
  expected = λ u h. owned_still u (from u h);
  outside = λ n u h. elim (Bool-cases (has u (ts' n))) [
    | inl e ↦ absurd (ground (arith, (back n u e).1))
    | inr e ↦ e
  ];
  once = distinct;
  shut = v.shut;
  named = v.named;
  set = v.set;
  count = v.count;
}
  where
    owned_still : (u : ℕ) → Somewhere ts u → Owned (record s { tw = w' }) u
    owned_still u (n, h) = rw data_same (v.owned n u h)

    stays : (u : ℕ) → Somewhere ts u ⊎ (has u [] ≡ true) → Somewhere ts' u ⊎ (has u gone ≡ true)
    stays u (inl (n, h)) = elim (Bool-cases (has u gone)) [
      | inl e ↦ inr e
      | inr e ↦ inl (kept n u h e)
    ]
    stays u (inr h) = cc

-- A timer out of the list of its slot.
module _ (w : Wheel) (ts : ℕ → List ℕ) (v : IsWheel w ts) (t : ℕ) (mine : Holds ts w t) where
  abbrev n0 : ℕ
  n0 = w.time_slot t

  abbrev pub rest : ℕ → List ℕ
  rest = update ts n0 (without t (ts n0))

  still_has :
      (u : ℕ) (xs : List ℕ) → has u xs ≡ true → (u == t) ≡ false → has u (without t xs) ≡ true
  still_has u [] h d = h
  still_has u (x ∷ xs) h d = ground (arith, still_has u xs, ==_iff u x, ==_iff t x)

  pub rest-back : (n u : ℕ) → has u (rest n) ≡ true → (has u (ts n) ≡ true) × ((u == t) ≡ false)
  rest-back n u h = (
    update-all (λ i xs. has u xs ≡ true → has u (ts i) ≡ true) ts n0 (without t (ts n0))
        (has-without u t (ts n0)) (λ i d e. e) n h,
    (elim (Bool-cases (u == t)) [
      | inl e ↦
          let same : u ≡ t = ground arith in
          absurd
            (ground (arith, without-IsFree v n0 t mine n, sym (ap (λ k. has k (rest n)) same) ∙ h))
      | inr e ↦ e
    ]),
  )

  pub rest-kept : (n u : ℕ) → has u (ts n) ≡ true → (u == t) ≡ false → has u (rest n) ≡ true
  rest-kept n u h d =
      update-all (λ i xs. has u (ts i) ≡ true → has u xs ≡ true) ts n0 (without t (ts n0))
        (λ e. still_has u (ts n0) e d) (λ i d' e. e) n h

module _ (s : Server) (ts : ℕ → List ℕ) (fd : ℕ) (v : IsServer s ts)
    (known : s.initialised fd ≡ true) where
  pub in_bounds : (ltb fd max_fd && s.initialised fd) ≡ true
  in_bounds = ground (arith, v.named fd known)

  pub timer_held : (t : ℕ) → (s.users fd).timer ≡ some t → Holds ts s.tw t × (s.tw.user_data t ≡ fd)
  timer_held t e = held (v.timed fd t e)
    where
      held :
          (Somewhere ts t ⊎ (has t [] ≡ true)) × (s.tw.user_data t ≡ fd)
          → Holds ts s.tw t × (s.tw.user_data t ≡ fd)
      held (inl (n, h), d) = (ap (λ k. has t (ts k)) (v.wheel.places n t h) ∙ h, d)
      held (inr h, d) = cc

  abbrev pub closed_user : User
  closed_user = record (s.users fd) { m_sockfd = negsuc 0; timer = none }

  pub close-shut :
      (s.users fd).timer ≡ none
      → close_user fd s ≡ ok (record s { users = update s.users fd (s.users fd) })
  unfolding close_conn perform
  close-shut e =
      let closed : is_closed (s.users fd).m_sockfd ≡ true = v.shut fd ∙ ap is_none e in
      rw (in_bounds, closed, e) refl

  pub close-open :
      (t : ℕ) (w' : Wheel)
      → (s.users fd).timer ≡ some t
      → TimeWheel.del_timer (some t) s.tw ≡ ok w'
      → (e : List Effect) × (close_user fd s
          ≡ ok (record s {
            users = update s.users fd closed_user;
            m_user_count = s.m_user_count -ℤ pos 1;
            tw = w';
            effects = e;
          }))
  unfolding close_conn perform
  close-open t w' e run =
      let opened : is_closed (s.users fd).m_sockfd ≡ false = v.shut fd ∙ ap is_none e in
      (
        (s.effects ++ call (removefd (s.users fd).m_sockfd) ∷ []) ++ call (del_timer t) ∷ [],
        rw (in_bounds, opened, e, run) refl,
      )

pub timer_cases : (o : Option ℕ) → (o ≡ none) ⊎ ((t : ℕ) × (o ≡ some t))
timer_cases none = inl refl
timer_cases (some t) = inr (t, refl)

module _ (s : Server) (ts : ℕ → List ℕ) (fd : ℕ) (v : IsServer s ts)
    (known : s.initialised fd ≡ true) where
  -- close_conn of an entry of `users`, open or not, leaves a server whose timers and connections
  -- agree, with that connection closed and without a timer, and no other one touched.
  pub close_user_lem :
      (s' : Server) × (ts' : ℕ → List ℕ) × (close_user fd s ≡ ok s')
      × IsServer s' ts'
      × (is_closed (s'.users fd).m_sockfd ≡ true)
      × ((s'.users fd).timer ≡ none)
      × ((i : ℕ) → (fd == i) ≡ false → s'.users i ≡ s.users i)
  close_user_lem = elim (timer_cases (s.users fd).timer) [
    | inl e ↦
        let same = update_self s.users fd (s.users fd) in
        (
          record s { users = update s.users fd (s.users fd) },
          ts,
          close-shut s ts fd v known e,
          IsServer-conn s ts fd (s.users fd) s.effects v (v.named fd known) refl refl,
          ap (λ u. is_closed u.m_sockfd) same ∙ v.shut fd ∙ ap is_none e,
          ap (λ u. u.timer) same ∙ e,
          λ i d. update_other s.users fd i (s.users fd) d,
        )
    | inr (t, e) ↦
        let (mine, owner) = timer_held s ts fd v known t e in
        let (w', run, shape, _, _, data_same) = del_timer_lem s.tw ts v.wheel t mine in
        let (log, close) = close-open s ts fd v known t w' e run in
        let p =
          IsPending-wheel s ts (rest s.tw ts v.wheel t mine) (t ∷ []) w' v shape data_same refl
            (λ n u h.
              let (h', d) = rest-back s.tw ts v.wheel t mine n u h in ((n, h'), ground arith))
            (λ n u h d. (n, rest-kept s.tw ts v.wheel t mine n u h (ground arith)))
            (λ u h.
              (s.tw.time_slot t, same_timer u t (ts (s.tw.time_slot t)) (ground arith) mine)) in
        let u' = closed_user s ts fd v known in
        let here : w'.user_data t ≡ fd = ap (λ f. f t) data_same ∙ owner in
        let s' = record s {
          users = update s.users fd u';
          m_user_count = s.m_user_count -ℤ pos 1;
          tw = w';
          effects = log;
        } in
        let q : IsServer s' (rest s.tw ts v.wheel t mine) =
          subst
            (λ i.
              IsPending
                (record s {
                  users = update s.users i u';
                  m_user_count = s.m_user_count -ℤ pos 1;
                  tw = w';
                  effects = log;
                })
                (rest s.tw ts v.wheel t mine) [])
            here
            (IsPending-close (record s { tw = w' }) (rest s.tw ts v.wheel t mine) t [] p u' log refl
              refl) in
        let same = update_self s.users fd u' in
        (
          s',
          rest s.tw ts v.wheel t mine,
          close,
          q,
          ap (λ u. is_closed u.m_sockfd) same,
          ap (λ u. u.timer) same,
          λ i d. update_other s.users fd i u' d,
        )
  ]
    where
      same_timer : (u t : ℕ) (xs : List ℕ) → (u == t) ≡ true → has t xs ≡ true → has u xs ≡ true
      same_timer u t xs e h = ap (λ k. has k xs) (ground (arith, ==_iff u t)) ∙ h
