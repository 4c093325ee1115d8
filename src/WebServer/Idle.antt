-- ===== src/WebServer/Idle.antt =====
-- What the timers do to idle connections in practice/web_server/webServer.cpp.
use study_record.Common.{
  ℕ, zero, suc, ◌+◌, ◌<◌, ◌≡◌, ◌∙◌, refl, sym, ap, subst, List, [], ◌∷◌, map, length, Option, some,
  true, false, ◌==◌, ==_iff, inl, inr, Bool-cases, arith,
}
use study_record.Common.Run.{Run, ok, ◌>>=◌}
use study_record.Common.Links.{has}
use study_record.TimeWheel.{Wheel}
use study_record.TimeWheel.Due.{due, Holds, tick-due, tick_not_due}
use study_record.Http.Process.{is_closed}
use study_record.WebServer.{Server, max_fd, timer_func, timer_cb_func}
use study_record.WebServer.Loop.{callbacks, tick_timers}
use study_record.WebServer.Invariant.{Owned, IsServer}
use study_record.WebServer.Close.{timer_held}
use study_record.WebServer.Timers.{gone, tick_timers-run, timers_le, expired_from}

cb_other : (fd i : ℕ) (s : Server) → (fd == i) ≡ false → (timer_cb_func fd s).users i ≡ s.users i
unfolding timer_cb_func timer_func
cb_other fd i s d = elim (Bool-cases (is_closed (s.users fd).m_sockfd)) [
  | inl e ↦ rw (e, d) refl
  | inr e ↦ rw (e, d) refl
]

cb_closes : (fd : ℕ) (s : Server) → is_closed ((timer_cb_func fd s).users fd).m_sockfd ≡ true
unfolding timer_cb_func timer_func
cb_closes fd s = elim (Bool-cases (is_closed (s.users fd).m_sockfd)) [
  | inl e ↦ rw (e, (==_iff fd fd).1 refl) e
  | inr e ↦ rw (e, (==_iff fd fd).1 refl) refl
]

callbacks_other :
    (fds : List ℕ) (i : ℕ) (s : Server) → has i fds ≡ false → (callbacks fds s).users i ≡ s.users i
unfolding callbacks
callbacks_other [] i s out = refl
callbacks_other (fd ∷ fds) i s out =
    callbacks_other fds i (timer_cb_func fd s) (ground arith)
    ∙ cb_other fd i s (ground (arith, ==_iff fd i, ==_iff i fd))

-- A connection that is closed stays closed.
callbacks_keep :
    (fds : List ℕ) (i : ℕ) (s : Server)
    → is_closed (s.users i).m_sockfd ≡ true
    → is_closed ((callbacks fds s).users i).m_sockfd ≡ true
unfolding callbacks
callbacks_keep [] i s h = h
callbacks_keep (fd ∷ fds) i s h =
    callbacks_keep fds i (timer_cb_func fd s) (elim (Bool-cases (fd == i)) [
      | inl e ↦
          subst (λ k. is_closed ((timer_cb_func fd s).users k).m_sockfd ≡ true) (ground arith)
            (cb_closes fd s)
      | inr e ↦ ap (λ u. is_closed u.m_sockfd) (cb_other fd i s e) ∙ h
    ])

callbacks_close :
    (fds : List ℕ) (i : ℕ) (s : Server)
    → has i fds ≡ true
    → is_closed ((callbacks fds s).users i).m_sockfd ≡ true
unfolding callbacks
callbacks_close [] i s h = cc
callbacks_close (fd ∷ fds) i s h = elim (Bool-cases (fd == i)) [
  | inl e ↦ callbacks_keep fds i (timer_cb_func fd s) (
      subst (λ k. is_closed ((timer_cb_func fd s).users k).m_sockfd ≡ true) (ground arith)
        (cb_closes fd s))
  | inr e ↦ callbacks_close fds i (timer_cb_func fd s) (ground (arith, ==_iff fd i, ==_iff i fd))
]

callbacks_wheel : (fds : List ℕ) (s : Server) → (callbacks fds s).tw ≡ s.tw
unfolding callbacks timer_cb_func timer_func
callbacks_wheel [] s = refl
callbacks_wheel (fd ∷ fds) s =
    callbacks_wheel fds (timer_cb_func fd s)
    ∙ (elim (Bool-cases (is_closed (s.users fd).m_sockfd)) [
      | inl e ↦ rw e refl
      | inr e ↦ rw e refl
    ])

has-map-from :
    (f : ℕ → ℕ) (i : ℕ) (xs : List ℕ)
    → has i (map f xs) ≡ true
    → (u : ℕ) × (has u xs ≡ true) × (f u ≡ i)
has-map-from f i [] h = cc
has-map-from f i (x ∷ xs) h = elim (Bool-cases (i == f x)) [
  | inl e ↦ (x, ground (arith, ==_iff x x), ground (arith, ==_iff i (f x)))
  | inr e ↦ let (u, mine, g) = has-map-from f i xs (ground arith) in (u, ground arith, g)
]

same_run :
    {a b : List ℕ} {w w' : Wheel}
    → ◌≡◌ {A = Run (List ℕ × Wheel)} (ok (a, w)) (ok (b, w'))
    → (a ≡ b) × (w ≡ w')
same_run e = (cc, cc)

module _ (s : Server) (ts : ℕ → List ℕ) (v : IsServer s ts) (fd t : ℕ)
    (mine : (s.users fd).timer ≡ some t) where
  held : Holds ts s.tw t × (s.tw.user_data t ≡ fd)
  held = timer_held s ts fd v (v.set fd t mine) t mine

  not_called :
      has t (gone s ts v) ≡ false
      → ((u : ℕ) → has u (gone s ts v) ≡ true → Owned s u)
      → has fd (map s.tw.user_data (gone s ts v)) ≡ false
  not_called out owned = elim (Bool-cases (has fd (map s.tw.user_data (gone s ts v)))) [
    | inl h ↦
        let (u, u_in, u_fd) = has-map-from s.tw.user_data fd (gone s ts v) h in
        let same : u ≡ t =
          some_same u t (sym (owned u u_in).1 ∙ ap (λ i. (s.users i).timer) u_fd ∙ mine) in
        absurd (ground (arith, ap (λ k. has k (gone s ts v)) same))
    | inr h ↦ h
  ]
    where
      some_same : (a b : ℕ) → ◌≡◌ {A = Option ℕ} (some a) (some b) → a ≡ b
      some_same a b e = cc

  abbrev enough : ℕ
  enough = max_fd + 1

  few : length (ts s.tw.cur_slot) < enough
  few = omega (arith, timers_le s ts s.tw.cur_slot v)

  -- A connection whose timer is due is closed.
  due_closed :
      due s.tw t ≡ 0
      → (s' : Server) × (ts' : ℕ → List ℕ) × (tick_timers s ≡ ok s')
        × IsServer s' ts'
        × (is_closed (s'.users fd).m_sockfd ≡ true)
  due_closed d =
      let (w1, run1, run, shape, _) = tick_timers-run s ts v in
      let (fired, w2, run2, called, _) = tick-due enough s.tw ts v.wheel few t held.0 d in
      let in_fired : has fd (map s.tw.user_data (gone s ts v)) ≡ true =
        ap (λ xs. has fd xs) (same_run (sym run1 ∙ run2)).0
        ∙ ap (λ k. has k fired) (sym held.1)
        ∙ called in
      (
        callbacks (map s.tw.user_data (gone s ts v)) (record s { tw = w1 }),
        _,
        run,
        shape,
        callbacks_close (map s.tw.user_data (gone s ts v)) fd (record s { tw = w1 }) in_fired,
      )

  -- Any other keeps its connection, and is due a tick sooner.
  not_due_kept :
      0 < due s.tw t
      → (s' : Server) × (ts' : ℕ → List ℕ) × (tick_timers s ≡ ok s')
        × IsServer s' ts'
        × (s'.users fd ≡ s.users fd)
        × (due s'.tw t + 1 ≡ due s.tw t)
  not_due_kept d =
      let (w1, run1, run, shape, lives) = tick_timers-run s ts v in
      let (fired, w2, run2, _, _, sooner, alive, _) =
        tick_not_due enough s.tw ts v.wheel few t held.0 d in
      let same : w1 ≡ w2 = (same_run (sym run1 ∙ run2)).1 in
      let stays : has t (gone s ts v) ≡ false =
        ground (arith, lives t, ap (λ w. w.links.live t) same, alive) in
      let out =
        not_called stays
          (λ u h. v.owned s.tw.cur_slot u (expired_from s.tw.rotation u (ts s.tw.cur_slot) h)) in
      let s1 = record s { tw = w1 } in
      let fds = map s.tw.user_data (gone s ts v) in
      (
        callbacks fds s1,
        _,
        run,
        shape,
        callbacks_other fds fd s1 out,
        ap (λ w. due w t + 1) (callbacks_wheel fds s1 ∙ same) ∙ sooner,
      )

-- A number of calls of tick, with nothing between them.
pub tick_times : ℕ → Server → Run Server
tick_times zero s = ok s
tick_times (suc n) s = tick_timers s >>= tick_times n

-- In a server whose timers and connections agree, when ticks follow one another with nothing between
-- them, a connection with a timer is left as it is by as many ticks as its timer is due in, and closed by
-- the one after them.
pub idle_closed :
    (n : ℕ) (s : Server) (ts : ℕ → List ℕ) (fd t : ℕ)
    → IsServer s ts
    → (s.users fd).timer ≡ some t
    → due s.tw t ≡ n
    → (s1 : Server) × (s2 : Server) × (tick_times n s ≡ ok s1)
      × (s1.users fd ≡ s.users fd)
      × (tick_timers s1 ≡ ok s2)
      × (is_closed (s2.users fd).m_sockfd ≡ true)
unfolding tick_times
idle_closed zero s ts fd t v mine d =
    let (s2, _, run, _, closed) = due_closed s ts v fd t mine d in (s, s2, refl, refl, run, closed)
idle_closed (suc n) s ts fd t v mine d =
    let (s1, ts1, run, v1, same, sooner) = not_due_kept s ts v fd t mine (omega (arith, d)) in
    let (s2, s3, runs, kept, last, closed) =
      idle_closed n s1 ts1 fd t v1 (ap (λ u. u.timer) same ∙ mine) (omega (arith, d, sooner)) in
    (s2, s3, rw run runs, kept ∙ same, last, closed)
