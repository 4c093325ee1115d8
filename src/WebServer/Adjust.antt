-- ===== src/WebServer/Adjust.antt =====
-- timer_update of practice/web_server/webServer.cpp on the connections and the wheel.
use study_record.Common.{
  ℕ, ◌*◌, ◌≡◌, ◌∙◌, refl, ap, List, [], ◌∷◌, true, ◌==◌, ==_iff, inl, inr, Bool-cases, arith,
}
use study_record.Common.Run.{ok}
use study_record.Common.Threads.{update, update_self, update-all}
use study_record.Common.Links.{has}
use study_record.TimeWheel.{Wheel}
use study_record.TimeWheel.Invariant.{IsWheel}
use study_record.TimeWheel.Due.{Holds}
use study_record.TimeWheel.Set.{adjust_timer_lem}
use study_record.WebServer.{Server, time_slot, timer_update}
use study_record.WebServer.Invariant.{Somewhere, IsServer}
use study_record.WebServer.Close.{
  IsPending-wheel, rest, rest-back, rest-kept, in_bounds, timer_held, timer_cases,
}

-- The timer put in front of another slot.
abbrev moved :
    (w : Wheel) (ts : ℕ → List ℕ) (v : IsWheel w ts) (t : ℕ) → Holds ts w t → ℕ → ℕ → List ℕ
moved w ts v t mine slot = let r = rest w ts v t mine in update r slot (t ∷ r slot)

module _ (s : Server) (ts : ℕ → List ℕ) (fd : ℕ) (v : IsServer s ts)
    (known : s.initialised fd ≡ true) where
  -- A connection that is read or written has its timer adjusted, if it has one.
  pub timer_update_lem :
      (w' : Wheel) × (ts' : ℕ → List ℕ) × (timer_update fd s ≡ ok (record s { tw = w' }))
      × IsServer (record s { tw = w' }) ts'
  unfolding timer_update
  timer_update_lem = elim (timer_cases (s.users fd).timer) [
    | inl e ↦ (s.tw, ts, rw (in_bounds s ts fd v known, e) refl, v)
    | inr (t, e) ↦
        let (mine, owner) = timer_held s ts fd v known t e in
        let (slot, w', run, shape, _, _, data_same) =
          adjust_timer_lem s.tw ts v.wheel t mine (3 * time_slot) in
        (
          w',
          moved s.tw ts v.wheel t mine slot,
          rw (in_bounds s ts fd v known, e, run) refl,
          IsPending-wheel s ts (moved s.tw ts v.wheel t mine slot) [] w' v shape data_same refl
              (λ n u h. (moved_back t mine slot n u h, refl))
              (λ n u h d. moved_kept t mine slot n u h) (λ u h. cc),
        )
  ]
    where
      moved_back :
          (t : ℕ) (mine : Holds ts s.tw t) (slot n u : ℕ)
          → has u (moved s.tw ts v.wheel t mine slot n) ≡ true
          → Somewhere ts u
      moved_back t mine slot n u =
          let r = rest s.tw ts v.wheel t mine in
          update-all (λ i xs. has u xs ≡ true → Somewhere ts u) r slot (t ∷ r slot)
            (λ h. elim (Bool-cases (u == t)) [
              | inl e ↦ (
                s.tw.time_slot t,
                ap (λ k. has k (ts (s.tw.time_slot t))) (ground (arith, ==_iff u t)) ∙ mine,
              )
              | inr d ↦ (slot, (rest-back s.tw ts v.wheel t mine slot u (ground arith)).0)
            ])
            (λ i d h. (i, (rest-back s.tw ts v.wheel t mine i u h).0)) n

      moved_kept :
          (t : ℕ) (mine : Holds ts s.tw t) (slot n u : ℕ)
          → has u (ts n) ≡ true
          → Somewhere (moved s.tw ts v.wheel t mine slot) u
      moved_kept t mine slot n u h =
          let r = rest s.tw ts v.wheel t mine in
          elim (Bool-cases (u == t)) [
            | inl e ↦ (slot, ap (has u) (update_self r slot (t ∷ r slot)) ∙ ground arith)
            | inr d ↦ (
              n,
              update-all (λ i xs. has u (r i) ≡ true → has u xs ≡ true) r slot (t ∷ r slot)
                  (λ g. ground arith) (λ i d' g. g) n (rest-kept s.tw ts v.wheel t mine n u h d),
            )
          ]
