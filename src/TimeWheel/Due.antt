-- ===== src/TimeWheel/Due.antt =====
-- When a timer of practice/timer/timeWheelTimer.h is called.
use study_record.Common.{
  ℕ, zero, suc, ◌+◌, ◌-◌, ◌*◌, ◌%◌, ◌≤◌, ◌<◌, ◌≡◌, ◌≢◌, ◌∙◌, refl, sym, ap, List, [], ◌∷◌, ◌++◌,
  map, length, none, true, false, ◌==◌, inl, inr, Bool-cases, ==_iff, arith,
}
use study_record.Common.Run.{Run, ok, ◌>>=◌}
use study_record.Common.Threads.{update, update_self, update_other, update-all}
use study_record.Common.Links.{has}
use study_record.Common.Links.Laws.{has-live, ==_sym}
use study_record.TimeWheel.{Wheel, n_slots, tick_loop, tick}
use study_record.TimeWheel.Invariant.{IsWheel, elsewhere}
use study_record.TimeWheel.Tick.{expired, surviving, Ticked, tick_loop-Ticked}

-- The ticks that pass before the one that calls the timer.
abbrev pub due : Wheel → ℕ → ℕ
due w t = w.rotation t * n_slots + (w.time_slot t + n_slots - w.cur_slot) % n_slots

-- A timer of the wheel.
abbrev pub Holds : (ℕ → List ℕ) → Wheel → ℕ → Type 0
Holds ts w t = has t (ts (w.time_slot t)) ≡ true

abbrev pub next_lists : (ℕ → List ℕ) → Wheel → ℕ → List ℕ
next_lists ts w = update ts w.cur_slot (surviving w.rotation (ts w.cur_slot))

pub has-expired :
    (r : ℕ → ℕ) (t : ℕ) (xs : List ℕ) → has t xs ≡ true → r t ≡ 0 → has t (expired r xs) ≡ true
has-expired r t [] h z = h
has-expired r t (x ∷ xs) h z = ground (arith, ==_iff t x, has-expired r t xs)

pub expired-has : (r : ℕ → ℕ) (t : ℕ) (xs : List ℕ) → 0 < r t → has t (expired r xs) ≡ false
expired-has r t [] h = refl
expired-has r t (x ∷ xs) h = ground (arith, ==_iff t x, expired-has r t xs)

pub has-surviving :
    (r : ℕ → ℕ) (t : ℕ) (xs : List ℕ) → has t xs ≡ true → 0 < r t → has t (surviving r xs) ≡ true
has-surviving r t [] h z = h
has-surviving r t (x ∷ xs) h z = ground (arith, ==_iff t x, has-surviving r t xs)

has-map : (f : ℕ → ℕ) (t : ℕ) (xs : List ℕ) → has t xs ≡ true → has (f t) (map f xs) ≡ true
has-map f t [] h = cc
has-map f t (x ∷ xs) h = ground (arith, ==_iff t x, has-map f t xs)

length-surviving : (r : ℕ → ℕ) (xs : List ℕ) → length (surviving r xs) ≤ length xs
length-surviving r [] = omega arith
length-surviving r (x ∷ xs) = ground (arith, length-surviving r xs)

pub expired_sub :
    (r : ℕ → ℕ) (t : ℕ) (xs : List ℕ) → has t xs ≡ false → has t (expired r xs) ≡ false
expired_sub r t [] h = refl
expired_sub r t (x ∷ xs) h = ground (arith, expired_sub r t xs)

module _ (fuel : ℕ) (w : Wheel) (ts : ℕ → List ℕ) (v : IsWheel w ts)
    (enough : length (ts w.cur_slot) < fuel) where
  -- On a wheel whose slots are linked lists, with fuel above the number of timers of the current
  -- slot, tick calls the timers of that slot that have no turns left, in their order, deletes these
  -- and no others, takes a turn from the others of the slot, keeps every slot linked and moves to
  -- the next slot.
  pub tick_lem :
      (w' : Wheel) × (tick fuel w
        ≡ ok (
          map w.user_data (expired w.rotation (ts w.cur_slot)),
          record w' { cur_slot = (w.cur_slot + 1) % n_slots },
        ))
      × IsWheel (record w' { cur_slot = (w.cur_slot + 1) % n_slots }) (next_lists ts w)
      × Ticked w w' ts w.cur_slot [] (ts w.cur_slot)
  unfolding tick
  tick_lem =
      let (w', run, T) = tick_loop-Ticked fuel w ts w.cur_slot [] (ts w.cur_slot) v refl enough in
      let started : tick_loop fuel (w.slots w.cur_slot) w
          ≡ ok (map w.user_data (expired w.rotation (ts w.cur_slot)), w') =
        ap (λ c. tick_loop fuel c w) (v.heads w.cur_slot) ∙ run in
      (
        w',
        rw started (
            ap
              (λ c. ok (
                map w.user_data (expired w.rotation (ts w.cur_slot)),
                record w' { cur_slot = (c + 1) % n_slots },
              ))
              T.cursor),
        record {
          heads = T.shape.heads;
          linked = T.shape.linked;
          distinct = T.shape.distinct;
          places = T.shape.places;
          range = T.shape.range;
          cursor = omega arith;
        },
        T,
      )

  module _ (t : ℕ) (mine : Holds ts w t) where
    live_t : w.links.live t ≡ true
    live_t = has-live w.links none (ts (w.time_slot t)) none t (v.linked (w.time_slot t)) mine

    place_lt : w.time_slot t < n_slots
    place_lt = v.range (w.time_slot t) t mine

    -- A timer that is due is called, and is gone.
    pub tick-due :
        due w t ≡ 0
        → (fired : List ℕ) × (w1 : Wheel) × (tick fuel w ≡ ok (fired, w1))
          × (has (w.user_data t) fired ≡ true)
          × (w1.links.live t ≡ false)
    tick-due d =
        let (w', run, _, T) = tick_lem in
        let here : w.time_slot t ≡ w.cur_slot = omega (arith, d, v.cursor, place_lt) in
        let mine' : has t (ts w.cur_slot) ≡ true = sym (ap (λ s. has t (ts s)) here) ∙ mine in
        let over : w.rotation t ≡ 0 = omega (arith, d) in
        let called = has-expired w.rotation t (ts w.cur_slot) mine' over in
        (
          map w.user_data (expired w.rotation (ts w.cur_slot)),
          record w' { cur_slot = (w.cur_slot + 1) % n_slots },
          run,
          has-map w.user_data t (expired w.rotation (ts w.cur_slot)) called,
          T.alive t ∙ rw (called, live_t) refl,
        )

    -- Any other stays, and is due a tick sooner.
    pub tick_not_due :
        0 < due w t
        → (fired : List ℕ) × (w1 : Wheel) × (tick fuel w ≡ ok (fired, w1))
          × IsWheel w1 (next_lists ts w)
          × Holds (next_lists ts w) w1 t
          × (due w1 t + 1 ≡ due w t)
          × (w1.links.live t ≡ true)
          × (w1.user_data ≡ w.user_data)
    tick_not_due d =
        let (w', run, v', T) = tick_lem in
        let w1 = record w' { cur_slot = (w.cur_slot + 1) % n_slots } in
        let place : w'.time_slot t ≡ w.time_slot t = ap (λ f. f t) T.places in
        let (stays, later, alive) =
          elim (Bool-cases (w.cur_slot == w.time_slot t))
            as (λ _.
              (has t (next_lists ts w (w.time_slot t)) ≡ true)
              × (due w1 t + 1 ≡ due w t)
              × (w1.links.live t ≡ true)) [
                | inl e ↦
                    let here : w.cur_slot ≡ w.time_slot t = ground arith in
                    let mine' : has t (ts w.cur_slot) ≡ true = ap (λ s. has t (ts s)) here ∙ mine in
                    let more : 0 < w.rotation t = omega (arith, d, here) in
                    (
                      rw (sym here) (
                          rw (update_self ts w.cur_slot (surviving w.rotation (ts w.cur_slot)))
                            (has-surviving w.rotation t (ts w.cur_slot) mine' more)),
                      omega (arith, T.turned t mine', place, here, v.cursor, more),
                      T.alive t ∙ rw (live_t, expired-has w.rotation t (ts w.cur_slot) more) refl,
                    )
                | inr e ↦
                    let out : has t (ts w.cur_slot) ≡ false =
                      elsewhere v (w.time_slot t) w.cur_slot t mine
                        (==_sym w.cur_slot (w.time_slot t) e) in
                    let away : w.cur_slot ≢ w.time_slot t = ground arith in
                    (
                      ap (has t) (
                            update_other ts w.cur_slot (w.time_slot t)
                              (surviving w.rotation (ts w.cur_slot)) e)
                          ∙ mine,
                      omega (arith, T.others t out, place, v.cursor, place_lt, away),
                      T.alive t ∙ rw (live_t, expired_sub w.rotation t (ts w.cur_slot) out) refl,
                    )
              ] in
        (
          map w.user_data (expired w.rotation (ts w.cur_slot)),
          w1,
          run,
          v',
          ap (λ s. has t (next_lists ts w s)) place ∙ stays,
          later,
          alive,
          T.data_kept,
        )

-- A number of calls of tick, with the connections that they call in order.
pub ticks : ℕ → ℕ → Wheel → Run (List ℕ × Wheel)
ticks zero fuel w = ok ([], w)
ticks (suc n) fuel w =
    tick fuel w >>= λ (fired, w1). ticks n fuel w1 >>= λ (more, w2). ok (fired ++ more, w2)

-- A timer of a wheel whose slots have fewer timers than the fuel is called and deleted by the
-- tick that comes after as many ticks as its turns and its slot say, and is in memory until then.
pub ticks_call :
    (n fuel : ℕ) (w : Wheel) (ts : ℕ → List ℕ) (t : ℕ)
    → IsWheel w ts
    → ((s : ℕ) → length (ts s) < fuel)
    → Holds ts w t
    → due w t ≡ n
    → (fired fired' : List ℕ) × (w1 : Wheel) × (w2 : Wheel) × (ticks n fuel w ≡ ok (fired, w1))
      × (w1.links.live t ≡ true)
      × (tick fuel w1 ≡ ok (fired', w2))
      × (has (w.user_data t) fired' ≡ true)
      × (w2.links.live t ≡ false)
unfolding ticks
ticks_call zero fuel w ts t v enough mine d =
    let (fired', w2, run, called, gone) = tick-due fuel w ts v (enough w.cur_slot) t mine d in
    ([], fired', w, w2, refl, live_t fuel w ts v (enough w.cur_slot) t mine, run, called, gone)
ticks_call (suc n) fuel w ts t v enough mine d =
    let (fired, w1, run, v1, mine1, sooner, _, data_kept) =
      tick_not_due fuel w ts v (enough w.cur_slot) t mine (omega (arith, d)) in
    let enough1 =
      update-all (λ s xs. length xs < fuel) ts w.cur_slot (surviving w.rotation (ts w.cur_slot))
        (omega (arith, enough w.cur_slot, length-surviving w.rotation (ts w.cur_slot)))
        (λ s _. enough s) in
    let (more, fired', w2, w3, runs, alive, last_run, called, gone) =
      ticks_call n fuel w1 (next_lists ts w) t v1 enough1 mine1 (omega (arith, d, sooner)) in
    (
      fired ++ more,
      fired',
      w2,
      w3,
      rw (run, runs) refl,
      alive,
      last_run,
      sym (ap (λ f. has (f t) fired') data_kept) ∙ called,
      gone,
    )
