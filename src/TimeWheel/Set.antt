-- ===== src/TimeWheel/Set.antt =====
-- add_timer, del_timer and adjust_timer of practice/timer/timeWheelTimer.h on the lists of the slots.
use study_record.Common.{
  ℕ, ◌+◌, ◌-◌, ◌*◌, ◌/◌, ◌%◌, ◌<◌, ◌≡◌, ◌∙◌, refl, ap, List, ◌∷◌, none, some, true, false, ◌==◌,
  leb, if◌then◌else◌, arith,
}
use study_record.Common.Run.{ok}
use study_record.Common.Int.{pos}
use study_record.Common.Threads.{update, update_self, update_other}
use study_record.Common.Links.{new_node, link_next, link_prev, free_node, has, without}
use study_record.Common.Links.Laws.{has-live, ==_sym}
use study_record.TimeWheel.{Wheel, n_slots, ticks_of, add_timer, del_timer, adjust_timer}
use study_record.TimeWheel.Invariant.{
  IsWheel, push_front-IsWheel, IsWheel-free_node, IsWheel-new_node, IsWheel-alone, without-IsFree,
  not_live-IsFree,
}
use study_record.TimeWheel.Remove.{del_timer_sup-IsWheel}
use study_record.TimeWheel.Due.{due, Holds}

later_due :
    (r p cur k r' p' : ℕ)
    → r' ≡ r + k / n_slots
    → p' ≡ (p + k % n_slots) % n_slots
    → p < n_slots
    → cur < n_slots
    → r' * n_slots
        + (p' + n_slots - cur) % n_slots
        + (if leb n_slots ((p + n_slots - cur) % n_slots + k % n_slots) then n_slots else 0)
      ≡ r * n_slots + (p + n_slots - cur) % n_slots + k
later_due r p cur k r' p' e f h g = ground arith

module _ (w : Wheel) (ts : ℕ → List ℕ) (v : IsWheel w ts) where
  -- A new timer is put first in the slot that its time names, is due after that many ticks,
  -- and no other timer's due time changes, nor any connection that a timer calls.
  pub add_timer_lem :
      (t timeout : ℕ)
      → w.links.live t ≡ false
      → (slot : ℕ) × (w' : Wheel) × (add_timer t (pos timeout) w ≡ ok (some t, w'))
        × IsWheel w' (update ts slot (t ∷ ts slot))
        × Holds (update ts slot (t ∷ ts slot)) w' t
        × (due w' t ≡ ticks_of timeout)
        × ((u : ℕ) → (u == t) ≡ false → due w' u ≡ due w u)
        × (w'.user_data ≡ w.user_data)
  unfolding add_timer
  add_timer_lem t timeout dead =
      let ticks = ticks_of timeout in
      let slot = (w.cur_slot + ticks % n_slots) % n_slots in
      let free = not_live-IsFree v t dead in
      let w0 = record w { links = new_node t w.links } in
      let r = update w.rotation t (ticks / n_slots) in
      let p = update w.time_slot t slot in
      let (slots', links', run, shape, lives) =
        push_front-IsWheel w0 ts (IsWheel-new_node w ts t v free) slot t (omega arith) free
          (update_self w.links.live t true) (update_self w.links.next t none)
          (update_self w.links.prev t none) p (update_self w.time_slot t slot)
          (λ u d. update_other w.time_slot t u slot (==_sym u t d)) in
      let w' = record w { slots = slots'; links = links'; rotation = r; time_slot = p } in
      let turns : w'.rotation t ≡ ticks / n_slots = update_self w.rotation t (ticks / n_slots) in
      let place : w'.time_slot t ≡ slot = update_self w.time_slot t slot in
      (
        slot,
        w',
        rw (run r p) refl,
        shape r,
        ap (λ s. has t (update ts slot (t ∷ ts slot) s)) place
            ∙ ap (has t) (update_self ts slot (t ∷ ts slot))
            ∙ ground arith,
        omega (arith, turns, place, v.cursor),
        λ u d. other_due u d slot,
        refl,
      )
    where
      other_due :
          (u : ℕ)
          → (u == t) ≡ false
          → (slot : ℕ)
          → update w.rotation t (ticks_of timeout / n_slots) u * n_slots
              + (update w.time_slot t slot u + n_slots - w.cur_slot) % n_slots
            ≡ due w u
      other_due u d slot = rw (==_sym u t d) refl

  module _ (t : ℕ) (mine : Holds ts w t) where
    abbrev rest : ℕ → List ℕ
    rest = update ts (w.time_slot t) (without t (ts (w.time_slot t)))

    -- A timer that is deleted leaves its slot and its memory, and the others stay, with the
    -- connections that they call.
    pub del_timer_lem :
        (w' : Wheel) × (del_timer (some t) w ≡ ok w')
        × IsWheel w' (update ts (w.time_slot t) (without t (ts (w.time_slot t))))
        × (w'.links.live t ≡ false)
        × ((u : ℕ) → due w' u ≡ due w u)
        × (w'.user_data ≡ w.user_data)
    unfolding del_timer
    del_timer_lem =
        let (slots', links', run, v1, _) = del_timer_sup-IsWheel w ts v (w.time_slot t) t mine in
        let w1 = record w { slots = slots'; links = links' } in
        (
          record w { slots = slots'; links = free_node t links' },
          rw run refl,
          IsWheel-free_node w1 rest t v1 (without-IsFree v (w.time_slot t) t mine),
          update_self links'.live t false,
          λ u. refl,
          refl,
        )

    -- On a wheel whose slots are linked lists, a timer of the wheel that is adjusted with a time that
    -- is not negative is due later by the ticks of that time, less a whole turn of the wheel if its
    -- slot passes the current one; the slots stay linked and no timer's connection changes.
    pub adjust_timer_lem :
        (timeout : ℕ)
        → (slot : ℕ) × (w' : Wheel) × (adjust_timer t (pos timeout) w ≡ ok w')
          × IsWheel w' (update rest slot (t ∷ rest slot))
          × Holds (update rest slot (t ∷ rest slot)) w' t
          × (due w' t
                + (if leb n_slots (
                      (w.time_slot t + n_slots - w.cur_slot) % n_slots + ticks_of timeout % n_slots)
                    then n_slots
                    else 0)
              ≡ due w t + ticks_of timeout)
          × (w'.user_data ≡ w.user_data)
    unfolding adjust_timer
    adjust_timer_lem timeout =
        let ticks = ticks_of timeout in
        let slot = (w.time_slot t + ticks % n_slots) % n_slots in
        let live_t =
          has-live w.links none (ts (w.time_slot t)) none t (v.linked (w.time_slot t)) mine in
        let (slots1, links1, run1, v1, lives1) =
          del_timer_sup-IsWheel w ts v (w.time_slot t) t mine in
        let free = without-IsFree v (w.time_slot t) t mine in
        let w1 = record w { slots = slots1; links = links1 } in
        let alone = link_next t none (link_prev t none links1) in
        let r = update w.rotation t (w.rotation t + ticks / n_slots) in
        let p = update w.time_slot t slot in
        let (slots', links', run, shape, _) =
          push_front-IsWheel (record w1 { links = alone }) rest (IsWheel-alone w1 rest t v1 free)
            slot t (omega arith) free (lives1 t ∙ live_t) (update_self links1.next t none)
            (update_self links1.prev t none) p (update_self w.time_slot t slot)
            (λ u d. update_other w.time_slot t u slot (==_sym u t d)) in
        let w' = record w { slots = slots'; links = links'; rotation = r; time_slot = p } in
        let turns : w'.rotation t ≡ w.rotation t + ticks / n_slots =
          update_self w.rotation t (w.rotation t + ticks / n_slots) in
        let place : w'.time_slot t ≡ slot = update_self w.time_slot t slot in
        let place_lt = v.range (w.time_slot t) t mine in
        (
          slot,
          w',
          rw (live_t, run1, run w.rotation w.time_slot) refl,
          shape r,
          ap (λ s. has t (update rest slot (t ∷ rest slot) s)) place
              ∙ ap (has t) (update_self rest slot (t ∷ rest slot))
              ∙ ground arith,
          later_due (w.rotation t) (w.time_slot t) w.cur_slot ticks (w'.rotation t) (w'.time_slot t)
              turns place place_lt v.cursor,
          refl,
        )
