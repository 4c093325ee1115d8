-- ===== src/TimeWheel/Tests.antt =====
-- Runs of practice/timer/timeWheelTimer.h.
use study_record.Common.{
  ℕ, ◌+◌, ◌-◌, ◌%◌, ◌<◌, ◌≡◌, ◌||◌, refl, List, [], ◌∷◌, length, none, some, true, false, ◌==◌, leb,
  if◌then◌else◌, arith,
}
use study_record.Common.Run.{ok}
use study_record.Common.Int.{pos}
use study_record.Common.Threads.{update, update-all}
use study_record.Common.Links.{has, without, first, is_distinct, Seg}
use study_record.TimeWheel.{Wheel, n_slots, ticks_of, adjust_timer, tick}
use study_record.TimeWheel.Invariant.{IsWheel}
use study_record.TimeWheel.Due.{due, Holds, ticks, ticks_call}
use study_record.TimeWheel.Set.{adjust_timer_lem}

-- Two timers in the slot 3, of which the second has a whole turn to go.
abbrev two_timers : Wheel
two_timers = record {
  slots = update (λ s. none) 3 (some 7);
  cur_slot = 3;
  links = record {
    next = update (λ t. none) 7 (some 8);
    prev = update (λ t. none) 8 (some 7);
    live = λ t. t == 7 || t == 8;
  };
  rotation = λ t. t - 7;
  time_slot = λ t. 3;
  user_data = λ t. t + 100;
}

abbrev two_lists : ℕ → List ℕ
two_lists = update (λ s. []) 3 (7 ∷ 8 ∷ [])

two_timers-IsWheel : IsWheel two_timers two_lists
two_timers-IsWheel = record {
  heads =
      update-all (λ s xs. two_timers.slots s ≡ first xs none) (λ s. []) 3 (7 ∷ 8 ∷ []) refl
        (λ s d. ground arith);
  linked =
      update-all (λ s xs. Seg two_timers.links none xs none) (λ s. []) 3 (7 ∷ 8 ∷ [])
        (refl, refl, refl, (refl, refl, refl, tt)) (λ s d. tt);
  distinct = update-all (λ s xs. is_distinct xs ≡ true) (λ s. []) 3 (7 ∷ 8 ∷ []) refl (λ s d. refl);
  places =
      update-all (λ s xs. (t : ℕ) → has t xs ≡ true → ◌≡◌ {A = ℕ} 3 s) (λ s. []) 3 (7 ∷ 8 ∷ [])
        (λ t h. refl) (λ s d t h. cc);
  range =
      update-all (λ s xs. (t : ℕ) → has t xs ≡ true → s < n_slots) (λ s. []) 3 (7 ∷ 8 ∷ [])
        (λ t h. omega arith) (λ s d t h. cc);
  cursor = omega arith;
}

abbrev rest_lists : ℕ → List ℕ
rest_lists = update two_lists 3 (without 7 (two_lists 3))

adjust_timer_lem_example :
    (slot : ℕ) × (w' : Wheel) × (adjust_timer 7 (pos 3) two_timers ≡ ok w')
    × IsWheel w' (update rest_lists slot (7 ∷ rest_lists slot))
    × Holds (update rest_lists slot (7 ∷ rest_lists slot)) w' 7
    × (due w' 7
          + (if leb n_slots (
                (two_timers.time_slot 7 + n_slots - two_timers.cur_slot) % n_slots
                + ticks_of 3 % n_slots)
              then n_slots
              else 0)
        ≡ due two_timers 7 + ticks_of 3)
    × (w'.user_data ≡ two_timers.user_data)
adjust_timer_lem_example = adjust_timer_lem two_timers two_lists two_timers-IsWheel 7 refl 3

ticks_call_example :
    (fired fired' : List ℕ) × (w1 : Wheel) × (w2 : Wheel) × (ticks 60 3 two_timers ≡ ok (fired, w1))
    × (w1.links.live 8 ≡ true)
    × (tick 3 w1 ≡ ok (fired', w2))
    × (has 108 fired' ≡ true)
    × (w2.links.live 8 ≡ false)
ticks_call_example =
    ticks_call 60 3 two_timers two_lists 8 two_timers-IsWheel
      (update-all (λ s xs. length xs < 3) (λ s. []) 3 (7 ∷ 8 ∷ []) (omega arith)
        (λ s d. omega arith))
      refl refl
