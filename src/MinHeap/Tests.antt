-- ===== src/MinHeap/Tests.antt =====
-- Runs of mine/practice/minHeapTimer.h.
use study_record.Common.{
  ℕ, ◌+◌, ◌-◌, ◌<◌, ◌≡◌, refl, Option, none, some, Bool, false, if◌then◌else◌, arith,
}
use study_record.Common.Run.{ok, fault}
use study_record.Common.Threads.{update, count_if, count_if_le}
use study_record.MinHeap.{TimeHeap, create, add_timer, create_from, percolate_up, tick}
use study_record.MinHeap.Tick.{Ticked, tick_fires_due}
use study_record.MinHeap.Pop.{is_timer, IsOnce}
use study_record.MinHeap.Up.{IsHeap}
use study_record.MinHeap.Add.{add_timer_lem}
use study_record.MinHeap.Build.{create_from-IsHeap}

-- A full array of the timer 7, of the time 7.
abbrev one_timer : TimeHeap
one_timer = record (create 1) {
  array = update (λ i. none) 0 (some 7);
  cur_size = 1;
  absolute_expire = λ t. t;
}

one_timer-IsHeap : IsHeap one_timer
one_timer-IsHeap = record {
  full = only;
  fits = omega arith;
  ordered = λ i lt. absurd (omega (arith, lt));
}
  where
    only : (i : ℕ) → i < 1 → (t : ℕ) × (one_timer.array i ≡ some t) × (one_timer.deleted t ≡ false)
    only i lt = let e : i ≡ 0 = omega arith in (7, rw e refl, refl)

one_timer-IsOnce : IsOnce one_timer
one_timer-IsOnce t = count_if_le (is_timer t) 1 one_timer.array

add_timer_lem_example :
    (a : ℕ → Option ℕ) × (add_timer 5 (some 3) one_timer
      ≡ ok (record one_timer { array = a; capacity = 2; cur_size = 2 }))
    × IsHeap (record one_timer { array = a; capacity = 2; cur_size = 2 })
    × ((t : Option ℕ → Bool)
        → count_if t 2 a ≡ count_if t 1 one_timer.array + (if t (some 3) then 1 else 0))
add_timer_lem_example =
    add_timer_lem 5 3 one_timer one_timer-IsHeap (omega arith) (omega arith) refl

no_capacity_run : add_timer 5 (some 3) (create 0) ≡ fault
unfolding add_timer percolate_up
no_capacity_run = refl

tick_fires_due_example : Ticked one_timer 9 0 (tick 2 9 one_timer)
tick_fires_due_example =
    tick_fires_due 2 9 one_timer one_timer-IsHeap one_timer-IsOnce (omega arith) (omega arith)

create_from-IsHeap_example :
    (a : ℕ → Option ℕ) × (create_from 4 (λ i. some (9 - i)) 3 3 one_timer
      ≡ ok (record one_timer { array = a; capacity = 3; cur_size = 3; deleted = λ t. false }))
    × IsHeap (record one_timer { array = a; capacity = 3; cur_size = 3; deleted = λ t. false })
    × ((t : Option ℕ → Bool) → count_if t 3 a ≡ count_if t 3 (λ i. some (9 - i)))
create_from-IsHeap_example =
    create_from-IsHeap 4 (λ i. some (9 - i)) 3 3 one_timer (omega arith) (omega arith)
      (λ i lt. (9 - i, refl))
