-- ===== src/TimerList/Tests.antt =====
-- Runs of practice/timer/ascendSortedTimerList.h.
use study_record.Common.{ℕ, ◌≡◌, ◌||◌, refl, List, [], ◌∷◌, none, some, ◌==◌, arith}
use study_record.Common.Threads.{update}
use study_record.TimerList.{TimerList, tick}
use study_record.TimerList.Invariant.{IsTimerList, insert}
use study_record.TimerList.Place.{Added}
use study_record.TimerList.Add.{add_timer-insert}
use study_record.TimerList.Tick.{Ticked, tick-come}

-- The timers 1, 2 and 3 at the times 10, 20 and 30, and the timer 4 of the time 25 that is not linked.
abbrev three_timers : TimerList
three_timers = record {
  head = some 1;
  tail = some 3;
  links = record {
    next = update (update (λ t. none) 1 (some 2)) 2 (some 3);
    prev = update (update (λ t. none) 2 (some 1)) 3 (some 2);
    live = λ t. t == 1 || t == 2 || t == 3 || t == 4;
  };
  absolute_expire = update (update (update (update (λ t. 0) 1 10) 2 20) 3 30) 4 25;
  user_data = λ t. t;
}

abbrev one_two_three : List ℕ
one_two_three = 1 ∷ 2 ∷ 3 ∷ []

three_timers-IsTimerList : IsTimerList three_timers one_two_three
three_timers-IsTimerList = record {
  front = refl;
  back = refl;
  linked = (refl, refl, refl, (refl, refl, refl, (refl, refl, refl, tt)));
  distinct = refl;
}

insert_four : insert three_timers.absolute_expire 4 one_two_three ≡ 1 ∷ 2 ∷ 4 ∷ 3 ∷ []
insert_four = refl

add_timer-insert_example : Added 5 three_timers 4 one_two_three
add_timer-insert_example =
    add_timer-insert 5 three_timers 4 one_two_three three_timers-IsTimerList refl refl refl refl
      (omega arith)

-- The timer 1, with the new time 35.
abbrev first_late : TimerList
first_late = record three_timers { absolute_expire = update three_timers.absolute_expire 1 35 }

first_late-IsTimerList : IsTimerList first_late one_two_three
first_late-IsTimerList = record {
  front = refl;
  back = refl;
  linked = (refl, refl, refl, (refl, refl, refl, (refl, refl, refl, tt)));
  distinct = refl;
}

tick-come_example : Ticked three_timers 20 one_two_three (tick 5 20 three_timers)
tick-come_example =
    tick-come 5 20 three_timers one_two_three three_timers-IsTimerList refl (omega arith)
