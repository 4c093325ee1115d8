-- ===== src/Logger/Tests.antt =====
-- Runs of practice/log/logger.cpp.
use study_record.Common.{ℕ, zero, suc, ◌<◌, ◌≡◌, refl, [], ◌∷◌, ◌++◌, true, ◌==◌, arith}
use study_record.Logger.{
  init, System, Reach, start, later, caller, writer, begin_add, add_async, stop, go_on, leave,
  remove, write_log, ended,
}
use study_record.Logger.Laws.{count_where, held}
use study_record.Logger.Order.{messages_in_order, messages_swapped}
use study_record.Logger.Stop.{Steps, none_yet, then_step, messages_written}

-- The message 7 has been taken in, and the only writer holds it.
abbrev one_held : (s : System ℕ) × Reach true 1 300 s
unfolding init
one_held = (
  _,
  later
      (later
        (later (later start (caller (begin_add 7 refl)))
          (caller (add_async 7 [] [] refl refl (omega arith))))
        (writer 0 (omega arith) (go_on refl)))
      (writer 0 (omega arith) (remove refl)),
)

-- The logger has been stopped, and then the writer ends.
abbrev stopped_held : (s : System ℕ) × Reach true 1 300 s
unfolding one_held
stopped_held = (_, later one_held.1 (caller stop))

abbrev ending : (s' : System ℕ) × Steps stopped_held.0 s'
unfolding stopped_held one_held init
ending = (
  _,
  then_step (then_step none_yet (writer 0 (omega arith) write_log))
      (writer 0 (omega arith) (leave refl)),
)

all_ended : (i : ℕ) → i < 1 → ending.0.pc i ≡ ended
unfolding ending stopped_held one_held init
all_ended zero h = refl
all_ended (suc i) h = absurd (omega arith)

messages_written_example :
    (ending.0.logger.block_queue ≡ [])
    × (count_where (λ x. x == 7) ending.0.logger.added
        ≡ count_where (λ x. x == 7) ending.0.logger.ofs)
unfolding ending stopped_held one_held init
messages_written_example =
    messages_written (λ x. x == 7) 0 stopped_held.1 refl refl (omega arith) (λ e. cc) ending.1
      all_ended

messages_in_order_example :
    one_held.0.logger.added
    ≡ (one_held.0.logger.ofs ++ held (one_held.0.pc 0)) ++ one_held.0.logger.block_queue
messages_in_order_example = messages_in_order one_held.1

messages_swapped_example :
    (s : System ℕ) × Reach true 3 300 s
    × (s.logger.added ≡ 1 ∷ 2 ∷ [])
    × (s.logger.ofs ≡ 2 ∷ 1 ∷ [])
messages_swapped_example = messages_swapped 3 300 1 2 (omega arith) (omega arith)
