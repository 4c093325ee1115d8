-- ===== src/BlockQueue/Tests.antt =====
-- Runs of practice/log/blockQueue.h with one place and two threads: thread 0 inserts 7, thread 1 removes it.
use study_record.Common.{ℕ, ◌+◌, ◌≤◌, ◌<◌, ◌≡◌, true, [], ◌∷◌, ◌++◌, length, arith}
use study_record.BlockQueue.{
  store, load, System, call_insert, take_slot, lock_insert, put, unlock_insert, give_item,
  call_remove, take_item, lock_remove, get,
}
use study_record.BlockQueue.Invariant.{is_reserved, is_claimed}
use study_record.BlockQueue.Contents.{contents}
use study_record.BlockQueue.Order.{History, begin, go, indices_bounds, history_fifo, History-Reach}

abbrev inside : (s : System ℕ) × History 0 2 1 [] [] s
unfolding store load
inside = (
  _,
  go (go (go begin 0 (omega arith) (call_insert 7)) 0 (omega arith) (take_slot (omega arith))) 0
      (omega arith) (lock_insert (omega arith)),
)

abbrev stored : (s : System ℕ) × History 0 2 1 (7 ∷ []) [] s
unfolding store load
stored = (
  _,
  go (go (go inside.1 0 (omega arith) (put (omega arith))) 0 (omega arith) unlock_insert) 0
      (omega arith) give_item,
)

abbrev removed : (s : System ℕ) × History 0 2 1 (7 ∷ []) (7 ∷ []) s
unfolding store load
removed = (
  _,
  go
      (go (go (go stored.1 1 (omega arith) call_remove) 1 (omega arith) (take_item (omega arith))) 1
        (omega arith) (lock_remove (omega arith)))
      1 (omega arith) (get (omega arith)),
)

indices_bounds_example :
    (inside.0.queue.front ≤ inside.0.queue.rear)
    × (inside.0.queue.rear ≤ inside.0.queue.front + 1)
    × (is_reserved (inside.0.pc 0) ≡ true → inside.0.queue.rear < inside.0.queue.front + 1)
    × (is_claimed (inside.0.pc 0) ≡ true → inside.0.queue.front < inside.0.queue.rear)
indices_bounds_example = indices_bounds 0 2 1 0 (History-Reach 0 2 1 inside.1) (omega arith)

history_fifo_example :
    (7 ∷ [] ≡ (7 ∷ []) ++ contents 0 removed.0.queue) × (length (contents 0 removed.0.queue) ≤ 1)
history_fifo_example = history_fifo 0 2 1 removed.1
