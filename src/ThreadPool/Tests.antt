-- ===== src/ThreadPool/Tests.antt =====
-- Runs of practice/threadpool/threadPool.h: worker 0 takes what thread 1 appends.
use study_record.Common.{ℕ, ◌<◌, ◌≡◌, ◌⊎◌, refl, true, [], ◌∷◌, arith}
use study_record.ThreadPool.{
  System, call_append, lock_append, not_full, push, unlock_append, post, go_on, wait, lock_run,
  not_empty, pop,
}
use study_record.ThreadPool.Invariant.{is_pushed, is_claimed}
use study_record.ThreadPool.Order.{History, begin, go, History-Reach, no_lost_request}

abbrev appended : (s : System) × History 2 1 5 (9 ∷ []) [] s
appended = (
  _,
  go
      (go
        (go
          (go
            (go (go begin 1 (omega arith) (call_append 9)) 1 (omega arith)
              (lock_append (omega arith)))
            1 (omega arith) (not_full (omega arith)))
          1 (omega arith) push)
        1 (omega arith) unlock_append)
      1 (omega arith) post,
)

abbrev taking : (s : System) × History 2 1 5 (9 ∷ []) [] s
taking = (
  _,
  go (go (go appended.1 0 (omega arith) (go_on refl)) 0 (omega arith) (wait (omega arith))) 0
      (omega arith) (lock_run (omega arith)),
)

abbrev popped : (s : System) × History 2 1 5 (9 ∷ []) (9 ∷ []) s
popped = (_, go (go taking.1 0 (omega arith) (not_empty (omega arith))) 0 (omega arith) (pop refl))

no_lost_request_example :
    (0 < taking.0.pool.m_queuestat)
    ⊎ ((i : ℕ) × (i < 2)
        × ((is_pushed (taking.0.pc i) ≡ true) ⊎ (is_claimed (taking.0.pc i) ≡ true)))
no_lost_request_example = no_lost_request 2 1 5 (History-Reach 2 1 5 taking.1) (omega arith)
