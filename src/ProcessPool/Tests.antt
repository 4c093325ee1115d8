-- ===== src/ProcessPool/Tests.antt =====
-- Runs of mine/practice/processPool.h.
use study_record.Common.{
  ℕ, ◌+◌, ◌%◌, ◌<◌, ◌≡◌, refl, List, [], ◌∷◌, ◌++◌, true, ◌==◌, replicate, inl, inr, Bool-cases,
  arith,
}
use study_record.Common.Int.{pos, negsuc}
use study_record.Common.Run.{ok, out_of_fuel, Partial}
use study_record.Common.Threads.{update}
use study_record.ProcessPool.{
  Pool, Process, Forked, forked, fork_one, fork_loop, create, empty_pool, addfd, close, send, emit,
  setup_sig_pipe, parent_end, Event, Wait, events, data_read, sigchld, sigterm,
}
use study_record.ProcessPool
use study_record.ProcessPool.Fork.{IsCreated, create-IsCreated}
use study_record.ProcessPool.Parent.{
  Parent, go_on, deal_listen, deal_events, deal_sigchld, run_parent, waiting,
}
use study_record.ProcessPool.Parent.Allocate.{IsNextChild, deal_listen_next}
use study_record.ProcessPool.Parent.Signals.{is_reaped}
use study_record.ProcessPool.Parent.LastChild.{last_child_hangs}
use study_record.ProcessPool.Parent.Turns.{requests, run_parent_turns}
use study_record.ProcessPool.Child.{child_loop, deal_event, deal_pipe}
use study_record.ProcessPool.Child
use study_record.ProcessPool.Child.Pipe.{ClosedAtEnd, closed_twice}

abbrev two_forks : List Forked
two_forks = forked 10 11 (pos 100) ∷ forked 12 13 (pos 101) ∷ []

-- The parent of the children 100 and 101, whose pipes have the ends 10 and 12.
abbrev two_children : Pool
two_children = record (empty_pool 3 2) {
  m_sub_process =
      update
        (update (λ i. record { m_pid = negsuc 0; m_pipefd = λ e. 0 }) 0
          (record { m_pid = pos 100; m_pipefd = ProcessPool.ends 10 11 }))
        1 (record { m_pid = pos 101; m_pipefd = ProcessPool.ends 12 13 });
  calls = close 11 ∷ close 13 ∷ [];
}

two_children_run : create 3 2 two_forks ≡ ok two_children
unfolding create fork_loop fork_one
two_children_run = refl

create-IsCreated_example : Partial (IsCreated 3 2) (create 3 2 two_forks)
create-IsCreated_example = create-IsCreated 3 2 two_forks (omega arith)

abbrev listen_event : Event
listen_event = record {
  sockfd = 3;
  epollin = true;
  signals = [];
  received = data_read;
  accepted = negsuc 0;
}

run_parent_turns_example :
    run_parent 1 20 21 22 (replicate 5 (events (listen_event ∷ []))) two_children
    ≡ ok (
        waiting (record {
          pool = record (setup_sig_pipe 20 21 22 two_children) {
            calls =
                ((two_children.calls ++ addfd 21 ∷ []) ++ addfd 3 ∷ [])
                ++ requests two_children 5 0;
          };
          sub_process_counter = 5 % 2;
        }))
run_parent_turns_example =
    run_parent_turns 0 3 2 20 21 22 5 two_forks listen_event two_children (omega arith)
      two_children_run refl refl

-- The first child has ended.
abbrev second_child : Parent
second_child = record {
  pool =
      ProcessPool.set_process 0 (record { m_pid = negsuc 0; m_pipefd = ProcessPool.ends 10 11 })
        two_children;
  sub_process_counter = 0;
}

deal_listen_next_example :
    (r : ℕ) × IsNextChild second_child.pool 0 r
    × (deal_listen 2 second_child
        ≡ ok (
            go_on (record {
              pool =
                  emit
                    (send ((second_child.pool.m_sub_process r).m_pipefd parent_end))
                    second_child.pool;
              sub_process_counter = (0 + 1) % 2;
            })))
deal_listen_next_example =
    deal_listen_next 2 1 second_child (omega arith) (omega arith) refl (omega arith)

abbrev signal_event : Event
signal_event = record listen_event {
  sockfd = 21;
  signals = record { sig = sigchld; reaped = 100 ∷ 101 ∷ [] } ∷ [];
}

abbrev served : Parent
served = record { pool = setup_sig_pipe 20 21 22 two_children; sub_process_counter = 1 }

last_child_hangs_example :
    ((deal_sigchld (100 ∷ 101 ∷ []) served.pool).m_stop ≡ true)
    × (deal_events 9 (signal_event ∷ listen_event ∷ []) served ≡ out_of_fuel)
last_child_hangs_example =
    last_child_hangs 9 signal_event listen_event [] served (100 ∷ 101 ∷ []) (omega arith)
      (λ i lt here. both_reaped i lt) refl refl refl refl
  where
    both_reaped :
        (i : ℕ) → i < 2 → is_reaped (100 ∷ 101 ∷ []) (served.pool.m_sub_process i).m_pid ≡ true
    both_reaped i lt = elim (Bool-cases (i == 0)) [
      | inl e ↦ let f : i ≡ 0 = ground arith in rw f refl
      | inr e ↦ let f : i ≡ 1 = ground (arith, e) in rw f refl
    ]

-- The parent's end of the pipe 13 has been closed, and the child is told to end.
abbrev closed_event : Event
closed_event = record listen_event { sockfd = 13; received = ProcessPool.ended }

abbrev term_event : Event
term_event = record listen_event {
  sockfd = 21;
  signals = record { sig = sigterm; reaped = [] } ∷ [];
}

closed_twice_example :
    Partial
      (ClosedAtEnd 13 1 served.pool)
      (child_loop 13 (events (closed_event ∷ []) ∷ events (term_event ∷ []) ∷ []) served.pool)
closed_twice_example =
    closed_twice 13 closed_event [] (events (term_event ∷ []) ∷ []) served.pool refl refl refl

closed_twice_run :
    child_loop 13 (events (closed_event ∷ []) ∷ events (term_event ∷ []) ∷ []) served.pool
    ≡ ok (Child.finish 13 (record (emit (close 13) served.pool) { m_stop = true }))
unfolding child_loop Child.deal_events deal_event deal_pipe Child.deal_signals
closed_twice_run = refl
