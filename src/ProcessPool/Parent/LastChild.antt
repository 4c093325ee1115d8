-- ===== src/ProcessPool/Parent/LastChild.antt =====
-- A connection comes to run_parent of mine/practice/processPool.h when the last child has ended.
use study_record.Common.{
  ℕ, ◌<◌, ◌≡◌, ◌∙◌, refl, ap, List, [], ◌∷◌, Bool, true, false, ltb, ◌==◌, ◌&&◌, inl, inr,
  Bool-cases, if◌then◌else◌, arith,
}
use study_record.Common.Int.{ℤ, negsuc}
use study_record.Common.Run.{out_of_fuel}
use study_record.ProcessPool.{is_set, sigchld, Event, parent_end}
use study_record.ProcessPool.Parent.{
  Parent, is_child, deal_sigchld, deal_signals, deal_signal, deal_listen, deal_event, deal_events,
}
use study_record.ProcessPool.Parent.Allocate.{allocate_loop_stuck}
use study_record.ProcessPool.Parent.Signals.{is_reaped, deal_sigchld_lem}

-- The signals' pipe holds one SIGCHLD, at which waitpid returns the process id of every child that is
-- there, and a connection comes behind it in what epoll_wait reports: although m_stop is set, the do loop
-- for that connection runs through every fuel, and the message that no child is left is never reached.
pub last_child_hangs :
    (fuel : ℕ) (e e' : Event) (es : List Event) (s : Parent) (pids : List ℕ)
    → s.sub_process_counter < s.pool.m_process_number
    → ((i : ℕ)
        → i < s.pool.m_process_number
        → is_child i s.pool ≡ true
        → is_reaped pids (s.pool.m_sub_process i).m_pid ≡ true)
    → e.signals ≡ record { sig = sigchld; reaped = pids } ∷ []
    → (e.sockfd == s.pool.m_listenfd) ≡ false
    → (e.sockfd == s.pool.sig_pipefd parent_end && e.epollin) ≡ true
    → (e'.sockfd == s.pool.m_listenfd) ≡ true
    → ((deal_sigchld pids s.pool).m_stop ≡ true) × (deal_events fuel (e ∷ e' ∷ es) s ≡ out_of_fuel)
unfolding deal_events deal_event deal_signals deal_signal deal_listen
last_child_hangs fuel e e' es s pids lt all_reaped sigs not_listen is_signal is_listen =
    let p1 = deal_sigchld pids s.pool in
    let (v, stops) = deal_sigchld_lem pids s.pool in
    let gone : (i : ℕ) → i < s.pool.m_process_number → is_child i p1 ≡ false =
      λ i i_lt. none i i_lt (v.pids i) in
    let stuck =
      allocate_loop_stuck p1 fuel s.sub_process_counter (omega (arith, v.number))
        (λ j j_lt. gone j (omega (arith, j_lt, v.number))) in
    let same : (e'.sockfd == p1.m_listenfd) ≡ true =
      ap (λ fd. e'.sockfd == fd) v.listenfd ∙ is_listen in
    (stops.1 gone, rw (not_listen, is_signal, sigs, same, stuck) refl)
  where
    pid : ℕ → ℤ
    pid i = (s.pool.m_sub_process i).m_pid

    chosen :
        (i : ℕ) (b c : Bool)
        → ltb i s.pool.m_process_number ≡ b
        → is_reaped pids (pid i) ≡ c
        → (if ltb i s.pool.m_process_number && is_reaped pids (pid i) then negsuc 0 else pid i)
          ≡ (if b && c then negsuc 0 else pid i)
    chosen i b c e f = rw (e, f) refl

    none :
        (i : ℕ)
        → i < s.pool.m_process_number
        → ((deal_sigchld pids s.pool).m_sub_process i).m_pid ≡ (
            if ltb i s.pool.m_process_number && is_reaped pids (s.pool.m_sub_process i).m_pid
            then negsuc 0
            else (s.pool.m_sub_process i).m_pid)
        → is_child i (deal_sigchld pids s.pool) ≡ false
    none i i_lt f =
        let inside : ltb i s.pool.m_process_number ≡ true = ground arith in
        elim (Bool-cases (is_child i s.pool)) [
          | inl here ↦ ap is_set (f ∙ chosen i true true inside (all_reaped i i_lt here))
          | inr gone ↦ elim (Bool-cases (is_reaped pids (s.pool.m_sub_process i).m_pid)) [
            | inl g ↦ ap is_set (f ∙ chosen i true true inside g)
            | inr g ↦ ap is_set (f ∙ chosen i true false inside g) ∙ gone
          ]
        ]
