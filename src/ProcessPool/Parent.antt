-- ===== src/ProcessPool/Parent.antt =====
-- run_parent of mine/practice/processPool.h.
pub mod Allocate
pub mod Turns
pub mod Signals
pub mod LastChild
use study_record.Common.{
  ℕ, zero, suc, ◌+◌, ◌%◌, List, [], ◌∷◌, ◌++◌, Bool, true, false, ◌==◌, ◌&&◌, ◌||◌, if◌then◌else◌,
}
use study_record.Common.Int.{ℤ, pos, negsuc}
use study_record.Common.Run.{Run, ok, fault, out_of_fuel, ◌>>=◌}
use study_record.Common.Threads.{update}
use study_record.ProcessPool.{
  Process, Pool, Call, send, close, kill, emit, is_set, set_process, parent_end, setup_sig_pipe,
  addfd, Signal, Event, Wait, error, events, number, is_failure, sigint, sigterm, sigchld,
}

-- The pool with the local variable `sub_process_counter`.
pub record Parent : Type 0 where
  pub pool : Pool
  pub sub_process_counter : ℕ

abbrev pub is_child : ℕ → Pool → Bool
is_child i p = is_set (p.m_sub_process i).m_pid

-- The do loop, on fuel: the child at which it ends.
unfoldable pub allocate_loop : ℕ → ℕ → Pool → Run ℕ
allocate_loop zero allocate p = out_of_fuel
allocate_loop (suc k) allocate p =
    let next = (allocate + 1) % p.m_process_number in
    let rest = allocate_loop k next p in
    if is_child allocate p
    then ok allocate
    else if next == p.m_process_number
    then ok next
    else rest

-- The loop over the events goes on, or is left by `break`.
pub data Turn : Type 0 where
  go_on leave : Parent → Turn

-- The listening descriptor's event.
unfoldable pub deal_listen : ℕ → Parent → Run Turn
deal_listen fuel s =
    let p = s.pool in
    allocate_loop fuel s.sub_process_counter p >>= λ allocate.
    if is_child allocate p
    then ok (
        go_on (record {
          pool = emit (send ((p.m_sub_process allocate).m_pipefd parent_end)) p;
          sub_process_counter = (s.sub_process_counter + 1) % p.m_process_number;
        }))
    else ok (leave (record s { pool = record p { m_stop = true } }))

abbrev pub has_pid : ℕ → ℤ → Bool
has_pid pid (pos n) = n == pid
has_pid pid (negsuc n) = false

-- `for(int k = 0; k < m_process_number; ++k)` after waitpid has returned `pid`: the first `n` rounds.
unfoldable pub reap : ℕ → ℕ → Pool → Pool
reap zero pid p = p
reap (suc k) pid p =
    let p1 = reap k pid p in
    let q = p1.m_sub_process k in
    if has_pid pid q.m_pid
    then emit (close (q.m_pipefd parent_end)) (set_process k (record q { m_pid = negsuc 0 }) p1)
    else p1

unfoldable pub reap_all : List ℕ → Pool → Pool
reap_all [] p = p
reap_all (pid ∷ pids) p = reap_all pids (reap p.m_process_number pid p)

-- The loop behind `m_stop = true`: whether none of the first `n` children is there.
unfoldable pub none_left : ℕ → Pool → Bool
none_left zero p = true
none_left (suc k) p = let rest = none_left k p in if is_child k p then false else rest

abbrev pub kill_one : ℤ → Pool → Pool
kill_one (pos pid) p = emit (kill pid) p
kill_one (negsuc e) p = p

-- The loop at SIGTERM and SIGINT: its first `n` rounds.
unfoldable pub kill_all : ℕ → Pool → Pool
kill_all zero p = p
kill_all (suc k) p = kill_one (p.m_sub_process k).m_pid (kill_all k p)

unfoldable pub deal_sigchld : List ℕ → Pool → Pool
deal_sigchld pids p =
    let p1 = reap_all pids p in record p1 { m_stop = none_left p1.m_process_number p1 }

unfoldable pub deal_signal : Signal → Pool → Pool
deal_signal g p =
    if g.sig == sigchld
    then deal_sigchld g.reaped p
    else if g.sig == sigterm || g.sig == sigint
    then kill_all p.m_process_number p
    else p

unfoldable pub deal_signals : List Signal → Pool → Pool
deal_signals [] p = p
deal_signals (g ∷ gs) p = deal_signals gs (deal_signal g p)

-- The body of the loop over the events.
unfoldable pub deal_event : ℕ → Event → Parent → Run Turn
deal_event fuel e s =
    if e.sockfd == s.pool.m_listenfd
    then deal_listen fuel s
    else if e.sockfd == s.pool.sig_pipefd parent_end && e.epollin
    then ok (go_on (record s { pool = deal_signals e.signals s.pool }))
    else ok (go_on s)

unfoldable pub deal_events : ℕ → List Event → Parent → Run Parent
deal_events fuel [] s = ok s
deal_events fuel (e ∷ es) s =
    deal_event fuel e s >>= λ t. elim t [ go_on s1 ↦ deal_events fuel es s1 | leave s1 ↦ ok s1 ]

-- How far the parent has come: it has ended, or it is about to call epoll_wait.
pub data Running : Type 0 where
  finished waiting : Parent → Running

abbrev pub finish : Parent → Running
finish s =
    finished
      (record s { pool = emit (close s.pool.m_epollfd) (emit (close s.pool.m_listenfd) s.pool) })

-- The loop over what the calls of epoll_wait return.
unfoldable pub parent_loop : ℕ → List Wait → Parent → Run Running
parent_loop fuel [] s = if s.pool.m_stop then ok (finish s) else ok (waiting s)
parent_loop fuel (error errno ∷ ws) s =
    if s.pool.m_stop || is_failure (number (error errno))
    then ok (finish s)
    else parent_loop fuel ws s
parent_loop fuel (events es ∷ ws) s =
    if s.pool.m_stop || is_failure (number (events es))
    then ok (finish s)
    else (deal_events fuel es s >>= parent_loop fuel ws)

-- run_parent with the descriptors that setup_sig_pipe is given.
unfoldable pub run_parent : ℕ → ℕ → ℕ → ℕ → List Wait → Pool → Run Running
run_parent fuel epollfd a b ws p =
    let p1 = setup_sig_pipe epollfd a b p in
    parent_loop fuel ws (record { pool = emit (addfd p1.m_listenfd) p1; sub_process_counter = 0 })
