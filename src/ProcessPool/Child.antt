-- ===== src/ProcessPool/Child.antt =====
-- run_child of mine/practice/processPool.h. A call of `init` or `process` reads the array of connections,
-- which has USER_PER_PROCESS of them.
pub mod Pipe
use study_record.Common.{
  ℕ, List, [], ◌∷◌, Bool, true, false, ltb, ◌==◌, ◌&&◌, ◌||◌, not, if◌then◌else◌,
}
use study_record.Common.Int.{ℤ, pos, negsuc}
use study_record.Common.Run.{Run, ok, fault, ◌>>=◌}
use study_record.ProcessPool.{
  Pool, Call, close, addfd, init, process, emit, child_end, parent_end, setup_sig_pipe, Signal,
  Received, failed, ended, data_read, Event, Wait, error, events, number, is_failure, sigint,
  sigterm, eagain,
}

abbrev pub user_per_process : ℕ
user_per_process = 65536

abbrev pub at_user {ℓ} : {A : Type ℓ} → ℕ → Run A → Run A
at_user fd r = if ltb fd user_per_process then r else fault

-- accept and what follows it.
unfoldable pub deal_accepted : ℤ → Pool → Run Pool
deal_accepted (negsuc e) p = ok p
deal_accepted (pos connfd) p = at_user connfd (ok (emit (init connfd) (emit (addfd connfd) p)))

-- By what recv returns for the pipe. The pipe's end is closed, and the loop goes on.
unfoldable pub deal_pipe : ℕ → Received → ℤ → Pool → Run Pool
deal_pipe pipefd (failed errno) accepted p =
    if not (errno == eagain) then ok p else deal_accepted accepted p
deal_pipe pipefd ended accepted p = ok (emit (close pipefd) p)
deal_pipe pipefd data_read accepted p = deal_accepted accepted p

-- SIGCHLD only takes the children that have ended, of which a child has none.
unfoldable pub deal_signals : List Signal → Pool → Pool
deal_signals [] p = p
deal_signals (g ∷ gs) p =
    deal_signals gs (if g.sig == sigterm || g.sig == sigint then record p { m_stop = true } else p)

-- The body of the loop over the events.
unfoldable pub deal_event : ℕ → Event → Pool → Run Pool
deal_event pipefd e p =
    if e.sockfd == pipefd && e.epollin
    then deal_pipe pipefd e.received e.accepted p
    else if e.sockfd == p.sig_pipefd parent_end && e.epollin
    then ok (deal_signals e.signals p)
    else if e.epollin
    then at_user e.sockfd (ok (emit (process e.sockfd) p))
    else ok p

unfoldable pub deal_events : ℕ → List Event → Pool → Run Pool
deal_events pipefd [] p = ok p
deal_events pipefd (e ∷ es) p = deal_event pipefd e p >>= deal_events pipefd es

-- How far the child has come: it has ended, or it is about to call epoll_wait.
pub data Running : Type 0 where
  finished waiting : Pool → Running

abbrev pub finish : ℕ → Pool → Running
finish pipefd p =
    finished (emit (close p.m_epollfd) (emit (close p.m_listenfd) (emit (close pipefd) p)))

-- The loop over what the calls of epoll_wait return.
unfoldable pub child_loop : ℕ → List Wait → Pool → Run Running
child_loop pipefd [] p = if p.m_stop then ok (finish pipefd p) else ok (waiting p)
child_loop pipefd (error errno ∷ ws) p =
    if p.m_stop || is_failure (number (error errno))
    then ok (finish pipefd p)
    else child_loop pipefd ws p
child_loop pipefd (events es ∷ ws) p =
    if p.m_stop || is_failure (number (events es))
    then ok (finish pipefd p)
    else (deal_events pipefd es p >>= child_loop pipefd ws)

-- run_child of the child `idx`, with the descriptors that setup_sig_pipe is given.
unfoldable pub run_child : ℕ → ℕ → ℕ → ℕ → List Wait → Pool → Run Running
run_child idx epollfd a b ws p =
    let pipefd = (p.m_sub_process idx).m_pipefd child_end in
    child_loop pipefd ws (emit (addfd pipefd) (setup_sig_pipe epollfd a b p))
