-- ===== src/ProcessPool.antt =====
-- mine/practice/processPool.h: a parent process passes connections on to the children it has forked.
pub mod Fork
pub mod Parent
pub mod Child
mod Role
mod Tests
use study_record.Common.{
  ℕ, zero, suc, ◌+◌, List, [], ◌∷◌, ◌++◌, Bool, true, false, ltb, leb, ◌==◌, ◌&&◌, ◌||◌, not,
  if◌then◌else◌, length,
}
use study_record.Common.Int.{ℤ, pos, negsuc}
use study_record.Common.Run.{Run, ok, fault, out_of_fuel, ◌>>=◌}
use study_record.Common.Threads.{update}

pub record Process : Type 0 where
  pub m_pid : ℤ
  pub m_pipefd : Bool → ℕ

-- The two ends of a pipe: m_pipefd[0] is the parent's, m_pipefd[1] the child's.
abbrev pub parent_end : Bool
parent_end = false

abbrev pub child_end : Bool
child_end = true

abbrev pub ends : ℕ → ℕ → Bool → ℕ
ends a b false = a
ends a b true = b

-- What a process asks of the kernel. `init` and `process` are the calls of the class of connections that
-- the pool is made for.
pub data Call : Type 0 where
  addfd : ℕ → Call
  close : ℕ → Call
  send : ℕ → Call
  kill : ℕ → Call
  init : ℕ → Call
  process : ℕ → Call

-- The pool in one process, with the calls it has made.
pub record Pool : Type 0 where
  pub m_process_number : ℕ
  pub m_idx : ℤ
  pub m_listenfd : ℕ
  pub m_epollfd : ℕ
  pub m_stop : Bool
  pub m_sub_process : ℕ → Process
  pub sig_pipefd : Bool → ℕ
  pub calls : List Call

abbrev pub emit : Call → Pool → Pool
emit c p = record p { calls = p.calls ++ c ∷ [] }

-- `m_pid != -1`, and `m_idx != -1`
abbrev pub is_set : ℤ → Bool
is_set (pos n) = true
is_set (negsuc n) = not (n == 0)

abbrev pub max_process_number : ℕ
max_process_number = 16

-- What socketpair and fork return for a child: a failure, or the two descriptors and the process id.
pub data Forked : Type 0 where
  no_pair : Forked
  forked : ℕ → ℕ → ℤ → Forked

abbrev pub set_process : ℕ → Process → Pool → Pool
set_process i q p = record p { m_sub_process = update p.m_sub_process i q }

-- The body of the constructor's loop: whether the loop goes on. An assert that fails is a fault.
unfoldable pub fork_one : ℕ → Forked → Pool → Run (Bool × Pool)
fork_one i no_pair p = fault
fork_one i (forked a b (negsuc e)) p = fault
fork_one i (forked a b (pos zero)) p =
    let q : Process = record { m_pid = pos 0; m_pipefd = ends a b } in
    ok (false, record (emit (close a) (set_process i q p)) { m_idx = pos i })
fork_one i (forked a b (pos (suc pid))) p =
    let q : Process = record { m_pid = pos (suc pid); m_pipefd = ends a b } in
    ok (true, emit (close b) (set_process i q p))

-- The loop, with `left` children to come, over what the calls return.
unfoldable pub fork_loop : ℕ → ℕ → List Forked → Pool → Run Pool
fork_loop zero i fs p = ok p
fork_loop (suc left) i [] p = out_of_fuel
fork_loop (suc left) i (f ∷ fs) p = fork_one i f p >>= λ (goes_on, p1).
    (let rest = fork_loop left (i + 1) fs p1 in if goes_on then rest else ok p1)

-- An array of new processes, none of which is there yet.
abbrev pub empty_pool : ℕ → ℕ → Pool
empty_pool listenfd process_number = record {
  m_process_number = process_number;
  m_idx = negsuc 0;
  m_listenfd = listenfd;
  m_epollfd = 0;
  m_stop = false;
  m_sub_process = λ i. record { m_pid = negsuc 0; m_pipefd = λ e. 0 };
  sig_pipefd = λ e. 0;
  calls = [];
}

unfoldable pub create : ℕ → ℕ → List Forked → Run Pool
create listenfd process_number fs =
    if ltb 0 process_number && leb process_number max_process_number
    then fork_loop process_number 0 fs (empty_pool listenfd process_number)
    else fault

-- setup_sig_pipe, with the descriptors that epoll_create and socketpair return.
abbrev pub setup_sig_pipe : ℕ → ℕ → ℕ → Pool → Pool
setup_sig_pipe epollfd a b p =
    emit (addfd a) (record p { m_epollfd = epollfd; sig_pipefd = ends a b })

-- The numbers of the signals and errors, as on Linux.
abbrev pub sigint : ℕ
sigint = 2

abbrev pub sigterm : ℕ
sigterm = 15

abbrev pub sigchld : ℕ
sigchld = 17

abbrev pub eagain : ℕ
eagain = 11

-- A byte of the signals' pipe, with the process ids that waitpid returns if it is read as SIGCHLD.
pub record Signal : Type 0 where
  pub sig : ℕ
  pub reaped : List ℕ

-- What recv returns for a pipe of one child: an error, with errno, the end, or data.
pub data Received : Type 0 where
  failed : ℕ → Received
  ended data_read : Received

-- What epoll reports of a descriptor, with the system's answers to the calls that handle it: the bytes
-- of the signals' pipe, what recv returns for the child's pipe, and the descriptor of accept.
pub record Event : Type 0 where
  pub sockfd : ℕ
  pub epollin : Bool
  pub signals : List Signal
  pub received : Received
  pub accepted : ℤ

-- What epoll_wait returns: -1, with errno, or events.
pub data Wait : Type 0 where
  error : ℕ → Wait
  events : List Event → Wait

-- `number`
abbrev pub number : Wait → ℤ
number (error errno) = negsuc 0
number (events es) = pos (length es)

-- `(number < 0) && (number != EAGAIN) && (number != EWOULDBLOCK)`, which are the same number.
abbrev pub is_failure : ℤ → Bool
is_failure (pos n) = false
is_failure (negsuc n) = true
