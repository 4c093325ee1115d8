-- ===== src/WebServer.antt =====
-- practice/web_server/webServer.cpp: the main thread, which accepts connections, reads and writes
-- them, and closes those whose timers have run out.
pub mod Loop
pub mod Invariant
pub mod Start
pub mod Close
pub mod Adjust
pub mod Open
pub mod Transfer
pub mod Timers
pub mod Events
pub mod Idle
pub mod Workers
mod Tests
use study_record.Common.{
  ℕ, zero, suc, ◌+◌, ◌*◌, List, [], ◌∷◌, ◌++◌, Option, none, some, Bool, true, false, ltb, leb,
  ◌==◌, ◌||◌, ◌&&◌, if◌then◌else◌,
}
use study_record.Common.Int.{ℤ, pos, negsuc, ◌+ℤ◌, ◌-ℤ◌}
use study_record.Common.Run.{Run, ok, fault, out_of_fuel, ◌>>=◌}
use study_record.Common.Threads.{update}
use study_record.TimeWheel.{Wheel, empty_wheel}
use study_record.TimeWheel
use study_record.Http.{Conn}
use study_record.Http.Receive.{Received, Reading}
use study_record.Http.Receive
use study_record.Http.Write.{Sent, Interest, Progress}
use study_record.Http.Write
use study_record.Http.Process.{
  Call, removefd, modfd, del_timer, Task, is_closed, close_conn, close_unless, register_if,
}

-- MAX_FD and TIME_SLOT
abbrev pub max_fd : ℕ
max_fd = 65536

abbrev pub time_slot : ℕ
time_slot = 1

-- An entry of the array `users`.
pub record User : Type 0 where
  pub conn : Conn
  pub m_sockfd : ℤ
  pub timer : Option ℕ
  pub task_state : ℕ

-- What the main thread asks of the kernel and of the thread pool.
pub data Effect : Type 0 where
  addfd : ℕ → Effect
  call : Call → Effect
  send_error : ℕ → Effect
  append : ℕ → Effect
  alarm : ℕ → Effect

-- `initialised` has the entries of `users` on which init was called, which sets `m_sockfd` and registers
-- the descriptor (deal_connection sets `timer` right behind it). Http_Conn() leaves the two members of
-- the other entries without a value: what stands there in `users` is not read, since a function that
-- would read it is a fault. `conn_mode` and `m_user_count` are the static members of Http_Conn, `actor_mode` is that of the
-- server. A timer's user data is the index of its connection in `users`.
pub record Server : Type 0 where
  pub users : ℕ → User
  pub initialised : ℕ → Bool
  pub m_user_count : ℤ
  pub conn_mode : ℕ
  pub tw : Wheel
  pub listen_fd : ℕ
  pub signal_fd : ℕ
  pub actor_mode : ℕ
  pub effects : List Effect

-- An access to `users`, an array of MAX_FD connections.
abbrev pub at_user {ℓ} : {A : Type ℓ} → ℕ → Run A → Run A
at_user fd r = if ltb fd max_fd then r else fault

-- An access that reads `m_sockfd` or `timer`.
abbrev pub at_conn {ℓ} : {A : Type ℓ} → ℕ → Server → Run A → Run A
at_conn fd s r = if ltb fd max_fd && s.initialised fd then r else fault

abbrev pub emit : Effect → Server → Server
emit e s = record s { effects = s.effects ++ e ∷ [] }

-- The constructor. The arguments are the buffers of the connections as `new` leaves them.
abbrev pub create : (ℕ → Conn) → Server
create conns = record {
  users = λ fd. record { conn = conns fd; m_sockfd = negsuc 0; timer = none; task_state = 0 };
  initialised = λ fd. false;
  m_user_count = pos 0;
  conn_mode = 1;
  tw = empty_wheel;
  listen_fd = 0;
  signal_fd = 0;
  actor_mode = 1;
  effects = [];
}

-- init(port, set_reactor_mode), once the descriptors have been opened.
abbrev pub init : ℕ → ℕ → Bool → Server → Server
init listen_fd signal_fd set_reactor_mode s = record s {
  listen_fd = listen_fd;
  signal_fd = signal_fd;
  conn_mode = if set_reactor_mode then 0 else 1;
  effects = s.effects ++ addfd listen_fd ∷ addfd signal_fd ∷ alarm time_slot ∷ [];
}

-- The connection as the functions of Http_Conn see it, and what they leave.
abbrev pub task_of : ℕ → Server → Task
task_of fd s = record {
  conn = (s.users fd).conn;
  m_sockfd = (s.users fd).m_sockfd;
  timer = (s.users fd).timer;
  task_state = (s.users fd).task_state;
  actor_mode = s.conn_mode;
  m_user_count = s.m_user_count;
  calls = [];
}

abbrev pub user_of : Task → User
user_of t = record {
  conn = t.conn;
  m_sockfd = t.m_sockfd;
  timer = t.timer;
  task_state = t.task_state;
}

unfoldable pub perform : List Call → Server → Run Server
perform [] s = ok s
perform (del_timer t ∷ calls) s = TimeWheel.del_timer (some t) s.tw >>= λ w.
    perform calls (record s { tw = w; effects = s.effects ++ call (del_timer t) ∷ [] })
perform (removefd fd ∷ calls) s = perform calls (emit (call (removefd fd)) s)
perform (modfd fd e ∷ calls) s = perform calls (emit (call (modfd fd e)) s)

abbrev pub put_task : ℕ → Server → Task → Run Server
put_task fd s t =
    perform t.calls
      (record s { users = update s.users fd (user_of t); m_user_count = t.m_user_count })

-- users[sockfd].close_conn()
abbrev pub close_user : ℕ → Server → Run Server
close_user fd s = at_conn fd s (put_task fd s (close_conn (task_of fd s)))

-- Http_Conn::timer_func of users[fd].
unfoldable pub timer_func : ℕ → Server → Server
timer_func fd s =
    let u = s.users fd in
    if is_closed u.m_sockfd then s else record s {
      users = update s.users fd (record u { m_sockfd = negsuc 0 });
      m_user_count = s.m_user_count -ℤ pos 1;
      effects = s.effects ++ call (removefd u.m_sockfd) ∷ [];
    }

unfoldable pub timer_cb_func : ℕ → Server → Server
timer_cb_func fd s =
    let s1 = timer_func fd s in
    record s1 { users = update s1.users fd (record (s1.users fd) { timer = none }) }

-- users[clientfd].init(clientfd, …)
abbrev pub init_user : ℕ → Server → Server
init_user fd s =
    let u = s.users fd in
    record s {
      users = update s.users fd (record u { m_sockfd = pos fd; conn = Write.init u.conn });
      initialised = update s.initialised fd true;
      m_user_count = s.m_user_count +ℤ pos 1;
      effects = s.effects ++ addfd fd ∷ [];
    }

-- The entry with its timer, at the address `t` that `new` returns.
unfoldable pub open_user : ℕ → ℕ → Server → Run Server
open_user fd t s =
    let s1 = init_user fd s in
    TimeWheel.add_timer t (pos (3 * time_slot)) s1.tw >>= λ (timer, w). elim timer [
      | none ↦ fault
      | some t ↦ ok (record s1 {
        users = update s1.users fd (record (s1.users fd) { timer = some t });
        tw = record w { user_data = update w.user_data t fd };
      })
    ]

-- `Http_Conn::m_user_count >= MAX_FD`
abbrev pub is_full : ℤ → Bool
is_full (pos n) = leb max_fd n
is_full (negsuc n) = false

-- By what accept returns.
unfoldable pub deal_connection : Option ℕ → ℕ → Server → Run Server
deal_connection none t s = ok s
deal_connection (some fd) t s =
    if is_full s.m_user_count then ok (emit (send_error fd) s) else at_user fd (open_user fd t s)

abbrev pub deal_err : ℕ → Server → Run Server
deal_err fd s = close_user fd s

abbrev pub deal_close : ℕ → Server → Run Server
deal_close fd s = close_user fd s

abbrev pub adjust : Option ℕ → Server → Run Server
adjust none s = ok s
adjust (some t) s =
    TimeWheel.adjust_timer t (pos (3 * time_slot)) s.tw >>= λ w. ok (record s { tw = w })

unfoldable pub timer_update : ℕ → Server → Run Server
timer_update fd s = at_conn fd s (adjust (s.users fd).timer s)

-- `while(!pool->append(users + sockfd, state));`
abbrev pub append_state : ℕ → ℕ → Server → Server
append_state fd state s = record s {
  users = update s.users fd (record (s.users fd) { task_state = state });
  effects = s.effects ++ append fd ∷ [];
}

-- By the result of users[sockfd].read().
unfoldable pub after_read : ℕ → Server → Reading → Run Server
after_read fd s (Receive.running c) = out_of_fuel
after_read fd s (Receive.returned true c) = ok (record s {
  users = update s.users fd (record (s.users fd) { conn = c });
  effects = s.effects ++ append fd ∷ [];
})
after_read fd s (Receive.returned false c) =
    close_user fd (record s { users = update s.users fd (record (s.users fd) { conn = c }) })

-- The list has what the calls of recv return.
unfoldable pub deal_read : List Received → ℕ → Server → Run Server
deal_read received fd s = timer_update fd s >>= λ s1.
    if s1.actor_mode == 0
    then ok (append_state fd 0 s1)
    else after_read fd s1 (Receive.read received (s1.users fd).conn)

-- By the result of users[sockfd].write().
unfoldable pub after_write : ℕ → Server → Progress → Run Server
after_write fd s (Write.running c) = out_of_fuel
after_write fd s (Write.returned b e c) =
    put_task fd s (close_unless b (register_if e (record (task_of fd s) { conn = c })))

-- The list has what the calls of writev return.
unfoldable pub deal_write : List Sent → ℕ → Server → Run Server
deal_write sent fd s = timer_update fd s >>= λ s1.
    if s1.actor_mode == 0
    then ok (append_state fd 1 s1)
    else after_write fd s1 (Write.write sent (s1.users fd).conn)
