-- ===== src/Http/Process.antt =====
-- Http_Conn::process and close_conn of practice/http/httpConnection.cpp: a worker's whole task.
mod Laws
mod Tests
use study_record.Common.{
  ℕ, zero, suc, List, [], ◌∷◌, ◌++◌, Option, none, some, Bool, true, false, ◌==◌, if◌then◌else◌,
}
use study_record.Common.Run.{Run, ok, out_of_fuel, ◌>>=◌}
use study_record.Common.Int.{ℤ, pos, negsuc, ◌-ℤ◌}
use study_record.Http.{HttpCode, no_request, FileSystem, Conn}
use study_record.Http.Receive.{Received, Reading}
use study_record.Http.Receive
use study_record.Http.Read.{process_read}
use study_record.Http.Respond.{process_write}
use study_record.Http.Write.{Sent, Interest, epollin, epollout, Progress}
use study_record.Http.Write

-- What the task asks of epoll and of the time wheel, in order; a timer is named by its address.
pub data Call : Type 0 where
  removefd : ℤ → Call
  modfd : ℤ → Interest → Call
  del_timer : ℕ → Call

-- The fields of Http_Conn beside those of Conn, and its static members.
pub record Task : Type 0 where
  pub conn : Conn
  pub m_sockfd : ℤ
  pub timer : Option ℕ
  pub task_state : ℕ
  pub actor_mode : ℕ
  pub m_user_count : ℤ
  pub calls : List Call

-- The system's answers to recv and writev, and its files.
pub record Answers : Type 0 where
  pub received : List Received
  pub sent : List Sent
  pub files : FileSystem

-- `fd == -1`
abbrev pub is_closed : ℤ → Bool
is_closed (pos fd) = false
is_closed (negsuc n) = n == 0

abbrev pub drop_timer : Option ℕ → Task → Task
drop_timer none t = t
drop_timer (some p) t = record t { timer = none; calls = t.calls ++ del_timer p ∷ [] }

-- close_conn(true)
unfoldable pub close_conn : Task → Task
close_conn t =
    let closed = if is_closed t.m_sockfd then t else record t {
      m_sockfd = negsuc 0;
      m_user_count = t.m_user_count -ℤ pos 1;
      calls = t.calls ++ removefd t.m_sockfd ∷ [];
    } in
    drop_timer t.timer closed

abbrev pub close_unless : Bool → Task → Task
close_unless b t = if b then t else close_conn t

abbrev pub register : Interest → Task → Task
register e t = record t { calls = t.calls ++ modfd t.m_sockfd e ∷ [] }

abbrev pub register_if : Option Interest → Task → Task
register_if none t = t
register_if (some e) t = register e t

-- `if(!write()){ close_conn(); }`
unfoldable pub write_task : Task → Progress → Run Task
write_task t (Write.returned b e c) = ok (close_unless b (register_if e (record t { conn = c })))
write_task t (Write.running c) = out_of_fuel

-- `if(!read()){ close_conn(); }`
unfoldable pub read_task : Task → Reading → Run Task
read_task t (Receive.returned b c) = ok (close_unless b (record t { conn = c }))
read_task t (Receive.running c) = out_of_fuel

-- From the call of process_read.
unfoldable pub after_read : Task → HttpCode × Conn → Task
after_read t (no_request, c) = register epollin (record t { conn = c })
after_read t (code, c) =
    let (b, c') = process_write c code in
    register epollout (close_unless b (record t { conn = c' }))

unfoldable pub respond : Answers → Task → Run Task
respond a t = do r ← process_read a.files t.conn; ok (after_read t r)

unfoldable pub process : Answers → Task → Run Task
unfolding write_task read_task
process a t =
    if t.actor_mode == 0
    then if t.task_state == 1
      then write_task t (Write.write a.sent t.conn)
      else (do t' ← read_task t (Receive.read a.received t.conn); respond a t')
    else respond a t
