-- ===== src/WebServer/Workers.antt =====
-- A worker's task of practice/http/httpConnection.cpp on a connection of practice/web_server/webServer.cpp.
pub mod Calls
pub mod Reads
pub mod Tasks
pub mod Turns
use study_record.Common.{
  ℕ, ◌+◌, ◌<◌, ◌≤◌, ◌≡◌, ◌≢◌, ◌∙◌, refl, sym, ap, subst, List, [], ◌∷◌, ◌++◌, append_assoc,
  append-nil, Option, none, some, Bool, true, false, ◌==◌, ltb, leb, length, inl, inr, Bool-cases,
  if◌then◌else◌, arith,
}
use study_record.Common.Int.{ℤ, pos, negsuc, ◌-ℤ◌}
use study_record.Common.Run.{
  Run, ok, ok-injective, fault, out_of_fuel, ◌>>=◌, Partial, ended, faulted, Partial-bind,
  Partial-if,
}
use study_record.Common.Threads.{update, update_self, update-update}
use study_record.TimeWheel.{Wheel}
use study_record.TimeWheel
use study_record.TimeWheel.Set.{del_timer_lem}
use study_record.Http.{HttpCode, no_request, read_buffer_size, Conn}
use study_record.Http.Read.{process_read}
use study_record.Common.Bytes.{write_at}
use study_record.Http.Write.{Interest, epollin, epollout, Progress}
use study_record.Http.Write
use study_record.Http.Receive.{Reading, Received}
use study_record.Http.Receive
use study_record.Http.Respond.{process_write}
use study_record.Http.Read.Ends.{process_read_ends}
use study_record.WebServer.Transfer.{is_read, is_written}
use study_record.Http.Process
use study_record.Http.Process.{
  Call, removefd, modfd, del_timer, Task, Answers, is_closed, drop_timer, close_conn, close_unless,
  register, register_if, write_task, read_task, respond, process,
}
use study_record.WebServer.{
  User, Server, Effect, call, max_fd, at_conn, task_of, user_of, perform, put_task, close_user,
}
use study_record.WebServer.Invariant.{is_none, IsServer, IsServer-conn, IsServer-effects}
use study_record.WebServer.Close.{
  Serves, timer_held, close-open, closed_user, close_user_lem, timer_cases,
}

-- `users[fd].process()`, called by a worker.
unfoldable pub work : ℕ → Answers → Server → Run Server
work fd a s = at_conn fd s (process a (task_of fd s) >>= put_task fd s)
