-- ===== src/Http/Process/Laws.antt =====
-- What process of practice/http/httpConnection.cpp asks of epoll and of the time wheel.
use study_record.Common.{ℕ, ◌≡◌, ◌∙◌, refl, ap, [], ◌∷◌, ◌++◌, none, some, true, false, ◌==◌}
use study_record.Common.Run.{ok}
use study_record.Common.Int.{pos, negsuc, ◌-ℤ◌}
use study_record.Http.{no_request, bad_request, Conn}
use study_record.Http.Receive
use study_record.Http.Receive.{Reading}
use study_record.Http.Read.{process_read}
use study_record.Http.Respond.{process_write}
use study_record.Http.Write.{epollin, epollout}
use study_record.Http.Process.{
  removefd, del_timer, Task, Answers, close_conn, register, after_read, respond, process,
}

-- The task after close_conn on an open connection with a timer.
abbrev pub closed_task : ℕ → ℕ → Conn → Task → Task
closed_task fd p c t = record t {
  conn = c;
  m_sockfd = negsuc 0;
  timer = none;
  m_user_count = t.m_user_count -ℤ pos 1;
  calls = (t.calls ++ removefd (pos fd) ∷ []) ++ del_timer p ∷ [];
}

close_conn-open :
    (t : Task) (c : Conn) (fd p : ℕ)
    → t.m_sockfd ≡ pos fd
    → t.timer ≡ some p
    → close_conn (record t { conn = c }) ≡ closed_task fd p c t
unfolding close_conn
close_conn-open t c fd p s e = rw (s, e) refl

-- In the proactor mode, a request that process_read refuses gets no answer: the connection is
-- closed, with its timer, and -1 is then registered for writing.
pub process_refused :
    (a : Answers) (t : Task) (c : Conn) (fd p : ℕ)
    → (t.actor_mode == 0) ≡ false
    → t.m_sockfd ≡ pos fd
    → t.timer ≡ some p
    → process_read a.files t.conn ≡ ok (bad_request, c)
    → process a t ≡ ok (register epollout (closed_task fd p c t))
unfolding process respond after_read process_write
process_refused a t c fd p m s e r =
    rw (m, r) (ap (λ (u : Task). ok (register epollout u)) (close_conn-open t c fd p s e))

-- In the reactor mode, when the peer has gone or recv fails, the connection is closed, with its timer,
-- and process then still parses what it has read: with no whole request, -1 is registered for reading.
pub process_read_failed :
    (a : Answers) (t : Task) (c c' : Conn) (fd p : ℕ)
    → (t.actor_mode == 0) ≡ true
    → (t.task_state == 1) ≡ false
    → t.m_sockfd ≡ pos fd
    → t.timer ≡ some p
    → Receive.read a.received t.conn ≡ Receive.returned false c
    → process_read a.files c ≡ ok (no_request, c')
    → process a t ≡ ok (register epollin (closed_task fd p c' t))
unfolding process respond after_read
process_read_failed a t c c' fd p m w s e failed r =
    let respond_closed : respond a (closed_task fd p c t)
        ≡ ok (after_read (closed_task fd p c t) (no_request, c')) =
      rw r refl in
    rw (m, w, failed) (ap (respond a) (close_conn-open t c fd p s e) ∙ respond_closed)
