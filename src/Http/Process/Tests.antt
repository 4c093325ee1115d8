-- ===== src/Http/Process/Tests.antt =====
-- Runs of process of practice/http/httpConnection.cpp.
use study_record.Common.{ℕ, ◌≡◌, refl, [], ◌∷◌, ◌++◌, some, false, codes}
use study_record.Common.Run.{ok}
use study_record.Common.Int.{pos}
use study_record.Http.{Conn, bad_request, no_request}
use study_record.Http.Samples.{received, files, crlf}
use study_record.Http.Line.{parse_line}
use study_record.Http.RequestLine.{parse_request_line, parse_method}
use study_record.Common.CString.{strpbrk_blank, find_index, same_nocase}
use study_record.Http.Receive.{got}
use study_record.Http.Receive
use study_record.Http.Read.{round, process_read_loop, process_read}
use study_record.Http.Process.{Task, Answers}

abbrev answers : Answers
answers = record { received = got [] ∷ []; sent = []; files = files }

-- A connection on the descriptor 5 whose timer is 9.
abbrev task : ℕ → Conn → Task
task mode c = record {
  conn = c;
  m_sockfd = pos 5;
  timer = some 9;
  task_state = 0;
  actor_mode = mode;
  m_user_count = pos 1;
  calls = [];
}

abbrev post : Conn
post = received (codes "POST / HTTP/1.1" ++ crlf)

abbrev refused : (c : Conn) × (process_read files post ≡ ok (bad_request, c))
unfolding process_read process_read_loop round parse_line parse_request_line parse_method
    strpbrk_blank find_index same_nocase
refused = (_, refl)

-- The peer closes the connection in the middle of a line.
abbrev begun : Conn
begun = received (codes "GE")

abbrev begun_read : (c : Conn) × (process_read files begun ≡ ok (no_request, c))
unfolding process_read process_read_loop parse_line
begun_read = (_, refl)

begun_closed : Receive.read (got [] ∷ []) begun ≡ Receive.returned false begun
unfolding Receive.read Receive.read_loop Receive.store
begun_closed = refl
