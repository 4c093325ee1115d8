-- ===== src/Http/Read.antt =====
-- Http_Conn::process_read of practice/http/httpConnection.cpp: the loop over the lines of a request.
pub mod Progress
pub mod Ends
pub mod Stuck
mod Crash
mod HeaderLine
mod Tests
use study_record.Common.{ℕ, zero, suc, ◌+◌, ◌-◌, ◌*◌, Bool, true, false, ◌&&◌, if◌then◌else◌}
use study_record.Common.Run.{Run, ok, out_of_fuel, ◌>>=◌}
use study_record.Http.{
  HttpCode, no_request, bad_request, get_request, LineStatus, line_ok, line_open, CheckState,
  check_state_requestline, check_state_header, check_state_content, FileSystem, Conn,
}
use study_record.Http.Line.{parse_line}
use study_record.Http.RequestLine.{parse_request_line}
use study_record.Http.Headers.{parse_headers}
use study_record.Http.Content.{parse_content, do_request}

-- What one round of the loop decides: to return, or to go on with this value of `line_status`.
pub data Round : Type 0 where
  return : HttpCode → Conn → Round
  again : LineStatus → Conn → Round

pub after_request_line : HttpCode × Conn → Round
after_request_line (bad_request, c) = return bad_request c
after_request_line (_, c) = again line_ok c

pub after_headers : FileSystem → HttpCode × Conn → Run Round
after_headers fs (bad_request, c) = ok (return bad_request c)
after_headers fs (get_request, c) = do (code, c') ← do_request fs c; ok (return code c')
after_headers fs (_, c) = ok (again line_ok c)

pub after_content : FileSystem → HttpCode × Conn → Run Round
after_content fs (get_request, c) = do (code, c') ← do_request fs c; ok (return code c')
after_content fs (_, c) = ok (again line_open c)

-- The `switch` on the state.
pub by_state : FileSystem → CheckState → Conn → ℕ → Run Round
by_state fs check_state_requestline c text = do
  r ← parse_request_line c text
  ok (after_request_line r)
by_state fs check_state_header c text = after_headers fs (parse_headers c text)
by_state fs check_state_content c text = do r ← parse_content c text; after_content fs r

-- The body of the loop.
unfoldable pub round : FileSystem → Conn → Run Round
unfolding by_state after_request_line after_headers after_content
round fs c =
    by_state fs c.m_check_state (record c { m_start_line = c.m_checked_idx }) c.m_start_line

abbrev pub is_content : CheckState → Bool
is_content check_state_content = true
is_content _ = false

abbrev pub is_ok : LineStatus → Bool
is_ok line_ok = true
is_ok _ = false

-- To return, or to go on by `next`.
abbrev pub after_round : (LineStatus → Conn → Run (HttpCode × Conn)) → Round → Run (HttpCode × Conn)
after_round next (return code c) = ok (code, c)
after_round next (again st c) = next st c

unfoldable pub process_read_loop : ℕ → FileSystem → LineStatus → Conn → Run (HttpCode × Conn)
process_read_loop zero fs st c = out_of_fuel
process_read_loop (suc k) fs st c =
    let next = after_round (process_read_loop k fs) in
    let (st', c') = parse_line c in
    if is_content c.m_check_state && is_ok st
    then round fs c >>= next
    else if is_ok st'
    then round fs c' >>= next
    else ok (no_request, c')

unfoldable pub process_read : FileSystem → Conn → Run (HttpCode × Conn)
process_read fs c = process_read_loop (2 * (c.m_read_idx - c.m_checked_idx) + 2) fs line_ok c
