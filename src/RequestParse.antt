-- ===== src/RequestParse.antt =====
-- mine/practice/httpRequestParse.cpp: a program that reads one request and says whether it is a good one.
pub mod Lines
pub mod Words
pub mod Headers
pub mod Request
mod Tests
use study_record.Common.{
  ℕ, zero, suc, ◌+◌, ◌-◌, List, [], ◌∷◌, none, some, Bool, true, false, ◌==◌, ◌||◌, not,
  if◌then◌else◌, codes, length, set, get_or, replicate, take,
}
use study_record.Common.Run.{Run, ok, out_of_fuel, ◌>>=◌}
use study_record.Common.Bytes.{write_at}
use study_record.Common.CString.{text_at, strpbrk_blank, strspn_blank, same_nocase, starts_nocase}
use study_record.Http.{LineStatus, line_ok, line_bad, line_open}
use study_record.Http.Line.{parse_line_loop}
use study_record.Http.RequestLine.{strip_scheme}
use study_record.Http.Receive.{Received, got, would_block, failed}

pub data CheckState : Type 0 where
  check_state_requestline check_state_header : CheckState

pub data HttpCode : Type 0 where
  no_request get_request bad_request forbidden_request internal_error closed_connection : HttpCode

-- The variables of main that parse_content is given.
pub record Parser : Type 0 where
  pub buffer : List ℕ
  pub checked_index : ℕ
  pub check_state : CheckState
  pub read_index : ℕ
  pub start_line : ℕ

abbrev pub buffer_size : ℕ
buffer_size = 4096

-- The loop is that of Http_Conn::parse_line, statement by statement.
unfoldable pub parse_line : Parser → LineStatus × Parser
parse_line p =
    let s =
      parse_line_loop (p.read_index - p.checked_index) p.buffer p.checked_index p.read_index in
    (s.status, record p { buffer = s.buf; checked_index = s.checked })

-- What parse_requestline returns, with the buffer and the state that it leaves.
abbrev pub Parsed : Type 0
Parsed = HttpCode × List ℕ × CheckState

-- From the test of the scheme. The loop's `strip_scheme` leaves no pointer where strchr finds no '/'.
unfoldable pub parse_uri : List ℕ → ℕ → CheckState → Parsed
parse_uri buf uri st = elim (strip_scheme buf (codes "http://") uri) [
  | none ↦ (bad_request, buf, st)
  | some path ↦
      if not (get_or buf path 0 == b'/')
      then (bad_request, buf, st)
      else (no_request, buf, check_state_header)
]

-- From the second strpbrk.
unfoldable pub parse_version : List ℕ → ℕ → CheckState → Parsed
parse_version buf uri st = elim (strpbrk_blank buf uri) [
  | none ↦ (bad_request, buf, st)
  | some end ↦
      let buf1 = set buf end 0 in
      let version = end + 1 + strspn_blank buf1 (end + 1) in
      if not (same_nocase (text_at buf1 version) (codes "HTTP/1.1"))
      then (bad_request, buf1, st)
      else parse_uri buf1 uri st
]

unfoldable pub parse_requestline : List ℕ → ℕ → CheckState → Parsed
parse_requestline buf temp st = elim (strpbrk_blank buf temp) [
  | none ↦ (bad_request, buf, st)
  | some end ↦
      let buf1 = set buf end 0 in
      if same_nocase (text_at buf1 temp) (codes "GET")
      then parse_version buf1 (end + 1 + strspn_blank buf1 (end + 1)) st
      else (bad_request, buf1, st)
]

-- The host is only printed.
unfoldable pub parse_headers : List ℕ → ℕ → HttpCode
parse_headers buf temp =
    if get_or buf temp 0 == 0
    then get_request
    else if starts_nocase (text_at buf temp) (codes "Host:")
    then no_request
    else no_request

-- The cases of the switch, with what the loop goes on with.
unfoldable pub after_requestline :
    (Parser → Run (HttpCode × Parser)) → HttpCode → Parser → Run (HttpCode × Parser)
after_requestline next bad_request p = ok (bad_request, p)
after_requestline next code p = next p

unfoldable pub after_headers :
    (Parser → Run (HttpCode × Parser)) → HttpCode → Parser → Run (HttpCode × Parser)
after_headers next bad_request p = ok (bad_request, p)
after_headers next get_request p = ok (get_request, p)
after_headers next code p = next p

unfoldable pub by_state :
    (Parser → Run (HttpCode × Parser)) → CheckState → ℕ → Parser → Run (HttpCode × Parser)
by_state next check_state_requestline temp p =
    let (code, buf, st) = parse_requestline p.buffer temp p.check_state in
    after_requestline next code (record p { buffer = buf; check_state = st })
by_state next check_state_header temp p = after_headers next (parse_headers p.buffer temp) p

-- The body of the loop and what follows it, by the status of the line.
unfoldable pub by_line :
    (Parser → Run (HttpCode × Parser)) → LineStatus → Parser → Run (HttpCode × Parser)
by_line next line_ok p =
    by_state next p.check_state p.start_line (record p { start_line = p.checked_index })
by_line next line_open p = ok (no_request, p)
by_line next line_bad p = ok (bad_request, p)

unfoldable pub content_loop : ℕ → Parser → Run (HttpCode × Parser)
content_loop zero p = out_of_fuel
content_loop (suc k) p = let (st, p') = parse_line p in by_line (content_loop k) st p'

-- Each round but the last checks at least a byte.
unfoldable pub parse_content : Parser → Run (HttpCode × Parser)
parse_content p = content_loop (p.read_index - p.checked_index + 1) p

-- How far main has come: it has sent an answer, or closed without one, or it is about to call recv.
pub data Serving : Type 0 where
  correct wrong closed : Serving
  receiving : Parser → Serving

abbrev pub answer : HttpCode → Serving
answer get_request = correct
answer code = wrong

-- The loop behind a call of recv that has stored `s`.
unfoldable pub store : (Parser → Run Serving) → List ℕ → Parser → Run Serving
store next [] p = ok closed
store next (x ∷ s) p =
    let p1 = record p {
      buffer = write_at p.buffer p.read_index (x ∷ s);
      read_index = p.read_index + length (x ∷ s);
    } in
    parse_content p1 >>= λ (code, p2). elim code [
      | no_request ↦ next p2
      | get_request ↦ ok (answer get_request)
      | bad_request ↦ ok (answer bad_request)
      | forbidden_request ↦ ok (answer forbidden_request)
      | internal_error ↦ ok (answer internal_error)
      | closed_connection ↦ ok (answer closed_connection)
    ]

-- The loop of main, over what the calls of recv find: each stores as many bytes as it is asked for.
unfoldable pub serve_loop : List Received → Parser → Run Serving
serve_loop [] p = ok (receiving p)
serve_loop (would_block ∷ rest) p = ok closed
serve_loop (failed ∷ rest) p = ok closed
serve_loop (got s ∷ rest) p = store (serve_loop rest) (take (buffer_size - p.read_index) s) p

-- The variables of main before the loop.
abbrev pub start : Parser
start = record {
  buffer = replicate buffer_size 0;
  checked_index = 0;
  check_state = check_state_requestline;
  read_index = 0;
  start_line = 0;
}
