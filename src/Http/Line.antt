-- ===== src/Http/Line.antt =====
-- Http_Conn::parse_line of practice/http/httpConnection.cpp: the scan for the end of a line.
pub mod Laws
pub mod Complete
use study_record.Common.{ℕ, zero, suc, ◌+◌, ◌-◌, List, ◌&&◌, ltb, ◌==◌, if◌then◌else◌, get_or, set}
use study_record.Http.{LineStatus, line_ok, line_bad, line_open, Conn}

-- What the scan changes: the buffer and `m_checked_idx`, with the status that it returns.
pub record Scan : Type 0 where
  pub status : LineStatus
  pub buf : List ℕ
  pub checked : ℕ

abbrev pub scan : LineStatus → List ℕ → ℕ → Scan
scan st buf checked = record { status = st; buf = buf; checked = checked }

-- The body of the loop at a '\r'.
pub at_cr : List ℕ → ℕ → ℕ → Scan
at_cr buf checked read_idx =
    if checked + 1 == read_idx
    then scan line_open buf checked
    else if get_or buf (checked + 1) 0 == 10
    then scan line_ok (set (set buf checked 0) (checked + 1) 0) (checked + 2)
    else scan line_bad buf checked

-- The body of the loop at a '\n'.
pub at_lf : List ℕ → ℕ → Scan
at_lf buf checked =
    if ltb 1 checked && get_or buf (checked - 1) 0 == 13
    then scan line_ok (set (set buf (checked - 1) 0) checked 0) (checked + 1)
    else scan line_bad buf checked

-- The loop, by the number of bytes that are left to check.
pub parse_line_loop : ℕ → List ℕ → ℕ → ℕ → Scan
unfolding at_cr at_lf
parse_line_loop zero buf checked read_idx = scan line_open buf checked
parse_line_loop (suc left) buf checked read_idx =
    let rest = parse_line_loop left buf (checked + 1) read_idx in
    let temp = get_or buf checked 0 in
    if temp == 13
    then at_cr buf checked read_idx
    else if temp == 10
    then at_lf buf checked
    else rest

unfoldable pub parse_line : Conn → LineStatus × Conn
unfolding parse_line_loop
parse_line c =
    let s =
      parse_line_loop (c.m_read_idx - c.m_checked_idx) c.m_read_buf c.m_checked_idx c.m_read_idx in
    (s.status, record c { m_read_buf = s.buf; m_checked_idx = s.checked })
