-- ===== src/Http/Line/Complete.antt =====
-- parse_line as a whole: complete lines, lines that come in pieces, and bounds.
use study_record.Common.{
  ℕ, ◌+◌, ◌-◌, ◌≤◌, ◌<◌, ◌≡◌, refl, sym, ap, ◌∙◌, List, [], ◌∷◌, ◌++◌, true, length, set, drop, all,
  drop-set_add, drop-set_lt, drop-drop, drop-append, drop-append_le, length-drop, all-drop,
  set-append, set-append_next, arith,
}
use study_record.Common.CString.{c_str, text_at}
use study_record.Http.{line_ok, line_open, Conn}
use study_record.Http.Line.{scan, parse_line_loop, parse_line}
use study_record.Http.Line.Laws.{
  parse_line_loop-InBounds, Extends, parse_line_loop-resume, is_plain, parse_line_loop-line,
}

-- parse_line never moves back, never passes the bytes that were read, keeps the buffer's size, and
-- moves on by at least a byte when it returns LINE_OK.
pub parse_line_bounds :
    (c : Conn)
    → c.m_checked_idx ≤ c.m_read_idx
    → (c.m_checked_idx ≤ (parse_line c).1.m_checked_idx)
      × ((parse_line c).1.m_checked_idx ≤ c.m_read_idx)
      × (length (parse_line c).1.m_read_buf ≡ length c.m_read_buf)
      × ((parse_line c).0 ≡ line_ok → c.m_checked_idx < (parse_line c).1.m_checked_idx)
unfolding parse_line
parse_line_bounds c h =
    let s =
      parse_line_loop-InBounds (c.m_read_idx - c.m_checked_idx) c.m_read_buf c.m_checked_idx
        c.m_read_idx (omega arith) in
    (s.forward, s.inside, s.size, s.moved)

-- A line may come in pieces: when parse_line returns LINE_OPEN and recv then stores more bytes behind
-- those read, calling it again gives the same result, status, buffer and indices, as one call on all the
-- bytes.
pub parse_line-resume :
    (c : Conn) (buf : List ℕ) (later : ℕ)
    → c.m_checked_idx ≤ c.m_read_idx
    → c.m_read_idx ≤ later
    → Extends c.m_read_buf buf c.m_read_idx
    → (parse_line c).0 ≡ line_open
    → parse_line (record (parse_line c).1 { m_read_buf = buf; m_read_idx = later })
      ≡ parse_line (record c { m_read_buf = buf; m_read_idx = later })
unfolding parse_line
parse_line-resume c buf later h k x e =
    let (same, next) =
      parse_line_loop-resume (c.m_read_idx - c.m_checked_idx) (later - c.m_read_idx) c.m_read_buf
        buf c.m_checked_idx c.m_read_idx later (omega arith) (omega arith) x e in
    rw next refl

module _ (buf : List ℕ) (start : ℕ) (xs ys : List ℕ) where
  drop-inside :
      drop start buf ≡ xs ++ 13 ∷ 10 ∷ ys
      → (k : ℕ) → k ≤ length xs
      → drop (start + k) buf ≡ drop k xs ++ 13 ∷ 10 ∷ ys
  drop-inside e k h = rw (drop-drop start k buf, e) (drop-append_le k xs (13 ∷ 10 ∷ ys) h)

  cleared : List ℕ
  cleared = set (set buf (start + length xs) 0) (start + length xs + 1) 0

  drop-cleared : drop start buf ≡ xs ++ 13 ∷ 10 ∷ ys → drop start cleared ≡ xs ++ 0 ∷ 0 ∷ ys
  unfolding cleared
  drop-cleared e =
      let shift : start + length xs + 1 ≡ start + (length xs + 1) = omega arith in
      rw (shift, drop-set_add, drop-set_add, e, set-append, set-append_next)

c_str-plain : (xs ys : List ℕ) → all is_plain xs ≡ true → c_str (xs ++ 0 ∷ ys) ≡ xs
c_str-plain [] ys h = refl
c_str-plain (x ∷ xs) ys h = ground (arith, c_str-plain xs ys)

-- The scan of a whole line, from any point of it: the buffer it leaves has the line as a C string, and
-- the bytes behind it.
pub line_found :
    (buf : List ℕ) (start checked read_idx : ℕ) (xs ys : List ℕ)
    → drop start buf ≡ xs ++ 13 ∷ 10 ∷ ys
    → all is_plain xs ≡ true
    → start ≤ checked
    → checked ≤ start + length xs
    → start + length xs + 2 ≤ read_idx
    → (buf' : List ℕ) × (parse_line_loop (read_idx - checked) buf checked read_idx
        ≡ scan line_ok buf' (start + length xs + 2))
      × (text_at buf' start ≡ xs)
      × (drop (start + length xs + 2) buf' ≡ ys)
unfolding cleared
line_found buf start checked read_idx xs ys e p from to room =
    (cleared buf start xs ys, found, ap c_str after ∙ c_str-plain xs (0 ∷ ys) p, behind)
  where
    k : ℕ
    k = checked - start

    start_add : start + k ≡ checked
    start_add = omega arith

    found :
        parse_line_loop (read_idx - checked) buf checked read_idx
        ≡ scan line_ok (cleared buf start xs ys) (start + length xs + 2)
    found =
        parse_line_loop-line (read_idx - checked) buf checked read_idx (start + length xs)
          (drop k xs) ys
          (ap (λ i. drop i buf) (sym start_add) ∙ drop-inside buf start xs ys e k (omega arith))
          (all-drop is_plain k xs p) (omega (arith, length-drop k xs)) (omega arith) room

    after : drop start (cleared buf start xs ys) ≡ xs ++ 0 ∷ 0 ∷ ys
    after = drop-cleared buf start xs ys e

    behind : drop (start + length xs + 2) (cleared buf start xs ys) ≡ ys
    behind =
        drop-set_lt _ (start + length xs + 1) _ 0 (omega arith)
        ∙ drop-set_lt buf (start + length xs) _ 0 (omega arith)
        ∙ drop-drop (start + length xs) 2 buf
        ∙ ap (drop 2) (drop-drop start (length xs) buf)
        ∙ ap (λ s. drop 2 (drop (length xs) s)) e
        ∙ ap (drop 2) (drop-append xs (13 ∷ 10 ∷ ys))

-- A line of bytes that are neither NUL, '\r' nor '\n', ended by "\r\n" among the bytes read, is found
-- from any point of it that an earlier scan reached: parse_line returns LINE_OK, the line stands in
-- the buffer as a C string at its start, the index stands behind the line's end, and the bytes that
-- follow are kept.
pub parse_line_complete :
    (c : Conn) (xs ys : List ℕ)
    → drop c.m_start_line c.m_read_buf ≡ xs ++ 13 ∷ 10 ∷ ys
    → all is_plain xs ≡ true
    → c.m_start_line ≤ c.m_checked_idx
    → c.m_checked_idx ≤ c.m_start_line + length xs
    → c.m_start_line + length xs + 2 ≤ c.m_read_idx
    → ((parse_line c).0 ≡ line_ok)
      × (text_at (parse_line c).1.m_read_buf c.m_start_line ≡ xs)
      × ((parse_line c).1.m_checked_idx ≡ c.m_start_line + length xs + 2)
      × (drop (parse_line c).1.m_checked_idx (parse_line c).1.m_read_buf ≡ ys)
unfolding parse_line
parse_line_complete c xs ys e p from to room =
    let (buf, found, text, behind) =
      line_found c.m_read_buf c.m_start_line c.m_checked_idx c.m_read_idx xs ys e p from to room in
    rw found (refl, text, refl, behind)
