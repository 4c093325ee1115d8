-- ===== src/Http/Read/HeaderLine.antt =====
-- A header line on its way through process_read of practice/http/httpConnection.cpp.
use study_record.Common.{
  ℕ, suc, ◌+◌, ◌^◌, ◌≤◌, ◌<◌, ◌≡◌, ◌∙◌, refl, ap, List, ◌∷◌, ◌++◌, true, ◌&&◌, all, length, drop,
  codes,
}
use study_record.Common.Run.{◌>>=◌}
use study_record.Common.Int.{pos}
use study_record.Common.CString.{is_blank, same_nocase}
use study_record.Http.{no_request, line_ok, LineStatus, check_state_header, FileSystem, Conn}
use study_record.Http.Line.{parse_line}
use study_record.Http.Line.Laws.{is_plain}
use study_record.Http.Line.Complete.{parse_line_complete}
use study_record.Http.Respond.{decimal}
use study_record.Http.Numbers.{decimal-starts}
use study_record.Http.Headers.{parse_headers}
use study_record.Http.Headers.Laws.{IsHeader, parse_headers_content_length}
use study_record.Http.Read.{
  is_content, is_ok, by_state, after_headers, after_round, round, process_read_loop,
}
use study_record.Http.Read.Stuck.{started, loop-takes_line}

module _ (k : ℕ) (fs : FileSystem) (st : LineStatus) (c : Conn)
    (state : c.m_check_state ≡ check_state_header) where
  header_round :
      (c' : Conn)
      → (parse_line c).0 ≡ line_ok
      → parse_headers (started fs (parse_line c).1) c.m_start_line ≡ (no_request, c')
      → process_read_loop (suc k) fs st c ≡ process_read_loop k fs line_ok c'
  unfolding round by_state after_headers parse_line
  header_round c' found taken =
      loop-takes_line k fs st c (ap (λ s. is_content s && is_ok st) state) (ap is_ok found)
      ∙ ap
          (λ s.
            by_state fs s (started fs (parse_line c).1) c.m_start_line
            >>= after_round (process_read_loop k fs))
          state
      ∙ ap (λ r. after_headers fs r >>= after_round (process_read_loop k fs)) taken

  -- A Content-Length line among the bytes read is taken in one round of the loop: the number is in
  -- m_content_length, the next line starts behind this one, and the bytes that follow are kept.
  pub content_length_line_taken :
      (n : ℕ) (name blanks ys : List ℕ)
      → (drop c.m_start_line c.m_read_buf ≡ (name ++ (blanks ++ decimal n)) ++ 13 ∷ 10 ∷ ys)
      → all is_plain (name ++ (blanks ++ decimal n)) ≡ true
      → c.m_start_line ≤ c.m_checked_idx
      → c.m_checked_idx ≤ c.m_start_line + length (name ++ (blanks ++ decimal n))
      → c.m_start_line + length (name ++ (blanks ++ decimal n)) + 2 ≤ c.m_read_idx
      → same_nocase name (codes "Content-Length:") ≡ true
      → all is_blank blanks ≡ true
      → n < 2 ^ 31
      → (c' : Conn) × (process_read_loop (suc k) fs st c ≡ process_read_loop k fs line_ok c')
        × (c'.m_content_length ≡ pos n)
        × (c'.m_start_line ≡ c.m_start_line + length (name ++ (blanks ++ decimal n)) + 2)
        × (c'.m_checked_idx ≡ c'.m_start_line)
        × (c'.m_check_state ≡ check_state_header)
        × (c'.m_read_idx ≡ c.m_read_idx)
        × (drop c'.m_start_line c'.m_read_buf ≡ ys)
  unfolding parse_line
  content_length_line_taken n name blanks ys shape plain from to room same blank lt =
      let line = name ++ (blanks ++ decimal n) in
      let (found, text, place, rest) = parse_line_complete c line ys shape plain from to room in
      let p = started fs (parse_line c).1 in
      let header : IsHeader p.m_read_buf c.m_start_line (codes "Content-Length:") name blanks
          (decimal n) =
        record { shape = text; same = same; blank = blank; start = decimal-starts n } in
      let taken = parse_headers_content_length p c.m_start_line n name blanks header lt in
      let c' = record p { m_content_length = pos n } in
      (c', header_round c' found taken, refl, place, refl, state, refl, rest)
