-- ===== src/Http/Read/Stuck.antt =====
-- Requests that process_read never answers, and content that it takes whole.
use study_record.Common.{
  ℕ, suc, ◌+◌, ◌-◌, ◌*◌, ◌≤◌, ◌<◌, ◌≡◌, refl, ◌∙◌, ap, true, false, ◌&&◌, ◌||◌, ◌==◌, subst, List,
  length, set, ◌^◌, arith,
}
use study_record.Common.Run.{Run, ok, fault, out_of_fuel, ◌>>=◌}
use study_record.Common.Int.{pos}
use study_record.Http.{
  HttpCode, no_request, get_request, LineStatus, line_ok, line_bad, line_open, check_state_content,
  FileSystem, Conn,
}
use study_record.Http.Line.{scan, parse_line_loop, parse_line}
use study_record.Http.Line.Laws.{Extends, NoLineEnd, parse_line_loop-open, parse_line_loop-bad}
use study_record.Http.Content.{parse_content, do_request}
use study_record.Http.Read.{
  return, again, after_content, by_state, round, after_round, is_content, is_ok, process_read_loop,
  process_read,
}

-- Twice a number and two, as the fuel of two rounds and more.
pub two_rounds : (d : ℕ) → 2 * d + 2 ≡ suc (suc (2 * d))
two_rounds d = omega arith

module _ (c : Conn) (n : ℕ) (e : c.m_content_length ≡ pos n)
    (r : n + c.m_checked_idx < 2 ^ 31) where
  parse_content_waits :
      (text : ℕ) → c.m_read_idx < n + c.m_checked_idx → parse_content c text ≡ ok (no_request, c)
  unfolding parse_content
  parse_content_waits text h = rw e (ground arith)

  parse_content_whole :
      (text : ℕ)
      → n + c.m_checked_idx ≤ c.m_read_idx
      → text + n < length c.m_read_buf
      → parse_content c text
        ≡ ok (get_request, record c { m_read_buf = set c.m_read_buf (text + n) 0 })
  unfolding parse_content
  parse_content_whole text h w = rw e (ground arith)

module _ (k : ℕ) (fs : FileSystem) (st : LineStatus) (c : Conn) where
  pub loop-skips_line :
      (is_content c.m_check_state && is_ok st) ≡ true
      → process_read_loop (suc k) fs st c ≡ (round fs c >>= after_round (process_read_loop k fs))
  unfolding process_read_loop
  loop-skips_line e = rw e refl

  pub loop-takes_line :
      (is_content c.m_check_state && is_ok st) ≡ false
      → is_ok (parse_line c).0 ≡ true
      → process_read_loop (suc k) fs st c
        ≡ (round fs (parse_line c).1 >>= after_round (process_read_loop k fs))
  unfolding process_read_loop
  loop-takes_line e h = rw (e, h) refl

  loop-stops :
      (is_content c.m_check_state && is_ok st) ≡ false
      → is_ok (parse_line c).0 ≡ false
      → process_read_loop (suc k) fs st c ≡ ok (no_request, (parse_line c).1)
  unfolding process_read_loop
  loop-stops e h = rw (e, h) refl

module _ (fs : FileSystem) (c : Conn) where
  abbrev pub started : Conn
  started = record c { m_start_line = c.m_checked_idx }

  pub round-content :
      c.m_check_state ≡ check_state_content
      → round fs c ≡ (parse_content started c.m_start_line >>= after_content fs)
  unfolding round by_state
  round-content s = ap (λ t. by_state fs t started c.m_start_line) s

  parse_line-open :
      c.m_checked_idx ≤ c.m_read_idx
      → NoLineEnd c.m_read_buf c.m_checked_idx c.m_read_idx
      → parse_line c ≡ (line_open, record c { m_checked_idx = c.m_read_idx })
  unfolding parse_line
  parse_line-open h p =
      rw
        (parse_line_loop-open (c.m_read_idx - c.m_checked_idx) c.m_read_buf c.m_checked_idx
          c.m_read_idx (omega arith) p)
        refl

module _ (fs : FileSystem) (c : Conn) (n : ℕ) (s : c.m_check_state ≡ check_state_content)
    (e : c.m_content_length ≡ pos n) (r : n + c.m_checked_idx < 2 ^ 31) where
  round_waits :
      c.m_read_idx < n + c.m_checked_idx → round fs c ≡ ok (again line_open (started fs c))
  unfolding after_content
  round_waits h =
      round-content fs c s
      ∙ ap (λ m. m >>= after_content fs) (parse_content_waits (started fs c) n e r c.m_start_line h)

  -- While the body is short by the parser's count, and its bytes end no line, process_read waits, and
  -- counts all that was read as checked.
  content_waits :
      c.m_checked_idx ≤ c.m_read_idx
      → c.m_read_idx < n + c.m_checked_idx
      → NoLineEnd c.m_read_buf c.m_checked_idx c.m_read_idx
      → process_read fs c ≡ ok (no_request, record (started fs c) { m_checked_idx = c.m_read_idx })
  unfolding process_read
  content_waits k h p =
      let d = 2 * (c.m_read_idx - c.m_checked_idx) in
      let line = parse_line-open fs (started fs c) k p in
      ap (λ f. process_read_loop f fs line_ok c) (two_rounds (c.m_read_idx - c.m_checked_idx))
      ∙ loop-skips_line (suc d) fs line_ok c (ap (λ t. is_content t && true) s)
      ∙ ap (λ m. m >>= after_round (process_read_loop (suc d) fs)) (round_waits h)
      ∙ loop-stops d fs line_open (started fs c) (ap (λ t. is_content t && false) s)
          (ap (λ l. is_ok l.0) line)
      ∙ ap (λ l. ok (no_request, l.1)) line

bind-return :
    (next : LineStatus → Conn → Run (HttpCode × Conn)) (m : Run (HttpCode × Conn))
    → (m >>= (λ (code, c). ok (return code c)) >>= after_round next) ≡ m
bind-return next (ok (code, c)) = refl
bind-return next fault = refl
bind-return next out_of_fuel = refl

-- In the content state, when the body has come whole (the content length, with the bytes checked, is
-- within those read and within the range of `int`, and the byte behind the body is in the buffer),
-- process_read answers the request at once.
pub process_read_content_whole :
    (fs : FileSystem) (c : Conn) (n : ℕ)
    → c.m_check_state ≡ check_state_content
    → c.m_content_length ≡ pos n
    → n + c.m_checked_idx ≤ c.m_read_idx
    → c.m_read_idx < 2 ^ 31
    → c.m_start_line + n < length c.m_read_buf
    → process_read fs c
      ≡ do_request fs (record c {
        m_start_line = c.m_checked_idx;
        m_read_buf = set c.m_read_buf (c.m_start_line + n) 0;
      })
unfolding process_read after_content
process_read_content_whole fs c n s e h r w =
    let d = 2 * (c.m_read_idx - c.m_checked_idx) in
    let next = process_read_loop (suc d) fs in
    let body = parse_content_whole (started fs c) n e (omega arith) c.m_start_line h w in
    ap (λ f. process_read_loop f fs line_ok c) (two_rounds (c.m_read_idx - c.m_checked_idx))
    ∙ loop-skips_line (suc d) fs line_ok c (ap (λ t. is_content t && true) s)
    ∙ ap (λ m. m >>= after_round next)
        (round-content fs c s ∙ ap (λ m. m >>= after_content fs) body)
    ∙ bind-return next (do_request fs _)

-- A body of `n` bytes comes in two pieces, in the content state. The first holds some bytes of it but
-- not all: process_read returns NO_REQUEST. Then recv stores the rest of the body, and perhaps more,
-- behind those bytes; all of them are in the buffer `buf`. Where fewer than `n` bytes have come behind
-- the first piece, and no byte behind the headers is '\r' or '\n', process_read returns NO_REQUEST
-- again, with the whole body in the buffer: it has counted the first piece as checked, and asks for the
-- whole content length behind it. (The sum of the length and the index is in the range of `int`.)
pub process_read_content_split :
    (fs : FileSystem) (c : Conn) (n : ℕ) (buf : List ℕ) (later : ℕ)
    → c.m_check_state ≡ check_state_content
    → c.m_content_length ≡ pos n
    → c.m_checked_idx < c.m_read_idx
    → c.m_read_idx < n + c.m_checked_idx
    → n + c.m_checked_idx ≤ later
    → later < n + c.m_read_idx
    → n + c.m_read_idx < 2 ^ 31
    → Extends c.m_read_buf buf c.m_read_idx
    → NoLineEnd buf c.m_checked_idx later
    → (c1 : Conn) × (c2 : Conn) × (process_read fs c ≡ ok (no_request, c1))
      × (process_read fs (record c1 { m_read_buf = buf; m_read_idx = later }) ≡ ok (no_request, c2))
process_read_content_split fs c n buf later s e h r w b m x p =
    let p1 : NoLineEnd c.m_read_buf c.m_checked_idx c.m_read_idx =
      λ i q t. subst (λ y. (y == 13 || y == 10) ≡ false) (x i t) (p i q (omega (arith, t))) in
    (
      record (started fs c) { m_checked_idx = c.m_read_idx },
      _,
      content_waits fs c n s e (omega arith) (omega arith) r p1,
      content_waits fs
          (record (started fs c) {
            m_read_buf = buf;
            m_checked_idx = c.m_read_idx;
            m_read_idx = later;
          })
          n s e m (omega arith) b (λ i q t. p i (omega (arith, q)) t),
    )

stops_at_bad :
    (fs : FileSystem) (c : Conn) (end : ℕ)
    → is_content c.m_check_state ≡ false
    → parse_line_loop (c.m_read_idx - c.m_checked_idx) c.m_read_buf c.m_checked_idx c.m_read_idx
      ≡ scan line_bad c.m_read_buf end
    → process_read fs c ≡ ok (no_request, record c { m_checked_idx = end })
unfolding process_read parse_line
stops_at_bad fs c end s e =
    let d = 2 * (c.m_read_idx - c.m_checked_idx) in
    ap (λ f. process_read_loop f fs line_ok c) (two_rounds (c.m_read_idx - c.m_checked_idx))
    ∙ loop-stops (suc d) fs line_ok c (ap (λ t. t && true) s) (ap (λ t. is_ok t.status) e)
    ∙ ap (λ t. ok (no_request, record c { m_read_buf = t.buf; m_checked_idx = t.checked })) e

-- Outside the content state, a line that parse_line finds bad is never answered: process_read returns
-- NO_REQUEST, as it does for a line that is not complete. It returns it again after recv has stored any
-- bytes behind those read, which gives the buffer `buf`, and then changes nothing of the connection.
pub process_read_bad_line :
    (fs : FileSystem) (c : Conn) (buf : List ℕ) (later : ℕ)
    → c.m_checked_idx ≤ c.m_read_idx
    → c.m_read_idx ≤ later
    → Extends c.m_read_buf buf c.m_read_idx
    → is_content c.m_check_state ≡ false
    → (parse_line c).0 ≡ line_bad
    → (end : ℕ) × (process_read fs c ≡ ok (no_request, record c { m_checked_idx = end }))
      × (process_read fs (record c { m_read_buf = buf; m_checked_idx = end; m_read_idx = later })
          ≡ ok (no_request, record c { m_read_buf = buf; m_checked_idx = end; m_read_idx = later }))
unfolding process_read parse_line
process_read_bad_line fs c buf later h k x s e =
    let (end, inside, now, after) =
      parse_line_loop-bad (c.m_read_idx - c.m_checked_idx) c.m_read_buf buf c.m_checked_idx
        c.m_read_idx later (omega arith) k x e in
    (
      end,
      stops_at_bad fs c end s now,
      stops_at_bad fs (record c { m_read_buf = buf; m_checked_idx = end; m_read_idx = later }) end s
          after,
    )
