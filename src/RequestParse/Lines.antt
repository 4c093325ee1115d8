-- ===== src/RequestParse/Lines.antt =====
-- parse_content of mine/practice/httpRequestParse.cpp ends on every buffer.
use study_record.Common.{ℕ, zero, suc, ◌+◌, ◌-◌, ◌<◌, ◌≤◌, ◌≡◌, ◌∙◌, refl, arith}
use study_record.Common.Run.{Run, Ends}
use study_record.Http.{LineStatus, line_ok, line_bad, line_open}
use study_record.Http.Line.{parse_line_loop}
use study_record.Http.Line.Laws.{parse_line_loop-InBounds}
use study_record.RequestParse.{
  CheckState, check_state_requestline, check_state_header, HttpCode, no_request, get_request,
  bad_request, Parser, parse_line, parse_requestline, parse_headers, after_requestline,
  after_headers, by_state, by_line, content_loop, parse_content,
}

-- The state after reading on from `i`: the checked index has not moved back nor past the bytes read.
abbrev pub Within : ℕ → ℕ → HttpCode × Parser → Type 0
Within i n (code, p) = (i ≤ p.checked_index) × (p.checked_index ≤ n) × (p.read_index ≡ n)

module _ (i n : ℕ) (next : Parser → Run (HttpCode × Parser)) (p : Parser)
    (go : Ends (Within i n) (next p)) (here : Within i n (no_request, p)) where
  after_requestline-Ends : (code : HttpCode) → Ends (Within i n) (after_requestline next code p)
  unfolding after_requestline
  after_requestline-Ends bad_request = ((bad_request, p), refl, here)
  after_requestline-Ends code = go

  after_headers-Ends : (code : HttpCode) → Ends (Within i n) (after_headers next code p)
  unfolding after_headers
  after_headers-Ends bad_request = ((bad_request, p), refl, here)
  after_headers-Ends get_request = ((get_request, p), refl, here)
  after_headers-Ends code = go

by_state-Ends :
    (i n : ℕ) (next : Parser → Run (HttpCode × Parser)) (st : CheckState) (temp : ℕ) (p : Parser)
    → Within i n (no_request, p)
    → ((q : Parser)
        → q.checked_index ≡ p.checked_index
        → q.read_index ≡ p.read_index
        → Ends (Within i n) (next q))
    → Ends (Within i n) (by_state next st temp p)
unfolding by_state
by_state-Ends i n next check_state_requestline temp p w go =
    let (code, buf, st) = parse_requestline p.buffer temp p.check_state in
    let q = record p { buffer = buf; check_state = st } in
    after_requestline-Ends i n next q (go q refl refl) w code
by_state-Ends i n next check_state_header temp p w go =
    after_headers-Ends i n next p (go p refl refl) w (parse_headers p.buffer temp)

by_line-Ends :
    (i n : ℕ) (next : Parser → Run (HttpCode × Parser)) (st : LineStatus) (q : Parser)
    → Within i n (no_request, q)
    → (st ≡ line_ok
        → (r : Parser) → r.checked_index ≡ q.checked_index
        → r.read_index ≡ q.read_index
        → Ends (Within i n) (next r))
    → Ends (Within i n) (by_line next st q)
unfolding by_line
by_line-Ends i n next line_open q w go = ((no_request, q), refl, w)
by_line-Ends i n next line_bad q w go = ((bad_request, q), refl, w)
by_line-Ends i n next line_ok q w go =
    by_state-Ends i n next q.check_state q.start_line (record q { start_line = q.checked_index }) w
      (go refl)

content_loop-Ends :
    (k i n : ℕ) (p : Parser)
    → Within i n (no_request, p)
    → n - p.checked_index < k
    → Ends (Within i n) (content_loop k p)
unfolding content_loop parse_line
content_loop-Ends zero i n p w f = absurd (omega arith)
content_loop-Ends (suc k) i n p w f =
    let left = p.read_index - p.checked_index in
    let s = parse_line_loop left p.buffer p.checked_index p.read_index in
    let b =
      parse_line_loop-InBounds left p.buffer p.checked_index p.read_index
        (omega (arith, w.1, w.2)) in
    by_line-Ends i n (content_loop k) s.status
      (record p { buffer = s.buf; checked_index = s.checked })
      (omega (arith, w.0, b.forward), omega (arith, w.2, b.inside), w.2)
      (λ e r at same.
        content_loop-Ends k i n r
          (omega (arith, w.0, b.forward, at), omega (arith, w.2, b.inside, at), same ∙ w.2)
          (omega (arith, b.moved e, f, at, b.inside, w.2)))

-- Whatever the buffer holds, with the checked index within the bytes read, parse_content returns: it
-- reads no null pointer, its loop needs no more rounds than there are unchecked bytes and one, and the
-- checked index has not moved back nor past the bytes read.
pub parse_content-Ends :
    (p : Parser)
    → p.checked_index ≤ p.read_index
    → Ends (Within p.checked_index p.read_index) (parse_content p)
unfolding parse_content
parse_content-Ends p le =
    content_loop-Ends (p.read_index - p.checked_index + 1) p.checked_index p.read_index p
      (omega arith, le, refl) (omega arith)
