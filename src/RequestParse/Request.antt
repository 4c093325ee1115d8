-- ===== src/RequestParse/Request.antt =====
-- A whole request, as mine/practice/httpRequestParse.cpp reads it.
use study_record.Common.{
  ℕ, zero, suc, ◌+◌, ◌-◌, ◌<◌, ◌≤◌, ◌≡◌, ◌∙◌, refl, sym, ap, subst, List, [], ◌∷◌, ◌++◌,
  append_assoc, append-nil, true, codes, length, length-append, all, drop, take, length-replicate,
  arith,
}
use study_record.Common.Run.{Run, ok, Ends}
use study_record.Common.Bytes.{write_at, write_at-append, take-whole}
use study_record.Common.CString.{text_at, same_nocase}
use study_record.Http.Line.Laws.{is_plain}
use study_record.Http.RequestLine.Laws.{IsWords}
use study_record.Http.Receive.{Received, got}
use study_record.RequestParse.{
  CheckState, check_state_requestline, check_state_header, HttpCode, no_request, Parser,
  parse_requestline, after_requestline, by_state, content_loop, parse_content, correct, store,
  serve_loop, Serving, start, buffer_size,
}
use study_record.RequestParse.Words.{cut_line, parse_requestline_path, drop-cut_line}
use study_record.RequestParse.Headers.{
  wire, are_headers, IsTaken, line_round, length-wire, headers-IsTaken,
}

-- The request line, the header lines and the empty line.
abbrev pub request : List ℕ → List (List ℕ) → List ℕ
request line hs = line ++ 13 ∷ 10 ∷ wire hs

-- A line of GET, a path and HTTP/1.1, in any case and behind any blanks, and header lines.
pub record IsRequest (line : List ℕ) (hs : List (List ℕ)) : Type 0 where
  pub method : List ℕ
  pub url : List ℕ
  pub version : List ℕ
  pub rest : List ℕ
  pub words : IsWords line method url version
  pub path : url ≡ b'/' ∷ rest
  pub is_get : same_nocase method (codes "GET") ≡ true
  pub is_version : same_nocase version (codes "HTTP/1.1") ≡ true
  pub plain : all is_plain line ≡ true
  pub headers : are_headers hs ≡ true

by_requestline :
    (next : Parser → Run (HttpCode × Parser)) (st st' : CheckState) (temp : ℕ) (p : Parser)
    (buf : List ℕ)
    → st ≡ check_state_requestline
    → parse_requestline p.buffer temp p.check_state ≡ (no_request, buf, st')
    → by_state next st temp p ≡ next (record p { buffer = buf; check_state = st' })
unfolding by_state after_requestline
by_requestline next st st' temp p buf e f = rw (e, f) refl

-- The whole of a request stands among the bytes read, at the start of a line of which nothing is checked:
-- parse_content takes its request line and its header lines and returns GET_REQUEST.
pub parse_content-request :
    (p : Parser) (line : List ℕ) (hs : List (List ℕ)) (ys : List ℕ)
    → p.check_state ≡ check_state_requestline
    → p.start_line ≡ p.checked_index
    → drop p.checked_index p.buffer ≡ request line hs ++ ys
    → IsRequest line hs
    → p.checked_index + length (request line hs) ≤ p.read_index
    → Ends IsTaken (parse_content p)
unfolding parse_content
parse_content-request p line hs ys st at e v room =
    let k = p.read_index - p.checked_index in
    let size = length-append line (13 ∷ 10 ∷ wire hs) in
    let (buf, run, text, behind) =
      line_round k p line (wire hs ++ ys) at (e ∙ append_assoc line (13 ∷ 10 ∷ wire hs) ys) v.plain
        (omega (arith, room, size)) in
    let next = p.checked_index + length line + 2 in
    let q = record p { buffer = buf; checked_index = next; start_line = next } in
    let w : IsWords (text_at buf p.checked_index) v.method v.url v.version =
      subst (λ s. IsWords s v.method v.url v.version) (sym text) v.words in
    let cut =
      cut_line buf p.checked_index p.check_state v.method v.url v.version v.rest w v.path v.is_get
        v.is_version in
    let parsed =
      parse_requestline_path buf p.checked_index p.check_state v.method v.url v.version v.rest w
        v.path v.is_get v.is_version in
    let kept =
      drop-cut_line buf p.checked_index p.check_state v.method v.url v.version v.rest w v.path
        v.is_get v.is_version next (omega (arith, ap length text)) in
    let (r, run', taken) =
      headers-IsTaken hs ys k (record q { buffer = cut; check_state = check_state_header }) refl
        refl (kept ∙ behind) v.headers (omega (arith, room, size))
        (omega (arith, room, size, length-wire hs)) in
    (
      r,
      ap (λ j. content_loop j p) (omega arith)
          ∙ run
          ∙ by_requestline (content_loop k) p.check_state check_state_header p.checked_index q cut
              st parsed
          ∙ run',
      taken,
    )

take_then_drop : (n : ℕ) (xs : List ℕ) → xs ≡ take n xs ++ drop n xs
take_then_drop zero xs = refl
take_then_drop (suc n) [] = refl
take_then_drop (suc n) (x ∷ xs) = ap (◌∷◌ x) (take_then_drop n xs)

stored :
    (s buf : List ℕ)
    → length s ≤ length buf
    → write_at buf 0 s ≡ s ++ drop (length s) (write_at buf 0 s)
stored s buf le =
    take_then_drop (length s) (write_at buf 0 s)
    ∙ ap (λ t. t ++ drop (length s) (write_at buf 0 s))
        (ap (λ t. take (length s) (write_at buf 0 t)) (sym (append-nil s))
          ∙ write_at-append s [] buf 0 (length s) (omega arith) le)

received : List ℕ → Parser
received s = record start { buffer = write_at start.buffer 0 s; read_index = 0 + length s }

answered :
    (next : Parser → Run Serving) (s : List ℕ)
    → 0 < length s
    → Ends IsTaken (parse_content (received s))
    → store next s start ≡ ok correct
unfolding store received
answered next [] some_bytes v = absurd (omega arith)
answered next (x ∷ xs) some_bytes ((code, q), run, taken) = rw (run, taken) refl

-- A client sends a request of at most BUFFER_SIZE bytes, and all of it comes in one piece. Its line is
-- three words with blanks between them: GET in any case, a target that begins with '/', and HTTP/1.1
-- in any case; its headers are lines that are not empty, without NUL, '\r' and '\n', and an empty line
-- ends them. main answers that it is correct.
pub request_answered :
    (line : List ℕ) (hs : List (List ℕ)) (rest : List Received)
    → IsRequest line hs
    → length (request line hs) ≤ buffer_size
    → serve_loop (got (request line hs) ∷ rest) start ≡ ok correct
unfolding received serve_loop
request_answered line hs rest v le =
    let s = request line hs in
    ap (λ t. store (serve_loop rest) t start) (take-whole buffer_size s le)
    ∙ answered (serve_loop rest) s
        (omega (arith, length-append line (13 ∷ 10 ∷ wire hs), length-wire hs))
        (parse_content-request (received s) line hs (drop (length s) (write_at start.buffer 0 s))
          refl refl
          (stored s start.buffer (omega (arith, le, length-replicate {A = ℕ} buffer_size 0))) v
          (omega arith))
