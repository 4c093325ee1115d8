-- ===== src/RequestParse/Headers.antt =====
-- The header lines of a request, as mine/practice/httpRequestParse.cpp reads them.
use study_record.Common.{
  ℕ, zero, suc, ◌+◌, ◌<◌, ◌≤◌, ◌≡◌, ◌∙◌, refl, List, [], ◌∷◌, ◌++◌, append_assoc, Bool, true, false,
  ◌==◌, inl, inr, Bool-cases, if◌then◌else◌, codes, length, length-append, all, drop, get_or,
  get_or-drop, arith,
}
use study_record.Common.Run.{Run, Ends}
use study_record.Common.CString.{c_str, text_at, starts_nocase}
use study_record.Common.CString.Laws.{get_or_of_text}
use study_record.Http.Line.Laws.{is_plain}
use study_record.Http.Line.Complete.{line_found}
use study_record.RequestParse.{
  CheckState, check_state_header, HttpCode, no_request, get_request, Parser, parse_line,
  parse_headers, after_headers, by_state, by_line, content_loop,
}

-- The header lines and the empty line as they come over the wire.
abbrev pub wire : List (List ℕ) → List ℕ
wire [] = 13 ∷ 10 ∷ []
wire (h ∷ hs) = h ++ 13 ∷ 10 ∷ wire hs

-- A header line is not empty, and has no NUL, CR and LF.
abbrev pub is_header : List ℕ → Bool
is_header [] = false
is_header (x ∷ xs) = all is_plain (x ∷ xs)

abbrev pub are_headers : List (List ℕ) → Bool
are_headers = all is_header

-- A round of the loop at a whole line.
pub line_round :
    (k : ℕ) (p : Parser) (xs ys : List ℕ)
    → p.start_line ≡ p.checked_index
    → drop p.checked_index p.buffer ≡ xs ++ 13 ∷ 10 ∷ ys
    → all is_plain xs ≡ true
    → p.checked_index + length xs + 2 ≤ p.read_index
    → (buf : List ℕ) × (content_loop (suc k) p
        ≡ by_state (content_loop k) p.check_state p.checked_index (record p {
          buffer = buf;
          checked_index = p.checked_index + length xs + 2;
          start_line = p.checked_index + length xs + 2;
        }))
      × (text_at buf p.checked_index ≡ xs)
      × (drop (p.checked_index + length xs + 2) buf ≡ ys)
unfolding content_loop by_line parse_line
line_round k p xs ys at e plain room =
    let (buf, run, text, behind) =
      line_found p.buffer p.checked_index p.checked_index p.read_index xs ys e plain (omega arith)
        (omega arith) room in
    (buf, rw (run, at) refl, text, behind)

get_or_of_empty : (buf : List ℕ) (i : ℕ) → text_at buf i ≡ [] → get_or buf i 0 ≡ 0
get_or_of_empty buf i e = ground (arith, get_or-drop i 0 buf 0, first (drop i buf) e)
  where
    first : (t : List ℕ) → c_str t ≡ [] → get_or t 0 0 ≡ 0
    first [] h = refl
    first (y ∷ t) h = elim (Bool-cases (y == 0)) [
      | inl f ↦ ground (arith, f)
      | inr f ↦ absurd (let g : c_str (y ∷ t) ≡ y ∷ c_str t = rw f refl in cc)
    ]

parse_headers_blank :
    (buf : List ℕ) (temp : ℕ) → text_at buf temp ≡ [] → parse_headers buf temp ≡ get_request
unfolding parse_headers
parse_headers_blank buf temp e = rw (get_or_of_empty buf temp e) refl

parse_headers_line :
    (buf : List ℕ) (temp : ℕ) (h : List ℕ)
    → text_at buf temp ≡ h
    → is_header h ≡ true
    → parse_headers buf temp ≡ no_request
unfolding parse_headers
parse_headers_line buf temp [] e p = cc
parse_headers_line buf temp (x ∷ xs) e p =
    let some_byte : (get_or buf temp 0 == 0) ≡ false =
      ground (arith, get_or_of_text buf temp x e, p) in
    rw some_byte (either (starts_nocase (text_at buf temp) (codes "Host:")))
  where
    either : (b : Bool) → ◌≡◌ {A = HttpCode} (if b then no_request else no_request) no_request
    either true = refl
    either false = refl

plain_header : (h : List ℕ) → is_header h ≡ true → all is_plain h ≡ true
plain_header [] e = refl
plain_header (x ∷ xs) e = e

pub length-wire : (hs : List (List ℕ)) → length hs < length (wire hs)
length-wire [] = omega arith
length-wire (h ∷ hs) = omega (arith, length-wire hs, length-append h (13 ∷ 10 ∷ wire hs))

abbrev pub IsTaken : HttpCode × Parser → Type 0
IsTaken (code, p) = code ≡ get_request

pub by_header :
    (next : Parser → Run (HttpCode × Parser)) (st : CheckState) (temp : ℕ) (p : Parser)
    (code : HttpCode)
    → st ≡ check_state_header
    → parse_headers p.buffer temp ≡ code
    → by_state next st temp p ≡ after_headers next code p
unfolding by_state
by_header next st temp p code e f = rw (e, f) refl

pub headers-IsTaken :
    (hs : List (List ℕ)) (ys : List ℕ) (k : ℕ) (p : Parser)
    → p.check_state ≡ check_state_header
    → p.start_line ≡ p.checked_index
    → drop p.checked_index p.buffer ≡ wire hs ++ ys
    → are_headers hs ≡ true
    → p.checked_index + length (wire hs) ≤ p.read_index
    → length hs < k
    → Ends IsTaken (content_loop k p)
unfolding after_headers
headers-IsTaken hs ys zero p st at e plain room f = absurd (omega arith)
headers-IsTaken [] ys (suc k) p st at e plain room f =
    let (buf, run, text, behind) = line_round k p [] ys at e refl (omega arith) in
    let q = record p {
      buffer = buf;
      checked_index = p.checked_index + 0 + 2;
      start_line = p.checked_index + 0 + 2;
    } in
    (
      (get_request, q),
      run
          ∙ by_header (content_loop k) p.check_state p.checked_index q get_request st
              (parse_headers_blank buf p.checked_index text),
      refl,
    )
headers-IsTaken (h ∷ hs) ys (suc k) p st at e plain room f =
    let size = length-append h (13 ∷ 10 ∷ wire hs) in
    let here : is_header h ≡ true = ground (arith, plain) in
    let (buf, run, text, behind) =
      line_round k p h (wire hs ++ ys) at (e ∙ append_assoc h (13 ∷ 10 ∷ wire hs) ys)
        (plain_header h here) (omega (arith, room, size)) in
    let next = p.checked_index + length h + 2 in
    let q = record p { buffer = buf; checked_index = next; start_line = next } in
    let (r, run', taken) =
      headers-IsTaken hs ys k q st refl behind (ground (arith, plain)) (omega (arith, room, size))
        (omega (arith, f)) in
    (
      r,
      run
          ∙ by_header (content_loop k) p.check_state p.checked_index q no_request st
              (parse_headers_line buf p.checked_index h text here)
          ∙ run',
      taken,
    )
