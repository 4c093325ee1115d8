-- ===== src/Http/Respond/Laws.antt =====
-- What add_response and the functions built on it leave in the write buffer.
use study_record.Common.{
  ℕ, zero, suc, ◌+◌, ◌-◌, ◌≤◌, ◌<◌, ◌≡◌, refl, ap, ◌∙◌, List, [], ◌∷◌, ◌++◌, Bool, true, false, leb,
  ◌==◌, inl, inr, Bool-cases, length, take, length-append, arith,
}
use study_record.Common.Int.{ℤ, pos}
use study_record.Http.{write_buffer_size, Conn}
use study_record.Common.Bytes.{write_at, length-write_at, take-write_at, write_at-append}
use study_record.Http.Respond.{
  vsnprintf, add_response, add_headers, status_line, content_length_line, linger_line, crlf,
}

take-length_le : (k : ℕ) (s : List ℕ) → length s ≤ k → take k s ≡ s
take-length_le zero [] h = refl
take-length_le zero (x ∷ s) h = absurd (omega arith)
take-length_le (suc k) [] h = refl
take-length_le (suc k) (x ∷ s) h = ap (◌∷◌ x) (take-length_le k s (omega arith))

-- The write buffer has its size, and its first `idx` bytes are the text.
pub record Holds (buf : List ℕ) (idx : ℕ) (text : List ℕ) : Type 0 where
  pub count : idx ≡ length text
  pub bytes : take idx buf ≡ text
  pub size : length buf ≡ write_buffer_size

abbrev pub with_text : Conn → List ℕ → ℕ → Conn
with_text c buf idx = record c { m_write_buf = buf; m_write_idx = idx }

vsnprintf-fits :
    (buf : List ℕ) (i n : ℕ) (s : List ℕ)
    → length s < n
    → vsnprintf buf i n s ≡ write_at buf i (s ++ 0 ∷ [])
unfolding vsnprintf
vsnprintf-fits buf i n s h =
    let some_room : (n == 0) ≡ false = ground arith in
    rw (some_room, take-length_le (n - 1) s (omega arith)) refl

-- A text that leaves a byte for the NUL and one more is appended whole.
pub add_response-append :
    (c : Conn) (buf : List ℕ) (idx : ℕ) (text s : List ℕ)
    → Holds buf idx text
    → length text + length s < write_buffer_size - 1
    → (buf' : List ℕ) × (add_response (with_text c buf idx) s
        ≡ (true, with_text c buf' (idx + length s)))
      × Holds buf' (idx + length s) (text ++ s)
unfolding add_response
add_response-append c buf idx text s h fits =
    let buf' = write_at buf idx (s ++ 0 ∷ []) in
    let start = h.count in
    let total = h.size in
    let stored : vsnprintf buf idx (write_buffer_size - idx - 1) s ≡ buf' =
      vsnprintf-fits buf idx (write_buffer_size - idx - 1) s (omega arith) in
    (
      buf',
      rw (← stored) (ground arith),
      record {
        count = omega (arith, length-append text s);
        bytes =
            write_at-append s (0 ∷ []) buf idx (idx + length s) refl (omega arith)
            ∙ ap (λ p. p ++ s) h.bytes;
        size = length-write_at (s ++ 0 ∷ []) buf idx ∙ h.size;
      },
    )

vsnprintf-kept :
    (buf : List ℕ) (i n : ℕ) (s : List ℕ)
    → (take i (vsnprintf buf i n s) ≡ take i buf) × (length (vsnprintf buf i n s) ≡ length buf)
unfolding vsnprintf
vsnprintf-kept buf i n s = elim (Bool-cases (n == 0)) [
  | inl e ↦ rw e (refl, refl)
  | inr e ↦
      let stored = take (n - 1) s ++ 0 ∷ [] in
      rw e (take-write_at stored buf i i (omega arith), length-write_at stored buf i)
]

-- A text that is too long is refused, and what was written before it stays.
pub add_response-refuse :
    (c : Conn) (buf : List ℕ) (idx : ℕ) (text s : List ℕ)
    → Holds buf idx text
    → write_buffer_size - 1 ≤ length text + length s
    → (buf' : List ℕ) × (add_response (with_text c buf idx) s ≡ (false, with_text c buf' idx))
      × Holds buf' idx text
unfolding add_response
add_response-refuse c buf idx text s h full = elim (Bool-cases (leb write_buffer_size idx)) [
  | inl over ↦ (buf, rw over refl, h)
  | inr under ↦
      let room = write_buffer_size - idx - 1 in
      let (bytes, size) = vsnprintf-kept buf idx room s in
      let start = h.count in
      let long : leb room (length s) ≡ true = ground arith in
      (
        vsnprintf buf idx room s,
        rw (under, long) refl,
        record { count = h.count; bytes = bytes ∙ h.bytes; size = size ∙ h.size },
      )
]

-- What one of the program's own pages looks like on the wire.
abbrev pub page : Bool → ℕ → List ℕ → List ℕ → List ℕ
page linger status title form =
    ((((status_line status title ++ content_length_line (pos (length form))) ++ linger_line linger)
        ++ crlf)
      ++ form)

abbrev pub headers : Bool → List ℕ → ℤ → List ℕ
headers linger first n = ((first ++ content_length_line n) ++ linger_line linger) ++ crlf

module _ (c : Conn) (buf : List ℕ) (idx : ℕ) (text : List ℕ) (n : ℤ) (h : Holds buf idx text) where
  -- The three header lines behind a text, when all of it fits.
  pub add_headers-append :
      length (headers c.m_linger text n) < write_buffer_size - 1
      → (buf' : List ℕ) × (end : ℕ) × (add_headers (with_text c buf idx) n
          ≡ (true, with_text c buf' end))
        × Holds buf' end (headers c.m_linger text n)
  unfolding add_headers
  add_headers-append fits =
      let s1 = content_length_line n in
      let s2 = linger_line c.m_linger in
      let l1 = length-append text s1 in
      let l2 = length-append (text ++ s1) s2 in
      let l3 = length-append ((text ++ s1) ++ s2) crlf in
      let (b1, e1, h1) = add_response-append c buf idx text s1 h (omega arith) in
      let i1 = idx + length s1 in
      let (b2, e2, h2) = add_response-append c b1 i1 (text ++ s1) s2 h1 (omega arith) in
      let i2 = i1 + length s2 in
      let (b3, e3, h3) = add_response-append c b2 i2 ((text ++ s1) ++ s2) crlf h2 (omega arith) in
      (b3, i2 + length crlf, rw (e1, e2, e3) refl, h3)
