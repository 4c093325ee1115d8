-- ===== src/Http/Line/Laws.antt =====
-- What parse_line does to the buffer and to the index of the bytes already checked.
use study_record.Common.{
  ℕ, zero, suc, ◌+◌, ◌-◌, ◌≤◌, ◌<◌, ◌≡◌, refl, ap, ◌∙◌, inl, inr, List, [], ◌∷◌, ◌++◌, Bool, true,
  false, not, ◌||◌, ◌==◌, Bool-cases, length, get_or, set, drop, all, length-set, drop-drop,
  get_or-drop, arith,
}
use study_record.Http.{line_ok, line_bad, line_open}
use study_record.Http.Line.{Scan, scan, at_cr, at_lf, parse_line_loop}

-- The scan stays inside the bytes read, keeps the buffer's size, and moves on when it finds a line.
pub record InBounds (buf : List ℕ) (checked read_idx : ℕ) (s : Scan) : Type 0 where
  pub forward : checked ≤ s.checked
  pub inside : s.checked ≤ read_idx
  pub size : length s.buf ≡ length buf
  pub moved : s.status ≡ line_ok → checked < s.checked

length-set_twice : (buf : List ℕ) (i j v w : ℕ) → length (set (set buf i v) j w) ≡ length buf
length-set_twice buf i j v w = length-set (set buf i v) j w ∙ length-set buf i v

pub parse_line_loop-InBounds :
    (left : ℕ) (buf : List ℕ) (checked read_idx : ℕ)
    → checked + left ≡ read_idx
    → InBounds buf checked read_idx (parse_line_loop left buf checked read_idx)
unfolding parse_line_loop
parse_line_loop-InBounds zero buf checked read_idx h = ground arith
parse_line_loop-InBounds (suc left) buf checked read_idx h = ground (
  arith,
  parse_line_loop-InBounds left buf (checked + 1) read_idx,
  length-set_twice buf checked (checked + 1) 0 0,
  length-set_twice buf (checked - 1) checked 0 0,
)

at_cr-open :
    (buf : List ℕ) (checked read_idx : ℕ)
    → (at_cr buf checked read_idx).status ≡ line_open
    → at_cr buf checked read_idx ≡ scan line_open buf checked
unfolding at_cr
at_cr-open buf checked read_idx e = ground arith

at_lf-not_open : (buf : List ℕ) (checked : ℕ) → (at_lf buf checked).status ≡ line_open → ⊥
unfolding at_lf
at_lf-not_open buf checked e = ground arith

-- `buf'` has the bytes of `buf` up to `end`.
abbrev pub Extends : List ℕ → List ℕ → ℕ → Type 0
Extends buf buf' end = (i : ℕ) → i < end → get_or buf' i 0 ≡ get_or buf i 0

-- When fewer bytes have come than a line needs, the scan changes nothing and stops where a scan of the
-- buffer with the bytes that come next takes it up.
pub parse_line_loop-resume :
    (left more : ℕ) (buf buf' : List ℕ) (checked read_idx later : ℕ)
    → checked + left ≡ read_idx
    → read_idx + more ≡ later
    → Extends buf buf' read_idx
    → (parse_line_loop left buf checked read_idx).status ≡ line_open
    → ((parse_line_loop left buf checked read_idx).buf ≡ buf)
      × (parse_line_loop
            (later - (parse_line_loop left buf checked read_idx).checked)
            buf'
            (parse_line_loop left buf checked read_idx).checked
            later
          ≡ parse_line_loop (later - checked) buf' checked later)
unfolding parse_line_loop
parse_line_loop-resume zero more buf buf' checked read_idx later h k x e = (refl, refl)
parse_line_loop-resume (suc left) more buf buf' checked read_idx later h k x e =
    let here : get_or buf' checked 0 ≡ get_or buf checked 0 = x checked (omega arith) in
    elim (Bool-cases (get_or buf checked 0 == 13)) [
      | inl cr ↦ rw (cr, at_cr-open buf checked read_idx (rw cr at e)) (refl, refl)
      | inr other ↦ elim (Bool-cases (get_or buf checked 0 == 10)) [
        | inl lf ↦ absurd (at_lf-not_open buf checked (rw (other, lf) at e))
        | inr plain ↦
            let step : later - checked ≡ suc (later - (checked + 1)) = omega arith in
            let other' : (get_or buf' checked 0 == 13) ≡ false = ap (λ b. b == 13) here ∙ other in
            let plain' : (get_or buf' checked 0 == 10) ≡ false = ap (λ b. b == 10) here ∙ plain in
            rw (other, plain, step, parse_line_loop, other', plain')
              (parse_line_loop-resume left more buf buf' (checked + 1) read_idx later (omega arith)
                k x (rw (other, plain) at e))
      ]
    ]

abbrev pub is_plain : ℕ → Bool
is_plain c = not (c == 0 || c == 13 || c == 10)

module _ (buf : List ℕ) (i x : ℕ) where
  get_or_of_drop : {s : List ℕ} → drop i buf ≡ x ∷ s → get_or buf i 0 ≡ x
  get_or_of_drop e = ground (arith, get_or-drop i 0 buf 0, ap (λ s. get_or s 0 0) e)

  get_or_of_drop_second : {y : ℕ} {s : List ℕ} → drop i buf ≡ x ∷ y ∷ s → get_or buf (i + 1) 0 ≡ y
  get_or_of_drop_second e = ground (arith, get_or-drop i 1 buf 0, ap (λ s. get_or s 1 0) e)

  drop_of_drop : {s : List ℕ} → drop i buf ≡ x ∷ s → drop (i + 1) buf ≡ s
  drop_of_drop e = drop-drop i 1 buf ∙ ap (drop 1) e

pub parse_line_loop-line :
    (left : ℕ) (buf : List ℕ) (checked read_idx end : ℕ) (xs ys : List ℕ)
    → drop checked buf ≡ xs ++ 13 ∷ 10 ∷ ys
    → all is_plain xs ≡ true
    → checked + length xs ≡ end
    → checked + left ≡ read_idx
    → end + 2 ≤ read_idx
    → parse_line_loop left buf checked read_idx
      ≡ scan line_ok (set (set buf end 0) (end + 1) 0) (end + 2)
unfolding parse_line_loop
parse_line_loop-line zero buf checked read_idx end xs ys e p q r h = absurd (omega arith)
parse_line_loop-line (suc left) buf checked read_idx end [] ys e p q r h =
    let here : checked ≡ end = omega arith in
    rw (← here)
      (ground (arith, get_or_of_drop buf checked 13 e, get_or_of_drop_second buf checked 13 e))
parse_line_loop-line (suc left) buf checked read_idx end (x ∷ xs) ys e p q r h = ground (
  arith,
  get_or_of_drop buf checked x e,
  parse_line_loop-line left buf (checked + 1) read_idx end xs ys (drop_of_drop buf checked x e),
)

-- Bytes from `from` up to `to` that end no line.
abbrev pub NoLineEnd : List ℕ → ℕ → ℕ → Type 0
NoLineEnd buf from to =
    (i : ℕ) → from ≤ i → i < to → (get_or buf i 0 == 13 || get_or buf i 0 == 10) ≡ false

-- Where no line ends, the scan reads to the end.
pub parse_line_loop-open :
    (left : ℕ) (buf : List ℕ) (checked read_idx : ℕ)
    → checked + left ≡ read_idx
    → NoLineEnd buf checked read_idx
    → parse_line_loop left buf checked read_idx ≡ scan line_open buf read_idx
unfolding parse_line_loop
parse_line_loop-open zero buf checked read_idx h p =
    let e : checked ≡ read_idx = omega arith in rw e refl
parse_line_loop-open (suc left) buf checked read_idx h p = ground (
  arith,
  p checked,
  parse_line_loop-open left buf (checked + 1) read_idx (omega arith) (λ i q r. p i (omega arith) r),
)

at_cr-bad :
    (buf buf' : List ℕ) (checked read_idx later : ℕ)
    → (at_cr buf checked read_idx).status ≡ line_bad
    → checked < read_idx
    → read_idx ≤ later
    → Extends buf buf' read_idx
    → (at_cr buf checked read_idx ≡ scan line_bad buf checked)
      × (at_cr buf' checked later ≡ scan line_bad buf' checked)
unfolding at_cr
at_cr-bad buf buf' checked read_idx later e h k x = elim (Bool-cases (checked + 1 == read_idx)) [
  | inl last ↦ absurd (ground arith)
  | inr more ↦ let next = x (checked + 1) (ground arith) in (ground arith, ground arith)
]

at_lf-bad :
    (buf buf' : List ℕ) (checked : ℕ)
    → (at_lf buf checked).status ≡ line_bad
    → get_or buf' (checked - 1) 0 ≡ get_or buf (checked - 1) 0
    → (at_lf buf checked ≡ scan line_bad buf checked)
      × (at_lf buf' checked ≡ scan line_bad buf' checked)
unfolding at_lf
at_lf-bad buf buf' checked e same = (ground arith, ground arith)

-- A scan that found a bad line has changed nothing, and finds it again when more bytes have come
-- behind those that it has seen.
pub parse_line_loop-bad :
    (left : ℕ) (buf buf' : List ℕ) (checked read_idx later : ℕ)
    → checked + left ≡ read_idx
    → read_idx ≤ later
    → Extends buf buf' read_idx
    → (parse_line_loop left buf checked read_idx).status ≡ line_bad
    → (end : ℕ) × (end < read_idx)
      × (parse_line_loop left buf checked read_idx ≡ scan line_bad buf end)
      × (parse_line_loop (later - end) buf' end later ≡ scan line_bad buf' end)
unfolding parse_line_loop
parse_line_loop-bad zero buf buf' checked read_idx later h k x e = cc
parse_line_loop-bad (suc left) buf buf' checked read_idx later h k x e =
    let step : later - checked ≡ suc (later - checked - 1) = omega arith in
    let here : get_or buf' checked 0 ≡ get_or buf checked 0 = x checked (omega arith) in
    elim (Bool-cases (get_or buf checked 0 == 13)) [
      | inl cr ↦
          let (now, after) =
            at_cr-bad buf buf' checked read_idx later (rw cr at e) (omega arith) k x in
          (checked, omega arith, rw cr now, rw (step, parse_line_loop, here, cr) after)
      | inr other ↦ elim (Bool-cases (get_or buf checked 0 == 10)) [
        | inl lf ↦
            let (now, after) =
              at_lf-bad buf buf' checked (rw (other, lf) at e) (x (checked - 1) (omega arith)) in
            (
              checked,
              omega arith,
              rw (other, lf) now,
              rw (step, parse_line_loop, here, other, lf) after,
            )
        | inr plain ↦
            let (end, inside, now, after) =
              parse_line_loop-bad left buf buf' (checked + 1) read_idx later (omega arith) k x
                (rw (other, plain) at e) in
            (end, inside, rw (other, plain) now, after)
      ]
    ]
