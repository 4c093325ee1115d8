-- ===== src/Http/Numbers.antt =====
-- The numbers of practice/http/httpConnection.cpp: what "%d" prints, atol reads.
use Prim.Native.Nat.{min}
use study_record.Common.{
  ℕ, zero, suc, ◌+◌, ◌-◌, ◌*◌, ◌/◌, ◌%◌, ◌^◌, ◌<◌, ◌≡◌, ◌∙◌, refl, sym, ap, inl, inr, Bool, true,
  false, ◌&&◌, List, [], ◌∷◌, ◌++◌, leb, ltb, Bool-cases, all, arith,
}
use study_record.Common.CString.{is_blank}
use study_record.Common.CString.Laws.{starts_not}
use study_record.Common.Int.{pos, int_of_bits}
use study_record.Http.Headers.{digits_value, skip_space, atol_sign, int_of_atol}
use study_record.Http.Respond.{decimal, decimal_loop}

abbrev is_digit : ℕ → Bool
is_digit c = leb b'0' c && leb c b'9'

digits_value-append :
    (s : List ℕ) (d acc : ℕ)
    → all is_digit s ≡ true
    → is_digit d ≡ true
    → digits_value acc (s ++ d ∷ []) ≡ digits_value acc s * 10 + (d - b'0')
unfolding digits_value
digits_value-append [] d acc h g = ground arith
digits_value-append (x ∷ s) d acc h g =
    ground (arith, digits_value-append s d (acc * 10 + (x - b'0')))

all-append :
    (s : List ℕ) (d : ℕ)
    → all is_digit s ≡ true
    → is_digit d ≡ true
    → all is_digit (s ++ d ∷ []) ≡ true
all-append [] d h g = ground arith
all-append (x ∷ s) d h g = ground (arith, all-append s d)

decimal_loop-small : (k n : ℕ) → ltb n 10 ≡ true → decimal_loop (suc k) n ≡ (b'0' + n) ∷ []
unfolding decimal_loop
decimal_loop-small k n h = rw (h, decimal_loop) refl

decimal_loop-large :
    (k n : ℕ)
    → ltb n 10 ≡ false
    → decimal_loop (suc k) n ≡ decimal_loop k (n / 10) ++ (b'0' + n % 10) ∷ []
unfolding decimal_loop
decimal_loop-large k n h = rw (h, decimal_loop) refl

decimal_loop-digits : (k n : ℕ) → all is_digit (decimal_loop k n) ≡ true
unfolding decimal_loop
decimal_loop-digits zero n = refl
decimal_loop-digits (suc k) n = elim (Bool-cases (ltb n 10)) [
  | inl small ↦ ap (all is_digit) (decimal_loop-small k n small) ∙ ground arith
  | inr large ↦
      ap (all is_digit) (decimal_loop-large k n large)
      ∙ all-append (decimal_loop k (n / 10)) (b'0' + n % 10) (decimal_loop-digits k (n / 10))
          (ground arith)
]

digits_value-one : (n : ℕ) → ltb n 10 ≡ true → digits_value 0 ((b'0' + n) ∷ []) ≡ n
unfolding digits_value
digits_value-one n h = ground arith

digits_value-decimal : (k n : ℕ) → n < k → digits_value 0 (decimal_loop k n) ≡ n
digits_value-decimal zero n h = absurd (omega arith)
digits_value-decimal (suc k) n h = elim (Bool-cases (ltb n 10)) [
  | inl small ↦ ap (digits_value 0) (decimal_loop-small k n small) ∙ digits_value-one n small
  | inr large ↦
      let lead = digits_value-decimal k (n / 10) (ground arith) in
      let last : is_digit (b'0' + n % 10) ≡ true = ground arith in
      ap (digits_value 0) (decimal_loop-large k n large)
      ∙ digits_value-append (decimal_loop k (n / 10)) (b'0' + n % 10) 0
          (decimal_loop-digits k (n / 10)) last
      ∙ omega (arith, lead)
]

-- A number begins with a digit.
decimal_loop-first :
    (k n : ℕ) → n < k → (d : ℕ) × (s : List ℕ) × (decimal_loop k n ≡ d ∷ s) × (is_digit d ≡ true)
decimal_loop-first zero n h = absurd (omega arith)
decimal_loop-first (suc k) n h = elim (Bool-cases (ltb n 10)) [
  | inl small ↦ (b'0' + n, [], decimal_loop-small k n small, ground arith)
  | inr large ↦
      let (d, s, e, g) = decimal_loop-first k (n / 10) (ground arith) in
      (
        d,
        s ++ (b'0' + n % 10) ∷ [],
        decimal_loop-large k n large ∙ ap (λ t. t ++ (b'0' + n % 10) ∷ []) e,
        g,
      )
]

skip_space-digit : (d : ℕ) (s : List ℕ) → is_digit d ≡ true → skip_space (d ∷ s) ≡ d ∷ s
unfolding skip_space
skip_space-digit d s g = ground arith

atol_sign-digit :
    (d : ℕ) (s : List ℕ)
    → is_digit d ≡ true
    → atol_sign (d ∷ s) ≡ min (digits_value 0 (d ∷ s)) (2 ^ 63 - 1)
unfolding atol_sign
atol_sign-digit d s g = ground arith

int_of_bits-small : (n : ℕ) → n < 2 ^ 31 → int_of_bits (min n (2 ^ 63 - 1)) ≡ pos n
int_of_bits-small n h = ground arith

int_of_atol-digit :
    (d : ℕ) (s : List ℕ) (n : ℕ)
    → is_digit d ≡ true
    → digits_value 0 (d ∷ s) ≡ n
    → n < 2 ^ 31
    → int_of_atol (d ∷ s) ≡ pos n
unfolding int_of_atol
int_of_atol-digit d s n g e h =
    ap (λ t. int_of_bits (atol_sign t)) (skip_space-digit d s g)
    ∙ ap int_of_bits (atol_sign-digit d s g)
    ∙ ap (λ k. int_of_bits (min k (2 ^ 63 - 1))) e
    ∙ int_of_bits-small n h

-- What "%d" prints of a length, atol reads back.
pub int_of_atol-decimal : (n : ℕ) → n < 2 ^ 31 → int_of_atol (decimal n) ≡ pos n
unfolding decimal
int_of_atol-decimal n h =
    let (d, s, e, g) = decimal_loop-first (n + 1) n (omega arith) in
    ap int_of_atol e
    ∙ int_of_atol-digit d s n g
        (sym (ap (digits_value 0) e) ∙ digits_value-decimal (n + 1) n (omega arith)) h

-- What "%d" prints begins with no blank.
pub decimal-starts : (n : ℕ) → starts_not is_blank (decimal n) ≡ true
unfolding decimal
decimal-starts n =
    let (d, s, e, g) = decimal_loop-first (n + 1) n (omega arith) in
    ap (starts_not is_blank) e ∙ ground arith
