-- ===== src/Common/CString/Laws.antt =====
-- Pointers moved and bytes cleared inside a C string.
use mathlib.Core.Path.{◌≡◌, refl, ap, ◌∙◌}
use mathlib.Core.Logic.{inl, inr}
use mathlib.Core.Bool.{Bool, true, false, ◌&&◌, not}
use mathlib.Core.Option.{none, some}
use mathlib.Core.List.{List, [], ◌∷◌, ◌++◌}
use Prim.Native.Nat.{ℕ, zero, suc, ◌+◌, ◌≤◌, ◌<◌}
use native.Mathlib.Omega.{arith}
use study_record.Common.Tests.{◌==◌, Bool-cases}
use study_record.Common.Lists.{
  length, set, take, drop, all, drop-drop, drop-set_add, drop-set_lt, drop-append, take-append,
  length-append, get_or, get_or-drop,
}
use study_record.Common.CString.{
  to_lower, same_nocase, starts_nocase, c_str, text_at, find_index, count_while,
}

c_str-drop : (k : ℕ) (s : List ℕ) → k ≤ length (c_str s) → c_str (drop k s) ≡ drop k (c_str s)
c_str-drop zero s h = refl
c_str-drop (suc k) [] h = refl
c_str-drop (suc k) (c ∷ s) h = elim (Bool-cases (c == 0)) [
  | inl e ↦ absurd (ground arith)
  | inr e ↦ rw e (c_str-drop k s (ground arith))
]

c_str-set : (k : ℕ) (s : List ℕ) → k < length (c_str s) → c_str (set s k 0) ≡ take k (c_str s)
c_str-set k [] h = absurd (omega arith)
c_str-set zero (c ∷ s) h = refl
c_str-set (suc k) (c ∷ s) h = elim (Bool-cases (c == 0)) [
  | inl e ↦ absurd (ground arith)
  | inr e ↦ rw e (ap (◌∷◌ c) (c_str-set k s (ground arith)))
]

-- A pointer advanced inside its string points at the rest of it.
pub text_at-add :
    (buf : List ℕ) (i k : ℕ)
    → k ≤ length (text_at buf i)
    → text_at buf (i + k) ≡ drop k (text_at buf i)
text_at-add buf i k h = rw drop-drop (c_str-drop k (drop i buf) h)

-- A NUL written into a string cuts it there.
pub text_at-set :
    (buf : List ℕ) (i k : ℕ)
    → k < length (text_at buf i)
    → text_at (set buf (i + k) 0) i ≡ take k (text_at buf i)
text_at-set buf i k h = rw drop-set_add (c_str-set k (drop i buf) h)

-- A write before a pointer leaves its string alone.
pub text_at-set_lt : (buf : List ℕ) (i j v : ℕ) → i < j → text_at (set buf i v) j ≡ text_at buf j
text_at-set_lt buf i j v h = ap c_str (drop-set_lt buf i j v h)

pub text_at-add_append :
    (buf : List ℕ) (i : ℕ) (xs ys : List ℕ)
    → text_at buf i ≡ xs ++ ys
    → text_at buf (i + length xs) ≡ ys
text_at-add_append buf i xs ys e =
    text_at-add buf i (length xs) (omega (arith, ap length e, length-append xs ys))
    ∙ ap (drop (length xs)) e
    ∙ drop-append xs ys

pub text_at-set_append :
    (buf : List ℕ) (i : ℕ) (xs ys : List ℕ) (c : ℕ)
    → text_at buf i ≡ xs ++ c ∷ ys
    → text_at (set buf (i + length xs) 0) i ≡ xs
text_at-set_append buf i xs ys c e =
    text_at-set buf i (length xs) (omega (arith, ap length e, length-append xs (c ∷ ys)))
    ∙ ap (take (length xs)) e
    ∙ take-append xs (c ∷ ys)

pub text_at-add_cons :
    (buf : List ℕ) (i : ℕ) (xs : List ℕ) (c : ℕ) (ys : List ℕ)
    → text_at buf i ≡ xs ++ c ∷ ys
    → text_at buf (i + length xs + 1) ≡ ys
text_at-add_cons buf i xs c ys e =
    let here = text_at-add_append buf i xs (c ∷ ys) e in
    text_at-add buf (i + length xs) 1 (omega (arith, ap length here)) ∙ ap (drop 1) here

-- A string that is not empty shows its first byte.
pub get_or_of_text :
    (buf : List ℕ) (i x : ℕ) {s : List ℕ} → text_at buf i ≡ x ∷ s → get_or buf i 0 ≡ x
get_or_of_text buf i x e = ground (arith, get_or-drop i 0 buf 0, first (drop i buf) e)
  where
    first : (t : List ℕ) {s : List ℕ} → c_str t ≡ x ∷ s → get_or t 0 0 ≡ x
    first [] h = cc
    first (y ∷ t) h = ground arith

-- The first match stands behind the elements that fail the test.
pub find_index-append :
    (p : ℕ → Bool) (xs : List ℕ) (c : ℕ) (ys : List ℕ)
    → all (λ x. not (p x)) xs ≡ true
    → p c ≡ true
    → find_index p (xs ++ c ∷ ys) ≡ some (length xs)
unfolding find_index
find_index-append p [] c ys h e = rw e
find_index-append p (x ∷ xs) c ys h e = ground (arith, find_index-append p xs c ys)

pub find_index-none :
    (p : ℕ → Bool) (xs : List ℕ) → all (λ x. not (p x)) xs ≡ true → find_index p xs ≡ none
unfolding find_index
find_index-none p [] h = refl
find_index-none p (x ∷ xs) h = ground (arith, find_index-none p xs)

-- `xs` begins with no element that passes the test.
abbrev pub starts_not : (ℕ → Bool) → List ℕ → Bool
starts_not p [] = true
starts_not p (x ∷ xs) = not (p x)

pub count_while-append :
    (p : ℕ → Bool) (xs ys : List ℕ)
    → all p xs ≡ true
    → starts_not p ys ≡ true
    → count_while p (xs ++ ys) ≡ length xs
unfolding count_while
count_while-append p [] [] h e = refl
count_while-append p [] (y ∷ ys) h e = ground arith
count_while-append p (x ∷ xs) ys h e = ground (arith, count_while-append p xs ys)

-- A string that begins with `ys` up to case.
pub starts_nocase-append :
    (xs ys zs : List ℕ)
    → same_nocase xs ys ≡ true
    → (starts_nocase (xs ++ zs) ys ≡ true) × (length xs ≡ length ys)
unfolding same_nocase starts_nocase
starts_nocase-append [] [] [] h = (refl, refl)
starts_nocase-append [] [] (z ∷ zs) h = (refl, refl)
starts_nocase-append [] (y ∷ ys) zs h = cc
starts_nocase-append (x ∷ xs) [] zs h = cc
starts_nocase-append (x ∷ xs) (y ∷ ys) zs h = ground (arith, starts_nocase-append xs ys zs)

-- Whether two texts agree up to case as far as both reach.
abbrev pub overlap : List ℕ → List ℕ → Bool
overlap (x ∷ xs) (y ∷ ys) = to_lower x == to_lower y && overlap xs ys
overlap _ _ = true

pub starts_nocase-overlap :
    (s xs ys : List ℕ)
    → starts_nocase s xs ≡ true
    → overlap xs ys ≡ false
    → starts_nocase s ys ≡ false
unfolding starts_nocase
starts_nocase-overlap s [] ys h e = ground arith
starts_nocase-overlap s (x ∷ xs) [] h e = ground arith
starts_nocase-overlap [] (x ∷ xs) (y ∷ ys) h e = refl
starts_nocase-overlap (c ∷ s) (x ∷ xs) (y ∷ ys) h e = ground (arith, starts_nocase-overlap s xs ys)
