-- ===== src/Common/Threads.antt =====
-- What each thread of a family is doing: an update of one thread, and how many threads satisfy a test.
use mathlib.Core.Path.{◌≡◌, refl, subst, fun_ext}
use mathlib.Core.Logic.{◌≢◌, inl, inr}
use mathlib.Core.Bool.{Bool, true, false}
use Prim.Native.Nat.{ℕ, zero, suc, ◌+◌, ◌≤◌, ◌<◌}
use native.Mathlib.Omega.{arith}
use study_record.Common.Tests.{◌==◌, if◌then◌else◌, Bool-cases}

module _ {ℓ} {P : Type ℓ} where
  abbrev pub update : (ℕ → P) → ℕ → P → ℕ → P
  update f i p j = if i == j then p else f j

  pub update_self : (f : ℕ → P) (i : ℕ) (p : P) → update f i p i ≡ p
  update_self f i p = ground arith

  pub update_other : (f : ℕ → P) (i j : ℕ) (p : P) → (i == j) ≡ false → update f i p j ≡ f j
  update_other f i j p d = rw d refl

  pub update-update : (f : ℕ → P) (i : ℕ) (p q : P) → update (update f i p) i q ≡ update f i q
  update-update f i p q = fun_ext λ j. ground arith

  pub update_same : (f : ℕ → P) (i : ℕ) (p : P) → f i ≡ p → update f i p ≡ f
  update_same f i p e = fun_ext λ j. ground arith

  -- Among the first `n` threads.
  pub count_if : (P → Bool) → ℕ → (ℕ → P) → ℕ
  count_if t zero f = 0
  count_if t (suc n) f = count_if t n f + (if t (f n) then 1 else 0)

  pub count_if-update_ge :
      (t : P → Bool) (n : ℕ) (f : ℕ → P) (i : ℕ) (p : P)
      → n ≤ i
      → count_if t n (update f i p) ≡ count_if t n f
  unfolding count_if
  count_if-update_ge t zero f i p h = refl
  count_if-update_ge t (suc n) f i p h = ground (arith, count_if-update_ge t n f i p)

  pub count_if-update :
      (t : P → Bool) (n : ℕ) (f : ℕ → P) (i : ℕ) (p : P)
      → i < n
      → count_if t n (update f i p) + (if t (f i) then 1 else 0)
        ≡ count_if t n f + (if t p then 1 else 0)
  unfolding count_if
  count_if-update t zero f i p h = absurd (omega arith)
  count_if-update t (suc n) f i p h = elim (Bool-cases (i == n)) [
    | inl e ↦ ground (arith, count_if-update_ge t n f i p)
    | inr e ↦ ground (arith, count_if-update t n f i p)
  ]

  -- A thread that satisfies the test is counted, and two of them are counted twice.
  pub count_if-pos :
      (t : P → Bool) (n : ℕ) (f : ℕ → P) (i : ℕ) → i < n → t (f i) ≡ true → 0 < count_if t n f
  unfolding count_if
  count_if-pos t zero f i h e = absurd (omega arith)
  count_if-pos t (suc n) f i h e = elim (Bool-cases (i == n)) [
    | inl same ↦ ground arith
    | inr other ↦ ground (arith, count_if-pos t n f i)
  ]

  pub count_if-two :
      (t : P → Bool) (n : ℕ) (f : ℕ → P) (i j : ℕ)
      → i < n
      → j < n
      → i ≢ j
      → t (f i) ≡ true
      → t (f j) ≡ true
      → 1 < count_if t n f
  unfolding count_if
  count_if-two t zero f i j h k d e e' = absurd (omega arith)
  count_if-two t (suc n) f i j h k d e e' = elim (Bool-cases (i == n)) [
    | inl same ↦ ground (arith, count_if-pos t n f j)
    | inr other ↦ elim (Bool-cases (j == n)) [
      | inl same' ↦ ground (arith, count_if-pos t n f i)
      | inr other' ↦ ground (arith, count_if-two t n f i j)
    ]
  ]

  pub count_if-none :
      (t : P → Bool) (n : ℕ) (f : ℕ → P) → ((i : ℕ) → t (f i) ≡ false) → count_if t n f ≡ 0
  unfolding count_if
  count_if-none t zero f h = refl
  count_if-none t (suc n) f h = ground (arith, h n, count_if-none t n f h)

  pub count_if-some :
      (t : P → Bool) (n : ℕ) (f : ℕ → P) → 0 < count_if t n f → (i : ℕ) × (i < n) × (t (f i) ≡ true)
  unfolding count_if
  count_if-some t zero f h = absurd (omega arith)
  count_if-some t (suc n) f h = elim (Bool-cases (t (f n))) [
    | inl e ↦ (n, omega arith, e)
    | inr e ↦ let (i, lt, e') = count_if-some t n f (ground arith) in (i, omega (arith, lt), e')
  ]

  pub count_if_le : (t : P → Bool) (n : ℕ) (f : ℕ → P) → count_if t n f ≤ n
  unfolding count_if
  count_if_le t zero f = omega arith
  count_if_le t (suc n) f = ground (arith, count_if_le t n f)

  pub count_if_same :
      (t : P → Bool) (n : ℕ) (f g : ℕ → P)
      → ((i : ℕ) → i < n → f i ≡ g i)
      → count_if t n f ≡ count_if t n g
  unfolding count_if
  count_if_same t zero f g e = refl
  count_if_same t (suc n) f g e =
      let rest = count_if_same t n f g (λ i lt. e i (omega arith)) in
      rw (rest, e n (omega arith)) refl

  -- One more at the end.
  pub count_if-suc :
      (t : P → Bool) (n : ℕ) (f : ℕ → P)
      → count_if t (n + 1) f ≡ count_if t n f + (if t (f n) then 1 else 0)
  unfolding count_if
  count_if-suc t n f = let e : n + 1 ≡ suc n = omega arith in rw e refl

  -- What holds of the new value at its place and of the others at theirs holds of the updated family.
  pub update-all {κ} :
      (Q : ℕ → P → Type κ) (f : ℕ → P) (i : ℕ) (p : P)
      → Q i p
      → ((j : ℕ) → (i == j) ≡ false → Q j (f j))
      → (j : ℕ) → Q j (update f i p j)
  update-all Q f i p here others j = elim (Bool-cases (i == j)) [
    | inl e ↦ let same : i ≡ j = ground arith in rw e (subst (λ k. Q k p) same here)
    | inr e ↦ rw e (others j e)
  ]
