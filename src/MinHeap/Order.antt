-- ===== src/MinHeap/Order.antt =====
-- The order of the heap of mine/practice/minHeapTimer.h while a new entry moves up.
use study_record.Common.{
  ℕ, suc, ◌/◌, ◌<◌, ◌≤◌, ◌≡◌, ◌≢◌, refl, ap, false, ◌==◌, inl, inr, Bool-cases, arith,
}
use study_record.Common.Threads.{update, update_self, update_other}

-- No entry is before its parent.
abbrev pub IsOrdered : (ℕ → ℕ) → ℕ → Type 0
IsOrdered key n = (i : ℕ) → suc i < n → key (i / 2) ≤ key (suc i)

-- The same but for the hole, which the time `te` may take unless its parent is later.
pub record IsHole (key : ℕ → ℕ) (n hole te : ℕ) : Type 0 where
  pub order : (i : ℕ) → suc i < n → suc i ≢ hole → i / 2 ≢ hole → key (i / 2) ≤ key (suc i)
  pub children : (i : ℕ) → suc i < n → i / 2 ≡ hole → te ≤ key (suc i)
  pub bridge : (i m : ℕ) → suc i < n → i / 2 ≡ hole → hole ≡ suc m → key (m / 2) ≤ key (suc i)

differ : (a b : ℕ) → (a == b) ≡ false → a ≢ b
differ a b d e = ground (arith, e)

pub fill_root : (key : ℕ → ℕ) (n te : ℕ) → IsHole key n 0 te → IsOrdered (update key 0 te) n
fill_root key n te v i lt = elim (Bool-cases (0 == i / 2)) [
  | inl e ↦
      let here : i / 2 ≡ 0 = ground arith in
      omega (
        arith,
        ap (update key 0 te) here,
        update_self key 0 te,
        update_other key 0 (suc i) te (ground arith),
        v.children i lt here,
      )
  | inr e ↦ omega (
    arith,
    update_other key 0 (i / 2) te e,
    update_other key 0 (suc i) te (ground arith),
    v.order i lt (λ h. omega (arith, h)) (λ h. ground (arith, h)),
  )
]

pub fill :
    (key : ℕ → ℕ) (n m te : ℕ)
    → IsHole key n (suc m) te
    → key (m / 2) ≤ te
    → IsOrdered (update key (suc m) te) n
fill key n m te v below i lt = elim (Bool-cases (suc m == i / 2)) [
  | inl e ↦
      let here : i / 2 ≡ suc m = ground arith in
      omega (
        arith,
        ap (update key (suc m) te) here,
        update_self key (suc m) te,
        update_other key (suc m) (suc i) te (ground arith),
        v.children i lt here,
      )
  | inr e ↦ elim (Bool-cases (suc m == suc i)) [
    | inl e' ↦
        let here : i ≡ m = ground arith in
        omega (
          arith,
          update_other key (suc m) (i / 2) te e,
          ap (λ k. key (k / 2)) here,
          ap (λ k. update key (suc m) te (suc k)) here,
          update_self key (suc m) te,
        )
    | inr e' ↦ omega (
      arith,
      update_other key (suc m) (i / 2) te e,
      update_other key (suc m) (suc i) te e',
      v.order i lt (λ h. ground (arith, h)) (λ h. ground (arith, h)),
    )
  ]
]

module _ (key : ℕ → ℕ) (n m te : ℕ) (v : IsHole key n (suc m) te) (lt : suc m < n)
    (above : te < key (m / 2)) where
  abbrev key' : ℕ → ℕ
  key' = update key (suc m) (key (m / 2))

  same_key : (j : ℕ) → (suc m == j) ≡ false → key' j ≡ key j
  same_key j d = update_other key (suc m) j (key (m / 2)) d

  -- The entries below the new hole.
  sibling : (i : ℕ) → suc i < n → i / 2 ≡ m / 2 → key (m / 2) ≤ key' (suc i)
  sibling i i_lt e = elim (Bool-cases (suc m == suc i)) [
    | inl e' ↦
        let here : i ≡ m = ground arith in
        omega (arith, ap (λ k. key' (suc k)) here, update_self key (suc m) (key (m / 2)))
    | inr e' ↦ omega (
      arith,
      same_key (suc i) e',
      ap key e,
      v.order i i_lt (λ h. ground (arith, h)) (λ h. omega (arith, h)),
    )
  ]

  pub move : IsHole key' n (m / 2) te
  move = record {
    order = λ i i_lt d d'. (elim (Bool-cases (suc m == i / 2)) [
      | inl e ↦
          let here : i / 2 ≡ suc m = ground arith in
          omega (
            arith,
            ap key' here,
            update_self key (suc m) (key (m / 2)),
            same_key (suc i) (ground arith),
            v.bridge i m i_lt here refl,
          )
      | inr e ↦ elim (Bool-cases (suc m == suc i)) [
        | inl e' ↦ absurd (d' (ap (λ k. k / 2) (ground arith)))
        | inr e' ↦ omega (
          arith,
          same_key (i / 2) e,
          same_key (suc i) e',
          v.order i i_lt (λ h. ground (arith, h)) (λ h. ground (arith, h)),
        )
      ]
    ]);
    children = λ i i_lt e. omega (arith, sibling i i_lt e);
    bridge = λ i q i_lt e f. omega (
      arith,
      sibling i i_lt e,
      same_key (q / 2) (ground arith),
      ap key f,
      v.order q (omega (arith, f)) (λ h. omega (arith, h, f)) (λ h. omega (arith, h, f)),
    );
  }
