-- ===== src/MinHeap/Sink.antt =====
-- The order of the heap of mine/practice/minHeapTimer.h while an entry moves down.
use study_record.Common.{
  ℕ, zero, suc, ◌-◌, ◌+◌, ◌/◌, ◌<◌, ◌≤◌, ◌≡◌, ◌≢◌, refl, ap, ◌==◌, inl, inr, Bool-cases, arith,
}
use study_record.Common.Threads.{update}
use study_record.MinHeap.Order.{IsOrdered}

-- No entry is before its parent, where the parent is from `low` on.
abbrev pub IsOrderedFrom : (ℕ → ℕ) → ℕ → ℕ → Type 0
IsOrderedFrom key n low = (i : ℕ) → suc i < n → low ≤ i / 2 → key (i / 2) ≤ key (suc i)

-- In order from `low` on but for the edges below the hole, whose parent is before its children.
pub record IsSunk (key : ℕ → ℕ) (n low hole : ℕ) : Type 0 where
  pub order : (i : ℕ) → suc i < n → low ≤ i / 2 → i / 2 ≢ hole → key (i / 2) ≤ key (suc i)
  pub bridge :
      (i m : ℕ) → suc i < n → i / 2 ≡ hole → hole ≡ suc m → low ≤ m / 2 → key (m / 2) ≤ key (suc i)

-- `suc i` is the child of the hole with the earlier time.
pub record IsSmallerChild (key : ℕ → ℕ) (n hole i : ℕ) : Type 0 where
  pub inside : suc i < n
  pub child : i / 2 ≡ hole
  pub least : (j : ℕ) → suc j < n → j / 2 ≡ hole → key (suc i) ≤ key (suc j)

abbrev pub swapped : (ℕ → ℕ) → ℕ → ℕ → ℕ → ℕ
swapped key hole child = update (update key hole (key child)) child (key hole)

module _ (key : ℕ → ℕ) (n low hole i : ℕ) (v : IsSunk key n low hole)
    (c : IsSmallerChild key n hole i) where
  pub settle : key hole ≤ key (suc i) → IsOrderedFrom key n low
  settle h j lt from = elim (Bool-cases (j / 2 == hole)) [
    | inl e ↦
        let here : j / 2 ≡ hole = ground arith in omega (arith, h, ap key here, c.least j lt here)
    | inr e ↦ v.order j lt from (λ f. ground (arith, f))
  ]

  module _ (below : key (suc i) < key hole) where
    abbrev key' : ℕ → ℕ
    key' = swapped key hole (suc i)

    sink_edge : (j : ℕ) → suc j < n → low ≤ j / 2 → j / 2 ≢ suc i → key' (j / 2) ≤ key' (suc j)
    sink_edge j lt from d = ground (
      arith,
      c.child,
      c.inside,
      below,
      v.order j lt from,
      v.bridge i j c.inside c.child,
      c.least j lt,
    )

    sink_bridge :
        (j m : ℕ)
        → suc j < n
        → j / 2 ≡ suc i
        → suc i ≡ suc m
        → low ≤ m / 2
        → key' (m / 2) ≤ key' (suc j)
    sink_bridge j m lt e f from = ground (arith, c.child, below, v.order j lt, e, f)

    pub sink : IsSunk key' n low (suc i)
    sink = record { order = sink_edge; bridge = sink_bridge }

-- The root is before all others.
pub root_least : (k : ℕ) (key : ℕ → ℕ) (n i : ℕ) → i < k → i < n → IsOrdered key n → key 0 ≤ key i
root_least zero key n i f lt v = absurd (omega arith)
root_least (suc k) key n zero f lt v = omega arith
root_least (suc k) key n (suc i) f lt v =
    omega (arith, v i lt, root_least k key n (i / 2) (omega arith) (omega arith) v)

-- A heap whose root is replaced.
pub IsSunk-root :
    (key key' : ℕ → ℕ) (n : ℕ)
    → IsOrdered key n
    → ((i : ℕ) → suc i < n → key' (suc i) ≡ key (suc i))
    → IsSunk key' n 0 0
IsSunk-root key key' n v same = record {
  order = λ i lt from d. below i (i / 2) lt refl d;
  bridge = λ i m lt e f from. absurd (ground (arith, f));
}
  where
    below : (i p : ℕ) → suc i < n → i / 2 ≡ p → p ≢ 0 → key' p ≤ key' (suc i)
    below i zero lt e d = absurd (d refl)
    below i (suc p) lt e d = omega (arith, same i lt, same p (omega (arith, e)), ap key e, v i lt)

-- One entry more is looked at, from the last parent on.
pub IsSunk-next : (key : ℕ → ℕ) (n i : ℕ) → IsOrderedFrom key n (suc i) → IsSunk key n i i
IsSunk-next key n i v = record {
  order = λ j lt from d. v j lt (ground (arith, d));
  bridge = λ j m lt e f from. absurd (omega (arith, f, from));
}

pub IsOrderedFrom-last : (key : ℕ → ℕ) (n : ℕ) → 0 < n → IsOrderedFrom key n ((n - 1) / 2 + 1)
IsOrderedFrom-last key n some_entry i lt from = absurd (omega (arith, lt, from))
