-- ===== src/MinHeap/Down.antt =====
-- percolate_down of mine/practice/minHeapTimer.h makes a heap of one whose root is too late.
use study_record.Common.{
  ℕ, zero, suc, ◌+◌, ◌-◌, ◌*◌, ◌/◌, ◌<◌, ◌≤◌, ◌≡◌, ◌≢◌, ◌∙◌, refl, sym, ap, subst, Option, some,
  Bool, true, false, ltb, ◌==◌, ◌⊎◌, inl, inr, Bool-cases, if◌then◌else◌, arith,
}
use study_record.Common.Run.{Run, ok}
use study_record.Common.Threads.{update, update_other, count_if, count_if-update}
use study_record.MinHeap.{TimeHeap, timer_at, put, smaller_child, percolate_down}
use study_record.MinHeap.Up.{time, HasTimer, key_of, key-put, full_put, by_true, by_false}
use study_record.MinHeap.Sink.{IsOrderedFrom, IsSunk, IsSmallerChild, settle, sink, swapped}

-- The entries in use are timers within the array that have not been deleted.
abbrev pub IsFull : TimeHeap → Type 0
IsFull h = (i : ℕ) → i < h.cur_size → HasTimer h i

timer_at-ok :
    (h : TimeHeap) (i t : ℕ)
    → h.cur_size ≤ h.capacity
    → i < h.cur_size
    → h.array i ≡ some t
    → h.deleted t ≡ false
    → timer_at i h ≡ ok t
timer_at-ok h i t fits lt e live =
    let inside : ltb i h.capacity ≡ true = ground arith in rw (inside, e, live) refl

module _ (h : TimeHeap) (fits : h.cur_size ≤ h.capacity) (full : IsFull h) (hole : ℕ) where
  abbrev n : ℕ
  n = h.cur_size

  children : (j : ℕ) → j / 2 ≡ hole → (j ≡ hole * 2) ⊎ (j ≡ hole * 2 + 1)
  children j e = elim (Bool-cases (j == hole * 2)) [
    | inl f ↦ inl (ground arith)
    | inr f ↦ inr (ground arith)
  ]

  one_child :
      hole * 2 + 1 < n
      → ltb (hole * 2 + 1) (n - 1) ≡ false
      → IsSmallerChild (key_of h) n hole (hole * 2)
  one_child lt e = record {
    inside = omega arith;
    child = omega arith;
    least = λ j j_lt f.
        let same : j ≡ hole * 2 = ground (arith, f) in
        omega (arith, ap (λ k. key_of h (suc k)) same);
  }

  two_children :
      (i k : ℕ)
      → suc (hole * 2 + 1) < n
      → ((i ≡ hole * 2) × (k ≡ hole * 2 + 1)) ⊎ ((i ≡ hole * 2 + 1) × (k ≡ hole * 2))
      → key_of h (suc i) ≤ key_of h (suc k)
      → IsSmallerChild (key_of h) n hole i
  two_children i k lt which le = record {
    inside = elim which [ inl (e, f) ↦ omega (arith, e) | inr (e, f) ↦ omega (arith, e) ];
    child = elim which [ inl (e, f) ↦ omega (arith, e) | inr (e, f) ↦ omega (arith, e) ];
    least = λ j j_lt g. least_of j (same j (children j g) which);
  }
    where
      same :
          (j : ℕ)
          → (j ≡ hole * 2) ⊎ (j ≡ hole * 2 + 1)
          → ((i ≡ hole * 2) × (k ≡ hole * 2 + 1)) ⊎ ((i ≡ hole * 2 + 1) × (k ≡ hole * 2))
          → (j ≡ i) ⊎ (j ≡ k)
      same j (inl e) (inl (f, g)) = inl (e ∙ sym f)
      same j (inr e) (inl (f, g)) = inr (e ∙ sym g)
      same j (inl e) (inr (f, g)) = inr (e ∙ sym g)
      same j (inr e) (inr (f, g)) = inl (e ∙ sym f)

      least_of : (j : ℕ) → (j ≡ i) ⊎ (j ≡ k) → key_of h (suc i) ≤ key_of h (suc j)
      least_of j (inl e) = omega (arith, ap (λ k. key_of h (suc k)) e)
      least_of j (inr e) = omega (arith, le, ap (λ k. key_of h (suc k)) e)

  pub smaller_child-IsSmallerChild :
      hole * 2 + 1 < n
      → (i : ℕ) × (smaller_child hole h ≡ ok (suc i)) × IsSmallerChild (key_of h) n hole i
  unfolding smaller_child
  smaller_child-IsSmallerChild lt = elim (Bool-cases (ltb (hole * 2 + 1) (n - 1))) [
    | inr e ↦ (hole * 2, rw e (ap ok (omega arith)), one_child lt e)
    | inl e ↦
        let more : suc (hole * 2 + 1) < n = ground arith in
        let (a, ea, la) = full (hole * 2 + 1) lt in
        let (b, eb, lb) = full (hole * 2 + 1 + 1) (omega arith) in
        let run_a = timer_at-ok h (hole * 2 + 1) a fits lt ea la in
        let run_b = timer_at-ok h (hole * 2 + 1 + 1) b fits (omega arith) eb lb in
        let key_a : key_of h (suc (hole * 2)) ≡ h.absolute_expire a =
          ap (key_of h) (omega arith) ∙ ap (time h.absolute_expire) ea in
        let key_b : key_of h (suc (hole * 2 + 1)) ≡ h.absolute_expire b =
          ap (key_of h) (omega arith) ∙ ap (time h.absolute_expire) eb in
        chosen a b e more run_a run_b key_a key_b
  ]
    where
      chosen :
          (a b : ℕ)
          → ltb (hole * 2 + 1) (n - 1) ≡ true
          → suc (hole * 2 + 1) < n
          → timer_at (hole * 2 + 1) h ≡ ok a
          → timer_at (hole * 2 + 1 + 1) h ≡ ok b
          → key_of h (suc (hole * 2)) ≡ h.absolute_expire a
          → key_of h (suc (hole * 2 + 1)) ≡ h.absolute_expire b
          → (i : ℕ) × (smaller_child hole h ≡ ok (suc i)) × IsSmallerChild (key_of h) n hole i
      chosen a b e more run_a run_b key_a key_b =
          elim (Bool-cases (ltb (h.absolute_expire b) (h.absolute_expire a))) [
            | inl f ↦ (
              hole * 2 + 1,
              rw (e, run_b, run_a, f) (ap ok (omega arith)),
              two_children (hole * 2 + 1) (hole * 2) more (inr (refl, refl))
                  (ground (arith, key_a, key_b)),
            )
            | inr f ↦ (
              hole * 2,
              rw (e, run_b, run_a, f) (ap ok (omega arith)),
              two_children (hole * 2) (hole * 2 + 1) more (inl (refl, refl))
                  (ground (arith, key_a, key_b)),
            )
          ]

-- The entries are those before, in some order, which from `low` on is the heap's.
abbrev pub Sifted : ℕ → TimeHeap → Run TimeHeap → Type 0
Sifted low h r =
    (a : ℕ → Option ℕ) × (r ≡ ok (record h { array = a }))
    × IsFull (record h { array = a })
    × IsOrderedFrom (key_of (record h { array = a })) h.cur_size low
    × ((t : Option ℕ → Bool) → count_if t h.cur_size a ≡ count_if t h.cur_size h.array)

-- The heap after a round of the loop.
abbrev exchanged : ℕ → ℕ → ℕ → ℕ → TimeHeap → TimeHeap
exchanged hole child c t h = put child t (put hole c h)

module _ (k hole i c t : ℕ) (h : TimeHeap) (inner : ltb (hole * 2 + 1) h.cur_size ≡ true)
    (child : smaller_child hole h ≡ ok (suc i)) (run_c : timer_at (suc i) h ≡ ok c)
    (run_t : timer_at hole h ≡ ok t) where
  down-stop :
      ltb (h.absolute_expire c) (h.absolute_expire t) ≡ false → percolate_down (suc k) hole h ≡ ok h
  unfolding percolate_down
  down-stop e =
      rw (percolate_down, inner, child, run_c, run_t)
        (by_false _ _ (ltb (h.absolute_expire c) (h.absolute_expire t)) e)

  down-move :
      ltb (h.absolute_expire c) (h.absolute_expire t) ≡ true
      → percolate_down (suc k) hole h ≡ percolate_down k (suc i) (exchanged hole (suc i) c t h)
  unfolding percolate_down
  down-move e =
      rw (percolate_down, inner, child, run_c, run_t)
        (by_true _ _ (ltb (h.absolute_expire c) (h.absolute_expire t)) e)

exchanged-count :
    (h : TimeHeap) (hole i c t : ℕ) (f : Option ℕ → Bool)
    → hole < h.cur_size
    → suc i < h.cur_size
    → hole ≢ suc i
    → h.array hole ≡ some t
    → h.array (suc i) ≡ some c
    → count_if f h.cur_size (exchanged hole (suc i) c t h).array ≡ count_if f h.cur_size h.array
exchanged-count h hole i c t f hole_lt lt d et ec =
    let n = h.cur_size in
    let same : update h.array hole (some c) (suc i) ≡ some c =
      update_other h.array hole (suc i) (some c) (ground (arith, d)) ∙ ec in
    omega (
      arith,
      count_if-update f n (update h.array hole (some c)) (suc i) (some t) lt,
      ap one same,
      count_if-update f n h.array hole (some c) hole_lt,
      ap one et,
    )
  where
    one : Option ℕ → ℕ
    one x = if f x then 1 else 0

pub percolate_down-Sifted :
    (k low hole : ℕ) (h : TimeHeap)
    → h.cur_size - hole < k
    → h.cur_size ≤ h.capacity
    → IsFull h
    → IsSunk (key_of h) h.cur_size low hole
    → Sifted low h (percolate_down k hole h)
unfolding percolate_down
percolate_down-Sifted zero low hole h f fits full v = absurd (omega arith)
percolate_down-Sifted (suc k) low hole h f fits full v =
    elim (Bool-cases (ltb (hole * 2 + 1) h.cur_size)) [
      | inr e ↦ (
        h.array,
        rw (percolate_down, e) refl,
        full,
        λ j lt from. v.order j lt from (λ g. ground (arith, g)),
        λ t. refl,
      )
      | inl e ↦
          let inner : hole * 2 + 1 < h.cur_size = ground arith in
          let (i, child, s) = smaller_child-IsSmallerChild h fits full hole inner in
          let (c, ec, lc) = full (suc i) s.inside in
          let (t, et, live) = full hole (omega arith) in
          let run_c = timer_at-ok h (suc i) c fits s.inside ec lc in
          let run_t = timer_at-ok h hole t fits (omega arith) et live in
          let key_c : key_of h (suc i) ≡ h.absolute_expire c = ap (time h.absolute_expire) ec in
          let key_t : key_of h hole ≡ h.absolute_expire t = ap (time h.absolute_expire) et in
          elim (Bool-cases (ltb (h.absolute_expire c) (h.absolute_expire t))) [
            | inr g ↦ (
              h.array,
              down-stop k hole i c t h e child run_c run_t g,
              full,
              settle (key_of h) h.cur_size low hole i v s (ground (arith, key_c, key_t)),
              λ t. refl,
            )
            | inl g ↦
                let h1 = exchanged hole (suc i) c t h in
                let keys : key_of h1 ≡ swapped (key_of h) hole (suc i) =
                  key-put (suc i) t (put hole c h)
                  ∙ ap (λ f. update f (suc i) (h.absolute_expire t)) (key-put hole c h)
                  ∙ ap (λ x. update (update (key_of h) hole x) (suc i) (h.absolute_expire t))
                      (sym key_c)
                  ∙ ap (λ x. update (update (key_of h) hole (key_of h (suc i))) (suc i) x)
                      (sym key_t) in
                let (a, run, full', ordered, counts) =
                  percolate_down-Sifted k low (suc i) h1 (omega (arith, s.child, s.inside)) fits
                    (full_put (suc i) t (put hole c h) live
                      (λ j lt d. full_put hole c h lc (λ j lt d. full j lt) j lt))
                    (subst (λ f. IsSunk f h.cur_size low (suc i)) (sym keys)
                      (sink (key_of h) h.cur_size low hole i v s (ground (arith, key_c, key_t)))) in
                (
                  a,
                  down-move k hole i c t h e child run_c run_t g ∙ run,
                  full',
                  ordered,
                  λ u.
                      counts u
                      ∙ exchanged-count h hole i c t u (omega arith) s.inside
                          (λ q. omega (arith, q, s.child)) et ec,
                )
          ]
    ]
