-- ===== src/MinHeap/Up.antt =====
-- The loop of add_timer of mine/practice/minHeapTimer.h keeps the heap's order.
use study_record.Common.{
  ℕ, zero, suc, ◌+◌, ◌/◌, ◌<◌, ◌≤◌, ◌≡◌, ◌≢◌, ◌∙◌, refl, sym, ap, subst, Option, none, some, Bool,
  true, false, ltb, leb, ◌==◌, inl, inr, Bool-cases, if◌then◌else◌, arith,
}
use mathlib.Core.Path.{fun_ext}
use study_record.Common.Run.{Run, ok}
use study_record.Common.Threads.{update, update_other, count_if, count_if-update}
use study_record.MinHeap.{TimeHeap, percolate_up, put}
use study_record.MinHeap.Order.{IsOrdered, IsHole, fill_root, fill, move}

abbrev pub time : (ℕ → ℕ) → Option ℕ → ℕ
time e none = 0
time e (some t) = e t

-- The times of the entries.
abbrev pub key_of : TimeHeap → ℕ → ℕ
key_of h i = time h.absolute_expire (h.array i)

-- The entry is a timer that has not been deleted.
abbrev pub HasTimer : TimeHeap → ℕ → Type 0
HasTimer h i = (t : ℕ) × (h.array i ≡ some t) × (h.deleted t ≡ false)

-- The entries in use are timers within the array that have not been deleted, in the heap's order.
pub record IsHeap (h : TimeHeap) : Type 0 where
  pub full : (i : ℕ) → i < h.cur_size → HasTimer h i
  pub fits : h.cur_size ≤ h.capacity
  pub ordered : IsOrdered (key_of h) h.cur_size

pub key-put :
    (i t : ℕ) (h : TimeHeap) → key_of (put i t h) ≡ update (key_of h) i (h.absolute_expire t)
key-put i t h = fun_ext λ j. (elim (Bool-cases (i == j)) [ inl e ↦ rw e refl | inr e ↦ rw e refl ])

pub full_put :
    (i t : ℕ) (h : TimeHeap)
    → h.deleted t ≡ false
    → ((j : ℕ) → j < h.cur_size → j ≢ i → HasTimer h j)
    → (j : ℕ) → j < h.cur_size
    → HasTimer (put i t h) j
full_put i t h live full j lt = elim (Bool-cases (i == j)) [
  | inl e ↦ (t, rw e refl, live)
  | inr e ↦ let (u, f, g) = full j lt (λ g. ground (arith, g)) in (u, rw e f, g)
]

-- The entries of `a` are those of the array with the timer in the hole, in some order.
abbrev pub IsFilled : TimeHeap → ℕ → ℕ → (ℕ → Option ℕ) → Type 0
IsFilled h hole timer a =
    (t : Option ℕ → Bool)
    → count_if t h.cur_size a ≡ count_if t h.cur_size (update h.array hole (some timer))

abbrev pub Raised : TimeHeap → ℕ → ℕ → Run TimeHeap → Type 0
Raised h hole timer r =
    (a : ℕ → Option ℕ) × (r ≡ ok (record h { array = a }))
    × IsHeap (record h { array = a })
    × IsFilled h hole timer a

refill :
    (h : TimeHeap) (m p timer : ℕ) (a : ℕ → Option ℕ)
    → suc m < h.cur_size
    → h.array (m / 2) ≡ some p
    → IsFilled (put (suc m) p h) (m / 2) timer a
    → IsFilled h (suc m) timer a
refill h m p timer a lt parent f t =
    let n = h.cur_size in
    let moved =
      count_if-update t n (update h.array (suc m) (some p)) (m / 2) (some timer) (omega arith) in
    let same : update h.array (suc m) (some p) (m / 2) ≡ some p =
      update_other h.array (suc m) (m / 2) (some p) (ground arith) ∙ parent in
    omega (
      arith,
      f t,
      moved,
      ap (one t) same,
      count_if-update t n h.array (suc m) (some p) lt,
      count_if-update t n h.array (suc m) (some timer) lt,
    )
  where
    one : (Option ℕ → Bool) → Option ℕ → ℕ
    one t x = if t x then 1 else 0

pub by_true : (x y : Run TimeHeap) (b : Bool) → b ≡ true → (elim b [ true ↦ x | false ↦ y ]) ≡ x
by_true x y true e = refl
by_true x y false e = cc

pub by_false : (x y : Run TimeHeap) (b : Bool) → b ≡ false → (elim b [ true ↦ x | false ↦ y ]) ≡ y
by_false x y true e = cc
by_false x y false e = refl

module _ (k m timer p : ℕ) (h : TimeHeap) (inside_p : ltb (m / 2) h.capacity ≡ true)
    (parent : h.array (m / 2) ≡ some p) (inside : ltb (suc m) h.capacity ≡ true)
    (live_p : h.deleted p ≡ false) (live : h.deleted timer ≡ false) where
  up-stop :
      leb (h.absolute_expire p) (h.absolute_expire timer) ≡ true
      → percolate_up (suc k) (suc m) timer h ≡ ok (put (suc m) timer h)
  unfolding percolate_up
  up-stop e =
      rw (inside_p, parent, live_p, live)
        (by_true _ _ (leb (h.absolute_expire p) (h.absolute_expire timer)) e ∙ rw inside refl)

  up-move :
      leb (h.absolute_expire p) (h.absolute_expire timer) ≡ false
      → percolate_up (suc k) (suc m) timer h ≡ percolate_up k (m / 2) timer (put (suc m) p h)
  unfolding percolate_up
  up-move e =
      rw (inside_p, parent, live_p, live)
        (by_false _ _ (leb (h.absolute_expire p) (h.absolute_expire timer)) e ∙ rw inside refl)

percolate_up-IsHeap :
    (k hole timer : ℕ) (h : TimeHeap)
    → hole < k
    → hole < h.cur_size
    → h.cur_size ≤ h.capacity
    → h.deleted timer ≡ false
    → ((j : ℕ) → j < h.cur_size → j ≢ hole → HasTimer h j)
    → IsHole (key_of h) h.cur_size hole (h.absolute_expire timer)
    → Raised h hole timer (percolate_up k hole timer h)
unfolding percolate_up
percolate_up-IsHeap zero hole timer h lt in_use fits live full v = absurd (omega arith)
percolate_up-IsHeap (suc k) zero timer h lt in_use fits live full v =
    let inside : ltb 0 h.capacity ≡ true = ground arith in
    (
      update h.array 0 (some timer),
      rw inside refl,
      record {
        full = full_put 0 timer h live full;
        fits = fits;
        ordered =
            subst (λ f. IsOrdered f h.cur_size) (sym (key-put 0 timer h))
              (fill_root (key_of h) h.cur_size (h.absolute_expire timer) v);
      },
      λ t. refl,
    )
percolate_up-IsHeap (suc k) (suc m) timer h lt in_use fits live full v =
    let (p, parent, live_p) = full (m / 2) (omega arith) (λ e. omega (arith, e)) in
    let inside : ltb (suc m) h.capacity ≡ true = ground arith in
    let inside_p : ltb (m / 2) h.capacity ≡ true = ground arith in
    let key_p : key_of h (m / 2) ≡ h.absolute_expire p = ap (time h.absolute_expire) parent in
    elim (Bool-cases (leb (h.absolute_expire p) (h.absolute_expire timer))) [
      | inl e ↦ (
        update h.array (suc m) (some timer),
        up-stop k m timer p h inside_p parent inside live_p live e,
        record {
          full = full_put (suc m) timer h live full;
          fits = fits;
          ordered =
              subst (λ f. IsOrdered f h.cur_size) (sym (key-put (suc m) timer h))
                (fill (key_of h) h.cur_size m (h.absolute_expire timer) v (ground (arith, key_p)));
        },
        λ t. refl,
      )
      | inr e ↦
          let h1 = put (suc m) p h in
          let keys : key_of h1 ≡ update (key_of h) (suc m) (key_of h (m / 2)) =
            key-put (suc m) p h ∙ ap (update (key_of h) (suc m)) (sym key_p) in
          let (a, run, shape, filled) =
            percolate_up-IsHeap k (m / 2) timer h1 (omega arith) (omega arith) fits live
              (λ j j_lt d. full_put (suc m) p h live_p full j j_lt)
              (subst (λ f. IsHole f h.cur_size (m / 2) (h.absolute_expire timer)) (sym keys)
                (move (key_of h) h.cur_size m (h.absolute_expire timer) v in_use
                  (ground (arith, key_p)))) in
          (
            a,
            up-move k m timer p h inside_p parent inside live_p live e ∙ run,
            shape,
            refill h m p timer a in_use parent filled,
          )
    ]

no_children : (n i : ℕ) → suc i < n + 1 → i / 2 ≡ n → ⊥
no_children n i lt e = omega (arith, e)

-- A new entry at the end, which is the hole.
pub add-Raised :
    (h : TimeHeap) (fuel timer : ℕ)
    → IsHeap h
    → h.cur_size < h.capacity
    → h.cur_size < fuel
    → h.deleted timer ≡ false
    → Raised
        (record h { cur_size = h.cur_size + 1 })
        h.cur_size
        timer
        (percolate_up fuel h.cur_size timer (record h { cur_size = h.cur_size + 1 }))
add-Raised h fuel timer v room f live =
    percolate_up-IsHeap fuel h.cur_size timer (record h { cur_size = h.cur_size + 1 }) f
      (omega arith) (omega arith) live (λ j lt d. v.full j (below j lt d))
      (record {
        order = λ i lt d d'. v.ordered i (below (suc i) lt d);
        children = λ i lt e. absurd (no_children h.cur_size i lt e);
        bridge = λ i m lt e g. absurd (no_children h.cur_size i lt e);
      })
  where
    below : (j : ℕ) → j < h.cur_size + 1 → j ≢ h.cur_size → j < h.cur_size
    below j lt d = elim (Bool-cases (j == h.cur_size)) [
      | inl e ↦ absurd (d (ground arith))
      | inr e ↦ ground arith
    ]
