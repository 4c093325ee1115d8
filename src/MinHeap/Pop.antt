-- ===== src/MinHeap/Pop.antt =====
-- pop_timer of mine/practice/minHeapTimer.h takes the earliest timer out.
use study_record.Common.{
  ℕ, zero, suc, ◌+◌, ◌-◌, ◌<◌, ◌≤◌, ◌≡◌, ◌∙◌, sym, ap, Option, none, some, Bool, true, false, ltb,
  ◌==◌, ==_iff, refl, inl, inr, Bool-cases, if◌then◌else◌, arith,
}
use study_record.Common.Run.{Run, ok}
use study_record.Common.Threads.{
  update, update_other, count_if, count_if-update, count_if-suc, count_if-pos, count_if-two,
  count_if-some, count_if_same,
}
use study_record.MinHeap.{TimeHeap, pop_first, pop_timer}
use study_record.MinHeap.Sink.{IsSunk, IsSunk-root, root_least}
use study_record.MinHeap.Up.{time, key_of, HasTimer, IsHeap}
use study_record.MinHeap.Down.{percolate_down-Sifted}

abbrev pub one : (Option ℕ → Bool) → Option ℕ → ℕ
one t x = if t x then 1 else 0

-- Whether the entry is the timer.
abbrev pub is_timer : ℕ → Option ℕ → Bool
is_timer t none = false
is_timer t (some u) = t == u

-- No timer stands in two entries.
abbrev pub IsOnce : TimeHeap → Type 0
IsOnce h = (t : ℕ) → count_if (is_timer t) h.cur_size h.array ≤ 1

-- The heap without its last entry, which stands at the root, and without its first timer.
abbrev rooted : ℕ → TimeHeap → TimeHeap
rooted first h = record h {
  cur_size = h.cur_size - 1;
  array = update h.array 0 (h.array (h.cur_size - 1));
  deleted = update h.deleted first true;
}

module _ (first : ℕ) (h : TimeHeap) (v : IsHeap h) (once : IsOnce h)
    (at_root : h.array 0 ≡ some first) where
  -- Another entry is another timer, which has not been deleted.
  others_live :
      (i u : ℕ)
      → 0 < i
      → i < h.cur_size
      → h.array i ≡ some u
      → h.deleted u ≡ false
      → update h.deleted first true u ≡ false
  others_live i u above lt e live = elim (Bool-cases (first == u)) [
    | inr d ↦ update_other h.deleted first u true d ∙ live
    | inl same ↦
        let two =
          count_if-two (is_timer first) h.cur_size h.array 0 i (omega arith) lt
            (λ g. omega (arith, g)) (ap (is_timer first) at_root ∙ (==_iff first first).1 refl)
            (ap (is_timer first) e ∙ same) in
        absurd (omega (arith, two, once first))
  ]

  rooted-full : (i : ℕ) → i < h.cur_size - 1 → HasTimer (rooted first h) i
  rooted-full i lt = elim (Bool-cases (0 == i)) [
    | inl e ↦
        let (t, f, live) = v.full (h.cur_size - 1) (omega arith) in
        (t, rw e f, others_live (h.cur_size - 1) t (omega arith) (omega arith) f live)
    | inr e ↦
        let (t, f, live) = v.full i (omega arith) in
        (t, rw e f, others_live i t (ground arith) (omega arith) f live)
  ]

rooted-IsSunk : (h : TimeHeap) → IsHeap h → IsSunk (key_of (rooted 0 h)) (h.cur_size - 1) 0 0
rooted-IsSunk h v =
    IsSunk-root (key_of h) (key_of (rooted 0 h)) (h.cur_size - 1)
      (λ i lt. v.ordered i (omega arith))
      (λ i lt.
        ap (time h.absolute_expire)
          (update_other h.array 0 (suc i) (h.array (h.cur_size - 1)) (ground arith)))

rooted-count :
    (t : Option ℕ → Bool) (h : TimeHeap) (n : ℕ)
    → h.cur_size ≡ n + 1
    → count_if t n (update h.array 0 (h.array n)) + one t (h.array 0)
      ≡ count_if t h.cur_size h.array
rooted-count t h zero e =
    ap (λ k. k + one t (h.array 0))
      (count_if_same t 0 (update h.array 0 (h.array 0)) h.array λ i lt. absurd (omega (arith, lt)))
    ∙ sym (count_if-suc t 0 h.array)
    ∙ ap (λ k. count_if t k h.array) (sym e)
rooted-count t h (suc n) e =
    let moved = count_if-update t (suc n) h.array 0 (h.array (suc n)) (omega arith) in
    moved ∙ sym (count_if-suc t (suc n) h.array) ∙ ap (λ k. count_if t k h.array) (sym e)

-- What pop_timer leaves.
abbrev pub popped : TimeHeap → ℕ → (ℕ → Option ℕ) → TimeHeap
popped h first a = record h {
  array = a;
  cur_size = h.cur_size - 1;
  deleted = update h.deleted first true;
}

abbrev pub Popped : TimeHeap → ℕ → Run TimeHeap → Type 0
Popped h first r =
    (a : ℕ → Option ℕ) × (r ≡ ok (popped h first a))
    × IsHeap (popped h first a)
    × ((t : Option ℕ → Bool)
        → count_if t (h.cur_size - 1) a + one t (some first) ≡ count_if t h.cur_size h.array)

pub pop_timer-Popped :
    (fuel first : ℕ) (h : TimeHeap)
    → IsHeap h
    → IsOnce h
    → 0 < h.cur_size
    → h.cur_size ≤ fuel
    → h.array 0 ≡ some first
    → Popped h first (pop_timer fuel h)
unfolding pop_timer pop_first
pop_timer-Popped fuel first h v distinct some_entry f e =
    let (a, run, full, ordered, counts) =
      percolate_down-Sifted fuel 0 0 (rooted first h) (omega arith) (omega (arith, v.fits))
        (rooted-full first h v distinct e) (rooted-IsSunk h v) in
    let used : (h.cur_size == 0) ≡ false = ground arith in
    let inside : ltb 0 h.capacity ≡ true = ground (arith, v.fits) in
    let last : ltb (h.cur_size - 1) h.capacity ≡ true = ground (arith, v.fits) in
    let (t, e', live_t) = v.full 0 some_entry in
    let live : h.deleted first ≡ false = ap h.deleted (some_same first t (sym e ∙ e')) ∙ live_t in
    (
      a,
      rw (used, inside, e, live, last) run,
      record {
        full = full;
        fits = omega (arith, v.fits);
        ordered = λ i lt. ordered i lt (omega arith);
      },
      λ t.
          ap (λ c. c + one t (some first)) (counts t)
          ∙ ap (λ x. count_if t (h.cur_size - 1) (rooted first h).array + one t x) (sym e)
          ∙ rooted-count t h (h.cur_size - 1) (omega arith),
    )
  where
    some_same : (a b : ℕ) → ◌≡◌ {A = Option ℕ} (some a) (some b) → a ≡ b
    some_same a b e = cc

-- The times of the entries that stay are not before a time that none of the entries was before.
pub kept_after :
    (h h1 : TimeHeap) (m : ℕ)
    → ((t : Option ℕ → Bool) → count_if t h1.cur_size h1.array ≤ count_if t h.cur_size h.array)
    → h1.absolute_expire ≡ h.absolute_expire
    → ((i : ℕ) → i < h.cur_size → m ≤ key_of h i)
    → (i : ℕ) → i < h1.cur_size
    → m ≤ key_of h1 i
kept_after h h1 m counts same after i lt = elim (Bool-cases (early (h1.array i))) [
  | inr e ↦ ground (arith, ap (λ f. time f (h1.array i)) same)
  | inl e ↦
      let (j, j_lt, f) =
        count_if-some early h.cur_size h.array
          (omega (arith, counts early, count_if-pos early h1.cur_size h1.array i lt e)) in
      absurd (ground (arith, after j j_lt, f))
]
  where
    early : Option ℕ → Bool
    early x = ltb (time h.absolute_expire x) m

-- The first entry of a heap is of the earliest time.
pub first_least : (h : TimeHeap) → IsHeap h → (i : ℕ) → i < h.cur_size → key_of h 0 ≤ key_of h i
first_least h v i lt = root_least (suc i) (key_of h) h.cur_size i (omega arith) lt v.ordered
