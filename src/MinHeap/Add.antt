-- ===== src/MinHeap/Add.antt =====
-- add_timer of mine/practice/minHeapTimer.h keeps the heap's order.
use study_record.Common.{
  ℕ, suc, ◌+◌, ◌*◌, ◌/◌, ◌<◌, ◌≡◌, ◌∙◌, refl, ap, Option, some, Bool, true, false, ltb, leb, inl,
  inr, Bool-cases, if◌then◌else◌, arith,
}
use study_record.Common.Run.{ok, fault}
use study_record.Common.Threads.{
  update, update_self, count_if, count_if-update_ge, count_if_same, count_if-suc,
}
use study_record.MinHeap.{TimeHeap, resize, percolate_up, add_timer}
use study_record.MinHeap.Up.{time, IsHeap, add-Raised}

resize-IsHeap : (h : TimeHeap) → IsHeap h → IsHeap (resize h)
resize-IsHeap h v = record {
  full = λ i lt. (let (t, e, g) = v.full i lt in (t, same i lt ∙ e, g));
  fits = omega (arith, v.fits);
  ordered = λ i lt. omega (
    arith,
    v.ordered i lt,
    ap (time h.absolute_expire) (same (i / 2) (omega arith)),
    ap (time h.absolute_expire) (same (suc i) lt),
  );
}
  where
    same : (i : ℕ) → i < h.cur_size → (resize h).array i ≡ h.array i
    same i lt = let e : ltb i h.cur_size ≡ true = ground arith in rw e refl

resize-count :
    (t : Option ℕ → Bool) (h : TimeHeap)
    → count_if t h.cur_size (resize h).array ≡ count_if t h.cur_size h.array
resize-count t h =
    count_if_same t h.cur_size (resize h).array h.array
      (λ i lt. (let e : ltb i h.cur_size ≡ true = ground arith in rw e refl))

-- The capacity that add_timer leaves.
abbrev pub grown : TimeHeap → ℕ
grown h = if leb h.capacity h.cur_size then 2 * h.capacity else h.capacity

-- On an array that is a heap of timers that have not been deleted, and has a capacity, add_timer takes in a
-- timer that has not been deleted: the capacity is twice as large if the array was full, and otherwise the
-- same, the entries are those before and the timer, each as often as before, and they are a heap again. The
-- fuel of the loop has to be above the number of entries.
pub add_timer_lem :
    (fuel timer : ℕ) (h : TimeHeap)
    → IsHeap h
    → 0 < h.capacity
    → h.cur_size < fuel
    → h.deleted timer ≡ false
    → (a : ℕ → Option ℕ) × (add_timer fuel (some timer) h
        ≡ ok (record h { array = a; capacity = grown h; cur_size = h.cur_size + 1 }))
      × IsHeap (record h { array = a; capacity = grown h; cur_size = h.cur_size + 1 })
      × ((t : Option ℕ → Bool)
          → count_if t (h.cur_size + 1) a
            ≡ count_if t h.cur_size h.array + (if t (some timer) then 1 else 0))
unfolding add_timer
add_timer_lem fuel timer h v some_room f live = elim (Bool-cases (leb h.capacity h.cur_size)) [
  | inl e ↦
      let (a, run, shape, filled) =
        add-Raised (resize h) fuel timer (resize-IsHeap h v) (ground (arith, v.fits)) f live in
      (
        a,
        rw e run,
        rw e shape,
        λ t. filled t ∙ counted t (resize h) ∙ ap (λ n. n + one t) (resize-count t h),
      )
  | inr e ↦
      let (a, run, shape, filled) = add-Raised h fuel timer v (ground arith) f live in
      (a, rw e run, rw e shape, λ t. filled t ∙ counted t h)
]
  where
    one : (Option ℕ → Bool) → ℕ
    one t = if t (some timer) then 1 else 0

    counted :
        (t : Option ℕ → Bool) (g : TimeHeap)
        → count_if t (g.cur_size + 1) (update g.array g.cur_size (some timer))
          ≡ count_if t g.cur_size g.array + one t
    counted t g =
        count_if-suc t g.cur_size (update g.array g.cur_size (some timer))
        ∙ ap (λ n. n + (if t (update g.array g.cur_size (some timer) g.cur_size) then 1 else 0))
            (count_if-update_ge t g.cur_size g.array g.cur_size (some timer) (omega arith))
        ∙ ap (λ x. count_if t g.cur_size g.array + (if t x then 1 else 0))
            (update_self g.array g.cur_size (some timer))

-- A heap that was made with no capacity doubles it to none, and add_timer writes outside the array.
pub add_timer_no_capacity :
    (fuel timer : ℕ) (h : TimeHeap)
    → h.capacity ≡ 0
    → h.cur_size ≡ 0
    → add_timer (suc fuel) (some timer) h ≡ fault
unfolding add_timer percolate_up
add_timer_no_capacity fuel timer h c n = rw (c, n) refl
