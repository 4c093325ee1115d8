-- ===== src/MinHeap/Build.antt =====
-- The constructor of mine/practice/minHeapTimer.h that is given an array of timers.
use study_record.Common.{
  ℕ, zero, suc, ◌+◌, ◌-◌, ◌/◌, ◌<◌, ◌≤◌, ◌≡◌, ◌∙◌, refl, Option, none, some, Bool, true, false, ltb,
  ◌==◌, inl, inr, Bool-cases, if◌then◌else◌, arith,
}
use study_record.Common.Run.{ok}
use study_record.Common.Threads.{count_if, count_if_same}
use study_record.MinHeap.{TimeHeap, percolate_down, heapify, create_from}
use study_record.MinHeap.Up.{key_of, IsHeap}
use study_record.MinHeap.Sink.{IsOrderedFrom, IsSunk-next, IsOrderedFrom-last}
use study_record.MinHeap.Down.{IsFull, Sifted, percolate_down-Sifted}

then_heapify :
    (fuel i : ℕ) (h h1 : TimeHeap)
    → percolate_down fuel i h ≡ ok h1
    → heapify fuel (suc i) h ≡ heapify fuel i h1
unfolding heapify
then_heapify fuel i h h1 run = rw run refl

heapify_none : (fuel : ℕ) (h : TimeHeap) → heapify fuel 0 h ≡ ok h
unfolding heapify
heapify_none fuel h = refl

heapify-Sifted :
    (fuel i : ℕ) (h : TimeHeap)
    → h.cur_size < fuel
    → h.cur_size ≤ h.capacity
    → IsFull h
    → IsOrderedFrom (key_of h) h.cur_size i
    → Sifted 0 h (heapify fuel i h)
heapify-Sifted fuel zero h f fits full v = (h.array, heapify_none fuel h, full, v, λ t. refl)
heapify-Sifted fuel (suc i) h f fits full v =
    let (a, run, full1, ordered1, counts1) =
      percolate_down-Sifted fuel i i h (omega arith) fits full
        (IsSunk-next (key_of h) h.cur_size i v) in
    let h1 = record h { array = a } in
    let (b, run2, full2, ordered2, counts2) = heapify-Sifted fuel i h1 f fits full1 ordered1 in
    (b, then_heapify fuel i h h1 run ∙ run2, full2, ordered2, λ t. counts2 t ∙ counts1 t)

-- From an array of timers and a capacity that is at least their number, the constructor makes a heap of
-- them: its entries are those of the array, each as often as there. The fuel of percolate_down has to be
-- above the number of entries.
pub create_from-IsHeap :
    (fuel : ℕ) (init_array : ℕ → Option ℕ) (size cap : ℕ) (h : TimeHeap)
    → size < fuel
    → size ≤ cap
    → ((i : ℕ) → i < size → (t : ℕ) × (init_array i ≡ some t))
    → (a : ℕ → Option ℕ) × (create_from fuel init_array size cap h
        ≡ ok (record h { array = a; capacity = cap; cur_size = size; deleted = λ t. false }))
      × IsHeap (record h { array = a; capacity = cap; cur_size = size; deleted = λ t. false })
      × ((t : Option ℕ → Bool) → count_if t size a ≡ count_if t size init_array)
unfolding create_from
create_from-IsHeap fuel init_array size cap h f fits full =
    let h1 = record h { array = copied; capacity = cap; cur_size = size; deleted = λ t. false } in
    let room : ltb cap size ≡ false = ground arith in
    elim (Bool-cases (size == 0)) [
      | inl e ↦
          let empty : size ≡ 0 = ground arith in
          (
            copied,
            rw (room, e) refl,
            record {
              full = copied_full;
              fits = fits;
              ordered = λ i lt. absurd (omega (arith, empty, lt));
            },
            copied-count,
          )
      | inr e ↦
          let (a, run, full1, ordered, counts) =
            heapify-Sifted fuel ((size - 1) / 2 + 1) h1 f fits copied_full
              (IsOrderedFrom-last (key_of h1) size (ground arith)) in
          (
            a,
            rw (room, e) run,
            record { full = full1; fits = fits; ordered = λ i lt. ordered i lt (omega arith) },
            λ t. counts t ∙ copied-count t,
          )
    ]
  where
    copied : ℕ → Option ℕ
    copied i = if ltb i size then init_array i else none

    same : (i : ℕ) → i < size → copied i ≡ init_array i
    same i lt = let e : ltb i size ≡ true = ground arith in rw e refl

    copied_full : (i : ℕ) → i < size → (t : ℕ) × (copied i ≡ some t) × ◌≡◌ {A = Bool} false false
    copied_full i lt = let (t, e) = full i lt in (t, same i lt ∙ e, refl)

    copied-count : (t : Option ℕ → Bool) → count_if t size copied ≡ count_if t size init_array
    copied-count t = count_if_same t size copied init_array same
