-- ===== src/MinHeap/Tick.antt =====
-- tick of mine/practice/minHeapTimer.h calls back the timers that are due, in the order of their times.
use study_record.Common.{
  ℕ, zero, suc, ◌+◌, ◌<◌, ◌≤◌, ◌≡◌, ◌∙◌, refl, ap, List, [], ◌∷◌, Option, none, some, Bool, true,
  false, ltb, ◌==◌, inl, inr, Bool-cases, if◌then◌else◌, arith,
}
use study_record.Common.Run.{Run, ok}
use study_record.Common.Threads.{update, count_if}
use study_record.MinHeap.{TimeHeap, pop_timer, tick_loop, tick}
use study_record.MinHeap.Up.{time, key_of, IsHeap}
use study_record.MinHeap.Pop.{
  one, is_timer, IsOnce, popped, pop_timer-Popped, kept_after, first_least,
}

-- Times from `m` to `cur`, in order.
abbrev pub IsDueFrom : (ℕ → ℕ) → ℕ → ℕ → List ℕ → Type 0
IsDueFrom expire cur m [] = 0 ≤ 0
IsDueFrom expire cur m (t ∷ ts) =
    (m ≤ expire t) × (expire t ≤ cur) × IsDueFrom expire cur (expire t) ts

-- What the callbacks of the timers are called with.
abbrev pub calls : TimeHeap → List ℕ → List ℕ
calls h [] = []
calls h (t ∷ ts) = if h.has_cb t then h.user_data t ∷ calls h ts else calls h ts

abbrev pub tally : (Option ℕ → Bool) → List ℕ → ℕ
tally f [] = 0
tally f (t ∷ ts) = one f (some t) + tally f ts

-- The timers are deleted.
abbrev pub delete_all : List ℕ → (ℕ → Bool) → ℕ → Bool
delete_all [] d = d
delete_all (t ∷ ts) d = delete_all ts (update d t true)

abbrev pub left_with : TimeHeap → List ℕ → (ℕ → Option ℕ) → ℕ → TimeHeap
left_with h due a n = record h { array = a; cur_size = n; deleted = delete_all due h.deleted }

-- The timers `due` are taken out, deleted and called back, from the time `m` on; those left are later than `cur`.
abbrev pub Ticked : TimeHeap → ℕ → ℕ → Run (List ℕ × TimeHeap) → Type 0
Ticked h cur m r =
    (due : List ℕ) × (a : ℕ → Option ℕ) × (n : ℕ) × (r ≡ ok (calls h due, left_with h due a n))
    × IsDueFrom h.absolute_expire cur m due
    × ((i : ℕ) → i < n → cur < key_of (left_with h due a n) i)
    × ((f : Option ℕ → Bool) → tally f due + count_if f n a ≡ count_if f h.cur_size h.array)
    × IsHeap (left_with h due a n)

module _ (k cur t : ℕ) (h : TimeHeap) where
  loop_empty : (tmp : Option ℕ) → h.cur_size ≡ 0 → tick_loop (suc k) cur tmp h ≡ ok ([], h)
  unfolding tick_loop
  loop_empty none e = refl
  loop_empty (some t) e =
      let used : (h.cur_size == 0) ≡ true = ground (arith, e) in rw (tick_loop, used) refl

  loop_later :
      (h.cur_size == 0) ≡ false
      → h.deleted t ≡ false
      → ltb cur (h.absolute_expire t) ≡ true
      → tick_loop (suc k) cur (some t) h ≡ ok ([], h)
  unfolding tick_loop
  loop_later used live e = rw (tick_loop, used, live, e) refl

  loop_due :
      (due : List ℕ) (h1 h2 : TimeHeap)
      → (h.cur_size == 0) ≡ false
      → h.deleted t ≡ false
      → ltb cur (h.absolute_expire t) ≡ false
      → pop_timer (h.cur_size + 1) h ≡ ok h1
      → ltb 0 h1.capacity ≡ true
      → tick_loop k cur (h1.array 0) h1 ≡ ok (calls h due, h2)
      → tick_loop (suc k) cur (some t) h ≡ ok (calls h (t ∷ due), h2)
  unfolding tick_loop
  loop_due due h1 h2 used live e pop inside rest =
      rw (tick_loop, used, live, e, pop, inside, rest) refl

calls-same :
    (h : TimeHeap) (first : ℕ) (a : ℕ → Option ℕ) (ts : List ℕ)
    → calls (popped h first a) ts ≡ calls h ts
calls-same h first a [] = refl
calls-same h first a (t ∷ ts) = rw (calls-same h first a ts) refl

tick_loop-Ticked :
    (k cur m : ℕ) (h : TimeHeap)
    → IsHeap h
    → IsOnce h
    → h.cur_size < k
    → ((i : ℕ) → i < h.cur_size → m ≤ key_of h i)
    → Ticked h cur m (tick_loop k cur (h.array 0) h)
tick_loop-Ticked zero cur m h v once f after = absurd (omega arith)
tick_loop-Ticked (suc k) cur m h v once f after = elim (Bool-cases (h.cur_size == 0)) [
  | inl e ↦
      let none_left : h.cur_size ≡ 0 = ground arith in
      (
        [],
        h.array,
        h.cur_size,
        loop_empty k cur 0 h (h.array 0) none_left,
        omega arith,
        λ i lt. absurd (omega (arith, none_left, lt)),
        λ f. omega arith,
        v,
      )
  | inr used ↦
      let some_left : 0 < h.cur_size = ground arith in
      let (t, first, live) = v.full 0 some_left in
      let key : key_of h 0 ≡ h.absolute_expire t = ap (time h.absolute_expire) first in
      elim (Bool-cases (ltb cur (h.absolute_expire t))) [
        | inl e ↦ (
          [],
          h.array,
          h.cur_size,
          ap (λ x. tick_loop (suc k) cur x h) first ∙ loop_later k cur t h used live e,
          omega arith,
          λ i lt. ground (arith, first_least h v i lt, key),
          λ f. omega arith,
          v,
        )
        | inr e ↦
            let (a, run, shape, counts) =
              pop_timer-Popped (h.cur_size + 1) t h v once some_left (omega arith) first in
            let h1 = popped h t a in
            let from : (i : ℕ) → i < h.cur_size → h.absolute_expire t ≤ key_of h i =
              λ i lt. omega (arith, first_least h v i lt, key) in
            let (due, b, n, rest, due_ok, left, all, heap) =
              tick_loop-Ticked k cur (h.absolute_expire t) h1 shape
                (λ u. omega (arith, counts (is_timer u), once u)) (omega arith)
                (kept_after h h1 (h.absolute_expire t) (λ f. omega (arith, counts f)) refl from) in
            (
              t ∷ due,
              b,
              n,
              ap (λ x. tick_loop (suc k) cur x h) first
                  ∙ loop_due k cur t h due h1 (left_with h (t ∷ due) b n) used live e run
                      (ground (arith, v.fits))
                      (rest ∙ ap (λ c. ok (c, left_with h (t ∷ due) b n)) (calls-same h t a due)),
              (omega (arith, after 0 some_left, key), ground arith, due_ok),
              left,
              λ f. omega (arith, all f, counts f),
              heap,
            )
      ]
]

-- On a heap with a capacity, in which no timer stands twice and none has been deleted, tick at the time
-- `cur` takes timers out in the order of their times, none later than `cur`, calls back those whose
-- callback is set with their user data, and deletes each. Every timer left is later than `cur`; those
-- taken out and those left are the timers before, each as often as before; and those left are a heap of
-- timers that have not been deleted. The fuel of the loop has to be above the number of entries.
pub tick_fires_due :
    (fuel cur : ℕ) (h : TimeHeap)
    → IsHeap h
    → IsOnce h
    → 0 < h.capacity
    → h.cur_size < fuel
    → Ticked h cur 0 (tick fuel cur h)
unfolding tick
tick_fires_due fuel cur h v once some_room f =
    let (due, a, n, run, due_ok, left, all, heap) =
      tick_loop-Ticked fuel cur 0 h v once f (λ i lt. omega arith) in
    let inside : ltb 0 h.capacity ≡ true = ground arith in
    (due, a, n, rw inside run, due_ok, left, all, heap)
