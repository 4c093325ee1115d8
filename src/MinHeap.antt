-- ===== src/MinHeap.antt =====
-- mine/practice/minHeapTimer.h: timers in an array, ordered as a heap by their times.
pub mod Order
pub mod Up
pub mod Add
pub mod Sink
pub mod Down
pub mod Build
pub mod Pop
pub mod Tick
mod Tests
use study_record.Common.{
  ℕ, zero, suc, ◌+◌, ◌-◌, ◌*◌, ◌/◌, List, [], ◌∷◌, Option, none, some, Bool, true, false, ltb, leb,
  ◌==◌, ◌||◌, if◌then◌else◌,
}
use study_record.Common.Run.{Run, ok, fault, out_of_fuel, ◌>>=◌, deref}
use study_record.Common.Threads.{update}

-- A timer is named by its address. `has_cb` is whether `cb_func` is set, and `deleted` has the timers
-- that pop_timer of this heap has deleted, which nothing may access any more.
pub record TimeHeap : Type 0 where
  pub array : ℕ → Option ℕ
  pub capacity : ℕ
  pub cur_size : ℕ
  pub absolute_expire : ℕ → ℕ
  pub has_cb : ℕ → Bool
  pub user_data : ℕ → ℕ
  pub deleted : ℕ → Bool

-- The constructor time_heap(cap).
abbrev pub create : ℕ → TimeHeap
create cap = record {
  array = λ i. none;
  capacity = cap;
  cur_size = 0;
  absolute_expire = λ t. 0;
  has_cb = λ t. false;
  user_data = λ t. 0;
  deleted = λ t. false;
}

-- An access to the array, one to a timer, and the timer of an entry, to be accessed.
abbrev pub at_entry {ℓ} : {A : Type ℓ} → ℕ → TimeHeap → Run A → Run A
at_entry i h r = if ltb i h.capacity then r else fault

abbrev pub alive : ℕ → TimeHeap → Run ℕ
alive t h = if h.deleted t then fault else ok t

abbrev pub timer_at : ℕ → TimeHeap → Run ℕ
timer_at i h = at_entry i h (deref (h.array i) >>= λ t. alive t h)

abbrev pub put : ℕ → ℕ → TimeHeap → TimeHeap
put i t h = record h { array = update h.array i (some t) }

-- The array doubled: the entries in use stay, the others are null.
abbrev pub resize : TimeHeap → TimeHeap
resize h = record h {
  capacity = 2 * h.capacity;
  array = λ i. if ltb i h.cur_size then h.array i else none;
}

-- The loop of add_timer from the hole, on fuel, and the store behind it.
unfoldable pub percolate_up : ℕ → ℕ → ℕ → TimeHeap → Run TimeHeap
percolate_up zero hole timer h = out_of_fuel
percolate_up (suc k) zero timer h = at_entry 0 h (ok (put 0 timer h))
percolate_up (suc k) (suc n) timer h = timer_at (n / 2) h >>= λ p. alive timer h >>= λ t.
    elim (leb (h.absolute_expire p) (h.absolute_expire t)) [
      | true ↦ at_entry (suc n) h (ok (put (suc n) timer h))
      | false ↦ at_entry (suc n) h (percolate_up k (n / 2) timer (put (suc n) p h))
    ]

unfoldable pub add_timer : ℕ → Option ℕ → TimeHeap → Run TimeHeap
add_timer fuel none h = ok h
add_timer fuel (some timer) h =
    let h1 = if leb h.capacity h.cur_size then resize h else h in
    percolate_up fuel h1.cur_size timer (record h1 { cur_size = h1.cur_size + 1 })

-- del_timer only clears the callback.
abbrev pub del_timer : Option ℕ → TimeHeap → Run TimeHeap
del_timer none h = ok h
del_timer (some timer) h = alive timer h >>= λ t. ok (record h { has_cb = update h.has_cb t false })

abbrev pub top : TimeHeap → Run (Option ℕ)
top h = if h.cur_size == 0 then ok none else at_entry 0 h (ok (h.array 0))

-- The child with the earlier time.
unfoldable pub smaller_child : ℕ → TimeHeap → Run ℕ
smaller_child hole h =
    let child = hole * 2 + 1 in
    if ltb child (h.cur_size - 1)
    then (timer_at (child + 1) h >>= λ b. timer_at child h >>= λ a.
        ok (if ltb (h.absolute_expire b) (h.absolute_expire a) then child + 1 else child))
    else ok child

unfoldable pub percolate_down : ℕ → ℕ → TimeHeap → Run TimeHeap
percolate_down zero hole h = out_of_fuel
percolate_down (suc k) hole h = elim (ltb (hole * 2 + 1) h.cur_size) [
  | false ↦ ok h
  | true ↦ smaller_child hole h >>= λ child. timer_at child h >>= λ c. timer_at hole h >>= λ t.
      elim (ltb (h.absolute_expire c) (h.absolute_expire t)) [
        | true ↦ percolate_down k child (put child t (put hole c h))
        | false ↦ ok h
      ]
]

-- The loop of the constructor from an array, for the entries below `i`, the last of them first.
unfoldable pub heapify : ℕ → ℕ → TimeHeap → Run TimeHeap
heapify fuel zero h = ok h
heapify fuel (suc i) h = percolate_down fuel i h >>= heapify fuel i

-- The constructor time_heap(init_array, size, capacity), with the timers of `h`. A throw out of it, which is
-- noexcept, ends the program, and is a fault.
unfoldable pub create_from : ℕ → (ℕ → Option ℕ) → ℕ → ℕ → TimeHeap → Run TimeHeap
create_from fuel init_array size cap h =
    let h1 = record h {
      array = λ i. if ltb i size then init_array i else none;
      capacity = cap;
      cur_size = size;
      deleted = λ t. false;
    } in
    if ltb cap size
    then fault
    else if size == 0
    then ok h1
    else heapify fuel ((size - 1) / 2 + 1) h1

-- By the first entry, which is deleted: `if(array[0])`.
unfoldable pub pop_first : ℕ → Option ℕ → TimeHeap → Run TimeHeap
pop_first fuel none h = ok h
pop_first fuel (some t) h =
    let n = h.cur_size - 1 in
    alive t h >>= λ first. at_entry n h (
      percolate_down fuel 0 (record h {
        cur_size = n;
        array = update h.array 0 (h.array n);
        deleted = update h.deleted first true;
      }))

unfoldable pub pop_timer : ℕ → TimeHeap → Run TimeHeap
pop_timer fuel h = if h.cur_size == 0 then ok h else at_entry 0 h (pop_first fuel (h.array 0) h)

-- The loop of tick at the time `cur`, on fuel: what the callbacks are called with, in order.
unfoldable pub tick_loop : ℕ → ℕ → Option ℕ → TimeHeap → Run (List ℕ × TimeHeap)
tick_loop zero cur tmp h = out_of_fuel
tick_loop (suc k) cur none h = ok ([], h)
tick_loop (suc k) cur (some t) h =
    if h.cur_size == 0
    then ok ([], h)
    else (alive t h >>= λ tmp.
        if ltb cur (h.absolute_expire tmp)
        then ok ([], h)
        else (pop_timer (h.cur_size + 1) h >>= λ h1.
            at_entry 0 h1 (tick_loop k cur (h1.array 0) h1) >>= λ (fired, h2).
            ok (if h.has_cb t then h.user_data t ∷ fired else fired, h2)))

-- tick reads `array[0]` before anything else.
unfoldable pub tick : ℕ → ℕ → TimeHeap → Run (List ℕ × TimeHeap)
tick fuel cur h = at_entry 0 h (tick_loop fuel cur (h.array 0) h)
