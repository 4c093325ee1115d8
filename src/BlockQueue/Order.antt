-- ===== src/BlockQueue/Order.antt =====
-- The order of the items in practice/log/blockQueue.h, and the threads that are kept apart.
use study_record.Common.{
  ℕ, ◌+◌, ◌-◌, ◌≤◌, ◌<◌, ◌≡◌, ◌≢◌, refl, ◌∙◌, sym, ap, inl, inr, Bool-cases, Bool, true, false,
  List, [], ◌∷◌, ◌++◌, length, append_assoc, append-nil, arith,
}
use study_record.Common.Threads.{update, count_if, count_if-pos, count_if-two}
use study_record.BlockQueue.{
  BlockQueue, init, empty, Pc, idle, storing, insert_unlock, loading, remove_unlock, Move, put, get,
  System, Reach, start, later, pick,
}
use study_record.BlockQueue.Invariant.{
  is_critical, is_reserved, is_stored, is_claimed, is_loaded, Reach-Inv,
}
use study_record.BlockQueue.Contents.{
  contents, stretch, length-stretch, contents-store, contents-load,
}

module _ {A : Type 0} (empty_item : A) (n size : ℕ) where
  not_counted :
      (w : Pc A → Bool) (f : ℕ → Pc A) (i : ℕ) → i < n → count_if w n f ≡ 0 → w (f i) ≡ false
  not_counted w f i lt z = elim (Bool-cases (w (f i))) [
    | inl e ↦ absurd (omega (arith, count_if-pos w n f i lt e))
    | inr e ↦ e
  ]

  -- Two threads are never between the wait and the post of `mutex` at once.
  pub mutual_exclusion :
      {s : System A} (i j : ℕ)
      → Reach empty_item n size s
      → i < n
      → j < n
      → i ≢ j
      → is_critical (s.pc i) ≡ true
      → is_critical (s.pc j) ≢ true
  mutual_exclusion {s} i j r lt lt' d c c' = omega (
    arith,
    (Reach-Inv empty_item n size r).one_inside,
    count_if-two is_critical n s.pc i j lt lt' d c c',
  )

  -- The two indices are never more than a full ring apart, and a thread about to store finds a
  -- place that is free, one about to load an entry that is filled.
  pub indices_bounds :
      {s : System A} (i : ℕ)
      → Reach empty_item n size s
      → i < n
      → (s.queue.front ≤ s.queue.rear)
        × (s.queue.rear ≤ s.queue.front + size)
        × (is_reserved (s.pc i) ≡ true → s.queue.rear < s.queue.front + size)
        × (is_claimed (s.pc i) ≡ true → s.queue.front < s.queue.rear)
  indices_bounds {s} i r lt =
      let v = Reach-Inv empty_item n size r in
      (
        omega (arith, v.entries),
        omega (arith, v.entries, v.places),
        (λ c. omega (arith, v.entries, v.places, count_if-pos is_reserved n s.pc i lt c)),
        (λ c. omega (arith, v.entries, count_if-pos is_claimed n s.pc i lt c)),
      )

  -- The item that a step puts into the queue, and the one that it takes out.
  abbrev pub put_by : Pc A → Pc A → List A
  put_by (storing x) insert_unlock = x ∷ []
  put_by _ _ = []

  abbrev pub taken_by : Pc A → Pc A → List A
  taken_by loading (remove_unlock x) = x ∷ []
  taken_by _ _ = []

  Move-contents :
      {q q' : BlockQueue A} {p p' : Pc A}
      → Move empty_item q p q' p'
      → (is_reserved p ≡ true → q.rear < q.front + q.max_size)
      → (is_claimed p ≡ true → q.front < q.rear)
      → q.front ≤ q.rear
      → length q.buf ≡ q.max_size
      → contents empty_item q ++ put_by p p' ≡ taken_by p p' ++ contents empty_item q'
  Move-contents {q} (put {x} h) free filled le b =
      sym (contents-store empty_item q x le (free refl) b)
  Move-contents {q} (get h) free filled le b =
      append-nil (contents empty_item q) ∙ contents-load empty_item q (filled refl)
  Move-contents {q} m free filled le b = append-nil (contents empty_item q)

  -- A run, with the items in the order in which they were stored and in which they were loaded.
  pub data History : List A → List A → System A → Type 0 where
    begin : History [] [] (record { queue = init empty_item size; pc = λ _. idle })
    go :
        {ins outs : List A} {s : System A}
        → History ins outs s
        → (i : ℕ) {q : BlockQueue A} {p : Pc A} → i < n
        → Move empty_item s.queue (s.pc i) q p
        → History
            (ins ++ put_by (s.pc i) p)
            (outs ++ taken_by (s.pc i) p)
            (record { queue = q; pc = update s.pc i p })

  pub History-Reach :
      {ins outs : List A} {s : System A} → History ins outs s → Reach empty_item n size s
  History-Reach begin = start
  History-Reach (go h i lt m) = later (History-Reach h) (pick i lt m)

  in_order :
      {ins outs : List A} {s : System A}
      → History ins outs s
      → ins ≡ outs ++ contents empty_item s.queue
  unfolding stretch
  in_order begin = refl
  in_order (go {ins} {outs} {s} h i {q} {p} lt m) =
      let v = Reach-Inv empty_item n size (History-Reach h) in
      let (le, full, free, filled) = indices_bounds i (History-Reach h) lt in
      let room : s.queue.front + size ≡ s.queue.front + s.queue.max_size =
        omega (arith, v.capacity) in
      let moved =
        Move-contents m (λ c. omega (arith, free c, room)) filled le (v.room ∙ sym v.capacity) in
      ap (λ xs. xs ++ put_by (s.pc i) p) (in_order h)
      ∙ append_assoc outs (contents empty_item s.queue) (put_by (s.pc i) p)
      ∙ ap (λ xs. outs ++ xs) moved
      ∙ sym (append_assoc outs (taken_by (s.pc i) p) (contents empty_item q))

  -- What was stored is what was loaded, in the same order, and then what is still in the queue,
  -- which is never more than `size` items.
  pub history_fifo :
      {ins outs : List A} {s : System A}
      → History ins outs s
      → (ins ≡ outs ++ contents empty_item s.queue) × (length (contents empty_item s.queue) ≤ size)
  history_fifo {s = s} h =
      let v = Reach-Inv empty_item n size (History-Reach h) in
      let count =
        length-stretch empty_item s.queue.buf s.queue.max_size (s.queue.rear - s.queue.front)
          s.queue.front in
      (in_order h, omega (arith, count, v.entries, v.places))

  -- When empty() says so, no item is in the queue and no thread has one under way.
  pub empty_sound :
      {s : System A} (i : ℕ)
      → Reach empty_item n size s
      → i < n
      → empty s.queue ≡ true
      → (contents empty_item s.queue ≡ [])
        × (is_reserved (s.pc i) ≡ false)
        × (is_stored (s.pc i) ≡ false)
        × (is_claimed (s.pc i) ≡ false)
        × (is_loaded (s.pc i) ≡ false)
  unfolding empty stretch
  empty_sound {s} i r lt e =
      let v = Reach-Inv empty_item n size r in
      let all_free : s.queue.slots ≡ size = ground (arith, v.capacity) in
      let none_left : s.queue.rear - s.queue.front ≡ 0 = omega (arith, v.entries, v.places) in
      (
        ap (λ k. stretch empty_item s.queue.buf s.queue.max_size k s.queue.front) none_left,
        not_counted is_reserved s.pc i lt (omega (arith, v.places)),
        not_counted is_stored s.pc i lt (omega (arith, v.places)),
        not_counted is_claimed s.pc i lt (omega (arith, v.places)),
        not_counted is_loaded s.pc i lt (omega (arith, v.places)),
      )
