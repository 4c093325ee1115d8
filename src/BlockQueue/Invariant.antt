-- ===== src/BlockQueue/Invariant.antt =====
-- How the semaphores account for the threads and the entries of the queue.
use study_record.Common.{
  ℕ, ◌+◌, ◌<◌, ◌≡◌, refl, ◌∙◌, sym, ap, ◌%◌, length-replicate, Bool, true, false, if◌then◌else◌,
  length, length-set, arith,
}
use study_record.Common.Threads.{update, count_if, count_if-update, count_if-none}
use study_record.BlockQueue.{
  BlockQueue, store, load, Pc, idle, storing, insert_lock, insert_unlock, post_items, remove_lock,
  loading, remove_unlock, post_slots, wait_slots, wait_items, Move, call_insert, take_slot,
  lock_insert, put, unlock_insert, give_item, call_remove, take_item, lock_remove, get,
  unlock_remove, give_slot, System, pick, Reach, start, later,
}

abbrev one : Bool → ℕ
one b = if b then 1 else 0

module _ {A : Type 0} where
  -- Inside the section that `mutex` guards.
  abbrev pub is_critical : Pc A → Bool
  is_critical (storing x) = true
  is_critical insert_unlock = true
  is_critical loading = true
  is_critical (remove_unlock x) = true
  is_critical _ = false

  -- Has taken a slot and has not stored.
  abbrev pub is_reserved : Pc A → Bool
  is_reserved (insert_lock x) = true
  is_reserved (storing x) = true
  is_reserved _ = false

  -- Has stored and not yet announced the item.
  abbrev pub is_stored : Pc A → Bool
  is_stored insert_unlock = true
  is_stored post_items = true
  is_stored _ = false

  -- Has taken an announced item and has not loaded it.
  abbrev pub is_claimed : Pc A → Bool
  is_claimed remove_lock = true
  is_claimed loading = true
  is_claimed _ = false

  -- Has loaded and not yet given the slot back.
  abbrev pub is_loaded : Pc A → Bool
  is_loaded (remove_unlock x) = true
  is_loaded (post_slots x) = true
  is_loaded _ = false

  pub record Inv (n size : ℕ) (q : BlockQueue A) (pc : ℕ → Pc A) : Type 0 where
    pub capacity : q.max_size ≡ size
    pub room : length q.buf ≡ size
    pub one_inside : q.mutex + count_if is_critical n pc ≡ 1
    pub entries : q.front + (q.items + count_if is_stored n pc + count_if is_claimed n pc) ≡ q.rear
    pub places :
        q.slots
          + q.items
          + count_if is_reserved n pc
          + count_if is_stored n pc
          + count_if is_claimed n pc
          + count_if is_loaded n pc
        ≡ size

  -- What the thread `i` gives up, the queue gets, and the other way round.
  module _ (n size : ℕ) (q : BlockQueue A) (pc : ℕ → Pc A) (v : Inv n size q pc) (i : ℕ)
      (lt : i < n) where
    moved :
        (w : Pc A → Bool) {p : Pc A} (p' : Pc A)
        → pc i ≡ p
        → count_if w n (update pc i p') + one (w p) ≡ count_if w n pc + one (w p')
    moved w p' e =
        sym (ap (λ x. count_if w n (update pc i p') + one (w x)) e) ∙ count_if-update w n pc i p' lt

    keep :
        {q' : BlockQueue A} {p : Pc A} (p' : Pc A)
        → pc i ≡ p
        → q'.max_size ≡ q.max_size
        → length q'.buf ≡ length q.buf
        → q'.mutex + one (is_critical p') ≡ q.mutex + one (is_critical p)
        → q'.front + (q'.items + one (is_stored p') + one (is_claimed p')) + q.rear
          ≡ q.front + (q.items + one (is_stored p) + one (is_claimed p)) + q'.rear
        → q'.slots
            + q'.items
            + one (is_reserved p')
            + one (is_stored p')
            + one (is_claimed p')
            + one (is_loaded p')
          ≡ q.slots
            + q.items
            + one (is_reserved p)
            + one (is_stored p)
            + one (is_claimed p)
            + one (is_loaded p)
        → Inv n size q' (update pc i p')
    keep {q'} {p} p' e hm hb hc he hp = record {
      capacity = hm ∙ v.capacity;
      room = hb ∙ v.room;
      one_inside = omega (arith, v.one_inside, moved is_critical p' e);
      entries = omega (arith, v.entries, moved is_stored p' e, moved is_claimed p' e);
      places = omega (
        arith,
        v.places,
        moved is_reserved p' e,
        moved is_stored p' e,
        moved is_claimed p' e,
        moved is_loaded p' e,
      );
    }

    Move-Inv :
        (empty_item : A) {q' : BlockQueue A} {p p' : Pc A}
        → pc i ≡ p
        → Move empty_item q p q' p'
        → Inv n size q' (update pc i p')
    unfolding store load
    Move-Inv empty_item e (call_insert x) = keep (wait_slots x) e refl refl refl refl refl
    Move-Inv empty_item e (take_slot {x} h) =
        keep (insert_lock x) e refl refl refl refl (omega arith)
    Move-Inv empty_item e (lock_insert {x} h) = keep (storing x) e refl refl (omega arith) refl refl
    Move-Inv empty_item e (put {x} h) =
        keep insert_unlock e refl (length-set q.buf ((q.rear + 1) % q.max_size) x) refl
          (omega arith) (omega arith)
    Move-Inv empty_item e unlock_insert = keep post_items e refl refl (omega arith) refl refl
    Move-Inv empty_item e give_item = keep idle e refl refl refl (omega arith) (omega arith)
    Move-Inv empty_item e call_remove = keep wait_items e refl refl refl refl refl
    Move-Inv empty_item e (take_item h) =
        keep remove_lock e refl refl refl (omega arith) (omega arith)
    Move-Inv empty_item e (lock_remove h) = keep loading e refl refl (omega arith) refl refl
    Move-Inv empty_item e (get h) =
        keep (remove_unlock (load empty_item q).0) e refl refl refl (omega arith) (omega arith)
    Move-Inv empty_item e (unlock_remove {x}) =
        keep (post_slots x) e refl refl (omega arith) refl refl
    Move-Inv empty_item e give_slot = keep idle e refl refl refl refl (omega arith)

  pub Reach-Inv :
      (empty_item : A) (n size : ℕ) {s : System A}
      → Reach empty_item n size s
      → Inv n size s.queue s.pc
  Reach-Inv empty_item n size start = record {
    capacity = refl;
    room = length-replicate size empty_item;
    one_inside = omega (arith, count_if-none is_critical n (λ _. idle) (λ _. refl));
    entries = omega (
      arith,
      count_if-none is_stored n (λ _. idle) (λ _. refl),
      count_if-none is_claimed n (λ _. idle) (λ _. refl),
    );
    places = omega (
      arith,
      count_if-none is_reserved n (λ _. idle) (λ _. refl),
      count_if-none is_loaded n (λ _. idle) (λ _. refl),
      count_if-none is_stored n (λ _. idle) (λ _. refl),
      count_if-none is_claimed n (λ _. idle) (λ _. refl),
    );
  }
  Reach-Inv empty_item n size (later {s} r (pick i lt m)) =
      Move-Inv n size s.queue s.pc (Reach-Inv empty_item n size r) i lt empty_item refl m
