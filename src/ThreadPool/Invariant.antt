-- ===== src/ThreadPool/Invariant.antt =====
-- How the semaphore of practice/threadpool/threadPool.h accounts for the requests in its queue.
use study_record.Common.{
  ℕ, ◌+◌, ◌≤◌, ◌<◌, ◌≡◌, refl, ◌∙◌, sym, ap, inl, inr, [], ◌∷◌, ◌++◌, Bool, true, false, ltb, ◌==◌,
  Bool-cases, if◌then◌else◌, length, length-append, arith,
}
use study_record.Common.Threads.{
  update, count_if, count_if-update, count_if-pos, count_if-two, count_if-none,
}
use study_record.ThreadPool.{
  ThreadPool, Pc, outside, set_state, append_lock, test_size, refuse_unlock, push_back,
  append_unlock, post_stat, returned, test_stop, wait_stat, run_lock, test_empty, empty_unlock,
  pop_front, run_unlock, test_null, process, stopped, Move, call_append, call_append_state,
  write_state, lock_append, full, not_full, unlock_refuse, push, unlock_append, post, leave_append,
  go_on, stop, wait, lock_run, is_empty, not_empty, unlock_empty, pop, unlock_run, skip_null,
  not_null, processed, System, create,
}

-- Between lock and unlock of `m_queuelocker`.
abbrev pub is_critical : Pc → Bool
is_critical (test_size r) = true
is_critical refuse_unlock = true
is_critical (push_back r) = true
is_critical append_unlock = true
is_critical test_empty = true
is_critical empty_unlock = true
is_critical pop_front = true
is_critical (run_unlock r) = true
is_critical _ = false

-- Has pushed a request and not yet posted it.
abbrev pub is_pushed : Pc → Bool
is_pushed append_unlock = true
is_pushed post_stat = true
is_pushed _ = false

-- Has taken a token of `m_queuestat` and not yet a request.
abbrev pub is_claimed : Pc → Bool
is_claimed run_lock = true
is_claimed test_empty = true
is_claimed pop_front = true
is_claimed _ = false

abbrev pub is_pushing : Pc → Bool
is_pushing (push_back r) = true
is_pushing _ = false

pushing-inside : (p : Pc) → is_pushing p ≡ true → is_critical p ≡ true
pushing-inside (push_back r) h = refl
pushing-inside p h = ground arith

abbrev one : Bool → ℕ
one b = if b then 1 else 0

pub record Inv (n max : ℕ) (t : ThreadPool) (pc : ℕ → Pc) : Type 0 where
  pub limit : t.m_max_requests ≡ max
  pub one_inside : t.m_queuelocker + count_if is_critical n pc ≡ 1
  pub tokens :
      t.m_queuestat + count_if is_pushed n pc + count_if is_claimed n pc ≡ length t.m_workqueue
  pub room : (i : ℕ) → i < n → is_pushing (pc i) ≡ true → length t.m_workqueue ≤ max
  pub bound : length t.m_workqueue ≤ max + 1

module _ (n max : ℕ) (t : ThreadPool) (pc : ℕ → Pc) (v : Inv n max t pc) (i : ℕ) (lt : i < n) where
  moved :
      (w : Pc → Bool) {p : Pc} (p' : Pc)
      → pc i ≡ p
      → count_if w n (update pc i p') + one (w p) ≡ count_if w n pc + one (w p')
  moved w p' e =
      sym (ap (λ x. count_if w n (update pc i p') + one (w x)) e) ∙ count_if-update w n pc i p' lt

  -- A move that keeps the queue or takes from it.
  keep :
      {t' : ThreadPool} {p : Pc} (p' : Pc)
      → pc i ≡ p
      → t'.m_max_requests ≡ t.m_max_requests
      → t'.m_queuelocker + one (is_critical p') ≡ t.m_queuelocker + one (is_critical p)
      → t'.m_queuestat + one (is_pushed p') + one (is_claimed p') + length t.m_workqueue
        ≡ t.m_queuestat + one (is_pushed p) + one (is_claimed p) + length t'.m_workqueue
      → length t'.m_workqueue ≤ length t.m_workqueue
      → (is_pushing p' ≡ true → length t'.m_workqueue ≤ max)
      → Inv n max t' (update pc i p')
  keep {t'} {p} p' e hm hl ht le hp = record {
    limit = hm ∙ v.limit;
    one_inside = omega (arith, v.one_inside, moved is_critical p' e);
    tokens = omega (arith, v.tokens, moved is_pushed p' e, moved is_claimed p' e);
    room = λ j ltj c. ground (arith, v.room j ltj);
    bound = omega (arith, v.bound);
  }

  -- The thread that pushes is the only one inside, so no other has passed the test of the size.
  push-Inv :
      (r : ℕ)
      → pc i ≡ push_back r
      → Inv n max (record t { m_workqueue = t.m_workqueue ++ r ∷ [] }) (update pc i append_unlock)
  push-Inv r e = record {
    limit = v.limit;
    one_inside = omega (arith, v.one_inside, moved is_critical append_unlock e);
    tokens = omega (
      arith,
      v.tokens,
      moved is_pushed append_unlock e,
      moved is_claimed append_unlock e,
      length-append t.m_workqueue (r ∷ []),
    );
    room = λ j ltj c. elim (Bool-cases (i == j)) [
      | inl same ↦ ground arith
      | inr other ↦
          let both =
            count_if-two is_critical n pc i j lt ltj (ground arith) (ap is_critical e)
              (pushing-inside (pc j) (ground arith)) in
          absurd (omega (arith, both, v.one_inside))
    ];
    bound = omega (arith, length-append t.m_workqueue (r ∷ []), v.room i lt (ap is_pushing e));
  }

  Move-Inv :
      {t' : ThreadPool} {p p' : Pc} → pc i ≡ p → Move t p t' p' → Inv n max t' (update pc i p')
  Move-Inv e (call_append r) =
      keep (append_lock r) e refl refl refl (omega arith) (λ c. ground arith)
  Move-Inv e (call_append_state r x) =
      keep (set_state r x) e refl refl refl (omega arith) (λ c. ground arith)
  Move-Inv e (write_state {r} h) =
      keep (append_lock r) e refl refl refl (omega arith) (λ c. ground arith)
  Move-Inv e (lock_append {r} h) =
      keep (test_size r) e refl (omega arith) refl (omega arith) (λ c. ground arith)
  Move-Inv e (full h) = keep refuse_unlock e refl refl refl (omega arith) (λ c. ground arith)
  Move-Inv e unlock_refuse =
      keep (returned false) e refl (omega arith) refl (omega arith) (λ c. ground arith)
  Move-Inv e unlock_append =
      keep post_stat e refl (omega arith) refl (omega arith) (λ c. ground arith)
  Move-Inv e post = keep (returned true) e refl refl (omega arith) (omega arith) (λ c. ground arith)
  Move-Inv e leave_append = keep outside e refl refl refl (omega arith) (λ c. ground arith)
  Move-Inv e (go_on h) = keep wait_stat e refl refl refl (omega arith) (λ c. ground arith)
  Move-Inv e (stop h) = keep stopped e refl refl refl (omega arith) (λ c. ground arith)
  Move-Inv e (wait h) = keep run_lock e refl refl (omega arith) (omega arith) (λ c. ground arith)
  Move-Inv e (lock_run h) =
      keep test_empty e refl (omega arith) refl (omega arith) (λ c. ground arith)
  Move-Inv e (not_empty h) = keep pop_front e refl refl refl (omega arith) (λ c. ground arith)
  Move-Inv e unlock_empty =
      keep test_stop e refl (omega arith) refl (omega arith) (λ c. ground arith)
  Move-Inv e (unlock_run {r}) =
      keep (test_null r) e refl (omega arith) refl (omega arith) (λ c. ground arith)
  Move-Inv e (skip_null h) = keep test_stop e refl refl refl (omega arith) (λ c. ground arith)
  Move-Inv e (not_null {r} h) = keep (process r) e refl refl refl (omega arith) (λ c. ground arith)
  Move-Inv e processed = keep test_stop e refl refl refl (omega arith) (λ c. ground arith)
  Move-Inv e (not_full {r} h) =
      keep (push_back r) e refl refl refl (omega arith) (λ c. omega (arith, v.limit))
  Move-Inv e (push {r}) = push-Inv r e
  Move-Inv e (is_empty h) =
      absurd (omega (arith, v.tokens, count_if-pos is_claimed n pc i lt (ap is_claimed e)))
  Move-Inv e (pop {r} {rest} h) =
      let one_less : length t.m_workqueue ≡ length rest + 1 = ap length h ∙ ground arith in
      keep (run_unlock r) e refl refl (omega (arith, one_less)) (omega (arith, one_less))
        (λ c. ground arith)

pub data Reach (n workers max : ℕ) : System → Type 0 where
  start : Reach n workers max (create workers max)
  later :
      {s : System}
      → Reach n workers max s
      → (i : ℕ) {t : ThreadPool} {p : Pc} → i < n
      → Move s.pool (s.pc i) t p
      → Reach n workers max (record { pool = t; pc = update s.pc i p })

if_either :
    (w : Pc → Bool) (b : Bool)
    → w test_stop ≡ false
    → w outside ≡ false
    → w (if b then test_stop else outside) ≡ false
if_either w true e f = e
if_either w false e f = f

pub Reach-Inv : (n workers max : ℕ) {s : System} → Reach n workers max s → Inv n max s.pool s.pc
Reach-Inv n workers max start =
    let none = λ (w : Pc → Bool) (e : w test_stop ≡ false) (f : w outside ≡ false).
      count_if-none w n (create workers max).pc (λ i. if_either w (ltb i workers) e f) in
    record {
      limit = refl;
      one_inside = omega (arith, none is_critical refl refl);
      tokens = omega (arith, none is_pushed refl refl, none is_claimed refl refl);
      room = λ i lt c. omega arith;
      bound = omega arith;
    }
Reach-Inv n workers max (later {s} r i lt m) =
    Move-Inv n max s.pool s.pc (Reach-Inv n workers max r) i lt refl m
