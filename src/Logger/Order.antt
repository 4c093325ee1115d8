-- ===== src/Logger/Order.antt =====
-- The order of the messages in the file of practice/log/logger.cpp.
use study_record.Common.{
  ℕ, ◌≤◌, ◌≡◌, ◌∙◌, refl, sym, ap, [], ◌∷◌, ◌++◌, append_assoc, append-nil, true, false, arith,
}
use study_record.Common.Threads.{update, update_self}
use study_record.Logger.{
  Logger, init, create, Pc, testing, Move, go_on, leave, remove, write_log, add_stopped, begin_add,
  add_async, add_sync, stop, System, Step, writer, caller, Reach, start, later,
}
use study_record.Logger.Laws.{held}

-- With one writer, which is the writer 0.
record InOrder {A : Type 0} (s : System A) : Type 0 where
  all : s.logger.added ≡ (s.logger.ofs ++ held (s.pc 0)) ++ s.logger.block_queue
  one : s.logger.write_thread_count ≡ 1
  async : s.logger.async_mode ≡ true

move_order :
    {A : Type 0} (l : Logger A) {l' : Logger A} {p q : Pc A}
    → Move l q l' p
    → l.added ≡ (l.ofs ++ held q) ++ l.block_queue
    → (l'.added ≡ (l'.ofs ++ held p) ++ l'.block_queue)
      × (l'.write_thread_count ≡ l.write_thread_count)
      × (l'.async_mode ≡ l.async_mode)
move_order l (go_on h) e = (e, refl, refl)
move_order l (leave h) e = (e, refl, refl)
move_order l (remove {x = x} {xs = xs} h) e = (
  e
      ∙ ap (λ ys. (l.ofs ++ []) ++ ys) h
      ∙ ap (λ ys. ys ++ x ∷ xs) (append-nil l.ofs)
      ∙ sym (append_assoc l.ofs (x ∷ []) xs),
  refl,
  refl,
)
move_order l (write_log {x = x}) e =
    (e ∙ ap (λ ys. ys ++ l.block_queue) (sym (append-nil (l.ofs ++ x ∷ []))), refl, refl)

order_after : {A : Type 0} {s s' : System A} → Step s s' → InOrder s → InOrder s'
order_after {s = s} (writer i {l} {p} lt m) v =
    let first : 0 ≡ i = omega (arith, v.one) in
    let (all, count, mode) =
      move_order s.logger m
        (v.all ∙ ap (λ k. (s.logger.ofs ++ held (s.pc k)) ++ s.logger.block_queue) first) in
    record {
      all =
          all
          ∙ ap (λ p. (l.ofs ++ held p) ++ l.block_queue)
              (sym (ap (update s.pc i p) first ∙ update_self s.pc i p));
      one = count ∙ v.one;
      async = mode ∙ v.async;
    }
order_after (caller (add_stopped x h)) v = v
order_after (caller (begin_add x h)) v = record { all = v.all; one = v.one; async = v.async }
order_after {s = s} (caller (add_async x before after h k room)) v = record {
  all =
      ap (λ ys. ys ++ x ∷ []) v.all
      ∙ append_assoc (s.logger.ofs ++ held (s.pc 0)) s.logger.block_queue (x ∷ []);
  one = v.one;
  async = v.async;
}
order_after (caller (add_sync x before after h k)) v = absurd (clash (sym v.async ∙ k))
  where
    clash : true ≡ false → ⊥
    clash e = cc
order_after (caller stop) v = record { all = v.all; one = v.one; async = v.async }

reach_order : {A : Type 0} {size : ℕ} {s : System A} → Reach true 1 size s → InOrder s
unfolding init
reach_order start = record { all = refl; one = refl; async = refl }
reach_order (later r step) = order_after step (reach_order r)

-- With a single writer, however the steps of the callers fall between its own, the file holds the
-- messages in the order in which they were taken in, followed by the one the writer holds and those in
-- the queue.
pub messages_in_order :
    {A : Type 0} {size : ℕ} {s : System A}
    → Reach true 1 size s
    → s.logger.added ≡ (s.logger.ofs ++ held (s.pc 0)) ++ s.logger.block_queue
messages_in_order r = (reach_order r).all

-- With two writers or more and room for two messages, two messages can be written in the other order
-- than they were taken in.
pub messages_swapped :
    {A : Type 0} (n size : ℕ) (x y : A)
    → 2 ≤ n
    → 2 ≤ size
    → (s : System A) × Reach true n size s
      × (s.logger.added ≡ x ∷ y ∷ [])
      × (s.logger.ofs ≡ y ∷ x ∷ [])
unfolding init
messages_swapped n size x y hn hs =
    let r0 : Reach true n size
        (record { logger = init true false n size create; pc = λ i. testing }) =
      start in
    let q1 = later r0 (caller (begin_add x refl)) in
    let r1 = later q1 (caller (add_async x [] [] refl refl (omega arith))) in
    let q2 = later r1 (caller (begin_add y refl)) in
    let r2 = later q2 (caller (add_async y [] [] refl refl (omega arith))) in
    let r3 = later r2 (writer 0 (omega arith) (go_on refl)) in
    let r4 = later r3 (writer 1 (omega arith) (go_on refl)) in
    let r5 = later r4 (writer 0 (omega arith) (remove refl)) in
    let r6 = later r5 (writer 1 (omega arith) (remove refl)) in
    let r7 = later r6 (writer 1 (omega arith) write_log) in
    let r8 = later r7 (writer 0 (omega arith) write_log) in (_, r8, refl, refl)
