-- ===== src/Logger/Laws.antt =====
-- What the writers of practice/log/logger.cpp make of the messages.
use study_record.Common.{
  ℕ, ◌+◌, ◌<◌, ◌≡◌, ◌∙◌, refl, sym, ap, List, [], ◌∷◌, ◌++◌, Bool, true, false, if◌then◌else◌,
  arith,
}
use study_record.Common.Threads.{update, count_if, count_if-update, count_if-none}
use study_record.Logger.{
  Logger, init, Pc, testing, removing, writing, ended, Move, go_on, leave, remove, write_log, Call,
  add_stopped, begin_add, add_async, add_sync, stop, System, Step, writer, caller, Reach, start,
  later,
}

-- How many of the messages satisfy the test.
abbrev pub count_where : {A : Type 0} → (A → Bool) → List A → ℕ
count_where t [] = 0
count_where t (x ∷ xs) = (if t x then 1 else 0) + count_where t xs

count_where-append :
    {A : Type 0} (t : A → Bool) (xs ys : List A)
    → count_where t (xs ++ ys) ≡ count_where t xs + count_where t ys
count_where-append t [] ys = omega arith
count_where-append t (x ∷ xs) ys = omega (arith, count_where-append t xs ys)

-- A writer that holds such a message.
abbrev pub carries : {A : Type 0} → (A → Bool) → Pc A → Bool
carries t testing = false
carries t removing = false
carries t (writing x) = t x
carries t ended = false

-- What a writer holds.
abbrev pub held : {A : Type 0} → Pc A → List A
held testing = []
held removing = []
held (writing x) = x ∷ []
held ended = []

abbrev weight : {A : Type 0} → (A → Bool) → Pc A → ℕ
weight t p = if carries t p then 1 else 0

abbrev account : {A : Type 0} → (A → Bool) → ℕ → Logger A → (ℕ → Pc A) → ℕ
account t n l pc = count_where t l.ofs + count_if (carries t) n pc + count_where t l.block_queue

module _ {A : Type 0} (t : A → Bool) (n i : ℕ) (l : Logger A) (pc : ℕ → Pc A) (lt : i < n) where
  move_account :
      {l' : Logger A} {p q : Pc A}
      → Move l q l' p
      → pc i ≡ q
      → (account t n l' (update pc i p) ≡ account t n l pc)
        × (l'.added ≡ l.added)
        × (l'.write_thread_count ≡ l.write_thread_count)
  move_account {l'} {p} {q} m e =
      (moved m e (count_if-update (carries t) n pc i p lt), kept m, kept_count m)
    where
      kept : {l' : Logger A} {p q : Pc A} → Move l q l' p → l'.added ≡ l.added
      kept (go_on h) = refl
      kept (leave h) = refl
      kept (remove h) = refl
      kept write_log = refl

      kept_count :
          {l' : Logger A} {p q : Pc A}
          → Move l q l' p
          → l'.write_thread_count ≡ l.write_thread_count
      kept_count (go_on h) = refl
      kept_count (leave h) = refl
      kept_count (remove h) = refl
      kept_count write_log = refl

      moved :
          {l' : Logger A} {p q : Pc A}
          → Move l q l' p
          → pc i ≡ q
          → count_if (carries t) n (update pc i p) + (if carries t (pc i) then 1 else 0)
            ≡ count_if (carries t) n pc + (if carries t p then 1 else 0)
          → account t n l' (update pc i p) ≡ account t n l pc
      moved (go_on h) e c = omega (arith, c, ap (weight t) e)
      moved (leave h) e c = omega (arith, c, ap (weight t) e)
      moved (remove h) e c = omega (arith, c, ap (weight t) e, ap (count_where t) h)
      moved (write_log {x = x}) e c =
          omega (arith, c, ap (weight t) e, count_where-append t l.ofs (x ∷ []))

call_account :
    {A : Type 0} (t : A → Bool) (n : ℕ) (l : Logger A) (pc : ℕ → Pc A) {l' : Logger A}
    → Call l l'
    → count_where t l.added ≡ account t n l pc
    → count_where t l'.added ≡ account t n l' pc
call_account t n l pc (add_stopped x h) e = e
call_account t n l pc (begin_add x h) e = e
call_account t n l pc (add_async x before after h k room) e =
    omega
      (arith, e, count_where-append t l.added (x ∷ []), count_where-append t l.block_queue (x ∷ []))
call_account t n l pc (add_sync x before after h k) e =
    omega (arith, e, count_where-append t l.added (x ∷ []), count_where-append t l.ofs (x ∷ []))
call_account t n l pc stop e = e

call_count :
    {A : Type 0} {l l' : Logger A} → Call l l' → l'.write_thread_count ≡ l.write_thread_count
call_count (add_stopped x h) = refl
call_count (begin_add x h) = refl
call_count (add_async x before after h k room) = refl
call_count (add_sync x before after h k) = refl
call_count stop = refl

account_after :
    {A : Type 0} (t : A → Bool) {s s' : System A}
    → Step s s'
    → count_where t s.logger.added ≡ account t s.logger.write_thread_count s.logger s.pc
    → count_where t s'.logger.added ≡ account t s'.logger.write_thread_count s'.logger s'.pc
account_after t {s} (writer i {l} {p} lt m) e =
    let (same, added, count) =
      move_account t s.logger.write_thread_count i s.logger s.pc lt m refl in
    ap (count_where t) added ∙ e ∙ sym same ∙ ap (λ n. account t n l (update s.pc i p)) (sym count)
account_after t {s} (caller {l} c) e =
    call_account t s.logger.write_thread_count s.logger s.pc c e
    ∙ ap (λ n. account t n l s.pc) (sym (call_count c))

-- However many writers there are and however the steps fall, no message is lost and none is doubled:
-- of the messages that satisfy any test, as many have been taken in as have been written, are held by a
-- writer, or wait in the queue.
pub messages_kept :
    {A : Type 0} (t : A → Bool) {async : Bool} {n size : ℕ} {s : System A}
    → Reach async n size s
    → count_where t s.logger.added
      ≡ count_where t s.logger.ofs
        + count_if (carries t) s.logger.write_thread_count s.pc
        + count_where t s.logger.block_queue
unfolding init
messages_kept t {async = true} {n = n} start =
    sym (omega (arith, count_if-none (carries t) n (λ i. testing) (λ i. refl)))
messages_kept t {async = false} start =
    sym (omega (arith, count_if-none (carries t) 0 (λ i. testing) (λ i. refl)))
messages_kept t (later r step) = account_after t step (messages_kept t r)
