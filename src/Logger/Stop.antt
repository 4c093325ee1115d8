-- ===== src/Logger/Stop.antt =====
-- What is left when the writers of practice/log/logger.cpp have ended.
use study_record.Common.{
  ℕ, ◌<◌, ◌≡◌, ◌≢◌, ◌∙◌, refl, sym, ap, List, [], ◌∷◌, ◌++◌, Bool, true, false, ◌==◌, ◌&&◌, inl,
  inr, Bool-cases, arith,
}
use study_record.Common.Threads.{
  update_self, update_other, count_if, count_if_same, count_if-none, update,
}
use study_record.Logger.{
  Logger, Pc, ended, Move, go_on, leave, remove, write_log, add_stopped, begin_add, add_async,
  add_sync, stop, is_empty, System, Step, writer, caller, Reach, later,
}
use study_record.Logger.Laws.{count_where, carries, messages_kept}

-- Any number of steps.
pub data Steps {A : Type 0} (s : System A) : System A → Type 0 where
  none_yet : Steps s s
  then_step : {t u : System A} → Steps s t → Step t u → Steps s u

Steps-Reach :
    {A : Type 0} {async : Bool} {n size : ℕ} {s t : System A}
    → Reach async n size s
    → Steps s t
    → Reach async n size t
Steps-Reach r none_yet = r
Steps-Reach r (then_step steps step) = later (Steps-Reach r steps) step

-- The logger has been stopped, no thread is in addItem, and the writer `j` ends only at an empty queue.
record IsDraining {A : Type 0} (j : ℕ) (s : System A) : Type 0 where
  stopped : s.logger.stop_logger ≡ true
  no_adder : s.logger.adding ≡ []
  drained : s.pc j ≡ ended → s.logger.block_queue ≡ []

empty_list : {A : Type 0} (b : Bool) (xs : List A) → (b && is_empty xs) ≡ true → xs ≡ []
empty_list b [] h = refl
empty_list true (x ∷ xs) h = cc
empty_list false (x ∷ xs) h = cc

move_leaves :
    {A : Type 0} {l l' : Logger A} {p q : Pc A} → Move l q l' p → p ≡ ended → l'.block_queue ≡ []
move_leaves (go_on h) e = cc
move_leaves {l = l} (leave h) e = empty_list l.stop_logger l.block_queue h
move_leaves (remove h) e = cc
move_leaves write_log e = cc

move_keeps :
    {A : Type 0} {l l' : Logger A} {p q : Pc A}
    → Move l q l' p
    → (l'.stop_logger ≡ l.stop_logger)
      × (l'.adding ≡ l.adding)
      × (l.block_queue ≡ [] → l'.block_queue ≡ [])
move_keeps (go_on h) = (refl, refl, λ e. e)
move_keeps (leave h) = (refl, refl, λ e. e)
move_keeps (remove h) = (refl, refl, λ e. cc)
move_keeps write_log = (refl, refl, λ e. e)

no_split : {A : Type 0} (x : A) (before after : List A) → [] ≡ before ++ x ∷ after → ⊥
no_split x [] after e = cc
no_split x (y ∷ before) after e = cc

IsDraining-after :
    {A : Type 0} (j : ℕ) {s t : System A} → Step s t → IsDraining j s → IsDraining j t
IsDraining-after j {s} (writer i {l} {p} lt m) v =
    let (stops, adders, empty) = move_keeps m in
    record {
      stopped = stops ∙ v.stopped;
      no_adder = adders ∙ v.no_adder;
      drained = λ e. elim (Bool-cases (i == j)) [
        | inl same ↦
            let here : i ≡ j = ground arith in
            move_leaves m (sym (update_self s.pc i p) ∙ ap (update s.pc i p) here ∙ e)
        | inr apart ↦ empty (v.drained (sym (update_other s.pc i j p apart) ∙ e))
      ];
    }
IsDraining-after j (caller (add_stopped x h)) v = v
IsDraining-after j (caller (begin_add x h)) v = absurd (clash (sym v.stopped ∙ h))
  where
    clash : true ≡ false → ⊥
    clash e = cc
IsDraining-after j (caller (add_async x before after h k room)) v =
    absurd (no_split x before after (sym v.no_adder ∙ h))
IsDraining-after j (caller (add_sync x before after h k)) v =
    absurd (no_split x before after (sym v.no_adder ∙ h))
IsDraining-after j (caller stop) v = record {
  stopped = refl;
  no_adder = v.no_adder;
  drained = v.drained;
}

Steps-IsDraining :
    {A : Type 0} (j : ℕ) {s t : System A} → Steps s t → IsDraining j s → IsDraining j t
Steps-IsDraining j none_yet v = v
Steps-IsDraining j (then_step steps step) v = IsDraining-after j step (Steps-IsDraining j steps v)

-- The logger has been stopped, no thread is in addItem any more, and one of the writers has not ended.
-- However the steps fall from there, when every writer has ended the queue is empty, and the file has
-- the messages that have been taken in, each as often: of those that satisfy any test, as many.
pub messages_written :
    {A : Type 0} (t : A → Bool) (j : ℕ) {async : Bool} {n size : ℕ} {s s' : System A}
    → Reach async n size s
    → s.logger.stop_logger ≡ true
    → s.logger.adding ≡ []
    → j < s'.logger.write_thread_count
    → s.pc j ≢ ended
    → Steps s s'
    → ((i : ℕ) → i < s'.logger.write_thread_count → s'.pc i ≡ ended)
    → (s'.logger.block_queue ≡ []) × (count_where t s'.logger.added ≡ count_where t s'.logger.ofs)
messages_written {A} t j {s = s} {s' = s'} r stops adders lt runs steps all_ended =
    let v : IsDraining j s' =
      Steps-IsDraining j steps
        (record { stopped = stops; no_adder = adders; drained = λ e. absurd (runs e) }) in
    let empty = v.drained (all_ended j lt) in
    let n = s'.logger.write_thread_count in
    let idle : count_if (carries t) n s'.pc ≡ 0 =
      count_if_same (carries t) n s'.pc (λ i. ended) all_ended
      ∙ count_if-none (carries t) n (λ i. ended) (λ i. refl) in
    (empty, omega (arith, messages_kept t (Steps-Reach r steps), idle, ap (count_where t) empty))
