-- ===== src/TimeWheel/Tick.antt =====
-- tick of practice/timer/timeWheelTimer.h on the list of the current slot.
use study_record.Common.{
  ℕ, zero, suc, ◌-◌, ◌<◌, ◌≡◌, ◌∙◌, refl, sym, ap, subst, List, [], ◌∷◌, ◌++◌, append_assoc, map,
  length, Option, none, some, true, false, ◌==◌, ◌&&◌, not, ltb, if◌then◌else◌, inl, inr,
  Bool-cases, arith,
}
use study_record.Common.Run.{ok}
use study_record.Common.Threads.{update, update_self, update_other, update-update, update_same}
use study_record.Common.Links.{Links, free_node, has, is_distinct, first, without, Seg}
use study_record.Common.Links.Laws.{
  Seg-split, has-append, without-split, is_distinct-append_right, is_distinct-right, distinct_cons,
  ==_sym,
}
use study_record.TimeWheel.{Wheel, del_timer, del_timer_sup, tick_loop}
use study_record.TimeWheel.Invariant.{IsWheel, IsWheel-rotation, IsWheel-free_node, without-IsFree}
use study_record.TimeWheel.Remove.{del_timer_sup-IsWheel}

-- The timers whose turns are over, and the others.
abbrev pub expired : (ℕ → ℕ) → List ℕ → List ℕ
expired r [] = []
expired r (t ∷ xs) = if ltb 0 (r t) then expired r xs else t ∷ expired r xs

abbrev pub surviving : (ℕ → ℕ) → List ℕ → List ℕ
surviving r [] = []
surviving r (t ∷ xs) = if ltb 0 (r t) then t ∷ surviving r xs else surviving r xs

-- The timers `rest` of the slot `s` have been gone through.
pub record Ticked (w w' : Wheel) (ts : ℕ → List ℕ) (s : ℕ) (kept rest : List ℕ) : Type 0 where
  pub shape : IsWheel w' (update ts s (kept ++ surviving w.rotation rest))
  pub turned : (u : ℕ) → has u rest ≡ true → w'.rotation u ≡ w.rotation u - 1
  pub others : (u : ℕ) → has u rest ≡ false → w'.rotation u ≡ w.rotation u
  pub places : w'.time_slot ≡ w.time_slot
  pub cursor : w'.cur_slot ≡ w.cur_slot
  pub data_kept : w'.user_data ≡ w.user_data
  pub alive : (u : ℕ) → w'.links.live u ≡ (w.links.live u && not (has u (expired w.rotation rest)))

-- A change of the turns of another timer is not seen.
expired-update :
    (r : ℕ → ℕ) (t n : ℕ) (xs : List ℕ)
    → has t xs ≡ false
    → expired (update r t n) xs ≡ expired r xs
expired-update r t n [] h = refl
expired-update r t n (x ∷ xs) h = ground (arith, expired-update r t n xs)

surviving-update :
    (r : ℕ → ℕ) (t n : ℕ) (xs : List ℕ)
    → has t xs ≡ false
    → surviving (update r t n) xs ≡ surviving r xs
surviving-update r t n [] h = refl
surviving-update r t n (x ∷ xs) h = ground (arith, surviving-update r t n xs)

abbrev Outcome : ℕ → Wheel → (ℕ → List ℕ) → ℕ → List ℕ → List ℕ → Type 0
Outcome k w ts s kept rest =
    (w' : Wheel) × (tick_loop k (first rest none) w
      ≡ ok (map w.user_data (expired w.rotation rest), w'))
    × Ticked w w' ts s kept rest

tick_loop-turn :
    (k : ℕ) (w : Wheel) (t : ℕ)
    → w.links.live t ≡ true
    → ltb 0 (w.rotation t) ≡ true
    → tick_loop (suc k) (some t) w
      ≡ tick_loop k
          (w.links.next t)
          (record w { rotation = update w.rotation t (w.rotation t - 1) })
unfolding tick_loop
tick_loop-turn k w t v h = rw (v, h) refl

tick_loop-fire :
    (k : ℕ) (w w1 : Wheel) (t : ℕ) {fired : List ℕ} {w2 : Wheel}
    → w.links.live t ≡ true
    → ltb 0 (w.rotation t) ≡ false
    → del_timer (some t) w ≡ ok w1
    → tick_loop k (w.links.next t) w1 ≡ ok (fired, w2)
    → tick_loop (suc k) (some t) w ≡ ok (w.user_data t ∷ fired, w2)
unfolding tick_loop
tick_loop-fire k w w1 t v h d r = rw (v, h, d, r) refl

kept_turn :
    (r r' : ℕ → ℕ) (t u : ℕ) (xs : List ℕ)
    → has t xs ≡ false
    → has u (t ∷ xs) ≡ true
    → (has u xs ≡ true → r' u ≡ update r t (r t - 1) u - 1)
    → (has u xs ≡ false → r' u ≡ update r t (r t - 1) u)
    → r' u ≡ r u - 1
kept_turn r r' t u xs out h f g = elim (Bool-cases (u == t)) [
  | inl e ↦
      let same : t ≡ u = ground arith in
      let out_u : has u xs ≡ false = sym (ap (λ k. has k xs) same) ∙ out in
      g out_u
      ∙ sym (ap (λ k. update r t (r t - 1) k) same)
      ∙ update_self r t (r t - 1)
      ∙ ap (λ k. r k - 1) same
  | inr d ↦ f (ground arith) ∙ ap (λ n. n - 1) (update_other r t u (r t - 1) (==_sym u t d))
]

fired_turn :
    (r r' : ℕ → ℕ) (t u : ℕ) (xs : List ℕ)
    → has t xs ≡ false
    → has u (t ∷ xs) ≡ true
    → ltb 0 (r t) ≡ false
    → (has u xs ≡ true → r' u ≡ r u - 1)
    → (has u xs ≡ false → r' u ≡ r u)
    → r' u ≡ r u - 1
fired_turn r r' t u xs out h z f g = elim (Bool-cases (u == t)) [
  | inl e ↦
      let same : t ≡ u = ground arith in
      let out_u : has u xs ≡ false = sym (ap (λ k. has k xs) same) ∙ out in
      let over : r t ≡ 0 = ground arith in
      let over_u : r u ≡ 0 = sym (ap r same) ∙ over in omega (arith, g out_u)
  | inr d ↦ f (ground arith)
]

-- A timer with turns left stays, one turn less.
turn_step :
    (k : ℕ) (w : Wheel) (ts : ℕ → List ℕ) (s t : ℕ) (kept xs : List ℕ)
    → w.links.live t ≡ true
    → w.links.next t ≡ first xs none
    → has t xs ≡ false
    → ltb 0 (w.rotation t) ≡ true
    → Outcome k
        (record w { rotation = update w.rotation t (w.rotation t - 1) })
        ts
        s
        (kept ++ t ∷ [])
        xs
    → Outcome (suc k) w ts s kept (t ∷ xs)
turn_step k w ts s t kept xs live next out more (w', run, T) =
    let r = update w.rotation t (w.rotation t - 1) in
    let fired : expired w.rotation (t ∷ xs) ≡ expired r xs =
      rw more (sym (expired-update w.rotation t (w.rotation t - 1) xs out)) in
    let stays : (kept ++ t ∷ []) ++ surviving r xs ≡ kept ++ surviving w.rotation (t ∷ xs) =
      append_assoc kept (t ∷ []) (surviving r xs)
      ∙ ap (λ ys. kept ++ t ∷ ys) (surviving-update w.rotation t (w.rotation t - 1) xs out)
      ∙ rw more refl in
    (
      w',
      tick_loop-turn k w t live more
          ∙ ap (λ c. tick_loop k c (record w { rotation = r })) next
          ∙ run
          ∙ ap (λ ys. ok (map w.user_data ys, w')) (sym fired),
      record {
        shape = subst (λ ys. IsWheel w' (update ts s ys)) stays T.shape;
        turned = λ u h. kept_turn w.rotation w'.rotation t u xs out h (T.turned u) (T.others u);
        others = λ u h. ground (arith, T.others u);
        places = T.places;
        cursor = T.cursor;
        data_kept = T.data_kept;
        alive = λ u. T.alive u ∙ ap (λ ys. w.links.live u && not (has u ys)) (sym fired);
      },
    )

-- A timer with no turns left is called and deleted.
fire_step :
    (k : ℕ) (w : Wheel) (ts : ℕ → List ℕ) (s t : ℕ) (kept xs : List ℕ) (slots' : ℕ → Option ℕ)
    (links' : Links)
    → w.links.live t ≡ true
    → w.links.next t ≡ first xs none
    → has t xs ≡ false
    → ltb 0 (w.rotation t) ≡ false
    → del_timer_sup (some t) w ≡ ok (record w { slots = slots'; links = links' })
    → ((u : ℕ) → links'.live u ≡ w.links.live u)
    → Outcome k
        (record w { slots = slots'; links = free_node t links' })
        (update ts s (without t (ts s)))
        s
        kept
        xs
    → Outcome (suc k) w ts s kept (t ∷ xs)
unfolding del_timer
fire_step k w ts s t kept xs slots' links' live next out over deleted lives (w', run, T) =
    let w1 = record w { slots = slots'; links = free_node t links' } in
    let goes : del_timer (some t) w ≡ ok w1 = rw deleted refl in
    let fired : expired w.rotation (t ∷ xs) ≡ t ∷ expired w.rotation xs = rw over refl in
    let stays : surviving w.rotation xs ≡ surviving w.rotation (t ∷ xs) = rw over refl in
    (
      w',
      tick_loop-fire k w w1 t live over goes (ap (λ c. tick_loop k c w1) next ∙ run)
          ∙ ap (λ ys. ok (map w.user_data ys, w')) (sym fired),
      record {
        shape =
            subst (λ f. IsWheel w' f)
              (update-update ts s (without t (ts s)) (kept ++ surviving w.rotation xs)
                ∙ ap (λ ys. update ts s (kept ++ ys)) stays)
              T.shape;
        turned =
            λ u h. fired_turn w.rotation w'.rotation t u xs out h over (T.turned u) (T.others u);
        others = λ u h. ground (arith, T.others u);
        places = T.places;
        cursor = T.cursor;
        data_kept = T.data_kept;
        alive = λ u. ground (arith, T.alive u, lives u);
      },
    )

pub tick_loop-Ticked :
    (k : ℕ) (w : Wheel) (ts : ℕ → List ℕ) (s : ℕ) (kept rest : List ℕ)
    → IsWheel w ts
    → ts s ≡ kept ++ rest
    → length rest < k
    → Outcome k w ts s kept rest
unfolding tick_loop
tick_loop-Ticked zero w ts s kept rest v e h = absurd (omega arith)
tick_loop-Ticked (suc k) w ts s kept [] v e h = (
  w,
  refl,
  record {
    shape = rw (update_same ts s (kept ++ []) e) v;
    turned = λ u g. cc;
    others = λ u g. refl;
    places = refl;
    cursor = refl;
    data_kept = refl;
    alive = λ u. ground arith;
  },
)
tick_loop-Ticked (suc k) w ts s kept (t ∷ xs) v e h =
    let d = sym (ap is_distinct e) ∙ v.distinct s in
    let (_, here) =
      Seg-split w.links none kept (t ∷ xs) none
        (subst (λ ys. Seg w.links none ys none) e (v.linked s)) in
    let (out, _) = distinct_cons t xs (is_distinct-right kept (t ∷ xs) d) in
    elim (Bool-cases (ltb 0 (w.rotation t))) [
      | inl more ↦ turn_step k w ts s t kept xs here.0 here.2 out more (
          tick_loop-Ticked k (record w { rotation = update w.rotation t (w.rotation t - 1) }) ts s
            (kept ++ t ∷ []) xs (IsWheel-rotation (update w.rotation t (w.rotation t - 1)) v)
            (e ∙ sym (append_assoc kept (t ∷ []) xs)) (omega arith))
      | inr over ↦
          let mine : has t (ts s) ≡ true =
            ap (has t) e ∙ has-append t kept (t ∷ xs) ∙ ground arith in
          let (slots', links', deleted, v', lives) = del_timer_sup-IsWheel w ts v s t mine in
          let out_kept = is_distinct-append_right t kept (t ∷ xs) d (ground arith) in
          let gone : without t (ts s) ≡ kept ++ xs =
            ap (without t) e ∙ without-split t kept xs out_kept in
          fire_step k w ts s t kept xs slots' links' here.0 here.2 out over deleted lives (
            tick_loop-Ticked k (record w { slots = slots'; links = free_node t links' })
              (update ts s (without t (ts s))) s kept xs
              (IsWheel-free_node (record w { slots = slots'; links = links' })
                (update ts s (without t (ts s))) t v' (without-IsFree v s t mine))
              (update_self ts s (without t (ts s)) ∙ gone) (omega arith))
    ]
