-- ===== src/TimeWheel/Remove.antt =====
-- del_timer_sup of practice/timer/timeWheelTimer.h on the lists of the slots.
use study_record.Common.{
  ℕ, ◌<◌, ◌≡◌, ◌∙◌, refl, sym, ap, subst, List, [], ◌∷◌, ◌++◌, Option, none, some, true, false,
  ◌==◌, ==_iff, inl, inr, arith,
}
use study_record.Common.Run.{ok}
use study_record.Common.Threads.{update, update_self, update_other, update-all}
use study_record.Common.Links.{Links, link_prev, has, is_distinct, first, without, Seg}
use study_record.Common.Links.Laws.{
  Seg-link_prev, Seg-frame, has-split, has-without, is_distinct-without, without-split, snoc_cases,
  distinct_cons, has-live, ==_sym,
}
use study_record.TimeWheel.{Wheel, n_slots, drop_head, drop_inner, del_timer_sup}
use study_record.TimeWheel.Invariant.{IsWheel, elsewhere}
use study_record.TimeWheel.Inner.{drop_inner-Seg}

first_same :
    (ws : List ℕ) (m : ℕ) (xs ys : List ℕ)
    → first ((ws ++ m ∷ []) ++ xs) none ≡ first ((ws ++ m ∷ []) ++ ys) none
first_same [] m xs ys = refl
first_same (x ∷ ws) m xs ys = refl

module _ (w : Wheel) (ts : ℕ → List ℕ) (v : IsWheel w ts) (s t : ℕ)
    (mine : has t (ts s) ≡ true) where
  live_t : w.links.live t ≡ true
  live_t = has-live w.links none (ts s) none t (v.linked s) mine

  del-head : w.slots s ≡ some t → del_timer_sup (some t) w ≡ drop_head s (w.links.next t) w
  unfolding del_timer_sup
  del-head e = rw (live_t, v.places s t mine, e, (==_iff t t).1 refl) refl

  del-inner :
      (y : ℕ) (l : Links)
      → w.slots s ≡ some y
      → (y == t) ≡ false
      → drop_inner t w.links ≡ ok l
      → del_timer_sup (some t) w ≡ ok (record w { links = l })
  unfolding del_timer_sup
  del-inner y l e d r = rw (live_t, v.places s t mine, e, d, r) refl

  -- The wheel with the timer taken out of the list of its slot.
  abbrev pub Removed : Type 0
  Removed =
      (slots' : ℕ → Option ℕ) × (links' : Links) × (del_timer_sup (some t) w
        ≡ ok (record w { slots = slots'; links = links' }))
      × IsWheel (record w { slots = slots'; links = links' }) (update ts s (without t (ts s)))
      × ((u : ℕ) → links'.live u ≡ w.links.live u)

  assemble :
      (slots' : ℕ → Option ℕ) (links' : Links)
      → slots' s ≡ first (without t (ts s)) none
      → ((s' : ℕ) → (s == s') ≡ false → slots' s' ≡ w.slots s')
      → Seg links' none (without t (ts s)) none
      → ((s' : ℕ) → (s == s') ≡ false → Seg links' none (ts s') none)
      → IsWheel (record w { slots = slots'; links = links' }) (update ts s (without t (ts s)))
  assemble slots' links' head others here rest =
      let xs = without t (ts s) in
      record {
        heads =
            update-all (λ s' xs. slots' s' ≡ first xs none) ts s xs head
              (λ s' d. others s' d ∙ v.heads s');
        linked = update-all (λ s' xs. Seg links' none xs none) ts s xs here rest;
        distinct =
            update-all (λ s' xs. is_distinct xs ≡ true) ts s xs
              (is_distinct-without t (ts s) (v.distinct s)) (λ s' d. v.distinct s');
        places =
            update-all (λ s' xs. (u : ℕ) → has u xs ≡ true → w.time_slot u ≡ s') ts s xs
              (λ u h. v.places s u (has-without u t (ts s) h)) (λ s' d. v.places s');
        range =
            update-all (λ s' xs. (u : ℕ) → has u xs ≡ true → s' < n_slots) ts s xs
              (λ u h. v.range s t mine) (λ s' d. v.range s');
        cursor = v.cursor;
      }

  del_first :
      (zs : List ℕ)
      → ts s ≡ t ∷ zs
      → without t (ts s) ≡ zs
      → Seg w.links none (t ∷ zs) none
      → Removed
  unfolding drop_head
  del_first [] e f chain = (
    update w.slots s none,
    w.links,
    del-head (v.heads s ∙ ap (λ xs. first xs none) e) ∙ ap (λ n. drop_head s n w) chain.2,
    assemble (update w.slots s none) w.links
        (update_self w.slots s none ∙ sym (ap (λ xs. first xs none) f))
        (λ s' d. update_other w.slots s s' none d) (rw f tt) (λ s' d. v.linked s'),
    λ u. refl,
  )
  del_first (q ∷ qs) e f chain =
      let q_mine : has q (ts s) ≡ true = ap (has q) e ∙ ground arith in
      let (q_qs, _) =
        distinct_cons q qs (distinct_cons t (q ∷ qs) (sym (ap is_distinct e) ∙ v.distinct s)).1 in
      let run : drop_head s (some q) w
          ≡ ok (record w { slots = update w.slots s (some q); links = link_prev q none w.links }) =
        rw (chain.3.0) refl in
      let moved : Seg (link_prev q none w.links) none (q ∷ qs) none = (
        chain.3.0,
        update_self w.links.prev q none,
        chain.3.2,
        Seg-link_prev w.links (some q) qs none q none q_qs chain.3.3,
      ) in
      (
        update w.slots s (some q),
        link_prev q none w.links,
        del-head (v.heads s ∙ ap (λ xs. first xs none) e) ∙ ap (λ n. drop_head s n w) chain.2 ∙ run,
        assemble (update w.slots s (some q)) (link_prev q none w.links)
            (update_self w.slots s (some q) ∙ sym (ap (λ xs. first xs none) f))
            (λ s' d. update_other w.slots s s' (some q) d) (rw f moved)
            (λ s' d.
              Seg-link_prev w.links none (ts s') none q none (elsewhere v s s' q q_mine d)
                (v.linked s')),
        λ u. refl,
      )

  first_append :
      (ws zs : List ℕ) (m : ℕ)
      → has t (ws ++ m ∷ []) ≡ false
      → (y : ℕ) × (first ((ws ++ m ∷ []) ++ zs) none ≡ some y) × ((y == t) ≡ false)
  first_append [] zs m h = (m, refl, ground arith)
  first_append (x ∷ ws) zs m h = (x, refl, ground arith)

  del_later :
      (ws zs : List ℕ) (m : ℕ)
      → ts s ≡ (ws ++ m ∷ []) ++ t ∷ zs
      → has t (ws ++ m ∷ []) ≡ false
      → Removed
  del_later ws zs m e out =
      let chain = subst (λ xs. Seg w.links none xs none) e (v.linked s) in
      let (l', run, seg, same) =
        drop_inner-Seg w.links t m ws zs chain (sym (ap is_distinct e) ∙ v.distinct s) in
      let (y, head, d) = first_append ws (t ∷ zs) m out in
      let gone : without t (ts s) ≡ (ws ++ m ∷ []) ++ zs =
        ap (without t) e ∙ without-split t (ws ++ m ∷ []) zs out in
      let front : w.slots s ≡ some y = v.heads s ∙ ap (λ xs. first xs none) e ∙ head in
      (
        w.slots,
        l',
        del-inner y l' front d run,
        assemble w.slots l'
            (v.heads s
              ∙ ap (λ xs. first xs none) e
              ∙ first_same ws m (t ∷ zs) zs
              ∙ sym (ap (λ xs. first xs none) gone))
            (λ s' d. refl) (rw gone seg)
            (λ s' d.
              Seg-frame w.links l' none (ts s') none
                (λ u h.
                  let away : has u ((ws ++ m ∷ []) ++ t ∷ zs) ≡ false =
                    sym (ap (has u) e) ∙ elsewhere v s' s u h (==_sym s s' d) in
                  (same.live u, same.prev u away, same.next u away))
                (v.linked s')),
        same.live,
      )

  pub del_timer_sup-IsWheel : Removed
  del_timer_sup-IsWheel =
      let (ys, zs, e, out) = has-split t (ts s) mine in
      elim (snoc_cases ys) [
        | inl f ↦
            let e' : ts s ≡ t ∷ zs = e ∙ ap (λ ys. ys ++ t ∷ zs) f in
            del_first zs e' (ap (without t) e' ∙ without-split t [] zs refl)
              (subst (λ xs. Seg w.links none xs none) e' (v.linked s))
        | inr (ws, m, f) ↦
            del_later ws zs m (e ∙ ap (λ ys. ys ++ t ∷ zs) f) (sym (ap (has t) f) ∙ out)
      ]
