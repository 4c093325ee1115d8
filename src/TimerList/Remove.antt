-- ===== src/TimerList/Remove.antt =====
-- del_timer_sup, del_timer and adjust_timer of practice/timer/ascendSortedTimerList.h.
use study_record.Common.{
  ℕ, ◌≡◌, ◌∙◌, refl, sym, ap, subst, List, [], ◌∷◌, ◌++◌, append-nil, Option, none, some, true,
  false, ◌==◌, ==_iff, inl, inr, arith,
}
use study_record.Common.Run.{ok}
use study_record.Common.Threads.{update_self}
use study_record.Common.Links.{Links, link_next, link_prev, has, is_distinct, first, last, without}
use study_record.Common.Links.Laws.{
  Seg-link_prev, last-snoc, has-split, is_distinct-append_right, is_distinct-left,
  is_distinct-right, is_distinct-without, without-split, snoc_cases, distinct_cons, ==_sym,
}
use study_record.Common.Links.Bridge.{bridged, Seg-Around, Seg-bridged}
use study_record.TimerList.{TimerList, drop_head, drop_tail, drop_middle, del_timer_sup}
use study_record.TimerList.Invariant.{IsTimerList}

-- The timer is taken out of the list and is still a node.
abbrev pub Removed : TimerList → ℕ → List ℕ → Type 0
Removed l t xs =
    (head' tail' : Option ℕ) × (links' : Links) × (del_timer_sup (some t) l
      ≡ ok (record l { head = head'; tail = tail'; links = links' }))
    × IsTimerList (record l { head = head'; tail = tail'; links = links' }) (without t xs)
    × (without t xs ≡ [] → (links'.prev t ≡ none) × (links'.next t ≡ none))
    × ((u : ℕ) → links'.live u ≡ l.links.live u)

-- The last of a list with `t` in front, when `t` is not its last.
last-cons :
    (b : Option ℕ) (t q : ℕ) (qs : List ℕ)
    → (y : ℕ) × (last b (q ∷ qs) ≡ some y) × (has y (q ∷ qs) ≡ true)
last-cons b t q [] = (q, refl, ground (arith, ==_iff q q))
last-cons b t q (x ∷ qs) = let (y, e, f) = last-cons (some q) t x qs in (y, e, ground arith)

last-append : (b : Option ℕ) (ys zs : List ℕ) → last b (ys ++ zs) ≡ last (last b ys) zs
last-append b [] zs = refl
last-append b (y ∷ ys) zs = last-append (some y) ys zs

first-snoc :
    (ws zs : List ℕ) (m : ℕ)
    → (y : ℕ) × (first ((ws ++ m ∷ []) ++ zs) none ≡ some y) × (has y (ws ++ m ∷ []) ≡ true)
first-snoc [] zs m = (m, refl, ground (arith, ==_iff m m))
first-snoc (x ∷ ws) zs m = (x, refl, ground (arith, ==_iff x x))

first_same :
    (ws : List ℕ) (m : ℕ) (xs ys : List ℕ)
    → first ((ws ++ m ∷ []) ++ xs) none ≡ first ((ws ++ m ∷ []) ++ ys) none
first_same [] m xs ys = refl
first_same (x ∷ ws) m xs ys = refl

differs : (y t : ℕ) (xs : List ℕ) → has y xs ≡ true → has t xs ≡ false → (y == t) ≡ false
differs y t [] i out = cc
differs y t (x ∷ xs) i out = ground (arith, ==_iff y x, differs y t xs)

out_of_right : (t : ℕ) (ys zs : List ℕ) → is_distinct (ys ++ t ∷ zs) ≡ true → has t ys ≡ false
out_of_right t ys zs d = is_distinct-append_right t ys (t ∷ zs) d (ground arith)

module _ (l : TimerList) (t : ℕ) where
  del-only :
      l.head ≡ some t
      → l.tail ≡ some t
      → del_timer_sup (some t) l ≡ ok (record l { head = none; tail = none })
  unfolding del_timer_sup
  del-only e f = rw (e, f, (==_iff t t).1 refl) refl

  del-head :
      (q y : ℕ)
      → l.head ≡ some t
      → l.tail ≡ some y
      → (t == y) ≡ false
      → l.links.live t ≡ true
      → l.links.next t ≡ some q
      → l.links.live q ≡ true
      → del_timer_sup (some t) l ≡ ok (record l { head = some q; links = link_prev q none l.links })
  unfolding del_timer_sup drop_head
  del-head q y e f d v n k = rw (e, f, (==_iff t t).1 refl, d, v, n, k) refl

  del-tail :
      (y m : ℕ)
      → l.head ≡ some y
      → (y == t) ≡ false
      → l.tail ≡ some t
      → l.links.live t ≡ true
      → l.links.prev t ≡ some m
      → l.links.live m ≡ true
      → del_timer_sup (some t) l ≡ ok (record l { tail = some m; links = link_next m none l.links })
  unfolding del_timer_sup drop_tail
  del-tail y m e d f v p k = rw (e, d, f, (==_iff t t).1 refl, v, p, k) refl

  del-middle :
      (y z m q : ℕ)
      → l.head ≡ some y
      → (y == t) ≡ false
      → l.tail ≡ some z
      → (z == t) ≡ false
      → l.links.live t ≡ true
      → l.links.prev t ≡ some m
      → l.links.live m ≡ true
      → l.links.next t ≡ some q
      → l.links.live q ≡ true
      → del_timer_sup (some t) l ≡ ok (record l { links = bridged m (some q) l.links })
  unfolding del_timer_sup drop_middle
  del-middle y z m q e d f g v p k n j = rw (e, d, f, g, v, p, k, n, j) refl

  first_timer :
      (zs : List ℕ) → IsTimerList l (t ∷ zs) → without t (t ∷ zs) ≡ zs → Removed l t (t ∷ zs)
  first_timer [] v gone = (
    none,
    none,
    l.links,
    del-only v.front v.back,
    rw gone (record { front = refl; back = refl; linked = tt; distinct = refl }),
    λ e. (v.linked.1, v.linked.2),
    λ u. refl,
  )
  first_timer (q ∷ qs) v gone =
      let chain = v.linked in
      let (out, d) = distinct_cons t (q ∷ qs) v.distinct in
      let (q_qs, _) = distinct_cons q qs d in
      let (y, back, y_in) = last-cons (some t) t q qs in
      (
        some q,
        l.tail,
        link_prev q none l.links,
        del-head q y v.front (v.back ∙ back) (==_sym y t (differs y t (q ∷ qs) y_in out)) chain.0
            chain.2 chain.3.0,
        subst (IsTimerList (record l { head = some q; links = link_prev q none l.links }))
            (sym gone)
            (record {
              front = refl;
              back = v.back;
              linked = (
                chain.3.0,
                update_self l.links.prev q none,
                chain.3.2,
                Seg-link_prev l.links (some q) qs none q none q_qs chain.3.3,
              );
              distinct = d;
            }),
        λ e. absurd (not_nil (sym gone ∙ e)),
        λ u. refl,
      )
    where
      not_nil : q ∷ qs ≡ [] → ⊥
      not_nil e = cc

  snoc_not_nil : (ws zs : List ℕ) (m : ℕ) → (ws ++ m ∷ []) ++ zs ≡ [] → ⊥
  snoc_not_nil [] zs m e = cc
  snoc_not_nil (x ∷ ws) zs m e = cc

  last_timer :
      (ws : List ℕ) (m : ℕ)
      → IsTimerList l ((ws ++ m ∷ []) ++ t ∷ [])
      → Removed l t ((ws ++ m ∷ []) ++ t ∷ [])
  last_timer ws m v =
      let out = out_of_right t (ws ++ m ∷ []) [] v.distinct in
      let a = Seg-Around l.links t m ws [] v.linked v.distinct in
      let (seg, _) = Seg-bridged l.links t m ws [] a v.distinct in
      let (y, head, y_in) = first-snoc ws (t ∷ []) m in
      let gone = without-split t (ws ++ m ∷ []) [] out in
      (
        l.head,
        some m,
        link_next m none l.links,
        del-tail y m (v.front ∙ head) (differs y t (ws ++ m ∷ []) y_in out)
            (v.back ∙ last-snoc none (ws ++ m ∷ []) t) a.here.0 a.prev_t a.place.0,
        subst (IsTimerList (record l { tail = some m; links = link_next m none l.links }))
            (sym gone)
            (record {
              front = v.front ∙ first_same ws m (t ∷ []) [];
              back = sym (ap (last none) (append-nil (ws ++ m ∷ [])) ∙ last-snoc none ws m);
              linked = seg;
              distinct =
                  ap is_distinct (append-nil (ws ++ m ∷ []))
                  ∙ is_distinct-left (ws ++ m ∷ []) (t ∷ []) v.distinct;
            }),
        λ e. absurd (snoc_not_nil ws [] m (sym gone ∙ e)),
        λ u. refl,
      )

  middle_timer :
      (ws : List ℕ) (m q : ℕ) (qs : List ℕ)
      → IsTimerList l ((ws ++ m ∷ []) ++ t ∷ q ∷ qs)
      → Removed l t ((ws ++ m ∷ []) ++ t ∷ q ∷ qs)
  middle_timer ws m q qs v =
      let ys = ws ++ m ∷ [] in
      let out = out_of_right t ys (q ∷ qs) v.distinct in
      let a = Seg-Around l.links t m ws (q ∷ qs) v.linked v.distinct in
      let (seg, _) = Seg-bridged l.links t m ws (q ∷ qs) a v.distinct in
      let (y, head, y_in) = first-snoc ws (t ∷ q ∷ qs) m in
      let (z, back, z_in) = last-cons (some t) t q qs in
      let (t_qs, _) = distinct_cons t (q ∷ qs) (is_distinct-right ys (t ∷ q ∷ qs) v.distinct) in
      let gone = without-split t ys (q ∷ qs) out in
      let ends : last none (ys ++ t ∷ q ∷ qs) ≡ some z = last-append none ys (t ∷ q ∷ qs) ∙ back in
      (
        l.head,
        l.tail,
        bridged m (some q) l.links,
        del-middle y z m q (v.front ∙ head) (differs y t ys y_in out) (v.back ∙ ends)
            (differs z t (q ∷ qs) z_in t_qs) a.here.0 a.prev_t a.place.0 a.here.2 a.here.3.0,
        subst (IsTimerList (record l { links = bridged m (some q) l.links })) (sym gone) (record {
          front = v.front ∙ first_same ws m (t ∷ q ∷ qs) (q ∷ qs);
          back = v.back ∙ last-append none ys (t ∷ q ∷ qs) ∙ sym (last-append none ys (q ∷ qs));
          linked = seg;
          distinct =
              sym (ap is_distinct gone) ∙ is_distinct-without t (ys ++ t ∷ q ∷ qs) v.distinct;
        }),
        λ e. absurd (snoc_not_nil ws (q ∷ qs) m (sym gone ∙ e)),
        λ u. refl,
      )

  later_timer :
      (ws : List ℕ) (m : ℕ) (zs : List ℕ)
      → IsTimerList l ((ws ++ m ∷ []) ++ t ∷ zs)
      → Removed l t ((ws ++ m ∷ []) ++ t ∷ zs)
  later_timer ws m [] v = last_timer ws m v
  later_timer ws m (q ∷ qs) v = middle_timer ws m q qs v

  pub del_timer_sup-Removed : (xs : List ℕ) → IsTimerList l xs → has t xs ≡ true → Removed l t xs
  del_timer_sup-Removed xs v mine =
      let (ys, zs, e, out) = has-split t xs mine in
      elim (snoc_cases ys) [
        | inl f ↦
            let g : xs ≡ t ∷ zs = e ∙ ap (λ ys. ys ++ t ∷ zs) f in
            subst (Removed l t) (sym g)
              (first_timer zs (subst (IsTimerList l) g v) (without-split t [] zs refl))
        | inr (ws, m, f) ↦
            let g : xs ≡ (ws ++ m ∷ []) ++ t ∷ zs = e ∙ ap (λ ys. ys ++ t ∷ zs) f in
            subst (Removed l t) (sym g) (later_timer ws m zs (subst (IsTimerList l) g v))
      ]
