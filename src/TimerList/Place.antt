-- ===== src/TimerList/Place.antt =====
-- Where add_timer of practice/timer/ascendSortedTimerList.h puts a timer, and what it links.
use study_record.Common.{
  ℕ, zero, suc, ◌<◌, ◌≡◌, ◌∙◌, refl, sym, ap, subst, List, [], ◌∷◌, ◌++◌, append-nil, length,
  Option, none, some, true, false, leb, ltb, ◌==◌, inl, inr, Bool-cases, arith,
}
use study_record.Common.Run.{ok}
use study_record.Common.Links.{Links, has, is_distinct, first, last, Seg}
use study_record.Common.Links.Laws.{
  Seg-split, last-snoc, has-append, is_distinct-append_has, is_distinct-append_right,
  is_distinct-left, is_distinct-right, out_of_cons, distinct_cons, out_of_append, snoc-out,
}
use study_record.Common.Links.Insert.{
  put_between, put_behind, put_before, is_distinct-insert, Seg-put_behind, Seg-put_between,
}
use study_record.TimerList.{
  TimerList, add_front, find_above, add_before, add_back, add_behind, add_at, add_timer,
}
use study_record.TimerList.Invariant.{IsTimerList, below, above, insert}

pub find_above-above :
    (k t : ℕ) (l : TimerList) (b : Option ℕ) (xs : List ℕ)
    → Seg l.links b xs none
    → length xs < k
    → find_above k t (first xs none) l ≡ ok (first (above l.absolute_expire t xs) none)
unfolding find_above
find_above-above zero t l b xs s h = absurd (omega arith)
find_above-above (suc k) t l b [] s h = refl
find_above-above (suc k) t l b (x ∷ xs) s h =
    elim (Bool-cases (ltb (l.absolute_expire x) (l.absolute_expire t))) [
      | inl e ↦
          rw (s.0, e)
            (ap (λ p. find_above k t p l) s.2
              ∙ find_above-above k t l (some x) xs s.3 (omega arith))
      | inr e ↦ rw (s.0, e) refl
    ]

abbrev pub Added : ℕ → TimerList → ℕ → List ℕ → Type 0
Added fuel l t xs =
    (head' tail' : Option ℕ) × (links' : Links) × (add_timer fuel (some t) l
      ≡ ok (record l { head = head'; tail = tail'; links = links' }))
    × IsTimerList (record l { head = head'; tail = tail'; links = links' })
        (insert l.absolute_expire t xs)
    × ((u : ℕ) → links'.live u ≡ l.links.live u)

last_same :
    (b : Option ℕ) (xs : List ℕ) (t a : ℕ) (as_ : List ℕ)
    → last b (xs ++ a ∷ as_) ≡ last b (xs ++ t ∷ a ∷ as_)
last_same b [] t a as_ = refl
last_same b (x ∷ xs) t a as_ = last_same (some x) xs t a as_

first_same :
    (ws : List ℕ) (m : ℕ) (xs ys : List ℕ)
    → first ((ws ++ m ∷ []) ++ xs) none ≡ first ((ws ++ m ∷ []) ++ ys) none
first_same [] m xs ys = refl
first_same (x ∷ ws) m xs ys = refl

pub not_below :
    (e : ℕ → ℕ) (t h : ℕ) (hs : List ℕ) → leb (e t) (e h) ≡ true → insert e t (h ∷ hs) ≡ t ∷ h ∷ hs
not_below e t h hs g = let i : ltb (e h) (e t) ≡ false = ground arith in rw i refl

pub some_below :
    (e : ℕ → ℕ) (t h : ℕ) (hs : List ℕ) → leb (e t) (e h) ≡ false → below e t (h ∷ hs) ≡ [] → ⊥
some_below e t h hs g b = ground arith

module _ (fuel : ℕ) (l : TimerList) (t : ℕ) (live : l.links.live t ≡ true) where
  add-back :
      (m : ℕ)
      → l.tail ≡ some m
      → l.links.live m ≡ true
      → add_back t l ≡ ok (record l { links = put_behind m t l.links; tail = some t })
  unfolding add_back
  add-back m e v = rw (e, v) refl

  add-before :
      (m a : ℕ)
      → l.links.prev a ≡ some m
      → l.links.live m ≡ true
      → add_before t a l ≡ ok (record l { links = put_between m t a l.links })
  unfolding add_before
  add-before m a e v = rw (e, v) refl

  pub add-front :
      (h : ℕ)
      → l.links.live h ≡ true
      → add_front t h l ≡ ok (record l { links = put_before t h l.links; head = some t })
  unfolding add_front
  add-front h v = rw v refl

  module _ (h : ℕ) (head : l.head ≡ some h) (live_h : l.links.live h ≡ true) where
    pub add_timer-front :
        leb (l.absolute_expire t) (l.absolute_expire h) ≡ true
        → add_timer fuel (some t) l ≡ add_front t h l
    unfolding add_timer add_at
    add_timer-front e = ap (λ p. add_at fuel t p l) head ∙ rw (live_h, live, e) refl

    pub add_timer-later :
        (p : Option ℕ)
        → leb (l.absolute_expire t) (l.absolute_expire h) ≡ false
        → find_above fuel t (some h) l ≡ ok p
        → add_timer fuel (some t) l ≡ add_behind t p l
    unfolding add_timer add_at
    add_timer-later p e f = ap (λ p. add_at fuel t p l) head ∙ rw (live_h, live, e, f) refl

  -- What is known of a list whose timers `ws` and `m` have times below.
  module _ (h : ℕ) (hs ws : List ℕ) (m : ℕ) (rest : List ℕ) (v : IsTimerList l (h ∷ hs))
      (out : has t (h ∷ hs) ≡ false) (split : h ∷ hs ≡ (ws ++ m ∷ []) ++ rest)
      (placed : insert l.absolute_expire t (h ∷ hs) ≡ (ws ++ m ∷ []) ++ t ∷ rest) where
    chain : Seg l.links none ((ws ++ m ∷ []) ++ rest) none
    chain = subst (λ xs. Seg l.links none xs none) split v.linked

    parted : is_distinct ((ws ++ m ∷ []) ++ rest) ≡ true
    parted = sym (ap is_distinct split) ∙ v.distinct

    away : has t ((ws ++ m ∷ []) ++ rest) ≡ false
    away = sym (ap (has t) split) ∙ out

    left : Seg l.links none (ws ++ m ∷ []) (first rest none)
    left = (Seg-split l.links none (ws ++ m ∷ []) rest none chain).0

    left_parts :
        Seg l.links none ws (some m) × Seg l.links (last none ws) (m ∷ []) (first rest none)
    left_parts = Seg-split l.links none ws (m ∷ []) (first rest none) left

    t_left : (has t ws ≡ false) × ((t == m) ≡ false)
    t_left = snoc-out t m ws (out_of_append t (ws ++ m ∷ []) rest away).0

    t_rest : has t rest ≡ false
    t_rest = (out_of_append t (ws ++ m ∷ []) rest away).1

    m_ws : has m ws ≡ false
    m_ws =
        is_distinct-append_right m ws (m ∷ []) (is_distinct-left (ws ++ m ∷ []) rest parted)
          (ground arith)

    m_rest : has m rest ≡ false
    m_rest =
        is_distinct-append_has m (ws ++ m ∷ []) rest parted
          (has-append m ws (m ∷ []) ∙ ground arith)

    front_same : (xs : List ℕ) → l.head ≡ first ((ws ++ m ∷ []) ++ xs) none
    front_same xs = v.front ∙ ap (λ ys. first ys none) split ∙ first_same ws m rest xs

    distinct_placed : is_distinct (insert l.absolute_expire t (h ∷ hs)) ≡ true
    distinct_placed = ap is_distinct placed ∙ is_distinct-insert t (ws ++ m ∷ []) rest parted away

  pub put_last :
      (h : ℕ) (hs ws : List ℕ) (m : ℕ)
      → IsTimerList l (h ∷ hs)
      → has t (h ∷ hs) ≡ false
      → h ∷ hs ≡ (ws ++ m ∷ []) ++ []
      → insert l.absolute_expire t (h ∷ hs) ≡ (ws ++ m ∷ []) ++ t ∷ []
      → add_timer fuel (some t) l ≡ add_back t l
      → Added fuel l t (h ∷ hs)
  put_last h hs ws m v out split placed run =
      let (before, place) = left_parts h hs ws m [] v out split placed in
      let (t_ws, t_m) = t_left h hs ws m [] v out split placed in
      let m_out = m_ws h hs ws m [] v out split placed in
      let tail : l.tail ≡ some m =
        v.back ∙ ap (last none) (split ∙ append-nil (ws ++ m ∷ [])) ∙ last-snoc none ws m in
      let seg = Seg-put_behind l.links t live m ws t_ws t_m m_out before place.0 place.1 in
      (
        l.head,
        some t,
        put_behind m t l.links,
        run ∙ add-back m tail place.0,
        record {
          front =
              front_same h hs ws m [] v out split placed (t ∷ [])
              ∙ sym (ap (λ xs. first xs none) placed);
          back = sym (ap (last none) placed ∙ last-snoc none (ws ++ m ∷ []) t);
          linked = rw placed seg;
          distinct = distinct_placed h hs ws m [] v out split placed;
        },
        λ u. refl,
      )

  pub put_middle :
      (h : ℕ) (hs ws : List ℕ) (m a : ℕ) (as_ : List ℕ)
      → IsTimerList l (h ∷ hs)
      → has t (h ∷ hs) ≡ false
      → h ∷ hs ≡ (ws ++ m ∷ []) ++ a ∷ as_
      → insert l.absolute_expire t (h ∷ hs) ≡ (ws ++ m ∷ []) ++ t ∷ a ∷ as_
      → add_timer fuel (some t) l ≡ add_before t a l
      → Added fuel l t (h ∷ hs)
  put_middle h hs ws m a as_ v out split placed run =
      let (before, place) = left_parts h hs ws m (a ∷ as_) v out split placed in
      let (t_ws, t_m) = t_left h hs ws m (a ∷ as_) v out split placed in
      let m_out = m_ws h hs ws m (a ∷ as_) v out split placed in
      let (t_a, t_as) = out_of_cons t a as_ (t_rest h hs ws m (a ∷ as_) v out split placed) in
      let (m_a, m_as) = out_of_cons m a as_ (m_rest h hs ws m (a ∷ as_) v out split placed) in
      let d = parted h hs ws m (a ∷ as_) v out split placed in
      let (a_ws, a_m) =
        snoc-out a m ws (is_distinct-append_right a (ws ++ m ∷ []) (a ∷ as_) d (ground arith)) in
      let (a_as, _) = distinct_cons a as_ (is_distinct-right (ws ++ m ∷ []) (a ∷ as_) d) in
      let whole = chain h hs ws m (a ∷ as_) v out split placed in
      let behind : Seg l.links (some m) (a ∷ as_) none =
        subst (λ b. Seg l.links b (a ∷ as_) none) (last-snoc none ws m)
          (Seg-split l.links none (ws ++ m ∷ []) (a ∷ as_) none whole).1 in
      let seg =
        Seg-put_between l.links t live m ws t_ws t_m m_out before place.0 place.1 a as_ t_a t_as
          a_ws a_m a_as m_as behind in
      (
        l.head,
        l.tail,
        put_between m t a l.links,
        run ∙ add-before m a behind.1 place.0,
        record {
          front =
              front_same h hs ws m (a ∷ as_) v out split placed (t ∷ a ∷ as_)
              ∙ sym (ap (λ xs. first xs none) placed);
          back =
              v.back
              ∙ ap (last none) split
              ∙ last_same none (ws ++ m ∷ []) t a as_
              ∙ sym (ap (last none) placed);
          linked = rw placed seg;
          distinct = distinct_placed h hs ws m (a ∷ as_) v out split placed;
        },
        λ u. refl,
      )
