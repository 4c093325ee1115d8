-- ===== src/TimeWheel/Inner.antt =====
-- A timer that is not the first of its slot is taken out of practice/timer/timeWheelTimer.h's list.
use study_record.Common.{ℕ, ◌≡◌, refl, List, [], ◌∷◌, ◌++◌, none, some, true, false, ◌==◌}
use study_record.Common.Run.{ok}
use study_record.Common.Links.{Links, is_distinct, first, Seg}
use study_record.Common.Links.Laws.{out_of_cons}
use study_record.Common.Links.Bridge.{SameBut, bridged, Around, Seg-Around, Seg-bridged}
use study_record.TimeWheel.{link_back, drop_inner}

module _ (l : Links) (t m : ℕ) (ws : List ℕ) where
  -- The run, by what the code reads.
  drop_inner-end :
      l.prev t ≡ some m
      → l.live m ≡ true
      → (m == t) ≡ false
      → l.next t ≡ none
      → drop_inner t l ≡ ok (bridged m none l)
  unfolding drop_inner link_back
  drop_inner-end p v d n = rw (p, drop_inner, v, n, d, link_back, n) refl

  drop_inner-more :
      (q : ℕ)
      → l.prev t ≡ some m
      → l.live m ≡ true
      → (m == t) ≡ false
      → l.next t ≡ some q
      → l.live q ≡ true
      → drop_inner t l ≡ ok (bridged m (some q) l)
  unfolding drop_inner link_back
  drop_inner-more q p v d n w = rw (p, drop_inner, v, n, d, link_back, n, w, p) refl

  drop_inner-bridged :
      (zs : List ℕ) → Around l ws m t zs → drop_inner t l ≡ ok (bridged m (first zs none) l)
  drop_inner-bridged [] a =
      drop_inner-end a.prev_t a.place.0 (out_of_cons m t [] a.m_out).0 a.here.2
  drop_inner-bridged (q ∷ qs) a =
      drop_inner-more q a.prev_t a.place.0 (out_of_cons m t (q ∷ qs) a.m_out).0 a.here.2 a.here.3.0

  pub drop_inner-Seg :
      (zs : List ℕ)
      → Seg l none ((ws ++ m ∷ []) ++ t ∷ zs) none
      → is_distinct ((ws ++ m ∷ []) ++ t ∷ zs) ≡ true
      → (l' : Links) × (drop_inner t l ≡ ok l')
        × Seg l' none ((ws ++ m ∷ []) ++ zs) none
        × SameBut ((ws ++ m ∷ []) ++ t ∷ zs) l l'
  drop_inner-Seg zs s d =
      let a = Seg-Around l t m ws zs s d in
      let (seg, same) = Seg-bridged l t m ws zs a d in
      (bridged m (first zs none) l, drop_inner-bridged zs a, seg, same)
