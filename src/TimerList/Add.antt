-- ===== src/TimerList/Add.antt =====
-- add_timer of practice/timer/ascendSortedTimerList.h.
use study_record.Common.{
  ℕ, ◌<◌, ◌≡◌, ◌∙◌, refl, sym, ap, List, [], ◌∷◌, ◌++◌, length, none, some, true, false, leb, inl,
  inr, Bool-cases,
}
use study_record.Common.Links.{has, is_distinct, first, last}
use study_record.Common.Links.Laws.{snoc_cases}
use study_record.Common.Links.Insert.{put_before, is_distinct-insert, Seg-put_before}
use study_record.TimerList.{TimerList, add_behind, add_at, add_timer}
use study_record.TimerList.Invariant.{IsTimerList, below, above, insert, below-above}
use study_record.TimerList.Place.{
  find_above-above, Added, not_below, some_below, add_timer-front, add-front, add_timer-later,
  put_last, put_middle,
}

module _ (fuel : ℕ) (l : TimerList) (t : ℕ) (live : l.links.live t ≡ true) where
  put_later :
      (h : ℕ) (hs ws : List ℕ) (m : ℕ) (rest : List ℕ)
      → IsTimerList l (h ∷ hs)
      → has t (h ∷ hs) ≡ false
      → below l.absolute_expire t (h ∷ hs) ≡ ws ++ m ∷ []
      → above l.absolute_expire t (h ∷ hs) ≡ rest
      → add_timer fuel (some t) l ≡ add_behind t (first rest none) l
      → Added fuel l t (h ∷ hs)
  unfolding add_behind
  put_later h hs ws m [] v out b a run =
      put_last fuel l t live h hs ws m v out
        (below-above l.absolute_expire t (h ∷ hs) ∙ rw (b, a) refl) (rw (b, a) refl) run
  put_later h hs ws m (x ∷ rest) v out b a run =
      put_middle fuel l t live h hs ws m x rest v out
        (below-above l.absolute_expire t (h ∷ hs) ∙ rw (b, a) refl) (rw (b, a) refl) run

  put_front :
      (h : ℕ) (hs : List ℕ)
      → IsTimerList l (h ∷ hs)
      → has t (h ∷ hs) ≡ false
      → leb (l.absolute_expire t) (l.absolute_expire h) ≡ true
      → Added fuel l t (h ∷ hs)
  put_front h hs v out e =
      let placed : insert l.absolute_expire t (h ∷ hs) ≡ t ∷ h ∷ hs =
        not_below l.absolute_expire t h hs e in
      (
        some t,
        l.tail,
        put_before t h l.links,
        add_timer-front fuel l t live h v.front v.linked.0 e ∙ add-front fuel l t live h v.linked.0,
        record {
          front = sym (ap (λ xs. first xs none) placed);
          back = v.back ∙ sym (ap (last none) placed);
          linked = rw placed (Seg-put_before l.links t live h hs v.linked v.distinct out);
          distinct = ap is_distinct placed ∙ is_distinct-insert t [] (h ∷ hs) v.distinct out;
        },
        λ u. refl,
      )

  put_first : IsTimerList l [] → l.links.prev t ≡ none → l.links.next t ≡ none → Added fuel l t []
  unfolding add_timer add_at
  put_first v p n = (
    some t,
    some t,
    l.links,
    rw v.front refl,
    record { front = refl; back = refl; linked = (live, p, n, tt); distinct = refl },
    λ u. refl,
  )

  pub add-Added :
      (xs : List ℕ)
      → IsTimerList l xs
      → has t xs ≡ false
      → (xs ≡ [] → (l.links.prev t ≡ none) × (l.links.next t ≡ none))
      → length xs < fuel
      → Added fuel l t xs
  add-Added [] v out unlinked f = put_first v (unlinked refl).0 (unlinked refl).1
  add-Added (h ∷ hs) v out unlinked f =
      elim (Bool-cases (leb (l.absolute_expire t) (l.absolute_expire h))) [
        | inl e ↦ put_front h hs v out e
        | inr e ↦ elim (snoc_cases (below l.absolute_expire t (h ∷ hs))) [
          | inl b ↦ absurd (some_below l.absolute_expire t h hs e b)
          | inr (ws, m, b) ↦ put_later h hs ws m (above l.absolute_expire t (h ∷ hs)) v out b refl (
              add_timer-later fuel l t live h v.front v.linked.0
                (first (above l.absolute_expire t (h ∷ hs)) none) e
                (find_above-above fuel t l none (h ∷ hs) v.linked f))
        ]
      ]

-- A new timer, with no neighbours and not in the list, is put before the first timer of a linked list
-- whose time is not below its own, at the head, in the middle or behind the tail, and the writes leave
-- a list that is linked in both directions from `head` to `tail`. The fuel of the search has to be
-- above the length.
pub add_timer-insert :
    (fuel : ℕ) (l : TimerList) (t : ℕ) (xs : List ℕ)
    → IsTimerList l xs
    → l.links.live t ≡ true
    → l.links.prev t ≡ none
    → l.links.next t ≡ none
    → has t xs ≡ false
    → length xs < fuel
    → Added fuel l t xs
add_timer-insert fuel l t xs v live p n out f = add-Added fuel l t live xs v out (λ e. (p, n)) f
