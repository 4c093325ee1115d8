-- ===== src/TimerList/Set.antt =====
-- del_timer and adjust_timer of practice/timer/ascendSortedTimerList.h.
use study_record.Common.{
  ℕ, ◌<◌, ◌≤◌, ◌≡◌, ◌∙◌, refl, List, [], ◌∷◌, length, Option, none, some, Bool, true, false, ◌==◌,
  ◌&&◌, not, arith,
}
use study_record.Common.Run.{ok}
use study_record.Common.Threads.{update}
use study_record.Common.Links.{Links, free_node, has, without}
use study_record.Common.Links.Laws.{Seg-free_node, has-live, without-gone}
use study_record.TimerList.{TimerList, del_timer, adjust_timer}
use study_record.TimerList.Invariant.{IsTimerList, is_sorted, insert, is_sorted-insert}
use study_record.TimerList.Add.{add-Added}
use study_record.TimerList.Remove.{del_timer_sup-Removed}

IsTimerList-free_node :
    (l : TimerList) (t : ℕ) (xs : List ℕ)
    → IsTimerList l xs
    → has t xs ≡ false
    → IsTimerList (record l { links = free_node t l.links }) xs
IsTimerList-free_node l t xs v out = record {
  front = v.front;
  back = v.back;
  linked = Seg-free_node l.links none xs none t out v.linked;
  distinct = v.distinct;
}

-- After free_timer only the timer itself is gone from memory.
freed :
    (t u : ℕ) (live live' : ℕ → Bool)
    → live' u ≡ live u
    → update live' t false u ≡ (live u && not (t == u))
freed t u live live' e = ground (arith, e)

length-without : (t : ℕ) (xs : List ℕ) → length (without t xs) ≤ length xs
length-without t [] = omega arith
length-without t (x ∷ xs) = ground (arith, length-without t xs)

module _ (l : TimerList) (t : ℕ) (xs : List ℕ) (v : IsTimerList l xs) (mine : has t xs ≡ true) where
  -- A timer that is deleted leaves the list, which stays linked, and the memory; the others stay.
  pub del_timer-without :
      (head' tail' : Option ℕ) × (links' : Links) × (del_timer (some t) l
        ≡ ok (record l { head = head'; tail = tail'; links = links' }))
      × IsTimerList (record l { head = head'; tail = tail'; links = links' }) (without t xs)
      × ((u : ℕ) → links'.live u ≡ (l.links.live u && not (t == u)))
  unfolding del_timer
  del_timer-without =
      let (head', tail', links', run, v', _, lives) = del_timer_sup-Removed l t xs v mine in
      let l' = record l { head = head'; tail = tail'; links = links' } in
      (
        head',
        tail',
        free_node t links',
        rw run refl,
        IsTimerList-free_node l' t (without t xs) v' (without-gone t xs v.distinct),
        λ u. freed t u l.links.live links'.live (lives u),
      )

  -- A timer whose time has been changed is taken out of a linked list that is in order but for it,
  -- and put in again before the first timer whose time is not below its own; the list is then in order
  -- and linked. The fuel of the search has to be above the length.
  pub adjust_timer-insert :
      (fuel : ℕ)
      → length xs < fuel
      → is_sorted l.absolute_expire (without t xs) ≡ true
      → (head' tail' : Option ℕ) × (links' : Links) × (adjust_timer fuel (some t) l
          ≡ ok (record l { head = head'; tail = tail'; links = links' }))
        × IsTimerList
            (record l { head = head'; tail = tail'; links = links' })
            (insert l.absolute_expire t (without t xs))
        × (is_sorted l.absolute_expire (insert l.absolute_expire t (without t xs)) ≡ true)
        × ((u : ℕ) → links'.live u ≡ l.links.live u)
  unfolding adjust_timer
  adjust_timer-insert fuel f sorted =
      let (head1, tail1, links1, run1, v1, alone, lives1) = del_timer_sup-Removed l t xs v mine in
      let l1 = record l { head = head1; tail = tail1; links = links1 } in
      let live1 : links1.live t ≡ true = lives1 t ∙ has-live l.links none xs none t v.linked mine in
      let (head', tail', links', run, shape, lives) =
        add-Added fuel l1 t live1 (without t xs) v1 (without-gone t xs v.distinct) alone
          (omega (arith, length-without t xs)) in
      (
        head',
        tail',
        links',
        rw run1 run,
        shape,
        is_sorted-insert l.absolute_expire t (without t xs) sorted,
        λ u. lives u ∙ lives1 u,
      )
