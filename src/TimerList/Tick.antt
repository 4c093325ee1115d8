-- ===== src/TimerList/Tick.antt =====
-- tick of practice/timer/ascendSortedTimerList.h.
use study_record.Common.{
  ℕ, zero, suc, ◌<◌, ◌≡◌, ◌∙◌, refl, sym, ap, subst, List, [], ◌∷◌, map, length, Option, none, some,
  Bool, true, false, ltb, ◌==◌, ==_iff, ◌&&◌, not, if◌then◌else◌, inl, inr, Bool-cases, arith,
}
use study_record.Common.Run.{Run, ok}
use study_record.Common.Links.{Links, has, first, without}
use study_record.TimerList.{TimerList, del_timer, tick_loop, tick}
use study_record.TimerList.Invariant.{IsTimerList, is_sorted}
use study_record.TimerList.Set.{del_timer-without}

-- The timers whose times have come, and the others.
abbrev pub come : (ℕ → ℕ) → ℕ → List ℕ → List ℕ
come e cur [] = []
come e cur (x ∷ xs) = if ltb cur (e x) then come e cur xs else x ∷ come e cur xs

abbrev pub later : (ℕ → ℕ) → ℕ → List ℕ → List ℕ
later e cur [] = []
later e cur (x ∷ xs) = if ltb cur (e x) then x ∷ later e cur xs else later e cur xs

is_sorted-tail :
    (e : ℕ → ℕ) (x : ℕ) (xs : List ℕ) → is_sorted e (x ∷ xs) ≡ true → is_sorted e xs ≡ true
is_sorted-tail e x [] h = refl
is_sorted-tail e x (y ∷ xs) h = ground arith

all_later :
    (e : ℕ → ℕ) (cur x : ℕ) (xs : List ℕ)
    → is_sorted e (x ∷ xs) ≡ true
    → ltb cur (e x) ≡ true
    → (come e cur (x ∷ xs) ≡ []) × (later e cur (x ∷ xs) ≡ x ∷ xs)
all_later e cur x [] h g = ground arith
all_later e cur x (y ∷ xs) h g =
    let y_later : ltb cur (e y) ≡ true = ground arith in
    let (p, q) = all_later e cur y xs (is_sorted-tail e x (y ∷ xs) h) y_later in
    (rw g p, rw (g, q) refl)

abbrev pub Ticked : TimerList → ℕ → List ℕ → Run (List ℕ × TimerList) → Type 0
Ticked l cur xs run =
    (head' tail' : Option ℕ) × (links' : Links) × (run
      ≡ ok (
        map l.user_data (come l.absolute_expire cur xs),
        record l { head = head'; tail = tail'; links = links' },
      ))
    × IsTimerList (record l { head = head'; tail = tail'; links = links' })
        (later l.absolute_expire cur xs)
    × ((u : ℕ) → links'.live u ≡ (l.links.live u && not (has u (come l.absolute_expire cur xs))))

tick_loop-stop :
    (k cur h : ℕ) (l : TimerList)
    → l.links.live h ≡ true
    → ltb cur (l.absolute_expire h) ≡ true
    → tick_loop (suc k) cur (some h) l ≡ ok ([], l)
unfolding tick_loop
tick_loop-stop k cur h l v e = rw (v, e) refl

tick_loop-fire :
    (k cur h : ℕ) (l l1 : TimerList) {fired : List ℕ} {l2 : TimerList}
    → l.links.live h ≡ true
    → ltb cur (l.absolute_expire h) ≡ false
    → del_timer (some h) l ≡ ok l1
    → tick_loop k cur l1.head l1 ≡ ok (fired, l2)
    → tick_loop (suc k) cur (some h) l ≡ ok (l.user_data h ∷ fired, l2)
unfolding tick_loop
tick_loop-fire k cur h l l1 v e d r = rw (v, e, d, r) refl

gone_too :
    (live live1 live2 : ℕ → Bool) (h u : ℕ) (ys : List ℕ)
    → live1 u ≡ (live u && not (h == u))
    → live2 u ≡ (live1 u && not (has u ys))
    → live2 u ≡ (live u && not (has u (h ∷ ys)))
gone_too live live1 live2 h u ys e f = ground (arith, e, f, ==_iff u h, ==_iff h u)

tick_loop-Ticked :
    (k cur : ℕ) (l : TimerList) (xs : List ℕ)
    → IsTimerList l xs
    → is_sorted l.absolute_expire xs ≡ true
    → length xs < k
    → Ticked l cur xs (tick_loop k cur (first xs none) l)
unfolding tick_loop
tick_loop-Ticked zero cur l xs v s f = absurd (omega arith)
tick_loop-Ticked (suc k) cur l [] v s f = (l.head, l.tail, l.links, refl, v, λ u. ground arith)
tick_loop-Ticked (suc k) cur l (h ∷ hs) v s f = elim (Bool-cases (ltb cur (l.absolute_expire h))) [
  | inl e ↦
      let (none_come, all) = all_later l.absolute_expire cur h hs s e in
      (
        l.head,
        l.tail,
        l.links,
        tick_loop-stop k cur h l v.linked.0 e
            ∙ ap (λ ys. ok (map l.user_data ys, l)) (sym none_come),
        subst (IsTimerList l) (sym all) v,
        λ u. rw none_come (ground arith),
      )
  | inr e ↦
      let (head1, tail1, links1, run1, v1, lives1) =
        del_timer-without l h (h ∷ hs) v (ground (arith, ==_iff h h)) in
      let l1 = record l { head = head1; tail = tail1; links = links1 } in
      let gone : without h (h ∷ hs) ≡ hs = rw ((==_iff h h).1 refl) refl in
      let v2 : IsTimerList l1 hs = subst (IsTimerList l1) gone v1 in
      let (head', tail', links', run, shape, lives) =
        tick_loop-Ticked k cur l1 hs v2 (is_sorted-tail l.absolute_expire h hs s) (omega arith) in
      (
        head',
        tail',
        links',
        tick_loop-fire k cur h l l1 v.linked.0 e run1
              (ap (λ p. tick_loop k cur p l1) v2.front ∙ run)
            ∙ rw e refl,
        rw e shape,
        λ u. rw e (
            gone_too l.links.live links1.live links'.live h u (come l.absolute_expire cur hs)
              (lives1 u) (lives u)),
      )
]

-- On a linked list in order, tick calls the timers whose times have come, in order and each once,
-- deletes these and no others, and leaves the list of the timers whose times are to come. The fuel of
-- the loop has to be above the length.
pub tick-come :
    (fuel cur : ℕ) (l : TimerList) (xs : List ℕ)
    → IsTimerList l xs
    → is_sorted l.absolute_expire xs ≡ true
    → length xs < fuel
    → Ticked l cur xs (tick fuel cur l)
tick-come fuel cur l xs v s f =
    subst (λ p. Ticked l cur xs (tick_loop fuel cur p l)) (sym v.front)
      (tick_loop-Ticked fuel cur l xs v s f)
