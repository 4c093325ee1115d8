-- ===== src/TimerList/Invariant.antt =====
-- The linked timers of practice/timer/ascendSortedTimerList.h as a list.
use study_record.Common.{
  ℕ, ◌≡◌, refl, List, [], ◌∷◌, ◌++◌, none, Bool, true, leb, ltb, ◌&&◌, if◌then◌else◌, arith,
}
use study_record.Common.Links.{is_distinct, first, last, Seg}
use study_record.TimerList.{TimerList}

pub record IsTimerList (l : TimerList) (xs : List ℕ) : Type 0 where
  pub front : l.head ≡ first xs none
  pub back : l.tail ≡ last none xs
  pub linked : Seg l.links none xs none
  pub distinct : is_distinct xs ≡ true

-- In the order of the times.
abbrev pub is_sorted : (ℕ → ℕ) → List ℕ → Bool
is_sorted e [] = true
is_sorted e (x ∷ []) = true
is_sorted e (x ∷ y ∷ xs) = leb (e x) (e y) && is_sorted e (y ∷ xs)

-- The place of a timer: before the first whose time is not below its own.
abbrev pub below : (ℕ → ℕ) → ℕ → List ℕ → List ℕ
below e t [] = []
below e t (x ∷ xs) = if ltb (e x) (e t) then x ∷ below e t xs else []

abbrev pub above : (ℕ → ℕ) → ℕ → List ℕ → List ℕ
above e t [] = []
above e t (x ∷ xs) = if ltb (e x) (e t) then above e t xs else x ∷ xs

abbrev pub insert : (ℕ → ℕ) → ℕ → List ℕ → List ℕ
insert e t xs = below e t xs ++ t ∷ above e t xs

pub below-above : (e : ℕ → ℕ) (t : ℕ) (xs : List ℕ) → xs ≡ below e t xs ++ above e t xs
below-above e t [] = refl
below-above e t (x ∷ xs) = ground (arith, below-above e t xs)

pub is_sorted-insert :
    (e : ℕ → ℕ) (t : ℕ) (xs : List ℕ) → is_sorted e xs ≡ true → is_sorted e (insert e t xs) ≡ true
is_sorted-insert e t [] h = refl
is_sorted-insert e t (x ∷ []) h = ground arith
is_sorted-insert e t (x ∷ y ∷ xs) h = ground (arith, is_sorted-insert e t (y ∷ xs))
