-- ===== src/Common/Links/Laws.antt =====
-- Segments of linked nodes, taken apart, put together, and kept by changes elsewhere.
use mathlib.Core.Path.{◌≡◌, refl, sym, ◌∙◌, ap}
use mathlib.Core.Logic.{◌⊎◌, inl, inr}
use mathlib.Core.Bool.{true, false, ◌||◌}
use mathlib.Core.Option.{Option, some}
use mathlib.Core.List.{List, [], ◌∷◌, ◌++◌}
use Prim.Native.Nat.{ℕ}
use native.Mathlib.Omega.{arith}
use study_record.Common.Tests.{◌==◌, ==_iff, Bool-cases}
use study_record.Common.Links.{
  Links, link_next, link_prev, new_node, free_node, has, is_distinct, first, last, without, Seg,
}

pub has-append : (a : ℕ) (xs ys : List ℕ) → has a (xs ++ ys) ≡ (has a xs || has a ys)
has-append a [] ys = refl
has-append a (x ∷ xs) ys = ground (arith, has-append a xs ys)

pub is_distinct-append_has :
    (a : ℕ) (xs ys : List ℕ) → is_distinct (xs ++ ys) ≡ true → has a xs ≡ true → has a ys ≡ false
is_distinct-append_has a [] ys d h = ground arith
is_distinct-append_has a (x ∷ xs) ys d h =
    ground (arith, has-append x xs ys, has-append a xs ys, is_distinct-append_has a xs ys)

pub is_distinct-left : (xs ys : List ℕ) → is_distinct (xs ++ ys) ≡ true → is_distinct xs ≡ true
is_distinct-left [] ys d = refl
is_distinct-left (x ∷ xs) ys d = ground (arith, has-append x xs ys, is_distinct-left xs ys)

pub is_distinct-right : (xs ys : List ℕ) → is_distinct (xs ++ ys) ≡ true → is_distinct ys ≡ true
is_distinct-right [] ys d = d
is_distinct-right (x ∷ xs) ys d = is_distinct-right xs ys (ground arith)

first-append : (xs ys : List ℕ) (a : Option ℕ) → first (xs ++ ys) a ≡ first xs (first ys a)
first-append [] ys a = refl
first-append (x ∷ xs) ys a = refl

pub last-snoc : (b : Option ℕ) (xs : List ℕ) (m : ℕ) → last b (xs ++ m ∷ []) ≡ some m
last-snoc b [] m = refl
last-snoc b (x ∷ xs) m = last-snoc (some x) xs m

pub Seg-split :
    (l : Links) (b : Option ℕ) (xs ys : List ℕ) (a : Option ℕ)
    → Seg l b (xs ++ ys) a
    → Seg l b xs (first ys a) × Seg l (last b xs) ys a
Seg-split l b [] ys a s = (tt, s)
Seg-split l b (x ∷ xs) ys a s =
    let (p, q) = Seg-split l (some x) xs ys a s.3 in ((s.0, s.1, s.2 ∙ first-append xs ys a, p), q)

pub Seg-append :
    (l : Links) (b : Option ℕ) (xs ys : List ℕ) (a : Option ℕ)
    → Seg l b xs (first ys a)
    → Seg l (last b xs) ys a
    → Seg l b (xs ++ ys) a
Seg-append l b [] ys a s t = t
Seg-append l b (x ∷ xs) ys a s t =
    (s.0, s.1, s.2 ∙ sym (first-append xs ys a), Seg-append l (some x) xs ys a s.3 t)

-- A segment is kept by any change that spares its nodes.
pub Seg-frame :
    (l l' : Links) (b : Option ℕ) (xs : List ℕ) (a : Option ℕ)
    → ((t : ℕ)
        → has t xs ≡ true
        → (l'.live t ≡ l.live t) × (l'.prev t ≡ l.prev t) × (l'.next t ≡ l.next t))
    → Seg l b xs a
    → Seg l' b xs a
Seg-frame l l' b [] a same s = tt
Seg-frame l l' b (x ∷ xs) a same s =
    let (e, f, g) = same x (ground arith) in
    (e ∙ s.0, f ∙ s.1, g ∙ s.2, Seg-frame l l' (some x) xs a (λ t h. same t (ground arith)) s.3)

module _ (l : Links) (b : Option ℕ) (xs : List ℕ) (a : Option ℕ) (p : ℕ) (q : Option ℕ)
    (out : has p xs ≡ false) (s : Seg l b xs a) where
  pub Seg-link_next : Seg (link_next p q l) b xs a
  Seg-link_next = Seg-frame l (link_next p q l) b xs a (λ t h. (refl, refl, ground arith)) s

  pub Seg-link_prev : Seg (link_prev p q l) b xs a
  Seg-link_prev = Seg-frame l (link_prev p q l) b xs a (λ t h. (refl, ground arith, refl)) s

module _ (l : Links) (b : Option ℕ) (xs : List ℕ) (a : Option ℕ) (p : ℕ) (out : has p xs ≡ false)
    (s : Seg l b xs a) where
  pub Seg-new_node : Seg (new_node p l) b xs a
  Seg-new_node =
      Seg-frame l (new_node p l) b xs a (λ t h. (ground arith, ground arith, ground arith)) s

  pub Seg-free_node : Seg (free_node p l) b xs a
  Seg-free_node = Seg-frame l (free_node p l) b xs a (λ t h. (ground arith, refl, refl)) s

-- A node that is not live is in no segment.
pub not_live-has :
    (l : Links) (b : Option ℕ) (xs : List ℕ) (a : Option ℕ) (p : ℕ)
    → Seg l b xs a
    → l.live p ≡ false
    → has p xs ≡ false
not_live-has l b [] a p s d = refl
not_live-has l b (x ∷ xs) a p s d = ground (arith, not_live-has l (some x) xs a p s.3 d)

pub has-live :
    (l : Links) (b : Option ℕ) (xs : List ℕ) (a : Option ℕ) (p : ℕ)
    → Seg l b xs a
    → has p xs ≡ true
    → l.live p ≡ true
has-live l b [] a p s h = cc
has-live l b (x ∷ xs) a p s h = ground (arith, has-live l (some x) xs a p s.3)

pub is_distinct-append_right :
    (a : ℕ) (xs ys : List ℕ) → is_distinct (xs ++ ys) ≡ true → has a ys ≡ true → has a xs ≡ false
is_distinct-append_right a [] ys d h = refl
is_distinct-append_right a (x ∷ xs) ys d h =
    ground (arith, has-append x xs ys, ==_iff a x, is_distinct-append_right a xs ys)

-- A node of a list of distinct nodes, taken out.
pub has-split :
    (t : ℕ) (xs : List ℕ)
    → has t xs ≡ true
    → (ys zs : List ℕ) × (xs ≡ ys ++ t ∷ zs) × (has t ys ≡ false)
has-split t [] h = cc
has-split t (x ∷ xs) h = elim (Bool-cases (t == x)) [
  | inl e ↦ ([], xs, ground (arith, ==_iff t x), refl)
  | inr e ↦
      let (ys, zs, f, g) = has-split t xs (ground arith) in (x ∷ ys, zs, ap (◌∷◌ x) f, ground arith)
]

pub without-split :
    (t : ℕ) (ys zs : List ℕ) → has t ys ≡ false → without t (ys ++ t ∷ zs) ≡ ys ++ zs
without-split t [] zs h = ground arith
without-split t (y ∷ ys) zs h = ground (arith, without-split t ys zs)

pub has-without : (a t : ℕ) (xs : List ℕ) → has a (without t xs) ≡ true → has a xs ≡ true
has-without a t [] h = h
has-without a t (x ∷ xs) h = ground (arith, has-without a t xs)

pub without-gone : (t : ℕ) (xs : List ℕ) → is_distinct xs ≡ true → has t (without t xs) ≡ false
without-gone t [] d = refl
without-gone t (x ∷ xs) d = ground (arith, ==_iff t x, without-gone t xs)

pub is_distinct-without :
    (t : ℕ) (xs : List ℕ) → is_distinct xs ≡ true → is_distinct (without t xs) ≡ true
is_distinct-without t [] d = refl
is_distinct-without t (x ∷ xs) d = elim (Bool-cases (has x (without t xs))) [
  | inl e ↦ absurd (ground (arith, has-without x t xs e))
  | inr e ↦ ground (arith, is_distinct-without t xs)
]

-- A list is empty or has a last element.
pub snoc_cases : (xs : List ℕ) → (xs ≡ []) ⊎ ((ws : List ℕ) × (m : ℕ) × (xs ≡ ws ++ m ∷ []))
snoc_cases [] = inl refl
snoc_cases (x ∷ xs) = inr (elim (snoc_cases xs) [
  | inl e ↦ ([], x, ap (◌∷◌ x) e)
  | inr (ws, m, e) ↦ (x ∷ ws, m, ap (◌∷◌ x) e)
])

pub out_of_cons :
    (a x : ℕ) (xs : List ℕ) → has a (x ∷ xs) ≡ false → ((a == x) ≡ false) × (has a xs ≡ false)
out_of_cons a x xs h = ground arith

pub distinct_cons :
    (x : ℕ) (xs : List ℕ)
    → is_distinct (x ∷ xs) ≡ true
    → (has x xs ≡ false) × (is_distinct xs ≡ true)
distinct_cons x xs h = ground arith

pub ==_sym : (a b : ℕ) → (a == b) ≡ false → (b == a) ≡ false
==_sym a b h = ground arith

pub snoc-out :
    (a m : ℕ) (ws : List ℕ) → has a (ws ++ m ∷ []) ≡ false → (has a ws ≡ false) × ((a == m) ≡ false)
snoc-out a m ws h = ground (arith, has-append a ws (m ∷ []))

pub cons_out_append :
    (u x : ℕ) (xs ys : List ℕ)
    → has u (xs ++ x ∷ ys) ≡ false
    → (has u xs ≡ false) × ((u == x) ≡ false) × (has u ys ≡ false)
cons_out_append u x xs ys h = ground (arith, has-append u xs (x ∷ ys))

-- A node outside a list is none of those in it.
pub apart : (a u : ℕ) (xs : List ℕ) → has a xs ≡ false → has u xs ≡ true → (a == u) ≡ false
apart a u [] out i = cc
apart a u (x ∷ xs) out i = ground (arith, ==_iff u x, apart a u xs)

pub out_of_append :
    (u : ℕ) (xs ys : List ℕ) → has u (xs ++ ys) ≡ false → (has u xs ≡ false) × (has u ys ≡ false)
out_of_append u xs ys h = ground (arith, has-append u xs ys)
