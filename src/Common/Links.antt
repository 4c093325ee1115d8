-- ===== src/Common/Links.antt =====
-- Doubly linked nodes at addresses, as the timers of this repository are.
pub mod Laws
pub mod Bridge
pub mod Insert
use mathlib.Core.Path.{◌≡◌}
use mathlib.Core.Bool.{Bool, true, false, ◌||◌, ◌&&◌, not}
use mathlib.Core.Option.{Option, none, some}
use mathlib.Core.List.{List, [], ◌∷◌}
use Prim.Native.Nat.{ℕ}
use study_record.Common.Tests.{◌==◌, if◌then◌else◌}
use study_record.Common.Run.{Run, ok, fault}
use study_record.Common.Threads.{update}

-- `live` holds of the addresses of nodes that have been made and not deleted.
pub record Links : Type 0 where
  pub next : ℕ → Option ℕ
  pub prev : ℕ → Option ℕ
  pub live : ℕ → Bool

-- An access to a node, which faults at an address that holds none.
abbrev pub at_node {ℓ} : {A : Type ℓ} → Links → ℕ → Run A → Run A
at_node l p r = if l.live p then r else fault

-- `p->next = q` and `p->prev = q`
abbrev pub link_next : ℕ → Option ℕ → Links → Links
link_next p q l = record l { next = update l.next p q }

abbrev pub link_prev : ℕ → Option ℕ → Links → Links
link_prev p q l = record l { prev = update l.prev p q }

-- The node that `new` has made at the address, and the memory after `delete`.
abbrev pub new_node : ℕ → Links → Links
new_node p l = record {
  next = update l.next p none;
  prev = update l.prev p none;
  live = update l.live p true;
}

abbrev pub free_node : ℕ → Links → Links
free_node p l = record l { live = update l.live p false }

-- Equality of pointers.
abbrev pub is_ptr : Option ℕ → ℕ → Bool
is_ptr none t = false
is_ptr (some p) t = p == t

abbrev pub has : ℕ → List ℕ → Bool
has a [] = false
has a (p ∷ xs) = a == p || has a xs

abbrev pub is_distinct : List ℕ → Bool
is_distinct [] = true
is_distinct (p ∷ xs) = not (has p xs) && is_distinct xs

abbrev pub without : ℕ → List ℕ → List ℕ
without t [] = []
without t (x ∷ xs) = if t == x then xs else x ∷ without t xs

-- The first of the nodes, or what follows them, and the last, or what goes before.
abbrev pub first : List ℕ → Option ℕ → Option ℕ
first [] a = a
first (t ∷ xs) a = some t

abbrev pub last : Option ℕ → List ℕ → Option ℕ
last b [] = b
last b (t ∷ xs) = last (some t) xs

-- The nodes are live and linked in this order, with `b` before them and `a` behind.
abbrev pub Seg : Links → Option ℕ → List ℕ → Option ℕ → Type 0
Seg l b [] a = Unit {0}
Seg l b (t ∷ xs) a =
    (l.live t ≡ true) × (l.prev t ≡ b) × (l.next t ≡ first xs a) × Seg l (some t) xs a
