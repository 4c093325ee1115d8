-- ===== src/Common/CString.antt =====
-- The C library's functions on NUL-terminated strings, at a pointer `i` into a buffer of bytes.
-- The end of the buffer ends a string too: every caller's string is terminated before it.
use mathlib.Core.Option
pub mod Laws
use study_record.Common.Lists.{length, drop, codes}
use study_record.Common.Tests.{leb, ◌==◌, if◌then◌else◌}
use Prim.Native.Nat.{ℕ, zero, suc, ◌+◌}
use mathlib.Core.Bool.{Bool, true, false, ◌&&◌, ◌||◌}
use mathlib.Core.Option.{Option, none, some}
use mathlib.Core.List.{List, [], ◌∷◌, map}

abbrev pub c_str : List ℕ → List ℕ
c_str [] = []
c_str (c ∷ xs) = if c == 0 then [] else c ∷ c_str xs

-- The string that a pointer to byte `i` of the buffer stands for.
abbrev pub text_at : List ℕ → ℕ → List ℕ
text_at buf i = c_str (drop i buf)

-- A byte of " \t".
abbrev pub is_blank : ℕ → Bool
is_blank c = c == 32 || c == 9

unfoldable pub find_index : (ℕ → Bool) → List ℕ → Option ℕ
find_index p [] = none
find_index p (c ∷ xs) = if p c then some 0 else Option.map suc (find_index p xs)

unfoldable pub count_while : (ℕ → Bool) → List ℕ → ℕ
count_while p [] = 0
count_while p (c ∷ xs) = if p c then suc (count_while p xs) else 0

-- strpbrk(s, " \t")
unfoldable pub strpbrk_blank : List ℕ → ℕ → Option ℕ
strpbrk_blank buf i = Option.map (◌+◌ i) (find_index is_blank (text_at buf i))

-- strspn(s, " \t")
unfoldable pub strspn_blank : List ℕ → ℕ → ℕ
strspn_blank buf i = count_while is_blank (text_at buf i)

unfoldable pub strchr : List ℕ → ℕ → ℕ → Option ℕ
strchr buf i c = Option.map (◌+◌ i) (find_index (λ x. x == c) (text_at buf i))

abbrev pub to_lower : ℕ → ℕ
to_lower c = if leb 65 c && leb c 90 then c + 32 else c

-- Equality of strings up to case: strcasecmp(s, t) == 0.
unfoldable pub same_nocase : List ℕ → List ℕ → Bool
same_nocase [] [] = true
same_nocase (x ∷ xs) (y ∷ ys) = to_lower x == to_lower y && same_nocase xs ys
same_nocase _ _ = false

-- strncasecmp(s, t, strlen(t)) == 0: `s` begins with `t` up to case.
unfoldable pub starts_nocase : List ℕ → List ℕ → Bool
starts_nocase xs [] = true
starts_nocase (x ∷ xs) (y ∷ ys) = to_lower x == to_lower y && starts_nocase xs ys
starts_nocase [] (y ∷ ys) = false
