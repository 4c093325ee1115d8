-- ===== src/Common/Bytes.antt =====
-- Bytes stored into a buffer one after the other.
use mathlib.Core.Path.{◌≡◌, refl, ap, ◌∙◌}
use mathlib.Core.List.{List, [], ◌∷◌, ◌++◌, append_assoc, append-nil}
use Prim.Native.Nat.{ℕ, zero, suc, ◌+◌, ◌≤◌, ◌<◌}
use native.Mathlib.Omega.{arith}
use study_record.Common.Lists.{length, set, take, length-set}

-- The bytes of `s` stored from index `i` on.
unfoldable pub write_at : List ℕ → ℕ → List ℕ → List ℕ
write_at buf i [] = buf
write_at buf i (x ∷ s) = write_at (set buf i x) (i + 1) s

take-set_ge : (buf : List ℕ) (j i x : ℕ) → j ≤ i → take j (set buf i x) ≡ take j buf
take-set_ge buf zero i x h = refl
take-set_ge [] (suc j) i x h = refl
take-set_ge (y ∷ buf) (suc j) zero x h = absurd (omega arith)
take-set_ge (y ∷ buf) (suc j) (suc i) x h = ap (◌∷◌ y) (take-set_ge buf j i x (omega arith))

take-set_next :
    (buf : List ℕ) (i x : ℕ) → i < length buf → take (i + 1) (set buf i x) ≡ take i buf ++ x ∷ []
take-set_next [] i x h = absurd (omega arith)
take-set_next (y ∷ buf) zero x h = refl
take-set_next (y ∷ buf) (suc i) x h =
    let e : suc i + 1 ≡ suc (i + 1) = omega arith in
    rw e (ap (◌∷◌ y) (take-set_next buf i x (omega arith)))

pub length-write_at : (s buf : List ℕ) (i : ℕ) → length (write_at buf i s) ≡ length buf
unfolding write_at
length-write_at [] buf i = refl
length-write_at (x ∷ s) buf i = length-write_at s (set buf i x) (i + 1) ∙ length-set buf i x

pub take-write_at : (s buf : List ℕ) (j i : ℕ) → j ≤ i → take j (write_at buf i s) ≡ take j buf
unfolding write_at
take-write_at [] buf j i h = refl
take-write_at (x ∷ s) buf j i h =
    take-write_at s (set buf i x) j (i + 1) (omega arith) ∙ take-set_ge buf j i x h

pub write_at-append :
    (s t buf : List ℕ) (i end : ℕ)
    → i + length s ≡ end
    → end ≤ length buf
    → take end (write_at buf i (s ++ t)) ≡ take i buf ++ s
unfolding write_at
write_at-append [] t buf i end e h =
    let e' : i ≡ end = omega arith in rw (← e', append-nil) (take-write_at t buf i i (omega arith))
write_at-append (x ∷ s) t buf i end e h =
    write_at-append s t (set buf i x) (i + 1) end (omega arith) (rw length-set h)
    ∙ ap (λ p. p ++ s) (take-set_next buf i x (omega arith))
    ∙ append_assoc (take i buf) (x ∷ []) s

pub take-whole : (n : ℕ) (s : List ℕ) → length s ≤ n → take n s ≡ s
take-whole zero [] le = refl
take-whole zero (x ∷ s) le = absurd (omega arith)
take-whole (suc n) [] le = refl
take-whole (suc n) (x ∷ s) le = ap (◌∷◌ x) (take-whole n s (omega arith))
