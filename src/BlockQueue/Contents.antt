-- ===== src/BlockQueue/Contents.antt =====
-- The entries between `front` and `rear` of the ring of practice/log/blockQueue.h.
use native.Mathlib.Nat.{mod-lt, mod-eq_of_lt, mod-add-mod, add-mod_right}
use study_record.Common.{
  ℕ, zero, suc, ◌+◌, ◌-◌, ◌%◌, ◌≤◌, ◌<◌, ◌≡◌, ◌≢◌, refl, ◌∙◌, sym, ap, inl, inr, List, [], ◌∷◌,
  ◌++◌, length, get_or, set, get_or-set_self, get_or-set_ne, Bool-cases, ltb, arith,
}
use study_record.BlockQueue.{BlockQueue, store, load}

-- Two places less than a turn apart are different entries.
pub mod_ne : (m a d : ℕ) → 0 < d → d < m → a % m ≢ (a + d) % m
mod_ne m a d h k e =
    let f : (a % m + d) % m ≡ a % m = mod-add-mod a m d ∙ sym e in
    let lt : a % m < m = mod-lt a (omega arith) in
    elim (Bool-cases (ltb (a % m + d) m)) [
      | inl below ↦
          let g : (a % m + d) % m ≡ a % m + d = mod-eq_of_lt (ground arith) in omega (arith, f, g)
      | inr above ↦
          let r = a % m + d - m in
          let g : (r + m) % m ≡ r = add-mod_right r m ∙ mod-eq_of_lt (ground arith) in
          let s : r + m ≡ a % m + d = ground arith in
          omega (arith, sym (ap (λ x. x % m) s) ∙ g, f, s)
    ]

module _ {A : Type 0} (empty_item : A) where
  -- The `k` entries behind the index `f`.
  unfoldable pub stretch : List A → ℕ → ℕ → ℕ → List A
  stretch buf m zero f = []
  stretch buf m (suc k) f = get_or buf ((f + 1) % m) empty_item ∷ stretch buf m k (f + 1)

  abbrev pub contents : BlockQueue A → List A
  contents q = stretch q.buf q.max_size (q.rear - q.front) q.front

  pub length-stretch : (buf : List A) (m k f : ℕ) → length (stretch buf m k f) ≡ k
  unfolding stretch
  length-stretch buf m zero f = refl
  length-stretch buf m (suc k) f = omega (arith, length-stretch buf m k (f + 1))

  stretch-set :
      (buf : List A) (m k f r : ℕ) (x : A)
      → f + k ≤ r
      → r < f + m
      → stretch (set buf ((r + 1) % m) x) m k f ≡ stretch buf m k f
  unfolding stretch
  stretch-set buf m zero f r x h l = refl
  stretch-set buf m (suc k) f r x h l =
      let apart : (f + 1) % m ≢ (f + 1 + (r - f)) % m =
        mod_ne m (f + 1) (r - f) (omega arith) (omega arith) in
      let same : f + 1 + (r - f) ≡ r + 1 = omega arith in
      let head : get_or (set buf ((r + 1) % m) x) ((f + 1) % m) empty_item
          ≡ get_or buf ((f + 1) % m) empty_item =
        get_or-set_ne buf ((r + 1) % m) ((f + 1) % m) x empty_item
          (λ e. apart (sym e ∙ ap (λ t. t % m) (sym same))) in
      let tail = stretch-set buf m k (f + 1) r x (omega arith) (omega arith) in cc

  stretch-snoc :
      (buf : List A) (m k f : ℕ)
      → stretch buf m (k + 1) f ≡ stretch buf m k f ++ get_or buf ((f + k + 1) % m) empty_item ∷ []
  unfolding stretch
  stretch-snoc buf m zero f = ground arith
  stretch-snoc buf m (suc k) f =
      let e : f + 1 + k + 1 ≡ f + suc k + 1 = omega arith in
      let s : suc k + 1 ≡ suc (k + 1) = omega arith in
      let rest = stretch-snoc buf m k (f + 1) in
      rw (s, sym e) (ap (◌∷◌ (get_or buf ((f + 1) % m) empty_item)) rest)

  -- A store appends its item, and a load takes the first one.
  pub contents-store :
      (q : BlockQueue A) (x : A)
      → q.front ≤ q.rear
      → q.rear < q.front + q.max_size
      → length q.buf ≡ q.max_size
      → contents (store q x) ≡ contents q ++ x ∷ []
  unfolding store
  contents-store q x h l b =
      let d = q.rear - q.front in
      let next : q.rear + 1 - q.front ≡ d + 1 = omega arith in
      let place : q.front + d + 1 ≡ q.rear + 1 = omega arith in
      let buf = set q.buf ((q.rear + 1) % q.max_size) x in
      let inside : (q.rear + 1) % q.max_size < q.max_size = mod-lt (q.rear + 1) (omega arith) in
      let last : get_or buf ((q.front + d + 1) % q.max_size) empty_item ≡ x = rw place (
        get_or-set_self q.buf ((q.rear + 1) % q.max_size) x empty_item
          (omega (arith, b, inside))) in
      ap (λ k. stretch buf q.max_size k q.front) next
      ∙ stretch-snoc buf q.max_size d q.front
      ∙ ap (λ t. stretch buf q.max_size d q.front ++ t ∷ []) last
      ∙ ap (λ t. t ++ x ∷ []) (stretch-set q.buf q.max_size d q.front q.rear x (omega arith) l)

  pub contents-load :
      (q : BlockQueue A)
      → q.front < q.rear
      → contents q ≡ (load empty_item q).0 ∷ contents (load empty_item q).1
  unfolding load stretch
  contents-load q h =
      let more : q.rear - q.front ≡ suc (q.rear - (q.front + 1)) = omega arith in
      ap (λ k. stretch q.buf q.max_size k q.front) more
