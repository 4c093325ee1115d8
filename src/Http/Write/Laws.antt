-- ===== src/Http/Write/Laws.antt =====
-- A response sent in one call of writev, and what a call that takes only a part of it leaves.
use study_record.Common.{
  ℕ, zero, suc, ◌+◌, ◌-◌, ◌%◌, ◌^◌, ◌≤◌, ◌<◌, ◌≡◌, ◌↔◌, ◌⊎◌, inl, inr, refl, ◌∙◌, List, ◌∷◌, some,
  Bool, true, false, not, ◌&&◌, leb, ltb, if◌then◌else◌, ◌==◌, Bool-cases, arith,
}
use study_record.Common.Int.{ℤ, pos, negsuc, ◌-ℤ◌, int_of_bits, sub_ℕ}
use study_record.Http.{Iovec, Conn}
use study_record.Http.Write.{
  init, unmap, Sent, wrote, epollin, Progress, returned, sub_size, shift, account, nothing_left,
  finish, write_loop, write,
}

write-starts :
    (c : Conn) (n : ℕ) (calls : List Sent)
    → c.bytes_to_send ≡ pos (suc n)
    → write calls c ≡ write_loop calls c
unfolding write
write-starts c n calls e = starts c.bytes_to_send e
  where
    starts :
        (b : ℤ)
        → b ≡ pos (suc n)
        → ◌≡◌ {A = Progress}
            (elim b [
              | pos k ↦ elim k [
                | zero ↦ returned true (some epollin) (init c)
                | suc m ↦ write_loop calls c
              ]
              | negsuc k ↦ write_loop calls c
            ])
            (write_loop calls c)
    starts b h = rw h refl

account-all :
    (c : Conn) (n : ℕ) → c.bytes_to_send ≡ pos n → nothing_left (account c n).bytes_to_send ≡ true
unfolding account
account-all c n e = ground arith

account-keeps :
    (c : Conn) (n : ℕ)
    → ((account c n).m_linger ≡ c.m_linger)
      × ((account c n).m_checked_idx ≡ c.m_checked_idx)
      × ((account c n).m_read_idx ≡ c.m_read_idx)
unfolding account
account-keeps c n = ground arith

if-second {ℓ} :
    {A : Type ℓ} (a b : Bool) (x y : A)
    → (a && not b) ≡ true
    → (if a then if b then x else y else x) ≡ y
if-second true false x y h = refl
if-second true true x y h = cc
if-second false b x y h = cc

if-first {ℓ} :
    {A : Type ℓ} (a b : Bool) (x y : A)
    → (a && not b) ≡ false
    → (if a then if b then x else y else x) ≡ x
if-first true false x y h = cc
if-first true true x y h = refl
if-first false b x y h = refl

module _ (c : Conn) where
  finish-stays :
      (c.m_linger && not (ltb c.m_checked_idx c.m_read_idx)) ≡ true
      → finish c ≡ returned true (some epollin) (init (unmap c))
  unfolding finish
  finish-stays h = if-second c.m_linger (ltb c.m_checked_idx c.m_read_idx) _ _ h

  finish-goes :
      (c.m_linger && not (ltb c.m_checked_idx c.m_read_idx)) ≡ false
      → finish c ≡ returned false (some epollin) (unmap c)
  unfolding finish
  finish-goes h = if-first c.m_linger (ltb c.m_checked_idx c.m_read_idx) _ _ h

-- When one writev takes all that is to be sent, write unmaps the file, waits for the next request
-- and returns whether the connection stays: it does if the client asked for it and nothing of
-- another request has come, and then the connection is as after init().
pub write_whole :
    (c : Conn) (n : ℕ) (rest : List Sent)
    → c.bytes_to_send ≡ pos (suc n)
    → ((c.m_linger && not (ltb c.m_checked_idx c.m_read_idx)) ≡ true
        → write (wrote (suc n) ∷ rest) c
          ≡ returned true (some epollin) (init (unmap (account c (suc n)))))
      × ((c.m_linger && not (ltb c.m_checked_idx c.m_read_idx)) ≡ false
          → write (wrote (suc n) ∷ rest) c
            ≡ returned false (some epollin) (unmap (account c (suc n))))
unfolding write_loop
write_whole c n rest e =
    let left = account-all c (suc n) e in
    let start = write-starts c n (wrote (suc n) ∷ rest) e in
    let (l, i, r) = account-keeps c (suc n) in
    (
      λ stay. start ∙ rw left (finish-stays (account c (suc n)) (rw (l, i, r) stay)),
      λ go. start ∙ rw left (finish-goes (account c (suc n)) (rw (l, i, r) go)),
    )

-- The parts describe what is left of a head of `h` bytes and a file of `f` after `s` bytes.
abbrev pub IsRest : ℕ → ℕ → ℕ → Iovec → Iovec → Type 0
IsRest h f s head file =
    ((s ≤ h)
      × (head ≡ record { iov_base = pos s; iov_len = h - s })
      × (file ≡ record { iov_base = pos 0; iov_len = f }))
    ⊎ ((h ≤ s)
        × (head.iov_len ≡ 0)
        × (file ≡ record { iov_base = pos (s - h); iov_len = f - (s - h) }))

-- The connection is about to send a head of `h` bytes and a file of `f`.
pub record IsStarted (h f : ℕ) (c : Conn) : Type 0 where
  pub head : c.m_iv_header ≡ record { iov_base = pos 0; iov_len = h }
  pub file : c.m_iv_file ≡ record { iov_base = pos 0; iov_len = f }
  pub total : c.bytes_to_send ≡ pos (h + f)

sub_size-le : (a b : ℕ) → b ≤ a → a < 2 ^ 31 → sub_size a b ≡ a - b
sub_size-le a b h k = omega arith

sub_size-lt : (a b : ℕ) → a < b → b < 2 ^ 31 → sub_size a b ≡ 2 ^ 64 - (b - a)
sub_size-lt a b h k = omega arith

int_of_bits-small : (n : ℕ) → n < 2 ^ 31 → int_of_bits n ≡ pos n
int_of_bits-small n h = ground arith

int_of_bits-negative : (n : ℕ) → 0 < n → n < 2 ^ 31 → int_of_bits (2 ^ 64 - n) ≡ negsuc (n - 1)
int_of_bits-negative n p h =
    let low : (2 ^ 64 - n) % 2 ^ 32 ≡ 2 ^ 32 - n = omega arith in rw low (ground arith)

shift_back :
    (f r : ℕ)
    → f ≤ r
    → r < 2 ^ 31
    → shift (record { iov_base = pos 0; iov_len = f }) (int_of_bits (sub_size f r))
      ≡ record { iov_base = sub_ℕ 0 (r - f); iov_len = r }
shift_back f r h k = elim (Bool-cases (f == r)) [
  | inl e ↦
      let same : f ≡ r = ground arith in
      rw (sub_size-le f r (omega arith) (omega arith), int_of_bits-small (f - r) (omega arith))
        (ground arith)
  | inr e ↦
      let less : f < r = ground arith in
      rw (sub_size-lt f r less k, int_of_bits-negative (r - f) (omega arith) (omega arith))
        (ground arith)
]

gap : (h f s : ℕ) → s ≤ h → h + f - s - f ≡ h - s
gap h f s le = omega arith

shift_on :
    (h f r : ℕ)
    → r < f
    → h + f < 2 ^ 31
    → shift (record { iov_base = pos 0; iov_len = h }) (int_of_bits (sub_size (h + f) r))
      ≡ record { iov_base = pos (h + f - r); iov_len = 2 ^ 64 - (f - r) }
shift_on h f r p k =
    rw (sub_size-le (h + f) r (omega arith) k, int_of_bits-small (h + f - r) (omega arith))
      (ground arith)

module _ (h f s : ℕ) (c : Conn) (started : IsStarted h f c) (small : h + f < 2 ^ 31)
    (part : s < h + f) where
  left : c.bytes_to_send -ℤ pos s ≡ pos (h + f - s)
  left = rw started.total (ground arith)

  -- The two branches of `account`, in numbers.
  account_head :
      s ≤ h
      → ((account c s).m_iv_header ≡ record { iov_base = pos 0; iov_len = 0 })
        × ((account c s).m_iv_file ≡ record { iov_base = sub_ℕ 0 (h - s); iov_len = h + f - s })
  unfolding account
  account_head le =
      let kept : leb f (h + f - s) ≡ true = ground arith in
      let back = shift_back f (h + f - s) (omega arith) (omega arith) in
      rw (left, started.head, started.file, kept) (refl, back ∙ rw (gap h f s le) refl)

  account_file :
      h < s
      → ((account c s).m_iv_header ≡ record { iov_base = pos s; iov_len = 2 ^ 64 - (s - h) })
        × ((account c s).m_iv_file ≡ record { iov_base = pos 0; iov_len = f })
  unfolding account
  account_file lt =
      let cut : leb f (h + f - s) ≡ false = ground arith in
      rw (left, started.head, started.file, cut)
        (shift_on h f (h + f - s) (omega arith) small ∙ ground arith, refl)

  -- After a call of writev that takes a part, the parts that write passes on describe what is left
  -- exactly if the call took the head and nothing else: a part of the head, and a head with a part
  -- of the file, are both followed by other bytes than those that are due.
  pub account_part :
      0 < s → IsRest h f s (account c s).m_iv_header (account c s).m_iv_file ↔ (s ≡ h)
  account_part pos_s = (only_head, λ e. inr (of_head e))
    where
      only_head : IsRest h f s (account c s).m_iv_header (account c s).m_iv_file → s ≡ h
      only_head rest = elim (Bool-cases (leb s h)) [
        | inl le ↦ ground (arith, account_head (ground arith))
        | inr gt ↦ ground (arith, account_file (ground arith))
      ]

      of_head :
          s ≡ h
          → (h ≤ s)
            × ((account c s).m_iv_header.iov_len ≡ 0)
            × ((account c s).m_iv_file ≡ record { iov_base = pos (s - h); iov_len = f - (s - h) })
      of_head e = ground (arith, account_head (omega arith))
