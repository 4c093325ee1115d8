-- ===== src/ProcessPool/Parent/Allocate.antt =====
-- Which child run_parent of mine/practice/processPool.h takes for a connection.
use study_record.Common.{
  ℕ, zero, suc, ◌+◌, ◌-◌, ◌%◌, ◌<◌, ◌≤◌, ◌≡◌, ◌≢◌, ◌∙◌, ◌⊎◌, refl, ap, subst, true, false, leb,
  ◌==◌, inl, inr, Bool-cases, if◌then◌else◌, arith,
}
use native.Mathlib.Nat.{mod-eq_of_lt, mod_self}
use study_record.Common.Run.{ok, out_of_fuel}
use study_record.ProcessPool.{Pool, send, emit, parent_end}
use study_record.ProcessPool.Parent.{Parent, is_child, allocate_loop, deal_listen, go_on}

pub next_cases :
    (a n : ℕ) → a < n → ((a + 1) % n ≡ 0) × (suc a ≡ n) ⊎ ((a + 1) % n ≡ suc a) × (suc a < n)
next_cases a n lt = elim (Bool-cases (a + 1 == n)) [
  | inl e ↦
      let same : a + 1 ≡ n = ground arith in
      inl (ap (λ k. k % n) same ∙ mod_self n, omega (arith, same))
  | inr e ↦ inr (mod-eq_of_lt (ground arith) ∙ omega arith, ground arith)
]

pub next_lt : (a n : ℕ) → a < n → (a + 1) % n < n
next_lt a n lt = elim (next_cases a n lt) [
  | inl (e, f) ↦ omega (arith, e)
  | inr (e, f) ↦ omega (arith, e, f)
]

-- The steps from child `a` on to child `i`, of `n` children in a ring.
abbrev pub distance : ℕ → ℕ → ℕ → ℕ
distance n a i = if leb a i then i - a else n + i - a

next-distance :
    (n a b i : ℕ) → b ≡ (a + 1) % n → a < n → i < n → a ≢ i → distance n a i ≡ suc (distance n b i)
next-distance n a b i at a_lt i_lt d = elim (next_cases a n a_lt) [
  | inl (e, f) ↦ ground (arith, d, f, at ∙ e)
  | inr (e, f) ↦ ground (arith, d, f, at ∙ e)
]

distance_self : (n a : ℕ) → distance n a a ≡ 0
distance_self n a = ground arith

-- `r` is the first child that is there, from `a` on.
abbrev pub IsNextChild : Pool → ℕ → ℕ → Type 0
IsNextChild p a r =
    (r < p.m_process_number)
    × (is_child r p ≡ true)
    × ((j : ℕ)
        → j < p.m_process_number
        → distance p.m_process_number a j < distance p.m_process_number a r
        → is_child j p ≡ false)

module _ (p : Pool) where
  abbrev n : ℕ
  n = p.m_process_number

  allocate_stop : (k a : ℕ) → is_child a p ≡ true → allocate_loop (suc k) a p ≡ ok a
  unfolding allocate_loop
  allocate_stop k a e = rw e refl

  allocate_move :
      (k a b : ℕ)
      → (a + 1) % n ≡ b
      → b < n
      → is_child a p ≡ false
      → allocate_loop (suc k) a p ≡ allocate_loop k b p
  unfolding allocate_loop
  allocate_move k a b at lt e = let more : (b == n) ≡ false = ground arith in rw (e, at, more) refl

  pub allocate_loop-IsNextChild :
      (fuel a i : ℕ)
      → a < n
      → i < n
      → is_child i p ≡ true
      → distance n a i < fuel
      → (r : ℕ) × (allocate_loop fuel a p ≡ ok r) × IsNextChild p a r
  allocate_loop-IsNextChild zero a i a_lt lt e f = absurd (omega arith)
  allocate_loop-IsNextChild (suc k) a i a_lt lt e f = elim (Bool-cases (is_child a p)) [
    | inl here ↦ (
      a,
      allocate_stop k a here,
      (a_lt, here, λ j j_lt g. absurd (omega (arith, g, distance_self n a))),
    )
    | inr gone ↦
        let b = (a + 1) % n in
        let (r, run, (r_lt, r_here, first)) =
          allocate_loop-IsNextChild k b i (next_lt a n a_lt) lt e
            (omega (arith, f, next-distance n a b i refl a_lt lt (other a i gone e))) in
        (
          r,
          allocate_move k a b refl (next_lt a n a_lt) gone ∙ run,
          (
            r_lt,
            r_here,
            λ j j_lt g. elim (Bool-cases (a == j)) [
              | inl same ↦ subst (λ c. is_child c p ≡ false) (ground arith) gone
              | inr same ↦ first j j_lt (
                  omega (
                    arith,
                    g,
                    next-distance n a b j refl a_lt j_lt (ground (arith, same)),
                    next-distance n a b r refl a_lt r_lt (other a r gone r_here),
                  ))
            ],
          ),
        )
  ]
    where
      other : (a i : ℕ) → is_child a p ≡ false → is_child i p ≡ true → a ≢ i
      other a i gone here same = let f = ap (λ c. is_child c p) same in cc

  pub allocate_loop_stuck :
      (fuel a : ℕ)
      → a < n
      → ((j : ℕ) → j < n → is_child j p ≡ false)
      → allocate_loop fuel a p ≡ out_of_fuel
  unfolding allocate_loop
  allocate_loop_stuck zero a lt gone = refl
  allocate_loop_stuck (suc k) a lt gone =
      allocate_move k a ((a + 1) % n) refl (next_lt a n lt) (gone a lt)
      ∙ allocate_loop_stuck k ((a + 1) % n) (next_lt a n lt) gone

distance_lt : (n a i : ℕ) → a < n → i < n → distance n a i < n
distance_lt n a i a_lt lt = ground arith

-- A connection comes to a parent of which some child is there, and the do loop has fuel for as many rounds
-- as there are children: it ends, the request goes to the pipe of the first child that is there from
-- sub_process_counter on, sub_process_counter moves on by one, whichever child that is, and the loop over
-- the events goes on.
pub deal_listen_next :
    (fuel i : ℕ) (s : Parent)
    → s.sub_process_counter < s.pool.m_process_number
    → i < s.pool.m_process_number
    → is_child i s.pool ≡ true
    → s.pool.m_process_number ≤ fuel
    → (r : ℕ) × IsNextChild s.pool s.sub_process_counter r
      × (deal_listen fuel s
          ≡ ok (
              go_on (record {
                pool = emit (send ((s.pool.m_sub_process r).m_pipefd parent_end)) s.pool;
                sub_process_counter = (s.sub_process_counter + 1) % s.pool.m_process_number;
              })))
unfolding deal_listen
deal_listen_next fuel i s a_lt lt here f =
    let n = s.pool.m_process_number in
    let (r, run, (r_lt, r_here, first)) =
      allocate_loop-IsNextChild s.pool fuel s.sub_process_counter i a_lt lt here
        (omega (arith, distance_lt n s.sub_process_counter i a_lt lt)) in
    (r, (r_lt, r_here, first), rw (run, r_here) refl)
