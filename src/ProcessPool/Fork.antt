-- ===== src/ProcessPool/Fork.antt =====
-- What the constructor of mine/practice/processPool.h leaves in the parent and in each child.
use study_record.Common.{
  ℕ, zero, suc, ◌+◌, ◌<◌, ◌≤◌, ◌≡◌, ◌⊎◌, refl, subst, List, [], ◌∷◌, true, false, ltb, leb, ◌==◌,
  ◌&&◌, inl, inr, Bool-cases, length, arith,
}
use study_record.Common.Int.{pos, negsuc}
use study_record.Common.Run.{ok, fault, Partial, ended, faulted, Partial-if}
use study_record.ProcessPool.{
  Pool, Process, Forked, no_pair, forked, fork_one, fork_loop, create, ends, emit, close,
  set_process, empty_pool, is_set, max_process_number,
}

-- The parent once `i` children have been made.
pub record IsParent (listenfd n i : ℕ) (p : Pool) : Type 0 where
  pub number : p.m_process_number ≡ n
  pub fd : p.m_listenfd ≡ listenfd
  pub runs : p.m_stop ≡ false
  pub idx : p.m_idx ≡ negsuc 0
  pub made : (j : ℕ) → j < i → is_set (p.m_sub_process j).m_pid ≡ true
  pub unmade : (j : ℕ) → i ≤ j → (p.m_sub_process j).m_pid ≡ negsuc 0

-- The child of the index `i`: fork has returned 0 in it, and it knows of the children before it only.
pub record IsChild (listenfd n : ℕ) (p : Pool) (i : ℕ) : Type 0 where
  pub inside : i < n
  pub number : p.m_process_number ≡ n
  pub fd : p.m_listenfd ≡ listenfd
  pub runs : p.m_stop ≡ false
  pub idx : p.m_idx ≡ pos i
  pub mine : (p.m_sub_process i).m_pid ≡ pos 0
  pub later : (j : ℕ) → i < j → (p.m_sub_process j).m_pid ≡ negsuc 0

abbrev pub IsCreated : ℕ → ℕ → Pool → Type 0
IsCreated listenfd n p = IsParent listenfd n n p ⊎ ((i : ℕ) × IsChild listenfd n p i)

module _ (listenfd n : ℕ) where
  forked-IsChild :
      (i fd : ℕ) (q : Process) (p : Pool)
      → i < n
      → q.m_pid ≡ pos 0
      → IsParent listenfd n i p
      → IsChild listenfd n (record (emit (close fd) (set_process i q p)) { m_idx = pos i }) i
  forked-IsChild i fd q p lt zero_pid v = record {
    inside = lt;
    number = v.number;
    fd = v.fd;
    runs = v.runs;
    idx = refl;
    mine = let e : (i == i) ≡ true = ground arith in rw e zero_pid;
    later = λ j j_lt. (let e : (i == j) ≡ false = ground arith in rw e (v.unmade j (omega arith)));
  }

  forked-IsParent :
      (i fd : ℕ) (q : Process) (p : Pool)
      → is_set q.m_pid ≡ true
      → IsParent listenfd n i p
      → IsParent listenfd n (i + 1) (emit (close fd) (set_process i q p))
  forked-IsParent i fd q p set_pid v = record {
    number = v.number;
    fd = v.fd;
    runs = v.runs;
    idx = v.idx;
    made = λ j lt. elim (Bool-cases (i == j)) [
      | inl e ↦ rw e set_pid
      | inr e ↦ rw e (v.made j (ground (arith, e)))
    ];
    unmade = λ j le. (let e : (i == j) ≡ false = ground arith in rw e (v.unmade j (omega arith)));
  }

  fork_loop-IsCreated :
      (left i : ℕ) (fs : List Forked) (p : Pool)
      → i + left ≡ n
      → left ≤ length fs
      → IsParent listenfd n i p
      → Partial (IsCreated listenfd n) (fork_loop left i fs p)
  unfolding fork_loop fork_one
  fork_loop-IsCreated zero i fs p e enough v =
      ended (inl (subst (λ k. IsParent listenfd n k p) (omega (arith, e)) v))
  fork_loop-IsCreated (suc left) i [] p e enough v = absurd (omega arith)
  fork_loop-IsCreated (suc left) i (no_pair ∷ fs) p e enough v = faulted
  fork_loop-IsCreated (suc left) i (forked a b (negsuc x) ∷ fs) p e enough v = faulted
  fork_loop-IsCreated (suc left) i (forked a b (pos zero) ∷ fs) p e enough v = ended (
      inr (
        i,
        forked-IsChild i a (record { m_pid = pos 0; m_pipefd = ends a b }) p (omega (arith, e)) refl
            v,
      ))
  fork_loop-IsCreated (suc left) i (forked a b (pos (suc pid)) ∷ fs) p e enough v =
      let q : Process = record { m_pid = pos (suc pid); m_pipefd = ends a b } in
      fork_loop-IsCreated left (i + 1) fs (emit (close b) (set_process i q p)) (omega (arith, e))
        (omega arith) (forked-IsParent i b q p refl v)

-- The constructor makes from 1 to 16 children. Whatever socketpair and fork return for each of them, it
-- fails by an assert or leaves the parent, where every child has its process id and m_idx is -1, or the
-- child of an index below their number, whose m_idx is that index, and which knows of no later child.
pub create-IsCreated :
    (listenfd n : ℕ) (fs : List Forked)
    → n ≤ length fs
    → Partial (IsCreated listenfd n) (create listenfd n fs)
unfolding create
create-IsCreated listenfd n fs enough =
    Partial-if (ltb 0 n && leb n max_process_number)
      (fork_loop-IsCreated listenfd n n 0 fs (empty_pool listenfd n) (omega arith) enough (record {
        number = refl;
        fd = refl;
        runs = refl;
        idx = refl;
        made = λ j lt. absurd (omega (arith, lt));
        unmade = λ j le. refl;
      }))
      faulted

-- What the assert on the number of children lets through.
pub create_number :
    (listenfd n : ℕ) (fs : List Forked) (p : Pool)
    → create listenfd n fs ≡ ok p
    → (0 < n) × (n ≤ max_process_number)
unfolding create
create_number listenfd n fs p e = elim (Bool-cases (ltb 0 n && leb n max_process_number)) [
  | inl f ↦ (ground (arith, f), ground (arith, f))
  | inr f ↦ absurd (let g : create listenfd n fs ≡ fault = rw f refl in cc)
]
