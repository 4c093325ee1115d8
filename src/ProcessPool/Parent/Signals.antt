-- ===== src/ProcessPool/Parent/Signals.antt =====
-- What run_parent of mine/practice/processPool.h does when children have ended.
use study_record.Common.{
  ℕ, zero, suc, ◌<◌, ◌≡◌, ◌∙◌, ◌↔◌, refl, sym, ap, List, [], ◌∷◌, Bool, true, false, ltb, ◌==◌,
  ◌&&◌, ◌||◌, inl, inr, Bool-cases, if◌then◌else◌, arith,
}
use study_record.Common.Int.{ℤ, negsuc}
use study_record.ProcessPool.{Pool}
use study_record.ProcessPool.Parent.{is_child, has_pid, reap, reap_all, none_left, deal_sigchld}

-- The process id is one of those that waitpid returned.
abbrev pub is_reaped : List ℕ → ℤ → Bool
is_reaped [] m_pid = false
is_reaped (pid ∷ pids) m_pid = has_pid pid m_pid || is_reaped pids m_pid

-- What stays of the pool when processes have ended.
pub record Survives (p p' : Pool) (gone : ℕ → Bool) : Type 0 where
  pub number : p'.m_process_number ≡ p.m_process_number
  pub listenfd : p'.m_listenfd ≡ p.m_listenfd
  pub pids :
      (i : ℕ)
      → (p'.m_sub_process i).m_pid ≡ (if gone i then negsuc 0 else (p.m_sub_process i).m_pid)
  pub pipes : (i : ℕ) → (p'.m_sub_process i).m_pipefd ≡ (p.m_sub_process i).m_pipefd

last_round :
    (k pid : ℕ) (p : Pool)
    → Survives p (reap k pid p) (λ i. ltb i k && has_pid pid (p.m_sub_process i).m_pid)
    → Survives p (reap (suc k) pid p) (λ i. ltb i (suc k) && has_pid pid (p.m_sub_process i).m_pid)
unfolding reap
last_round k pid p rest = elim (Bool-cases (has_pid pid (p1.m_sub_process k).m_pid)) [
  | inl e ↦ rw e (record {
    number = rest.number;
    listenfd = rest.listenfd;
    pids = λ i. elim (Bool-cases (k == i)) [
      | inl f ↦
          let mine : has_pid pid (p.m_sub_process i).m_pid ≡ true =
            ap (λ j. has_pid pid (p.m_sub_process j).m_pid) (at i f)
            ∙ ap (has_pid pid) (sym here)
            ∙ e in
          let lt : ltb i (suc k) ≡ true = ground arith in rw (f, lt, mine) refl
      | inr f ↦ rw f (rest.pids i ∙ ap (ended i) (sooner i f))
    ];
    pipes = λ i. elim (Bool-cases (k == i)) [
      | inl f ↦ rw f (rest.pipes k ∙ ap (λ j. (p.m_sub_process j).m_pipefd) (sym (at i f)))
      | inr f ↦ rw f (rest.pipes i)
    ];
  })
  | inr e ↦ rw e (record {
    number = rest.number;
    listenfd = rest.listenfd;
    pids = λ i. elim (Bool-cases (k == i)) [
      | inl f ↦
          let other : has_pid pid (p.m_sub_process i).m_pid ≡ false =
            ap (λ j. has_pid pid (p.m_sub_process j).m_pid) (at i f)
            ∙ ap (has_pid pid) (sym here)
            ∙ e in
          rest.pids i ∙ stays i (ltb i k) (ltb i (suc k)) other
      | inr f ↦ rest.pids i ∙ ap (ended i) (sooner i f)
    ];
    pipes = rest.pipes;
  })
]
  where
    p1 : Pool
    p1 = reap k pid p

    ended : ℕ → Bool → ℤ
    ended i b =
        if b && has_pid pid (p.m_sub_process i).m_pid then negsuc 0 else (p.m_sub_process i).m_pid

    stays :
        (i : ℕ) (b c : Bool) → has_pid pid (p.m_sub_process i).m_pid ≡ false → ended i b ≡ ended i c
    stays i true true e = refl
    stays i false false e = refl
    stays i true false e = rw e refl
    stays i false true e = rw e refl

    at : (i : ℕ) → (k == i) ≡ true → i ≡ k
    at i f = ground (arith, f)

    sooner : (i : ℕ) → (k == i) ≡ false → ltb i k ≡ ltb i (suc k)
    sooner i f = ground (arith, f)

    here : (p1.m_sub_process k).m_pid ≡ (p.m_sub_process k).m_pid
    here = let last : ltb k k ≡ false = ground arith in rest.pids k ∙ rw last refl

reap-Survives :
    (k pid : ℕ) (p : Pool)
    → Survives p (reap k pid p) (λ i. ltb i k && has_pid pid (p.m_sub_process i).m_pid)
unfolding reap
reap-Survives zero pid p = record {
  number = refl;
  listenfd = refl;
  pids = λ i. (let e : ltb i 0 ≡ false = ground arith in rw e refl);
  pipes = λ i. refl;
}
reap-Survives (suc k) pid p = last_round k pid p (reap-Survives k pid p)

unreaped : (pids : List ℕ) → is_reaped pids (negsuc 0) ≡ false
unreaped [] = refl
unreaped (pid ∷ pids) = unreaped pids

reap_all-Survives :
    (pids : List ℕ) (p : Pool)
    → Survives p
        (reap_all pids p)
        (λ i. ltb i p.m_process_number && is_reaped pids (p.m_sub_process i).m_pid)
unfolding reap_all
reap_all-Survives [] p = record {
  number = refl;
  listenfd = refl;
  pids = λ i. kept i (ltb i p.m_process_number);
  pipes = λ i. refl;
}
  where
    kept :
        (i : ℕ) (b : Bool)
        → (p.m_sub_process i).m_pid ≡ (if b && false then negsuc 0 else (p.m_sub_process i).m_pid)
    kept i true = refl
    kept i false = refl
reap_all-Survives (pid ∷ pids) p =
    let n = p.m_process_number in
    let p1 = reap n pid p in
    let once = reap-Survives n pid p in
    let rest = reap_all-Survives pids p1 in
    record {
      number = rest.number ∙ once.number;
      listenfd = rest.listenfd ∙ once.listenfd;
      pids = λ i.
          rest.pids i
          ∙ ap
              (λ k.
                if ltb i k && is_reaped pids (p1.m_sub_process i).m_pid
                then negsuc 0
                else (p1.m_sub_process i).m_pid)
              once.number
          ∙ both (ltb i n) pid pids (p.m_sub_process i).m_pid (p1.m_sub_process i).m_pid
              (once.pids i);
      pipes = λ i. rest.pipes i ∙ once.pipes i;
    }
  where
    both :
        (b : Bool) (pid : ℕ) (pids : List ℕ) (x y : ℤ)
        → y ≡ (if b && has_pid pid x then negsuc 0 else x)
        → (if b && is_reaped pids y then negsuc 0 else y)
          ≡ (if b && (has_pid pid x || is_reaped pids x) then negsuc 0 else x)
    both false pid pids x y e = e
    both true pid pids x y e = elim (Bool-cases (has_pid pid x)) [
      | inl f ↦ let gone : y ≡ negsuc 0 = e ∙ rw f refl in rw (gone, unreaped pids, f) refl
      | inr f ↦ let same : y ≡ x = e ∙ rw f refl in rw (same, f) refl
    ]

none_left_lem : (n : ℕ) (p : Pool) → none_left n p ≡ true ↔ ((i : ℕ) → i < n → is_child i p ≡ false)
unfolding none_left
none_left_lem zero p = (λ e i lt. absurd (omega (arith, lt)), λ gone. refl)
none_left_lem (suc k) p = elim (Bool-cases (is_child k p)) [
  | inl e ↦ (
    λ f. absurd (no (sym (by_child true e) ∙ f)),
    λ gone. let f = gone k (omega arith) in absurd (no (sym f ∙ e)),
  )
  | inr e ↦ (
    λ f i lt. elim (Bool-cases (k == i)) [
      | inl same ↦ ap (λ j. is_child j p) (ground (arith, same)) ∙ e
      | inr other ↦ (none_left_lem k p).0 (sym (by_child false e) ∙ f) i (ground (arith, other))
    ],
    λ gone. rw e ((none_left_lem k p).1 λ i lt. gone i (omega (arith, lt))),
  )
]
  where
    no : false ≡ true → ⊥
    no e = cc

    by_child :
        (b : Bool)
        → is_child k p ≡ b
        → (if is_child k p then false else none_left k p) ≡ (if b then false else none_left k p)
    by_child b e = rw e refl

-- At SIGCHLD, exactly the children whose process ids waitpid has returned are marked as gone; the others,
-- the pipes, the number of children and the listening descriptor are as before; and m_stop is set if and
-- only if no child is there any more.
pub deal_sigchld_lem :
    (pids : List ℕ) (p : Pool)
    → Survives p
        (deal_sigchld pids p)
        (λ i. ltb i p.m_process_number && is_reaped pids (p.m_sub_process i).m_pid)
      × ((deal_sigchld pids p).m_stop ≡ true
          ↔ ((i : ℕ) → i < p.m_process_number → is_child i (deal_sigchld pids p) ≡ false))
unfolding deal_sigchld
deal_sigchld_lem pids p =
    let v = reap_all-Survives pids p in
    let p1 = reap_all pids p in
    let left = none_left_lem p1.m_process_number p1 in
    (
      record { number = v.number; listenfd = v.listenfd; pids = v.pids; pipes = v.pipes },
      (
        λ e i lt. left.0 e i (omega (arith, lt, v.number)),
        λ gone. left.1 λ i lt. gone i (omega (arith, lt, v.number)),
      ),
    )
