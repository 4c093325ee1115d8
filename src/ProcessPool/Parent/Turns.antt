-- ===== src/ProcessPool/Parent/Turns.antt =====
-- run_parent of mine/practice/processPool.h gives the children their connections in turn.
use study_record.Common.{
  ℕ, zero, suc, ◌+◌, ◌%◌, ◌<◌, ◌≤◌, ◌≡◌, ◌∙◌, refl, sym, ap, List, [], ◌∷◌, ◌++◌, append_assoc,
  append-nil, Bool, true, false, ◌==◌, ◌||◌, inl, inr, if◌then◌else◌, replicate, length, arith,
}
use native.Mathlib.Nat.{mod-lt, mod-add-mod, mod-eq_of_lt}
use study_record.Common.Run.{Run, ok, Partial-ends, ◌>>=◌}
use study_record.Common.Int.{negsuc}
use study_record.ProcessPool.{
  Pool, Call, send, addfd, emit, parent_end, Event, events, Forked, create, setup_sig_pipe,
}
use study_record.ProcessPool.Fork.{create-IsCreated, create_number}
use study_record.ProcessPool.Parent.{
  Parent, go_on, is_child, allocate_loop, deal_listen, deal_event, deal_events, run_parent,
  parent_loop, Running, waiting, finish,
}

-- The requests of `m` connections, of which the first is for the child at which `c` stands.
abbrev pub requests : Pool → ℕ → ℕ → List Call
requests p zero c = []
requests p (suc m) c =
    send ((p.m_sub_process (c % p.m_process_number)).m_pipefd parent_end) ∷ requests p m (c + 1)

abbrev pub requested : Parent → ℕ → ℕ → Parent
requested s m c = record {
  pool = record s.pool { calls = s.pool.calls ++ requests s.pool m c };
  sub_process_counter = (c + m) % s.pool.m_process_number;
}

by_false : (x y : Run Running) (b : Bool) → b ≡ false → (if b then x else y) ≡ y
by_false x y b e = rw e refl

stopped : (b : Bool) → b ≡ false → (b || false) ≡ false
stopped b e = rw e refl

module _ (k : ℕ) (e : Event) where
  one_turn :
      (c : ℕ) (s : Parent)
      → (e.sockfd == s.pool.m_listenfd) ≡ true
      → s.sub_process_counter ≡ c % s.pool.m_process_number
      → is_child (c % s.pool.m_process_number) s.pool ≡ true
      → deal_event (suc k) e s ≡ ok (go_on (requested s 1 c))
  unfolding deal_event deal_listen allocate_loop
  one_turn c s listen at here =
      rw (listen, at, here, here, mod-add-mod c s.pool.m_process_number 1) refl

  next_event :
      (es : List Event) (s s1 : Parent)
      → deal_event (suc k) e s ≡ ok (go_on s1)
      → deal_events (suc k) (e ∷ es) s ≡ deal_events (suc k) es s1
  unfolding deal_events
  next_event es s s1 run = rw run refl

  -- The turns of the loop over what epoll_wait returns, each with the one connection.
  parent_loop-turns :
      (m c : ℕ) (s : Parent)
      → (e.sockfd == s.pool.m_listenfd) ≡ true
      → 0 < s.pool.m_process_number
      → s.sub_process_counter ≡ c % s.pool.m_process_number
      → ((i : ℕ) → i < s.pool.m_process_number → is_child i s.pool ≡ true)
      → s.pool.m_stop ≡ false
      → parent_loop (suc k) (replicate m (events (e ∷ []))) s ≡ ok (waiting (requested s m c))
  unfolding parent_loop deal_events
  parent_loop-turns zero c s listen some_child at here runs =
      let same : (c + 0) % s.pool.m_process_number ≡ s.sub_process_counter =
        ap (λ j. j % s.pool.m_process_number) (omega arith) ∙ sym at in
      by_false (ok (finish s)) (ok (waiting s)) s.pool.m_stop runs
      ∙ rw (same, append-nil s.pool.calls) refl
  parent_loop-turns (suc m) c s listen some_child at here runs =
      let rest = parent_loop (suc k) (replicate m (events (e ∷ []))) in
      by_false (ok (finish s)) (deal_events (suc k) (e ∷ []) s >>= rest) (s.pool.m_stop || false)
        (stopped s.pool.m_stop runs)
      ∙ ap (λ r. r >>= rest)
          (next_event [] s (requested s 1 c)
            (one_turn c s listen at (here (c % s.pool.m_process_number) (mod-lt c some_child))))
      ∙ parent_loop-turns m (c + 1) (requested s 1 c) listen some_child refl here runs
      ∙ ap
          (λ x. ok (
            waiting (record {
              pool = record s.pool { calls = x };
              sub_process_counter = ((c + 1) + m) % s.pool.m_process_number;
            })))
          (append_assoc s.pool.calls (requests s.pool 1 c) (requests s.pool m (c + 1)))
      ∙ ap
          (λ j. ok (
            waiting (record {
              pool = record s.pool { calls = s.pool.calls ++ requests s.pool (suc m) c };
              sub_process_counter = j % s.pool.m_process_number;
            })))
          (omega arith)

-- The parent that the constructor leaves, with the `n` children that it has made, and `m` calls of
-- epoll_wait that each report the listening descriptor: the parent sends one request for each, to the
-- children in turn, from the first on, `c % n` for the one that `c` come before, and waits for more. One
-- round of the do loop is enough each time.
pub run_parent_turns :
    (k listenfd n epollfd a b m : ℕ) (fs : List Forked) (e : Event) (p : Pool)
    → n ≤ length fs
    → create listenfd n fs ≡ ok p
    → p.m_idx ≡ negsuc 0
    → e.sockfd ≡ listenfd
    → run_parent (suc k) epollfd a b (replicate m (events (e ∷ []))) p
      ≡ ok (
          waiting (record {
            pool = record (setup_sig_pipe epollfd a b p) {
              calls = ((p.calls ++ addfd a ∷ []) ++ addfd p.m_listenfd ∷ []) ++ requests p m 0;
            };
            sub_process_counter = m % n;
          }))
unfolding run_parent parent_loop
run_parent_turns k listenfd n epollfd a b m fs e p enough made idx listen =
    let (some_child, few) = create_number listenfd n fs p made in
    elim (Partial-ends p (create-IsCreated listenfd n fs enough) made) [
      | inr (i, w) ↦ absurd (let f = w.idx in cc)
      | inl w ↦
          let p1 = emit (addfd p.m_listenfd) (setup_sig_pipe epollfd a b p) in
          let counter : (0 + m) % p.m_process_number ≡ m % n =
            ap (λ j. j % p.m_process_number) (omega arith) ∙ ap (λ j. m % j) w.number in
          parent_loop-turns k e m 0 (record { pool = p1; sub_process_counter = 0 })
            (ground (arith, listen, w.fd)) (omega (arith, some_child, w.number))
            (sym (mod-eq_of_lt (omega (arith, some_child, w.number))))
            (λ i lt. w.made i (omega (arith, lt, w.number))) w.runs
          ∙ ap
              (λ c. ok (
                waiting (record {
                  pool = record p1 { calls = p1.calls ++ requests p m 0 };
                  sub_process_counter = c;
                })))
              counter
    ]
