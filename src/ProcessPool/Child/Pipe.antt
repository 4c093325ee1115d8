-- ===== src/ProcessPool/Child/Pipe.antt =====
-- The child's end of the pipe in run_child of mine/practice/processPool.h.
use study_record.Common.{
  ℕ, ◌+◌, ◌≤◌, ◌≡◌, ◌∙◌, refl, sym, ap, subst, List, [], ◌∷◌, ◌++◌, Bool, true, false, ltb, ◌==◌,
  ◌&&◌, ◌||◌, not, if◌then◌else◌, arith,
}
use study_record.Common.Int.{ℤ, pos, negsuc}
use study_record.Common.Run.{
  ok, Partial, ended, faulted, Partial-bind, Partial-map, Partial-if, ◌>>=◌,
}
use study_record.ProcessPool.{
  Pool, Call, addfd, close, send, kill, init, process, emit, parent_end, Signal, Received, failed,
  data_read, Event, Wait, error, events, sigterm, sigint, eagain,
}
use study_record.ProcessPool
use study_record.ProcessPool.Child.{
  user_per_process, deal_accepted, deal_pipe, deal_signals, deal_event, deal_events, Running,
  finished, waiting, finish, child_loop,
}

-- How often a descriptor is closed.
abbrev pub closes : ℕ → List Call → ℕ
closes fd [] = 0
closes fd (close fd' ∷ calls) = (if fd == fd' then 1 else 0) + closes fd calls
closes fd (addfd fd' ∷ calls) = closes fd calls
closes fd (send fd' ∷ calls) = closes fd calls
closes fd (kill pid ∷ calls) = closes fd calls
closes fd (init fd' ∷ calls) = closes fd calls
closes fd (process fd' ∷ calls) = closes fd calls

closes-append : (fd : ℕ) (xs ys : List Call) → closes fd (xs ++ ys) ≡ closes fd xs + closes fd ys
closes-append fd [] ys = omega arith
closes-append fd (close fd' ∷ xs) ys = omega (arith, closes-append fd xs ys)
closes-append fd (addfd fd' ∷ xs) ys = closes-append fd xs ys
closes-append fd (send fd' ∷ xs) ys = closes-append fd xs ys
closes-append fd (kill pid ∷ xs) ys = closes-append fd xs ys
closes-append fd (init fd' ∷ xs) ys = closes-append fd xs ys
closes-append fd (process fd' ∷ xs) ys = closes-append fd xs ys

-- At least `k` closes beyond those that the pool has made.
abbrev Closed : ℕ → ℕ → Pool → Pool → Type 0
Closed fd k p p1 = closes fd p.calls + k ≤ closes fd p1.calls

emit-Closed : (fd : ℕ) (c : Call) (p : Pool) → Closed fd 0 p (emit c p)
emit-Closed fd c p = omega (arith, closes-append fd p.calls (c ∷ []))

deal_accepted-Closed :
    (fd : ℕ) (accepted : ℤ) (p : Pool) → Partial (Closed fd 0 p) (deal_accepted accepted p)
unfolding deal_accepted
deal_accepted-Closed fd (negsuc e) p = ended (omega arith)
deal_accepted-Closed fd (pos connfd) p =
    Partial-if (ltb connfd user_per_process)
      (ended (
        omega (
          arith,
          emit-Closed fd (addfd connfd) p,
          emit-Closed fd (init connfd) (emit (addfd connfd) p),
        )))
      faulted

deal_pipe-Closed :
    (fd : ℕ) (r : Received) (accepted : ℤ) (p : Pool)
    → Partial (Closed fd 0 p) (deal_pipe fd r accepted p)
unfolding deal_pipe
deal_pipe-Closed fd (failed errno) accepted p =
    Partial-if (not (errno == eagain)) (ended (omega arith)) (deal_accepted-Closed fd accepted p)
deal_pipe-Closed fd ProcessPool.ended accepted p = ended (emit-Closed fd (close fd) p)
deal_pipe-Closed fd data_read accepted p = deal_accepted-Closed fd accepted p

deal_signals-calls : (gs : List Signal) (p : Pool) → (deal_signals gs p).calls ≡ p.calls
unfolding deal_signals
deal_signals-calls [] p = refl
deal_signals-calls (g ∷ gs) p =
    deal_signals-calls gs
      (if g.sig == sigterm || g.sig == sigint then record p { m_stop = true } else p)
    ∙ either (g.sig == sigterm || g.sig == sigint)
  where
    either : (b : Bool) → (if b then record p { m_stop = true } else p).calls ≡ p.calls
    either true = refl
    either false = refl

deal_event-Closed : (fd : ℕ) (e : Event) (p : Pool) → Partial (Closed fd 0 p) (deal_event fd e p)
unfolding deal_event
deal_event-Closed fd e p =
    Partial-if (e.sockfd == fd && e.epollin) (deal_pipe-Closed fd e.received e.accepted p) (
      Partial-if (e.sockfd == p.sig_pipefd parent_end && e.epollin)
        (ended (omega (arith, ap (closes fd) (deal_signals-calls e.signals p))))
        (Partial-if e.epollin
          (Partial-if (ltb e.sockfd user_per_process) (ended (emit-Closed fd (process e.sockfd) p))
            faulted)
          (ended (omega arith))))

deal_events-Closed :
    (fd : ℕ) (es : List Event) (p : Pool) → Partial (Closed fd 0 p) (deal_events fd es p)
unfolding deal_events
deal_events-Closed fd [] p = ended (omega arith)
deal_events-Closed fd (e ∷ es) p =
    Partial-bind (deal_event-Closed fd e p)
      λ p1 le. Partial-map (deal_events-Closed fd es p1) λ p2 le'. omega (arith, le, le')

-- A child that has ended has closed the pipe once more.
abbrev pub ClosedAtEnd : ℕ → ℕ → Pool → Running → Type 0
ClosedAtEnd fd k p (finished p1) = Closed fd (k + 1) p p1
ClosedAtEnd fd k p (waiting p1) = Closed fd k p p1

finish-ClosedAtEnd : (fd : ℕ) (p : Pool) → ClosedAtEnd fd 0 p (finish fd p)
finish-ClosedAtEnd fd p =
    let p1 = emit (close fd) p in
    let p2 = emit (close p.m_listenfd) p1 in
    ground (
      arith,
      closes-append fd p.calls (close fd ∷ []),
      emit-Closed fd (close p.m_listenfd) p1,
      emit-Closed fd (close p.m_epollfd) p2,
    )

later :
    (fd j k : ℕ) (p p1 : Pool) (r : Running)
    → Closed fd j p p1
    → ClosedAtEnd fd k p1 r
    → ClosedAtEnd fd (j + k) p r
later fd j k p p1 (finished q) h g = omega (arith, h, g)
later fd j k p p1 (waiting q) h g = omega (arith, h, g)

child_loop-ClosedAtEnd :
    (fd : ℕ) (ws : List Wait) (p : Pool) → Partial (ClosedAtEnd fd 0 p) (child_loop fd ws p)
unfolding child_loop
child_loop-ClosedAtEnd fd [] p =
    Partial-if p.m_stop (ended (finish-ClosedAtEnd fd p)) (ended (omega arith))
child_loop-ClosedAtEnd fd (error errno ∷ ws) p =
    Partial-if (p.m_stop || true) (ended (finish-ClosedAtEnd fd p)) (child_loop-ClosedAtEnd fd ws p)
child_loop-ClosedAtEnd fd (events es ∷ ws) p =
    Partial-if (p.m_stop || false) (ended (finish-ClosedAtEnd fd p)) (
      Partial-bind (deal_events-Closed fd es p)
        λ p1 h. Partial-map (child_loop-ClosedAtEnd fd ws p1) λ r g. later fd 0 0 p p1 r h g)

-- A child that goes on and finds that the parent has closed its end of the pipe closes its own end at once,
-- and whatever comes after it, closes the same descriptor again when it ends, which by then may be
-- that of a connection.
pub closed_twice :
    (pipefd : ℕ) (e : Event) (es : List Event) (ws : List Wait) (p : Pool)
    → p.m_stop ≡ false
    → (e.sockfd == pipefd && e.epollin) ≡ true
    → e.received ≡ ProcessPool.ended
    → Partial (ClosedAtEnd pipefd 1 p) (child_loop pipefd (events (e ∷ es) ∷ ws) p)
unfolding child_loop deal_events deal_event deal_pipe
closed_twice pipefd e es ws p runs is_pipe gone =
    let p1 = emit (close pipefd) p in
    let once : Closed pipefd 1 p p1 =
      ground (arith, closes-append pipefd p.calls (close pipefd ∷ [])) in
    let first : deal_event pipefd e p ≡ ok p1 = rw (is_pipe, gone) refl in
    subst (Partial (ClosedAtEnd pipefd 1 p))
      (sym (
        goes_on p.m_stop runs
        ∙ ap (λ r. r >>= deal_events pipefd es >>= child_loop pipefd ws) first))
      (Partial-bind (deal_events-Closed pipefd es p1) λ p2 h.
        Partial-map (child_loop-ClosedAtEnd pipefd ws p2)
          λ r g. later pipefd 1 0 p p2 r (omega (arith, once, h)) g)
  where
    goes_on :
        (b : Bool)
        → b ≡ false
        → (if b || false
            then ok (finish pipefd p)
            else (deal_event pipefd e p >>= deal_events pipefd es >>= child_loop pipefd ws))
          ≡ (deal_event pipefd e p >>= deal_events pipefd es >>= child_loop pipefd ws)
    goes_on b stop = rw stop refl
