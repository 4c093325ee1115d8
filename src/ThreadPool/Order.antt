-- ===== src/ThreadPool/Order.antt =====
-- The requests that the workers of practice/threadpool/threadPool.h take.
use study_record.Common.{
  ℕ, ◌+◌, ◌≤◌, ◌<◌, ◌≡◌, ◌≢◌, ◌⊎◌, inl, inr, List, [], ◌∷◌, ◌++◌, true, length, ltb, Bool-cases,
  arith,
}
use study_record.Common.Threads.{update, count_if, count_if-pos, count_if-two, count_if-some}
use study_record.ThreadPool.{
  ThreadPool, Pc, push_back, append_unlock, pop_front, run_unlock, Move, System, create,
}
use study_record.ThreadPool.Invariant.{
  is_critical, is_pushed, is_claimed, Reach, start, later, Reach-Inv,
}

-- The request that a step puts into the queue, and the one that it takes out.
abbrev pub pushed_by : Pc → Pc → List ℕ
pushed_by (push_back r) append_unlock = r ∷ []
pushed_by _ _ = []

abbrev pub popped_by : Pc → Pc → List ℕ
popped_by pop_front (run_unlock r) = r ∷ []
popped_by _ _ = []

module _ (n workers max : ℕ) where
  -- A run, with the requests in the order in which they were pushed and in which they were popped.
  pub data History : List ℕ → List ℕ → System → Type 0 where
    begin : History [] [] (create workers max)
    go :
        {ins outs : List ℕ} {s : System}
        → History ins outs s
        → (i : ℕ) {t : ThreadPool} {p : Pc} → i < n
        → Move s.pool (s.pc i) t p
        → History
            (ins ++ pushed_by (s.pc i) p)
            (outs ++ popped_by (s.pc i) p)
            (record { pool = t; pc = update s.pc i p })

  pub History-Reach : {ins outs : List ℕ} {s : System} → History ins outs s → Reach n workers max s
  History-Reach begin = start
  History-Reach (go h i lt m) = later (History-Reach h) i lt m

  -- The queue never holds more than one request above the limit.
  pub queue_bound : {s : System} → Reach n workers max s → length s.pool.m_workqueue ≤ max + 1
  queue_bound r = (Reach-Inv n workers max r).bound

  -- A worker that has taken a token finds a request.
  pub token_request :
      {s : System} (i : ℕ)
      → Reach n workers max s
      → i < n
      → is_claimed (s.pc i) ≡ true
      → 0 < length s.pool.m_workqueue
  token_request {s} i r lt c =
      omega (arith, (Reach-Inv n workers max r).tokens, count_if-pos is_claimed n s.pc i lt c)

  -- While a request waits, the semaphore lets a worker pass, or some thread is about to post a
  -- token or has taken one and is about to take a request.
  pub no_lost_request :
      {s : System}
      → Reach n workers max s
      → 0 < length s.pool.m_workqueue
      → (0 < s.pool.m_queuestat)
        ⊎ ((i : ℕ) × (i < n) × ((is_pushed (s.pc i) ≡ true) ⊎ (is_claimed (s.pc i) ≡ true)))
  no_lost_request {s} r h =
      let e = (Reach-Inv n workers max r).tokens in
      elim (Bool-cases (ltb 0 s.pool.m_queuestat)) [
        | inl some ↦ inl (ground arith)
        | inr none ↦ elim (Bool-cases (ltb 0 (count_if is_pushed n s.pc))) [
          | inl pushed ↦
              let (i, lt, c) = count_if-some is_pushed n s.pc (ground arith) in inr (i, lt, inl c)
          | inr not_pushed ↦
              let (i, lt, c) = count_if-some is_claimed n s.pc (ground arith) in inr (i, lt, inr c)
        ]
      ]

  -- Two threads never hold the lock of the queue at once.
  pub lock_exclusive :
      {s : System} (i j : ℕ)
      → Reach n workers max s
      → i < n
      → j < n
      → i ≢ j
      → is_critical (s.pc i) ≡ true
      → is_critical (s.pc j) ≢ true
  lock_exclusive {s} i j r lt lt' d c c' = omega (
    arith,
    (Reach-Inv n workers max r).one_inside,
    count_if-two is_critical n s.pc i j lt lt' d c c',
  )
