-- ===== src/ThreadPool/Limit.antt =====
-- How many requests append of practice/threadpool/threadPool.h admits.
use study_record.Common.{
  ℕ, zero, suc, ◌+◌, ◌-◌, ◌≤◌, ◌<◌, ◌≡◌, refl, [], ◌∷◌, ◌++◌, length, length-append, ltb, false,
  arith,
}
use study_record.Common.Threads.{update}
use study_record.ThreadPool.{
  ThreadPool, Pc, outside, Move, call_append, lock_append, not_full, push, unlock_append, post,
  leave_append, System, create,
}
use study_record.ThreadPool.Invariant.{Reach, start, later}

module _ (n workers max i : ℕ) (lt : i < n) where
  -- A reachable state with this pool, whose thread `i` stands there.
  At : ThreadPool → Pc → Type 0
  At t p = (pc : ℕ → Pc) × Reach n workers max (record { pool = t; pc = pc }) × (pc i ≡ p)

  move : {t t' : ThreadPool} {p p' : Pc} → At t p → Move t p t' p' → At t' p'
  unfolding At
  move {t} {t'} {p} {p'} (pc, r, e) m = (update pc i p', later r i lt (rw e m), ground arith)

  appended : ThreadPool → ℕ → ThreadPool
  appended t r = record t {
    m_workqueue = t.m_workqueue ++ r ∷ [];
    m_queuelocker = t.m_queuelocker - 1 + 1;
    m_queuestat = t.m_queuestat + 1;
  }

  append_one :
      (t : ThreadPool) (r : ℕ)
      → At t outside
      → 0 < t.m_queuelocker
      → length t.m_workqueue ≤ t.m_max_requests
      → At (appended t r) outside
  unfolding appended
  append_one t r a free room =
      let locked = move (move a (call_append r)) (lock_append free) in
      let pushed = move (move locked (not_full room)) push in
      move (move (move pushed unlock_append) post) leave_append

  fill :
      (k : ℕ)
      → ltb i workers ≡ false
      → k ≤ max + 1
      → (t : ThreadPool) × At t outside
        × (0 < t.m_queuelocker)
        × (t.m_max_requests ≡ max)
        × (length t.m_workqueue ≡ k)
  unfolding At appended
  fill zero h le = (
    (create workers max).pool,
    ((create workers max).pc, start, ground arith),
    omega arith,
    refl,
    refl,
  )
  fill (suc k) h le =
      let (t, a, free, limit, count) = fill k h (omega arith) in
      (
        appended t 1,
        append_one t 1 a free (omega (arith, limit, count)),
        omega arith,
        limit,
        omega (arith, count, length-append t.m_workqueue (1 ∷ [])),
      )

  -- A thread that is not a worker can bring the queue to one request more than the limit.
  pub limit_exceeded :
      ltb i workers ≡ false
      → (s : System) × Reach n workers max s × (length s.pool.m_workqueue ≡ max + 1)
  unfolding At
  limit_exceeded h =
      let (t, (pc, r, e), free, limit, count) = fill (max + 1) h (omega arith) in
      (record { pool = t; pc = pc }, r, count)
