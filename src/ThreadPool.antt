-- ===== src/ThreadPool.antt =====
-- practice/threadpool/threadPool.h: the queue of requests between the main thread and the workers.
pub mod Invariant
mod Order
mod Limit
mod Tests
use study_record.Common.{
  ℕ, suc, ◌+◌, ◌-◌, ◌≤◌, ◌<◌, ◌≡◌, ◌≢◌, List, [], ◌∷◌, ◌++◌, Bool, true, false, ltb, if◌then◌else◌,
  length,
}
use study_record.Common.Threads.{update}

-- A request is the address of a connection, 0 the null pointer. `states` is what set_state wrote,
-- `m_queuelocker` counts as a semaphore of one: locker::lock passes when it is above zero.
pub record ThreadPool : Type 0 where
  pub m_max_requests : ℕ
  pub m_workqueue : List ℕ
  pub m_queuelocker : ℕ
  pub m_queuestat : ℕ
  pub m_stop : Bool
  pub states : ℕ → ℕ

abbrev pub is_null : ℕ → Bool
is_null request = ltb request 1

-- Where a thread stands: in one of the two append, or in run.
pub data Pc : Type 0 where
  outside : Pc
  set_state : ℕ → ℕ → Pc
  append_lock : ℕ → Pc
  test_size : ℕ → Pc
  refuse_unlock : Pc
  push_back : ℕ → Pc
  append_unlock : Pc
  post_stat : Pc
  returned : Bool → Pc
  test_stop : Pc
  wait_stat : Pc
  run_lock : Pc
  test_empty : Pc
  empty_unlock : Pc
  pop_front : Pc
  run_unlock : ℕ → Pc
  test_null : ℕ → Pc
  process : ℕ → Pc
  stopped : Pc

-- One step of one thread.
pub data Move (t : ThreadPool) : Pc → ThreadPool → Pc → Type 0 where
  call_append : (r : ℕ) → Move t outside t (append_lock r)
  call_append_state : (r e : ℕ) → Move t outside t (set_state r e)
  write_state :
      {r e : ℕ}
      → is_null r ≡ false
      → Move t (set_state r e) (record t { states = update t.states r e }) (append_lock r)
  lock_append :
      {r : ℕ}
      → 0 < t.m_queuelocker
      → Move t (append_lock r) (record t { m_queuelocker = t.m_queuelocker - 1 }) (test_size r)
  full : {r : ℕ} → t.m_max_requests < length t.m_workqueue → Move t (test_size r) t refuse_unlock
  not_full :
      {r : ℕ} → length t.m_workqueue ≤ t.m_max_requests → Move t (test_size r) t (push_back r)
  unlock_refuse :
      Move t refuse_unlock (record t { m_queuelocker = t.m_queuelocker + 1 }) (returned false)
  push :
      {r : ℕ}
      → Move t (push_back r) (record t { m_workqueue = t.m_workqueue ++ r ∷ [] }) append_unlock
  unlock_append : Move t append_unlock (record t { m_queuelocker = t.m_queuelocker + 1 }) post_stat
  post : Move t post_stat (record t { m_queuestat = t.m_queuestat + 1 }) (returned true)
  leave_append : {b : Bool} → Move t (returned b) t outside
  go_on : t.m_stop ≡ false → Move t test_stop t wait_stat
  stop : t.m_stop ≡ true → Move t test_stop t stopped
  wait :
      0 < t.m_queuestat → Move t wait_stat (record t { m_queuestat = t.m_queuestat - 1 }) run_lock
  lock_run :
      0 < t.m_queuelocker
      → Move t run_lock (record t { m_queuelocker = t.m_queuelocker - 1 }) test_empty
  is_empty : length t.m_workqueue ≡ 0 → Move t test_empty t empty_unlock
  not_empty : 0 < length t.m_workqueue → Move t test_empty t pop_front
  unlock_empty : Move t empty_unlock (record t { m_queuelocker = t.m_queuelocker + 1 }) test_stop
  pop :
      {r : ℕ} {rest : List ℕ}
      → t.m_workqueue ≡ r ∷ rest
      → Move t pop_front (record t { m_workqueue = rest }) (run_unlock r)
  unlock_run :
      {r : ℕ}
      → Move t (run_unlock r) (record t { m_queuelocker = t.m_queuelocker + 1 }) (test_null r)
  skip_null : {r : ℕ} → is_null r ≡ true → Move t (test_null r) t test_stop
  not_null : {r : ℕ} → is_null r ≡ false → Move t (test_null r) t (process r)
  processed : {r : ℕ} → Move t (process r) t test_stop

-- The pool and the threads that use it.
pub record System : Type 0 where
  pub pool : ThreadPool
  pub pc : ℕ → Pc

-- The constructor's pool with `workers` threads in run, and any number of others outside.
abbrev pub create : ℕ → ℕ → System
create workers max_requests = record {
  pool = record {
    m_max_requests = max_requests;
    m_workqueue = [];
    m_queuelocker = 1;
    m_queuestat = 0;
    m_stop = false;
    states = λ r. 0;
  };
  pc = λ i. if ltb i workers then test_stop else outside;
}
