-- ===== src/ProcessPool/Role.antt =====
-- ProcessPool::run of mine/practice/processPool.h, by `m_idx`.
use study_record.Common.{ℕ, zero, suc, List}
use study_record.Common.Int.{ℤ, pos, negsuc}
use study_record.Common.Run.{Run, ok, fault, ◌>>=◌}
use study_record.ProcessPool.{Pool, Wait}
use study_record.ProcessPool.Parent.{run_parent}
use study_record.ProcessPool.Parent
use study_record.ProcessPool.Child.{run_child}
use study_record.ProcessPool.Child

pub data Ran : Type 0 where
  as_parent : Parent.Running → Ran
  as_child : Child.Running → Ran

-- The array of processes has no entry below 0.
unfoldable pub run_by : ℤ → ℕ → ℕ → ℕ → ℕ → List Wait → Pool → Run Ran
run_by (pos i) fuel epollfd a b ws p = run_child i epollfd a b ws p >>= λ r. ok (as_child r)
run_by (negsuc zero) fuel epollfd a b ws p =
    run_parent fuel epollfd a b ws p >>= λ r. ok (as_parent r)
run_by (negsuc (suc n)) fuel epollfd a b ws p = fault

abbrev pub run : ℕ → ℕ → ℕ → ℕ → List Wait → Pool → Run Ran
run fuel epollfd a b ws p = run_by p.m_idx fuel epollfd a b ws p
