-- ===== src/Gateway/Isolation.antt =====
-- The isolation levels of the `policy-meta` crate, as crates/omne-execution-gateway uses them.
use omne_runtime.Base.{ℕ, Bool, ltb, ◌==◌}

-- `policy_meta::ExecutionIsolation`, which the code matches as these three levels and compares by `>`.
pub data ExecutionIsolation : Type 0 where
  none best_effort strict : ExecutionIsolation

abbrev rank : ExecutionIsolation → ℕ
rank ExecutionIsolation.none = 0
rank ExecutionIsolation.best_effort = 1
rank ExecutionIsolation.strict = 2

-- `requested > supported`
abbrev pub exceeds : ExecutionIsolation → ExecutionIsolation → Bool
exceeds requested supported = ltb (rank supported) (rank requested)

abbrev pub isolation_eq : ExecutionIsolation → ExecutionIsolation → Bool
isolation_eq a b = rank a == rank b
