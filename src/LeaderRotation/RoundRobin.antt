-- ===== src/LeaderRotation/RoundRobin.antt =====
-- leaderrotation/fixed.go and roundrobin.go. `none` is the division by zero of an empty
-- configuration.
pub mod Fair
use hotstuff_repbased_leader.Prelude.{ℕ, zero, suc, ◌+◌, ◌%◌, Option, none, some}

unfoldable pub fixed_leader : ℕ → ℕ → ℕ
fixed_leader leader view = leader

-- `hotstuff.ID(view % View(n) + 1)`, the ID a uint32.
unfoldable pub round_robin : ℕ → ℕ → Option ℕ
round_robin zero view = none
round_robin (suc n) view = some ((view % suc n + 1) % 4294967296)
