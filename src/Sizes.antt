-- ===== src/Sizes.antt =====
-- helper.go: the sizes of faulty sets and quorums.
pub mod Intersections
use hotstuff_repbased_leader.Prelude.{ℕ, ◌-◌, ◌/◌}

-- Go's division truncates to 0, as does `-` here, so the two agree at `n = 0` too.
unfoldable pub num_faulty : ℕ → ℕ
num_faulty n = (n - 1) / 3

unfoldable pub quorum_size : ℕ → ℕ
unfolding num_faulty
quorum_size n = n - num_faulty n
