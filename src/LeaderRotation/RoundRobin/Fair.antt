-- ===== src/LeaderRotation/RoundRobin/Fair.antt =====
-- Who leads under leaderrotation/roundrobin.go.
use native.Mathlib.Nat.{mod-eq_of_lt, mod-lt, add-mod_right}
use hotstuff_repbased_leader.Prelude.{ℕ, zero, suc, ◌+◌, ◌%◌, ◌≡◌, ◌<◌, ◌≤◌, ap, some, arith}
use hotstuff_repbased_leader.LeaderRotation.RoundRobin.{round_robin}

-- With at least one replica, and no more than an ID can tell apart, every view has a leader, which is
-- the ID of a replica; the view `n` later has the same leader; and the view `id % n` is led by the
-- replica `id % n + 1`, so each replica leads one of the first `n` views.
pub round_robin_lem :
    (n : ℕ)
    → 0 < n
    → n < 4294967296
    → ((view : ℕ) → (leader : ℕ) × (round_robin n view ≡ some leader) × (1 ≤ leader) × (leader ≤ n))
      × ((view : ℕ) → round_robin n (view + n) ≡ round_robin n view)
      × ((id : ℕ) → round_robin n (id % n) ≡ some (id % n + 1))
unfolding round_robin
round_robin_lem zero pos small = elim pos [ ]
round_robin_lem (suc n) pos small = (
  λ view.
      let lt = mod-lt view {m = suc n} pos in
      (view % suc n + 1, ap some (omega (arith, lt)), omega (arith, lt), omega (arith, lt)),
  λ view. ap (λ r. some ((r + 1) % 4294967296)) (add-mod_right view (suc n)),
  λ id. let lt = mod-lt id {m = suc n} pos in rw (mod-eq_of_lt lt) (ap some (omega (arith, lt))),
)
