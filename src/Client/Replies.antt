-- ===== src/Client/Replies.antt =====
-- The quorum calls of client/client.go, over the sizes of helper.go.
use hotstuff_repbased_leader.Prelude.{ℕ, zero, suc, ◌≡◌, ◌≤◌, refl, ap, true, Bool, inl, inr, arith}
use hotstuff_repbased_leader.Sizes.{num_faulty}
use hotstuff_repbased_leader.Sizes.Intersections.{count, Witness, Witness-or_bound}
use hotstuff_repbased_leader.Client.{exec_command_qf, calls_faulty}

count-all : (n : ℕ) → count (λ _. true) n ≡ n
count-all zero = refl
count-all (suc n) = ap suc (count-all n)

-- If no more replicas are faulty than the configuration tolerates, the call of a connected client is
-- answered only if a replica that is not faulty has replied.
pub exec_command_qf_lem :
    (n : ℕ) (replied faulty : ℕ → Bool)
    → count faulty n ≤ num_faulty n
    → exec_command_qf (calls_faulty n) (count replied n) ≡ true
    → Witness replied (λ _. true) faulty n
unfolding exec_command_qf calls_faulty
exec_command_qf_lem n replied faulty few answered =
    elim (Witness-or_bound replied (λ _. true) faulty n) [
      | inl w ↦ w
      | inr bound ↦ absurd (ground (arith, count-all n))
    ]
