-- ===== src/Consensus/Stored.antt =====
-- What the certificates and the commits of consensus/consensus.go leave alone: the blocks that are
-- stored, and the lock.
use hotstuff_repbased_leader.Prelude.{
  ℕ, zero, suc, ◌≡◌, ◌≢◌, ◌<◌, refl, some, List, [], ◌∷◌, arith, Option-cases, inl, inr,
}
use hotstuff_repbased_leader.Types.{Block, QuorumCert}
use hotstuff_repbased_leader.BlockChain.{prune_to_height}
use hotstuff_repbased_leader.BlockChain.Lookups.{block_at}
use hotstuff_repbased_leader.State.{fork, Replica, Env}
use hotstuff_repbased_leader.Access.{emit, get_block}
use hotstuff_repbased_leader.HighQc.{update_high_qc, compare_high_qc, raise_high_qc}
use hotstuff_repbased_leader.Rules.{qc_ref, lock_higher}
use hotstuff_repbased_leader.Rules.Chains.{get_block-keeps}
use hotstuff_repbased_leader.Consensus.{execute, commit_inner, fork_all, prune, commit}
use hotstuff_repbased_leader.Consensus.Commits.{get_block_hit}

module _ (env : Env) where
  compare_high_qc-keeps :
      (qc : QuorumCert) (new_block : Block) (k : ℕ) (r : Replica) {b : Block}
      → block_at k r.chain ≡ some b
      → block_at k (compare_high_qc env qc new_block r).chain ≡ some b
  unfolding compare_high_qc raise_high_qc emit
  compare_high_qc-keeps qc new_block k r {b} found =
      ground (arith, get_block-keeps env r.high_qc.hash k r found)

  pub update_high_qc-keeps :
      (qc : QuorumCert) (k : ℕ) (r : Replica) {b : Block}
      → block_at k r.chain ≡ some b
      → block_at k (update_high_qc env qc r).chain ≡ some b
  unfolding update_high_qc
  update_high_qc-keeps qc k r {b} found = elim (Option-cases (get_block env qc.hash r).1) [
    | inl missing ↦ ground (arith, get_block-keeps env qc.hash k r found)
    | inr (c, there) ↦
        let kept = get_block-keeps env qc.hash k r found in
        ground (arith, compare_high_qc-keeps qc c k (get_block env qc.hash r).0 kept)
  ]

  pub update_high_qc-locked :
      (qc : QuorumCert) (r : Replica)
      → ((update_high_qc env qc r).locked ≡ r.locked)
        × ((update_high_qc env qc r).b_exec ≡ r.b_exec)
  unfolding update_high_qc compare_high_qc raise_high_qc emit get_block
  update_high_qc-locked qc r = ground arith

  commit_inner-keeps :
      (fuel : ℕ) (block : Block) (k : ℕ) (r : Replica) {b : Block}
      → block_at k r.chain ≡ some b
      → block_at k (commit_inner env fuel block r).chain ≡ some b
  unfolding commit_inner execute emit
  commit_inner-keeps zero block k r found = found
  commit_inner-keeps (suc fuel) block k r {b} found =
      let kept = get_block-keeps env block.parent k r found in
      elim (Option-cases (get_block env block.parent r).1) [
        | inl missing ↦ ground arith
        | inr (p, there) ↦
            ground (arith, commit_inner-keeps fuel p k (get_block env block.parent r).0 kept)
      ]

  get_block-locked : (h : ℕ) (r : Replica) → (get_block env h r).0.locked ≡ r.locked
  unfolding get_block
  get_block-locked h r = refl

  commit_inner-b_exec :
      (fuel : ℕ) (block : Block) (r : Replica)
      → 0 < fuel
      → r.b_exec.view < block.view
      → (commit_inner env fuel block r).b_exec ≡ block
  unfolding commit_inner execute emit
  commit_inner-b_exec zero block r some_fuel new = absurd (omega arith)
  commit_inner-b_exec (suc fuel) block r some_fuel new = ground arith

  commit_inner-locked :
      (fuel : ℕ) (block : Block) (r : Replica) → (commit_inner env fuel block r).locked ≡ r.locked
  unfolding commit_inner execute emit
  commit_inner-locked zero block r = refl
  commit_inner-locked (suc fuel) block r =
      let same = get_block-locked block.parent r in
      elim (Option-cases (get_block env block.parent r).1) [
        | inl missing ↦ ground arith
        | inr (p, there) ↦
            ground (arith, commit_inner-locked fuel p (get_block env block.parent r).0)
      ]

  fork_all_same :
      (blocks : List Block) (r : Replica)
      → ((fork_all env blocks r).chain ≡ r.chain)
        × ((fork_all env blocks r).locked ≡ r.locked)
        × ((fork_all env blocks r).b_exec ≡ r.b_exec)
  unfolding fork_all emit
  fork_all_same [] r = (refl, refl, refl)
  fork_all_same (b ∷ bs) r = fork_all_same bs (emit (fork b) r)

  prune_same :
      (height : ℕ) (r : Replica)
      → ((prune env height r).chain.blocks ≡ r.chain.blocks)
        × ((prune env height r).locked ≡ r.locked)
        × ((prune env height r).b_exec ≡ r.b_exec)
  unfolding prune prune_to_height
  prune_same height r =
      let (chain, forked) = prune_to_height env.fuel r.b_exec.view height r.chain in
      ground (arith, fork_all_same forked (record r { chain = chain }))

  pub commit_lem :
      (block : Block) (k : ℕ) (r : Replica) {b : Block}
      → 0 < env.fuel
      → r.b_exec.view < block.view
      → block_at k r.chain ≡ some b
      → ((commit env block r).b_exec ≡ block)
        × ((commit env block r).locked ≡ r.locked)
        × (block_at k (commit env block r).chain ≡ some b)
  unfolding commit
  commit_lem block k r {b} fuel new found =
      let r' = commit_inner env env.fuel block r in
      ground (
        arith,
        prune_same block.view r',
        commit_inner-keeps env.fuel block k r found,
        commit_inner-locked env.fuel block r,
        commit_inner-b_exec env.fuel block r fuel new,
      )

  pub lock_stores :
      (block : Block) (k : ℕ) (r : Replica) {b : Block}
      → block_at k r.chain ≡ some b
      → block_at k (lock_higher block r).chain ≡ some b
  unfolding lock_higher
  lock_stores block k r found = ground arith

  pub qc_ref_hit :
      (qc : QuorumCert) (r : Replica) {b : Block}
      → qc.hash ≢ 0
      → block_at qc.hash r.chain ≡ some b
      → qc_ref env qc r ≡ (r, some b)
  unfolding qc_ref
  qc_ref_hit qc r {b} ref found = ground (arith, get_block_hit env qc.hash r found)
