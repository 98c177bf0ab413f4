-- ===== src/Consensus/Gaps.antt =====
-- ChainedHotStuff (consensus/chainedhotstuff/chainedhotstuff.go) on two branches whose views
-- alternate: its commit rule asks for parent links and not for consecutive views.
use hotstuff_repbased_leader.Prelude.{
  ℕ, ◌≡◌, ◌≢◌, ◌<◌, refl, ap, ◌∙◌, true, some, arith, ltb, if◌then◌else◌,
}
use hotstuff_repbased_leader.Types.{Block, ProposeMsg}
use hotstuff_repbased_leader.BlockChain.Lookups.{block_at}
use hotstuff_repbased_leader.State.{Replica, Env, chained_hotstuff}
use hotstuff_repbased_leader.HighQc.{update_high_qc}
use hotstuff_repbased_leader.Rules.{
  lock_higher, three_chain, chained_decide, chained_commit_rule, chained_vote_rule, vote_rule,
  commit_rule, commit_of, vote_of,
}
use hotstuff_repbased_leader.Rules.Chains.{ThreeChain}
use hotstuff_repbased_leader.Consensus.{commit, try_commit}
use hotstuff_repbased_leader.Consensus.Commits.{get_block_hit}
use hotstuff_repbased_leader.Consensus.Stored

-- The certificates of a branch refer to blocks.
abbrev pub HasRefs : Block → Block → Block → Type 0
HasRefs block block1 block2 =
    (block.cert.hash ≢ 0) × (block1.cert.hash ≢ 0) × (block2.cert.hash ≢ 0)

module _ (env : Env) where
  chained_commit_rule_hit :
      (block block1 block2 block3 : Block) (r : Replica)
      → ThreeChain env r block block1 block2 block3
      → HasRefs block block1 block2
      → chained_commit_rule env block r
        ≡ (lock_higher block2 (update_high_qc env block.cert r), some block3)
  unfolding chained_commit_rule chained_decide three_chain
  chained_commit_rule_hit block block1 block2 block3 r three refs =
      let r' = update_high_qc env block.cert r in
      let at1 = Stored.update_high_qc-keeps env block.cert block.cert.hash r three.certifies1 in
      let at2 = Stored.update_high_qc-keeps env block.cert block1.cert.hash r three.certifies2 in
      let at3 = Stored.update_high_qc-keeps env block.cert block2.cert.hash r three.certifies3 in
      ground (
        arith,
        Stored.qc_ref_hit env block.cert r' refs.0 at1,
        Stored.qc_ref_hit env block1.cert r' refs.1 at2,
        Stored.qc_ref_hit env block2.cert (lock_higher block2 r') refs.2
            (Stored.lock_stores env block2 block2.cert.hash r' at3),
        three.parent1,
        three.parent2,
      )

  -- The state in which the commit rule has decided the block at the end of the branch.
  abbrev decided_at : Block → Block → Replica → Replica
  decided_at block block2 r = lock_higher block2 (update_high_qc env block.cert r)

  decided_at-keeps :
      (block block2 : Block) (k : ℕ) (r : Replica) {b : Block}
      → block_at k r.chain ≡ some b
      → block_at k (decided_at block block2 r).chain ≡ some b
  decided_at-keeps block block2 k r found =
      Stored.lock_stores env block2 k (update_high_qc env block.cert r)
        (Stored.update_high_qc-keeps env block.cert k r found)

  decided_at-same :
      (block block2 : Block) (r : Replica)
      → ((decided_at block block2 r).b_exec ≡ r.b_exec)
        × ((decided_at block block2 r).locked.view
            ≡ (if ltb r.locked.view block2.view then block2.view else r.locked.view))
  unfolding lock_higher
  decided_at-same block block2 r = ground (arith, Stored.update_high_qc-locked env block.cert r)

  try_commit_hit :
      (block block1 block2 block3 : Block) (r : Replica)
      → env.protocol ≡ chained_hotstuff
      → ThreeChain env r block block1 block2 block3
      → HasRefs block block1 block2
      → try_commit env block r ≡ commit env block3 (decided_at block block2 r)
  unfolding try_commit commit_rule commit_of
  try_commit_hit block block1 block2 block3 r chained three refs =
      rw chained ground (arith, chained_commit_rule_hit block block1 block2 block3 r three refs)

  try_commit_lem :
      (block block1 block2 block3 : Block) (k : ℕ) (r : Replica) {b : Block}
      → env.protocol ≡ chained_hotstuff
      → 0 < env.fuel
      → ThreeChain env r block block1 block2 block3
      → HasRefs block block1 block2
      → r.b_exec.view < block3.view
      → block_at k r.chain ≡ some b
      → ((try_commit env block r).b_exec ≡ block3)
        × ((try_commit env block r).locked.view
            ≡ (if ltb r.locked.view block2.view then block2.view else r.locked.view))
        × (block_at k (try_commit env block r).chain ≡ some b)
  try_commit_lem block block1 block2 block3 k r {b} chained fuel three refs new found =
      let at = decided_at block block2 r in
      let same = decided_at-same block block2 r in
      let done =
        Stored.commit_lem env block3 k at fuel (omega (arith, ap (λ b. Block.view b) same.0))
          (decided_at-keeps block block2 k r found) in
      rw (try_commit_hit block block1 block2 block3 r chained three refs)
        (done.0, ap (λ b. Block.view b) done.1 ∙ same.1, done.2)

  vote_rule_hit :
      (msg : ProposeMsg) (r : Replica) {qc_block : Block}
      → env.protocol ≡ chained_hotstuff
      → block_at msg.block.cert.hash r.chain ≡ some qc_block
      → r.locked.view < qc_block.view
      → vote_rule env msg r ≡ (r, true)
  unfolding vote_rule vote_of chained_vote_rule
  vote_rule_hit msg r chained found higher =
      rw chained ground (arith, get_block_hit env msg.block.cert.hash r found)

  -- A replica of ChainedHotStuff that has executed a block by the last block of one branch, then
  -- votes for the last block of another branch and executes the first block of that one, whether it
  -- descends from the block executed before or not. It is enough that each branch is a chain of three
  -- certified blocks, each the parent of the next, that the blocks to execute are above what was
  -- executed before, and that the third block of the second branch is above the lock and the second
  -- block of the first branch.
  pub both_executed :
      (x1 x2 x3 x4 y1 y2 y3 : Block) (msg : ProposeMsg) (r : Replica)
      → env.protocol ≡ chained_hotstuff
      → 0 < env.fuel
      → ThreeChain env r x4 x3 x2 x1
      → HasRefs x4 x3 x2
      → ThreeChain env r msg.block y3 y2 y1
      → HasRefs msg.block y3 y2
      → r.b_exec.view < x1.view
      → x1.view < y1.view
      → x2.view < y3.view
      → r.locked.view < y3.view
      → let r1 = try_commit env x4 r in
        let (r2, safe) = vote_rule env msg r1 in
        (r1.b_exec ≡ x1) × (safe ≡ true) × ((try_commit env msg.block r2).b_exec ≡ y1)
  both_executed x1 x2 x3 x4 y1 y2 y3 msg r chained fuel xs x_refs ys y_refs new above_x higher
        lock =
      let keep1 =
        try_commit_lem x4 x3 x2 x1 msg.block.cert.hash r chained fuel xs x_refs new ys.certifies1 in
      let keep2 =
        try_commit_lem x4 x3 x2 x1 y3.cert.hash r chained fuel xs x_refs new ys.certifies2 in
      let keep3 =
        try_commit_lem x4 x3 x2 x1 y2.cert.hash r chained fuel xs x_refs new ys.certifies3 in
      let r1 = try_commit env x4 r in
      let ys1 : ThreeChain env r1 msg.block y3 y2 y1 = record {
        certifies1 = keep1.2;
        certifies2 = keep2.2;
        certifies3 = keep3.2;
        parent1 = ys.parent1;
        parent2 = ys.parent2;
      } in
      let voted = vote_rule_hit msg r1 chained keep1.2 (ground (arith, keep1.1)) in
      let last =
        try_commit_lem msg.block y3 y2 y1 msg.block.cert.hash r1 chained fuel ys1 y_refs
          (ground (arith, ap (λ b. Block.view b) keep1.0)) keep1.2 in
      rw voted (keep1.0, refl, last.0)
