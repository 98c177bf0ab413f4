-- ===== src/Consensus/Forks.antt =====
-- Where the block of the forking proposer (consensus/byzantine/byzantine.go) hangs.
use hotstuff_repbased_leader.Prelude.{ℕ, ◌≡◌, ap, ◌∙◌, some, List, arith}
use hotstuff_repbased_leader.Types.{Block, SyncInfo, new_block}
use hotstuff_repbased_leader.BlockChain.Lookups.{block_at}
use hotstuff_repbased_leader.BlockChain.Consistent.{IsConsistent}
use hotstuff_repbased_leader.State.{Replica, Env, forking}
use hotstuff_repbased_leader.Access.{get_block}
use hotstuff_repbased_leader.Rules.{fork_propose_rule}
use hotstuff_repbased_leader.Consensus.{proposed_block}
use hotstuff_repbased_leader.Consensus.Commits.{get_block_hit}

fork_propose_rule_lem :
    (env : Env) (cert : SyncInfo) (h : ℕ) (r : Replica) (parent : Block)
    → IsConsistent r.chain
    → block_at h r.chain ≡ some parent
    → fork_propose_rule env cert h r ≡ (r, some parent)
unfolding fork_propose_rule
fork_propose_rule_lem env cert h r parent consistent found =
    let first = get_block_hit env h r {b = parent} found in
    let own = consistent h parent found in
    let second : get_block env parent.hash r ≡ (r, some parent) =
      ap (λ k. get_block env k r) own ∙ first in
    ground arith

-- In a chain that keeps every block under its own hash the block that the forking proposer takes for
-- the leaf's grandparent is the leaf's parent: its proposal carries the parent's certificate and has
-- the leaf's own parent for its parent, so it is a sibling of the leaf.
pub proposed_block-forking :
    (env : Env) (cert : SyncInfo) (cmd : List ℕ) (r : Replica) (parent : Block)
    → IsConsistent r.chain
    → block_at r.leaf_block.parent r.chain ≡ some parent
    → proposed_block env forking cert cmd r
      ≡ (r, some (new_block env.sha256 r.leaf_block.parent parent.cert cmd r.current_view env.id))
unfolding proposed_block
proposed_block-forking env cert cmd r parent consistent found =
    let rule = fork_propose_rule_lem env cert r.leaf_block.parent r parent consistent found in
    let own = consistent r.leaf_block.parent parent found in ground arith
