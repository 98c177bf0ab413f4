-- ===== src/Tests/Agreement.antt =====
-- ChainedHotStuff on two branches from the genesis block whose views alternate.
use hotstuff_repbased_leader.Prelude.{ℕ, ◌≡◌, refl, true, List, [], ◌∷◌, lookup, insert, arith}
use hotstuff_repbased_leader.Types.{Block, new_block, genesis}
use hotstuff_repbased_leader.BlockChain
use hotstuff_repbased_leader.BlockChain.{Chain, get, new, extends}
use hotstuff_repbased_leader.CmdCache.{raise_serials, new_cmd_cache}
use hotstuff_repbased_leader.State.{Effect, exec, Replica}
use hotstuff_repbased_leader.Access.{extends_block}
use hotstuff_repbased_leader.Rules.{
  vote_rule, chained_vote_rule, chained_commit_rule, chained_decide, qc_ref,
}
use hotstuff_repbased_leader.Crypto.Ecdsa.{verify_threshold_signature}
use hotstuff_repbased_leader.Rules.Chains.{ThreeChain}
use hotstuff_repbased_leader.Consensus.{on_propose, on_propose_call, try_commit}
use hotstuff_repbased_leader.Consensus.Frame.{signed_views}
use hotstuff_repbased_leader.Consensus.Gaps.{HasRefs, both_executed}
use hotstuff_repbased_leader.Synchronizer.{run_all, run, handle, advance_view}
use hotstuff_repbased_leader.Node.{new_replica}
use hotstuff_repbased_leader.Tests.Setup.{env, digest, root, child, proposal_of}

abbrev x1 : Block
x1 = child root 1

abbrev y1 : Block
y1 = child root 2

abbrev x2 : Block
x2 = child x1 3

abbrev y2 : Block
y2 = child y1 4

abbrev x3 : Block
x3 = child x2 5

abbrev y3 : Block
y3 = child y2 6

abbrev x4 : Block
x4 = child x3 7

abbrev y4 : Block
y4 = child y3 8

abbrev propose_all : List Block → Replica → Replica
propose_all [] r = r
propose_all (b ∷ bs) r = propose_all bs (run_all env (on_propose_call (proposal_of b)) r)

abbrev executed : List Effect → List ℕ
executed [] = []
executed (exec block ∷ es) = block.view ∷ executed es
executed (_ ∷ es) = executed es

-- After all eight proposals.
final : Replica
final = propose_all (x1 ∷ y1 ∷ x2 ∷ y2 ∷ x3 ∷ y3 ∷ x4 ∷ y4 ∷ []) (new_replica env 1)

-- The replica signs all eight blocks, and executes the first block of each branch, latest first:
-- both are children of the genesis block.
executes_siblings :
    (signed_views final.trace ≡ 8 ∷ 7 ∷ 6 ∷ 5 ∷ 4 ∷ 3 ∷ 2 ∷ 1 ∷ [])
    × (executed final.trace ≡ 2 ∷ 1 ∷ [])
    × (x1.parent ≡ root.hash)
    × (y1.parent ≡ root.hash)
unfolding final new_replica run_all run handle on_propose advance_view get lookup chained_vote_rule
    new insert extends_block extends raise_serials new_cmd_cache chained_commit_rule qc_ref
    new_block verify_threshold_signature chained_decide
executes_siblings = (refl, refl, refl, refl)

-- Three blocks of each branch are stored, and none is executed.
abbrev store_all : List Block → Chain → Chain
store_all [] chain = chain
store_all (b ∷ bs) chain = store_all bs (BlockChain.store b chain)

abbrev six_blocks : Replica
six_blocks =
    let blocks = x1 ∷ y1 ∷ x2 ∷ y2 ∷ x3 ∷ y3 ∷ [] in
    record (new_replica env 1) { chain = store_all blocks (BlockChain.new digest) }

x_branch : ThreeChain env six_blocks x4 x3 x2 x1
unfolding new_block genesis BlockChain.store lookup insert BlockChain.new
x_branch = record {
  certifies1 = refl;
  certifies2 = refl;
  certifies3 = refl;
  parent1 = refl;
  parent2 = refl;
}

y_branch : ThreeChain env six_blocks y4 y3 y2 y1
unfolding new_block genesis BlockChain.store lookup insert BlockChain.new
y_branch = record {
  certifies1 = refl;
  certifies2 = refl;
  certifies3 = refl;
  parent1 = refl;
  parent2 = refl;
}

x_refs : HasRefs x4 x3 x2
unfolding new_block genesis
x_refs = (λ e. omega arith, λ e. omega arith, λ e. omega arith)

y_refs : HasRefs y4 y3 y2
unfolding new_block genesis
y_refs = (λ e. omega arith, λ e. omega arith, λ e. omega arith)

both_executed_example :
    let r1 = try_commit env x4 six_blocks in
    let (r2, safe) = vote_rule env (proposal_of y4) r1 in
    (r1.b_exec ≡ x1) × (safe ≡ true) × ((try_commit env y4 r2).b_exec ≡ y1)
unfolding new_replica new_block
both_executed_example =
    both_executed env x1 x2 x3 x4 y1 y2 y3 (proposal_of y4) six_blocks refl (omega arith) x_branch
      x_refs y_branch y_refs (omega arith) (omega arith) (omega arith) (omega arith)
