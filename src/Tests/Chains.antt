-- ===== src/Tests/Chains.antt =====
-- The block chain, the rules and the commits.
use hotstuff_repbased_leader.Prelude.{
  found, delete, ℕ, ◌+◌, ◌%◌, ◌≡◌, ◌<◌, ◌⊎◌, refl, not, ◌&&◌, ◌++◌, map, true, false, none, some,
  [], ◌∷◌, ◌==◌, if◌then◌else◌, elem, lookup, insert, All, arith,
}
use hotstuff_repbased_leader.Types.{Block, next_view, new_block, genesis}
use hotstuff_repbased_leader.Crypto.Base.{verify_quorum_cert}
use hotstuff_repbased_leader.Crypto.Ecdsa.{verify_threshold_signature}
use hotstuff_repbased_leader.BlockChain
use hotstuff_repbased_leader.BlockChain.{
  Chain, network_error, context_cancelled, committed_views, prune_to_height, prune_heights,
  forked_at,
}
use hotstuff_repbased_leader.BlockChain.Lookups.{block_at}
use hotstuff_repbased_leader.BlockChain.Consistent.{
  IsConsistent, new-IsConsistent, store-IsConsistent, get-IsConsistent,
}
use hotstuff_repbased_leader.BlockChain.Walks.{Descends, reached, down, extends-Branch}
use hotstuff_repbased_leader.BlockChain.Pruned.{In, in_range, missing, more, prune_to_height_lem}
use hotstuff_repbased_leader.Consensus.Commits
use hotstuff_repbased_leader.State.{Replica, exec}
use hotstuff_repbased_leader.Access.{get_block}
use hotstuff_repbased_leader.HighQc.{update_high_qc}
use hotstuff_repbased_leader.HighQc.Raises.{Raised, update_high_qc_lem}
use hotstuff_repbased_leader.Rules.{
  chained_vote_rule, chained_commit_rule, fast_commit_rule, simple_commit_rule, qc_ref,
  chained_decide, simple_decide,
}
use hotstuff_repbased_leader.Rules.Chains.{
  ThreeChain, chained_commit_rule_sound, fast_commit_rule_sound, simple_commit_rule_sound,
}
use hotstuff_repbased_leader.Rules.VoteRules.{chained_vote_rule_sound}
use hotstuff_repbased_leader.Consensus.{commit_inner}
use hotstuff_repbased_leader.Consensus.Commits.{done, commit_inner_lem}
use hotstuff_repbased_leader.Node.{new_replica}
use hotstuff_repbased_leader.Tests.Setup.{
  digest, env, certify, b1, b2, b3, b4, chain, proposal_of, child, root,
}

-- A replica that has three blocks.
abbrev three_blocks : Replica
three_blocks = record (new_replica env 1) { chain = chain }

abbrev get-IsConsistent_chain : Chain
get-IsConsistent_chain = (BlockChain.get digest (λ h. network_error) 99 (BlockChain.new digest)).0

get-IsConsistent_example : IsConsistent get-IsConsistent_chain
get-IsConsistent_example =
    get-IsConsistent digest (λ h. network_error) 99 (BlockChain.new digest) (λ e. ground arith)
      (new-IsConsistent digest)

extends-Branch_example :
    BlockChain.extends digest env.fetch 50 b3 b1 chain ≡ (chain, b1.hash == b1.hash)
unfolding new_block genesis BlockChain.store lookup insert BlockChain.new
extends-Branch_example =
    extends-Branch digest env.fetch 50 b3 b1 b1 chain
      (down (omega arith) refl (omega arith)
        (down (omega arith) refl (omega arith) (reached (omega arith))))
      (omega arith)

commit_inner_lem_example :
    let r' = commit_inner env 50 b2 three_blocks in
    (r'.trace ≡ map exec (b2 ∷ b1 ∷ []) ++ []) × (r'.b_exec ≡ b2) × (r'.chain ≡ chain)
unfolding new_block genesis BlockChain.store lookup insert BlockChain.new new_replica
commit_inner_lem_example =
    commit_inner_lem env 50 b2 (b2 ∷ b1 ∷ []) three_blocks
      (Commits.more (omega arith) refl (Commits.more (omega arith) refl (done (omega arith))))
      (omega arith)

-- A committed block whose parent is the block of view 2, so that the block of view 3 is forked.
abbrev over_fork : Block
over_fork = child b2 4

abbrev forked_chain : Chain
forked_chain = BlockChain.store over_fork chain

reports_fork : (prune_to_height 50 4 4 forked_chain).1 ≡ b3 ∷ []
unfolding prune_to_height prune_heights committed_views forked_at lookup insert delete
    BlockChain.store BlockChain.new genesis new_block
reports_fork = refl

prune_to_height_lem_example :
    let (chain', forked) = prune_to_height 50 4 4 forked_chain in
    ((h : ℕ)
      → lookup h chain'.block_at_height
        ≡ (if in_range 4 forked_chain h then none else lookup h forked_chain.block_at_height))
    × (chain'.blocks ≡ forked_chain.blocks)
    × (chain'.prune_height ≡ 4)
    × All
        (λ f.
          (h : ℕ) × (in_range 4 forked_chain h ≡ true)
          × (elem h (4 ∷ 2 ∷ 1 ∷ 0 ∷ []) ≡ false)
          × (lookup h forked_chain.block_at_height ≡ some f))
        forked
    × ((h : ℕ)
        → All
            (λ f. In f forked)
            (if in_range 4 forked_chain h && not (elem h (4 ∷ 2 ∷ 1 ∷ 0 ∷ []))
              then found (lookup h forked_chain.block_at_height)
              else []))
unfolding new_block genesis BlockChain.store lookup insert BlockChain.new
prune_to_height_lem_example =
    prune_to_height_lem 50 4 forked_chain over_fork (b2 ∷ b1 ∷ root ∷ []) refl (omega arith)
      (more refl (omega arith) refl
        (more refl (omega arith) refl (more refl (omega arith) refl (missing refl))))
      (omega arith)

update_high_qc_lem_example :
    ((update_high_qc env (certify b2) three_blocks).high_qc ≡ three_blocks.high_qc)
      × ((update_high_qc env (certify b2) three_blocks).leaf_block ≡ three_blocks.leaf_block)
    ⊎ Raised env (certify b2) three_blocks (update_high_qc env (certify b2) three_blocks)
update_high_qc_lem_example = update_high_qc_lem env (certify b2) three_blocks

chained_vote_rule_sound_example :
    let after = (chained_vote_rule env (proposal_of b4) three_blocks).0.chain in
    ((qc_block : Block) × (block_at b4.cert.hash after ≡ some qc_block)
      × (three_blocks.locked.view < qc_block.view))
    ⊎ ((a : Block) × Descends after b4 a × (a.hash ≡ three_blocks.locked.hash))
unfolding new_block genesis BlockChain.store lookup insert BlockChain.new new_replica BlockChain.get
    get_block chained_vote_rule
chained_vote_rule_sound_example = chained_vote_rule_sound env (proposal_of b4) three_blocks refl

chained_commit_rule_sound_example :
    (block1 : Block) × (block2 : Block) × ThreeChain env
      (chained_commit_rule env b4 three_blocks).0
      b4
      block1
      block2
      b1
unfolding new_block genesis BlockChain.store lookup insert BlockChain.new new_replica BlockChain.get
    get_block chained_commit_rule qc_ref update_high_qc verify_quorum_cert
    verify_threshold_signature chained_decide
chained_commit_rule_sound_example = chained_commit_rule_sound env b4 three_blocks refl

fast_commit_rule_sound_example :
    let after = (fast_commit_rule env b4 three_blocks).0.chain in
    (parent : Block) × (block_at b4.cert.hash after ≡ some parent)
    × (block_at parent.cert.hash after ≡ some b2)
    × (b4.parent ≡ parent.hash)
    × (parent.parent ≡ b2.hash)
    × (b4.view ≡ next_view parent.view)
    × (parent.view ≡ next_view b2.view)
unfolding new_block genesis BlockChain.store lookup insert BlockChain.new new_replica BlockChain.get
    get_block fast_commit_rule qc_ref
fast_commit_rule_sound_example = fast_commit_rule_sound env b4 three_blocks refl

simple_commit_rule_sound_example :
    let after = (simple_commit_rule env b4 three_blocks).0.chain in
    (p : Block) × (gp : Block) × (block_at b4.cert.hash after ≡ some p)
    × (block_at p.cert.hash after ≡ some gp)
    × (block_at gp.cert.hash after ≡ some b1)
    × ((b1.view + 2) % 18446744073709551616 ≡ p.view)
unfolding new_block genesis BlockChain.store lookup insert BlockChain.new new_replica BlockChain.get
    get_block simple_commit_rule simple_decide
simple_commit_rule_sound_example = simple_commit_rule_sound env b4 three_blocks refl

-- The leaf is the second block.
abbrev second_leaf : Replica
second_leaf = record three_blocks { leaf_block = b2 }

chain-IsConsistent : IsConsistent chain
chain-IsConsistent =
    store-IsConsistent b3 (BlockChain.store b2 (BlockChain.store b1 (BlockChain.new digest))) (
      store-IsConsistent b2 (BlockChain.store b1 (BlockChain.new digest))
        (store-IsConsistent b1 (BlockChain.new digest) (new-IsConsistent digest)))
