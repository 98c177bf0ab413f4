-- ===== src/Rules/VoteRules.antt =====
-- What the voting rules of the three protocols demand of a proposal.
use hotstuff_repbased_leader.Prelude.{
  ℕ, ◌≡◌, ◌≤◌, ◌<◌, ◌⊎◌, ◌↔◌, refl, true, none, some, arith, Option-cases, Bool-cases, inl, inr,
}
use hotstuff_repbased_leader.Types.{Block, ProposeMsg, next_view}
use hotstuff_repbased_leader.BlockChain.Lookups.{block_at}
use hotstuff_repbased_leader.BlockChain.Walks.{Descends, extends_sound}
use hotstuff_repbased_leader.State.{Replica, Env}
use hotstuff_repbased_leader.Access.{get_block, extends_block}
use hotstuff_repbased_leader.Rules.{above, chained_vote_rule, fast_vote_rule, simple_vote_rule}
use hotstuff_repbased_leader.Rules.Chains.{get_block-found}

module _ (env : Env) where
  extends_block_sound :
      (block target : Block) (r : Replica)
      → (extends_block env block target r).1 ≡ true
      → (a : Block) × Descends (extends_block env block target r).0.chain block a
        × (a.hash ≡ target.hash)
        × (a.view ≤ target.view)
  unfolding extends_block
  extends_block_sound block target r h =
      extends_sound env.sha256 env.fetch env.fuel block target r.chain h

  locked_same : (h : ℕ) (r : Replica) → (get_block env h r).0.locked ≡ r.locked
  unfolding get_block
  locked_same h r = refl

  -- ChainedHotStuff votes for a block only if its certificate is for a block above the locked one,
  -- or if the parents of the block lead, in the chain as it is afterwards, to a block with the
  -- locked block's hash.
  pub chained_vote_rule_sound :
      (msg : ProposeMsg) (r : Replica)
      → (chained_vote_rule env msg r).1 ≡ true
      → let chain = (chained_vote_rule env msg r).0.chain in
        ((qc_block : Block) × (block_at msg.block.cert.hash chain ≡ some qc_block)
          × (r.locked.view < qc_block.view))
        ⊎ ((a : Block) × Descends chain msg.block a × (a.hash ≡ r.locked.hash))
  unfolding chained_vote_rule
  chained_vote_rule_sound msg r h =
      let r' = (get_block env msg.block.cert.hash r).0 in
      elim (Bool-cases (above r'.locked.view (get_block env msg.block.cert.hash r).1)) [
        | inl higher ↦ elim (Option-cases (get_block env msg.block.cert.hash r).1) [
          | inl missing ↦ ground arith
          | inr (qc_block, found) ↦
              let stored = get_block-found env msg.block.cert.hash r found in
              let lock = locked_same msg.block.cert.hash r in
              inl (qc_block, ground arith, ground (arith, lock))
        ]
        | inr not_higher ↦
            let e : chained_vote_rule env msg r ≡ extends_block env msg.block r'.locked r' =
              rw (not_higher, chained_vote_rule) in
            let (a, down, same, le) = extends_block_sound msg.block r'.locked r' (rw e at h) in
            inr (a, rw e down, rw (locked_same msg.block.cert.hash r) at same)
      ]

  -- FastHotStuff votes for a proposal without an AggregateQC exactly if its view is not below the
  -- replica's, and is the view after that of the certificate in the block.
  pub fast_vote_rule_iff :
      (msg : ProposeMsg) (r : Replica)
      → msg.aggregate_qc ≡ none
      → ((fast_vote_rule env msg r).1 ≡ true)
        ↔ ((r.current_view ≤ msg.block.view) × (msg.block.view ≡ next_view msg.block.cert.view))
  unfolding fast_vote_rule
  fast_vote_rule_iff msg r plain = (λ h. ground arith, λ h. ground arith)

  -- SimpleHotStuff votes for a block exactly if its view is not below the replica's, and its
  -- certificate is for a block that is found and that is not below the locked one.
  pub simple_vote_rule_iff :
      (msg : ProposeMsg) (r : Replica)
      → ((simple_vote_rule env msg r).1 ≡ true) ↔ (
          (r.current_view ≤ msg.block.view)
          × ((parent : Block) × ((get_block env msg.block.cert.hash r).1 ≡ some parent)
              × (r.locked.view ≤ parent.view)))
  unfolding simple_vote_rule get_block
  simple_vote_rule_iff msg r =
      let found = (get_block env msg.block.cert.hash r).1 in
      elim (Option-cases found) [
        | inl missing ↦ (λ h. ground arith, λ h. ground arith)
        | inr (parent, there) ↦
            (λ h. (ground arith, (parent, there, ground arith)), λ h. ground arith)
      ]

  -- ChainedHotStuff votes for a block whose certificate is for a block above the locked one whatever
  -- the parent that the block names: the same block with any other parent, under whatever hash, gets
  -- the same vote and leaves the replica in the same state.
  pub chained_vote_rule-any_parent :
      (msg : ProposeMsg) (r : Replica) (parent hash : ℕ) {qc_block : Block}
      → (get_block env msg.block.cert.hash r).1 ≡ some qc_block
      → r.locked.view < qc_block.view
      → let other = record msg.block { parent = parent; hash = hash } in
        (chained_vote_rule env (record msg { block = other }) r
          ≡ ((get_block env msg.block.cert.hash r).0, true))
        × (chained_vote_rule env msg r ≡ ((get_block env msg.block.cert.hash r).0, true))
  unfolding chained_vote_rule
  chained_vote_rule-any_parent msg r parent hash found higher =
      let lock = locked_same msg.block.cert.hash r in (ground arith, ground arith)
