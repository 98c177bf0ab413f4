-- ===== src/HighQc/Raises.antt =====
-- When UpdateHighQC (synchronizer/synchronizer.go) replaces the highest certificate.
use hotstuff_repbased_leader.Prelude.{
  ◌≡◌, ◌<◌, true, some, arith, ltb, Bool-cases, Option-cases, inl, inr, ◌⊎◌,
}
use hotstuff_repbased_leader.Types.{QuorumCert, Block}
use hotstuff_repbased_leader.Crypto.Base.{verify_quorum_cert}
use hotstuff_repbased_leader.BlockChain.Lookups.{block_at}
use hotstuff_repbased_leader.State.{Replica, Env}
use hotstuff_repbased_leader.Access.{get_block}
use hotstuff_repbased_leader.HighQc.{raise_high_qc, compare_high_qc, update_high_qc}
use hotstuff_repbased_leader.Rules.Chains.{get_block-found, get_block-keeps}

module _ (env : Env) where
  -- What replacing the certificate asks for.
  pub record Raised (qc : QuorumCert) (r r' : Replica) : Type 0 where
    pub verified : verify_quorum_cert env.sha256 env.impl qc ≡ true
    pub replaced : r'.high_qc ≡ qc
    pub new_block : Block
    pub old_block : Block
    pub leaf : r'.leaf_block ≡ new_block
    pub found_new : block_at qc.hash r'.chain ≡ some new_block
    pub found_old : block_at r.high_qc.hash r'.chain ≡ some old_block
    pub higher : old_block.view < new_block.view

  -- UpdateHighQC either leaves the highest certificate and the leaf block as they are, or it makes the
  -- given certificate the highest: then the certificate verifies, both its block and the block of the
  -- old one are in the chain afterwards, the new block has the higher view, and it becomes the leaf.
  pub update_high_qc_lem :
      (qc : QuorumCert) (r : Replica)
      → ((update_high_qc env qc r).high_qc ≡ r.high_qc)
          × ((update_high_qc env qc r).leaf_block ≡ r.leaf_block)
        ⊎ Raised qc r (update_high_qc env qc r)
  unfolding update_high_qc compare_high_qc raise_high_qc
  update_high_qc_lem qc r = elim (Bool-cases (verify_quorum_cert env.sha256 env.impl qc)) [
    | inr refused ↦ inl (ground arith)
    | inl verified ↦
        let s = (get_block env qc.hash r).0 in
        elim (Option-cases (get_block env qc.hash r).1) [
          | inl missing ↦ inl (ground arith)
          | inr (new_block, new_found) ↦ elim (Option-cases (get_block env r.high_qc.hash s).1) [
            | inl missing ↦ inl (ground arith)
            | inr (old_block, old_found) ↦ elim (Bool-cases (ltb old_block.view new_block.view)) [
              | inr low ↦ inl (ground arith)
              | inl high ↦
                  let at_new =
                    get_block-keeps env r.high_qc.hash qc.hash s
                      (get_block-found env qc.hash r new_found) in
                  inr (record {
                    verified = verified;
                    replaced = ground arith;
                    new_block = new_block;
                    old_block = old_block;
                    leaf = ground arith;
                    found_new = ground (arith, at_new);
                    found_old = ground (arith, get_block-found env r.high_qc.hash s old_found);
                    higher = ground arith;
                  })
            ]
          ]
        ]
  ]
