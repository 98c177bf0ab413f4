-- ===== src/Rules.antt =====
-- The voting and commit rules: consensus/chainedhotstuff, consensus/fasthotstuff,
-- consensus/simplehotstuff, and the proposals of consensus/byzantine. A replica runs one protocol
-- and perhaps one byzantine wrapper, and `vote_rule`, `commit_rule` stand for the calls through the
-- interface `Rules`.
pub mod Chains
pub mod VoteRules
use hotstuff_repbased_leader.Prelude.{
  ℕ, ◌+◌, ◌%◌, Bool, true, false, not, ◌&&◌, Option, none, some, ltb, leb, ◌==◌, if◌then◌else◌,
}
use hotstuff_repbased_leader.Types.{QuorumCert, SyncInfo, AggregateQc, Block, ProposeMsg, next_view}
use hotstuff_repbased_leader.State.{
  Replica, Protocol, chained_hotstuff, fast_hotstuff, simple_hotstuff, Env, uses_agg_qc,
}
use hotstuff_repbased_leader.Access.{get_block, extends_block}
use hotstuff_repbased_leader.HighQc.{update_high_qc}

unfoldable pub lock_higher : Block → Replica → Replica
lock_higher block r = if ltb r.locked.view block.view then record r { locked = block } else r

unfoldable pub three_chain : Block → Block → Block → Option Block
three_chain block1 block2 block3 =
    if block1.parent == block2.hash && block2.parent == block3.hash then some block3 else none

abbrev pub above : ℕ → Option Block → Bool
above view none = false
above view (some block) = ltb view block.view

unfoldable pub two_chain : Block → Block → Block → Option Block
two_chain block parent grandparent =
    if block.parent == parent.hash
      && (block.view == next_view parent.view
          && (parent.parent == grandparent.hash && parent.view == next_view grandparent.view))
    then some grandparent
    else none

module _ (env : Env) where
  -- `qcRef`: the zero hash is no reference.
  unfoldable pub qc_ref : QuorumCert → Replica → Replica × Option Block
  unfolding get_block
  qc_ref qc r = if qc.hash == 0 then (r, none) else get_block env qc.hash r

  -- ChainedHotStuff

  unfoldable pub chained_decide : Block → Block → Replica → Replica × Option Block
  unfolding three_chain lock_higher
  chained_decide block1 block2 r =
      let (r', found) = qc_ref block2.cert (lock_higher block2 r) in
      elim found [ none ↦ (r', none) | some block3 ↦ (r', three_chain block1 block2 block3) ]

  unfoldable pub chained_commit_rule : Block → Replica → Replica × Option Block
  chained_commit_rule block r =
      let (r1, found1) = qc_ref block.cert (update_high_qc env block.cert r) in
      elim found1 [
        | none ↦ (r1, none)
        | some block1 ↦
            let (r2, found2) = qc_ref block1.cert r1 in
            elim found2 [ none ↦ (r2, none) | some block2 ↦ chained_decide block1 block2 r2 ]
      ]

  unfoldable pub chained_vote_rule : ProposeMsg → Replica → Replica × Bool
  chained_vote_rule proposal r =
      let (r', qc_block) = get_block env proposal.block.cert.hash r in
      elim (above r'.locked.view qc_block) [
        | true ↦ (r', true)
        | false ↦ extends_block env proposal.block r'.locked r'
      ]

  -- FastHotStuff

  unfoldable pub fast_commit_rule : Block → Replica → Replica × Option Block
  unfolding two_chain
  fast_commit_rule block r =
      let (r1, found1) = qc_ref block.cert r in
      elim found1 [
        | none ↦ (r1, none)
        | some parent ↦
            let (r2, found2) = qc_ref parent.cert r1 in
            elim found2 [
              | none ↦ (r2, none)
              | some grandparent ↦ (r2, two_chain block parent grandparent)
            ]
      ]

  unfoldable pub fast_vote_rule : ProposeMsg → Replica → Replica × Bool
  fast_vote_rule proposal r = elim proposal.aggregate_qc [
    | some _ ↦
        let (r', found) = get_block env proposal.block.cert.hash r in
        elim found [
          | none ↦ (r', false)
          | some hqc_block ↦ extends_block env proposal.block hqc_block r'
        ]
    | none ↦ (
      r,
      leb r.current_view proposal.block.view
          && proposal.block.view == next_view proposal.block.cert.view,
    )
  ]

  -- SimpleHotStuff

  unfoldable pub simple_vote_rule : ProposeMsg → Replica → Replica × Bool
  simple_vote_rule proposal r = elim (ltb proposal.block.view r.current_view) [
    | true ↦ (r, false)
    | false ↦
        let (r', found) = get_block env proposal.block.cert.hash r in
        elim found [ none ↦ (r', false) | some parent ↦ (r', not (ltb parent.view r'.locked.view)) ]
  ]

  unfoldable pub simple_decide : Block → Block → Replica → Replica × Option Block
  unfolding lock_higher
  simple_decide p gp r =
      let (r', found) = get_block env gp.cert.hash (lock_higher gp r) in
      elim found [
        | none ↦ (r', none)
        | some ggp ↦
            (r', if (ggp.view + 2) % 18446744073709551616 == p.view then some ggp else none)
      ]

  unfoldable pub simple_commit_rule : Block → Replica → Replica × Option Block
  simple_commit_rule block r =
      let (r1, found1) = get_block env block.cert.hash r in
      elim found1 [
        | none ↦ (r1, none)
        | some p ↦
            let (r2, found2) = get_block env p.cert.hash r1 in
            elim found2 [ none ↦ (r2, none) | some gp ↦ simple_decide p gp r2 ]
      ]

  -- The interface.

  unfoldable pub vote_of : Protocol → ProposeMsg → Replica → Replica × Bool
  vote_of chained_hotstuff = chained_vote_rule
  vote_of fast_hotstuff = fast_vote_rule
  vote_of simple_hotstuff = simple_vote_rule

  unfoldable pub commit_of : Protocol → Block → Replica → Replica × Option Block
  commit_of chained_hotstuff = chained_commit_rule
  commit_of fast_hotstuff = fast_commit_rule
  commit_of simple_hotstuff = simple_commit_rule

  unfoldable pub vote_rule : ProposeMsg → Replica → Replica × Bool
  unfolding vote_of
  vote_rule = vote_of env.protocol

  unfoldable pub commit_rule : Block → Replica → Replica × Option Block
  unfolding commit_of
  commit_rule = commit_of env.protocol

  -- The AggregateQC of the certificate, where the protocol uses one.
  unfoldable pub proposal_agg_qc : SyncInfo → Option AggregateQc
  proposal_agg_qc cert = if uses_agg_qc env.protocol then cert.agg_qc else none

  -- `fork.ProposeRule`: the second look-up is for the parent's own hash.
  unfoldable pub fork_propose_rule : SyncInfo → ℕ → Replica → Replica × Option Block
  fork_propose_rule cert leaf_parent r =
      let (r1, found1) = get_block env leaf_parent r in
      elim found1 [ none ↦ (r1, none) | some parent ↦ get_block env parent.hash r1 ]
