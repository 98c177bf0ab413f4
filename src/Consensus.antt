-- ===== src/Consensus.antt =====
-- consensus/consensus.go: proposing, voting and committing. A handler's last call into another
-- handler (the self vote, the deferred AdvanceView) is returned as a `Call`, which `Synchronizer`
-- runs.
pub mod Frame
pub mod Votes
pub mod Commits
pub mod Forks
pub mod Stored
pub mod Gaps
use hotstuff_repbased_leader.Prelude.{
  ℕ, zero, suc, true, false, Option, none, some, List, [], ◌∷◌, ltb, leb, ◌==◌, if◌then◌else◌, elem,
}
use hotstuff_repbased_leader.Types.{
  PartialCert, QuorumCert, SyncInfo, Block, ProposeMsg, zero_qc, equals, new_block, new_sync_info,
  with_qc,
}
use hotstuff_repbased_leader.Crypto.Base.{
  AggregateCheck, valid, invalid, nil_dereference, verify_aggregate_qc, verify_quorum_cert,
  create_partial_cert,
}
use hotstuff_repbased_leader.BlockChain.{prune_to_height}
use hotstuff_repbased_leader.CmdCache.{get_batch, accept, proposed}
use hotstuff_repbased_leader.State.{
  net_propose, send_vote, add_vote, exec, fork, signed, panic, Replica, Proposer, honest, silence,
  forking, Env, uses_agg_qc,
}
use hotstuff_repbased_leader.Access.{emit, get_block, store_block}
use hotstuff_repbased_leader.Rules.{vote_rule, commit_rule, proposal_agg_qc, fork_propose_rule}

-- What a handler calls as its last act.
pub data Call : Type 0 where
  idle : Call
  propose_call : SyncInfo → Call
  on_propose_call : ProposeMsg → Call
  advance_view_call : SyncInfo → Call

unfoldable pub stop_voting : ℕ → Replica → Replica
stop_voting view r = if ltb r.last_vote view then record r { last_vote = view } else r

-- `Executor().Exec(block)` and the new `bExec`.
unfoldable pub execute : Block → Replica → Replica
unfolding emit
execute block r = emit (exec block) (record r { b_exec = block })

-- `cert.QC()`: the zero value where there is none.
abbrev pub qc_or_zero : Option QuorumCert → QuorumCert
qc_or_zero none = zero_qc
qc_or_zero (some qc) = qc

module _ (env : Env) where
  unfoldable pub commit_inner : ℕ → Block → Replica → Replica
  unfolding execute get_block
  commit_inner zero block r = r
  commit_inner (suc fuel) block r = elim (ltb r.b_exec.view block.view) [
    | false ↦ r
    | true ↦
        let (r', parent) = get_block env block.parent r in
        execute block (elim parent [ none ↦ r' | some p ↦ commit_inner fuel p r' ])
  ]

  unfoldable pub fork_all : List Block → Replica → Replica
  unfolding emit
  fork_all [] r = r
  fork_all (block ∷ blocks) r = fork_all blocks (emit (fork block) r)

  unfoldable pub prune : ℕ → Replica → Replica
  unfolding fork_all prune_to_height
  prune height r =
      let (chain, forked) = prune_to_height env.fuel r.b_exec.view height r.chain in
      fork_all forked (record r { chain = chain })

  unfoldable pub commit : Block → Replica → Replica
  unfolding commit_inner prune
  commit block r = prune block.view (commit_inner env.fuel block r)

  -- The first deferred function of `OnPropose`.
  unfoldable pub try_commit : Block → Replica → Replica
  unfolding commit commit_rule
  try_commit block r =
      let (r', decided) = commit_rule env block r in
      elim decided [ none ↦ r' | some b ↦ commit b r' ]

  unfoldable pub send_to_leader : PartialCert → ℕ → Replica → Replica
  unfolding emit
  send_to_leader pc leader r =
      if leader == env.id
      then emit (add_vote (record { id = env.id; partial_cert = pc; deferred = false })) r
      else if elem leader env.replicas
      then emit (send_vote leader pc) r
      else r

  -- `OnPropose` from the test on `lastVote` on.
  unfoldable pub cast_vote : Block → Replica → Replica
  unfolding send_to_leader create_partial_cert emit
  cast_vote block r =
      if leb block.view r.last_vote
      then r
      else elim (create_partial_cert env.sha256 env.impl block) [
        | none ↦ r
        | some pc ↦
            (let voted = record (emit (signed block) r) { last_vote = block.view } in
              send_to_leader pc (env.get_leader voted block.view) voted)
      ]

  unfoldable pub note_proposed : Option Block → Replica → Replica
  unfolding proposed
  note_proposed none r = r
  note_proposed (some b) r = record r { commands = proposed env.unmarshal b.cmd r.commands }

  -- `OnPropose` from the call of `Accept` on.
  unfoldable pub accept_block : Block → Replica → Replica
  unfolding accept store_block cast_vote try_commit
  accept_block block r =
      if accept env.unmarshal block.cmd r.commands
      then try_commit block (cast_vote block (store_block block r))
      else r

  -- `OnPropose` from the test of the proposer on.
  unfoldable pub handle_proposal : ProposeMsg → Replica → Replica
  unfolding vote_rule get_block note_proposed accept_block
  handle_proposal msg r =
      if msg.id == env.get_leader r msg.block.view
      then (let (r1, safe) = vote_rule env msg r in
          elim safe [
            | false ↦ r1
            | true ↦
                let (r2, qc_block) = get_block env msg.block.cert.hash r1 in
                accept_block msg.block (note_proposed qc_block r2)
          ])
      else r

  -- The test of the AggregateQC at the head of `OnPropose`, and of the QC.
  unfoldable pub check_agg : ProposeMsg → AggregateCheck
  unfolding verify_aggregate_qc equals
  check_agg msg = elim msg.aggregate_qc [
    | none ↦ valid msg.block.cert
    | some agg ↦
        if uses_agg_qc env.protocol
        then elim (verify_aggregate_qc env.sha256 env.impl agg) [
          | nil_dereference ↦ nil_dereference
          | invalid ↦ invalid
          | valid high_qc ↦ if equals msg.block.cert high_qc then valid high_qc else invalid
        ]
        else valid msg.block.cert
  ]

  unfoldable pub on_propose : ProposeMsg → Replica → Replica × Call
  unfolding check_agg verify_quorum_cert handle_proposal emit with_qc new_sync_info
  on_propose msg r = elim (check_agg msg) [
    | nil_dereference ↦ (emit panic r, idle)
    | invalid ↦ (r, idle)
    | valid _ ↦
        if verify_quorum_cert env.sha256 env.impl msg.block.cert
        then (handle_proposal msg r, advance_view_call (with_qc new_sync_info msg.block.cert))
        else (r, idle)
  ]

  -- The block of a proposal, and the state after the look-ups that it takes. `none` is ok = false.
  unfoldable pub proposed_block : Proposer → SyncInfo → List ℕ → Replica → Replica × Option Block
  unfolding new_block
  proposed_block honest cert cmd r = (
    r,
    some (new_block env.sha256 r.leaf_block.hash (qc_or_zero cert.qc) cmd r.current_view env.id),
  )
  proposed_block silence cert cmd r = (r, none)
  proposed_block forking cert cmd r =
      let (r', found) = fork_propose_rule env cert r.leaf_block.parent r in
      elim found [
        | none ↦ (r', none)
        | some grandparent ↦ (
          r',
          some (new_block env.sha256 grandparent.hash grandparent.cert cmd r'.current_view env.id),
        )
      ]

  -- `Propose` once the command is there.
  unfoldable pub propose_command : SyncInfo → List ℕ → Replica → Replica × Call
  unfolding proposed_block proposal_agg_qc store_block emit
  propose_command cert cmd r =
      let (r', made) = proposed_block env.proposer cert cmd r in
      elim made [
        | none ↦ (r', idle)
        | some block ↦
            let msg : ProposeMsg = record {
              id = env.id;
              block = block;
              aggregate_qc = proposal_agg_qc env cert;
            } in
            (emit (net_propose msg) (store_block block r'), on_propose_call msg)
      ]

  -- `Propose` from the command queue on.
  unfoldable pub propose_next : SyncInfo → Replica → Replica × Call
  unfolding get_batch propose_command
  propose_next cert r =
      let (commands, cmd) = get_batch env.marshal (env.wakes r) r.commands in
      let r' = record r { commands = commands } in
      elim cmd [ none ↦ (r', idle) | some c ↦ propose_command cert c r' ]

  unfoldable pub propose : SyncInfo → Replica → Replica × Call
  unfolding get_block note_proposed propose_next
  propose cert r = elim cert.qc [
    | none ↦ propose_next cert r
    | some qc ↦
        let (r', found) = get_block env qc.hash r in
        elim found [
          | none ↦ (r', idle)
          | some qc_block ↦ propose_next cert (note_proposed (some qc_block) r')
        ]
  ]
