-- ===== src/VotingMachine.antt =====
-- consensus/votingmachine.go: votes become a quorum certificate. The goroutine that `OnVote` starts
-- is an effect, and its body is `verify_cert`.
pub mod Quorums
use hotstuff_repbased_leader.Prelude.{
  ℕ, Bool, true, false, Option, none, some, List, [], ◌∷◌, ◌++◌, ltb, leb, if◌then◌else◌, length,
  lookup, insert, delete, keep,
}
use hotstuff_repbased_leader.Types.{PartialCert, Block, VoteMsg, new_sync_info, with_qc}
use hotstuff_repbased_leader.Sizes.{quorum_size}
use hotstuff_repbased_leader.Crypto.Base.{verify_partial_cert, create_quorum_cert}
use hotstuff_repbased_leader.BlockChain.{local_get}
use hotstuff_repbased_leader.State.{delay_until_propose, go_verify_cert, add_new_view, Replica, Env}
use hotstuff_repbased_leader.Access.{emit, get_block}

-- `OnVote` once the block is there.
unfoldable pub vote_for : PartialCert → Block → Replica → Replica
unfolding emit
vote_for cert block r =
    if leb block.view r.leaf_block.view then r else emit (go_verify_cert cert block) r

unfoldable pub on_vote : Env → VoteMsg → Replica → Replica
unfolding local_get get_block vote_for emit
on_vote env vote r = elim vote.deferred [
  | false ↦ elim (local_get vote.partial_cert.block_hash r.chain) [
    | none ↦ emit (delay_until_propose (record vote { deferred = true })) r
    | some block ↦ vote_for vote.partial_cert block r
  ]
  | true ↦
      let (r', found) = get_block env vote.partial_cert.block_hash r in
      elim found [ none ↦ r' | some block ↦ vote_for vote.partial_cert block r' ]
]

abbrev pub votes_or_empty : Option (List PartialCert) → List PartialCert
votes_or_empty none = []
votes_or_empty (some votes) = votes

abbrev newer : ℕ → Option Block → Bool
newer leaf none = false
newer leaf (some block) = ltb leaf block.view

-- The deferred clean-up: votes for blocks that are unknown or not above the leaf are dropped.
unfoldable pub drop_old_votes : Replica → Replica
unfolding local_get
drop_old_votes r = record r {
  verified_votes = keep (λ h _. newer r.leaf_block.view (local_get h r.chain)) r.verified_votes;
}

unfoldable pub add_cert : Env → PartialCert → Block → Replica → Replica
unfolding quorum_size create_quorum_cert emit new_sync_info with_qc
add_cert env cert block r =
    let votes = votes_or_empty (lookup cert.block_hash r.verified_votes) ++ cert ∷ [] in
    let r' = record r { verified_votes = insert cert.block_hash votes r.verified_votes } in
    if ltb (length votes) (quorum_size (length env.replicas))
    then r'
    else elim (create_quorum_cert env.sha256 env.impl block votes) [
      | none ↦ r'
      | some qc ↦
          emit (add_new_view (record { id = env.id; sync_info = with_qc new_sync_info qc }))
            (record r' { verified_votes = delete cert.block_hash r'.verified_votes })
    ]

unfoldable pub verify_cert : Env → PartialCert → Block → Replica → Replica
unfolding add_cert drop_old_votes verify_partial_cert
verify_cert env cert block r =
    if verify_partial_cert env.sha256 env.impl cert
    then drop_old_votes (add_cert env cert block r)
    else r
