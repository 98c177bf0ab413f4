-- ===== src/Tests/Handlers.antt =====
-- The handlers of a replica, and runs of it.
use hotstuff_repbased_leader.Prelude.{
  ℕ, Bool, true, false, ◌≡◌, ◌≤◌, refl, none, some, [], ◌∷◌, insert, lookup, arith,
}
use hotstuff_repbased_leader.Types.{
  QuorumCert, PartialCert, ecdsa, new_sync_info, with_qc, new_block,
}
use hotstuff_repbased_leader.Crypto.Base.{verify_partial_cert}
use hotstuff_repbased_leader.BlockChain.{get, new, extends}
use hotstuff_repbased_leader.CmdCache.{raise_serials, new_cmd_cache}
use hotstuff_repbased_leader.Access.{extends_block}
use hotstuff_repbased_leader.Rules.{chained_vote_rule, chained_commit_rule, qc_ref}
use hotstuff_repbased_leader.State.{Replica}
use hotstuff_repbased_leader.Consensus.{
  propose, Call, advance_view_call, on_propose, on_propose_call, idle,
}
use hotstuff_repbased_leader.Consensus.Frame.{signed_views}
use hotstuff_repbased_leader.Consensus.Votes.{SignsOncePerView}
use hotstuff_repbased_leader.Synchronizer.{handle, run, run_all, call_bound, advance_view}
use hotstuff_repbased_leader.Synchronizer.Settles.{run-ends}
use hotstuff_repbased_leader.Synchronizer.Certified.{Enters, advance_view_lem, genesis_qc_advances}
use hotstuff_repbased_leader.Timeouts.{start, on_local_timeout}
use hotstuff_repbased_leader.VotingMachine.{verify_cert}
use hotstuff_repbased_leader.VotingMachine.Quorums.{
  IsVerified, insert-IsVerified, Announces, verify_cert_sound,
}
use hotstuff_repbased_leader.Node.{
  new_replica, Reach, here, next, began, proposal, local_timeout, Reach-SignsOncePerView,
  Reach-lock_le,
}
use hotstuff_repbased_leader.Tests.Setup.{
  command, env, root, certify, signed_by, b1, b2, proposal_of,
}

abbrev start_state : Replica
start_state = new_replica env 1

abbrev started : Replica
started = start env start_state

abbrev voted : Replica
voted = run_all env (on_propose_call (proposal_of b1)) started

abbrev timed_out : Replica
timed_out = on_local_timeout env voted

abbrev run_to_timeout : Reach start_state timed_out
run_to_timeout =
    next (next (next here (began env)) (proposal env (proposal_of b1))) (local_timeout env)

-- The proposal of the first view is signed once, and its genesis certificate leaves the view as it is.
voted_once : (signed_views voted.trace ≡ 1 ∷ []) × (voted.last_vote ≡ 1) × (voted.current_view ≡ 1)
unfolding new_replica start run_all run handle on_propose advance_view get lookup chained_vote_rule
    new insert extends_block extends raise_serials new_cmd_cache chained_commit_rule qc_ref
voted_once = (refl, refl, refl)

Reach-SignsOncePerView_example : SignsOncePerView timed_out
Reach-SignsOncePerView_example = Reach-SignsOncePerView env 1 timed_out run_to_timeout

Reach-lock_le_example :
    (start_state.locked.view ≤ timed_out.locked.view)
    × (start_state.last_vote ≤ timed_out.last_vote)
Reach-lock_le_example = Reach-lock_le start_state timed_out run_to_timeout

run-ends_example : (run env call_bound (on_propose_call (proposal_of b2)) voted).1 ≡ idle
unfolding new_block
run-ends_example =
    run-ends env (on_propose_call (proposal_of b2)) voted (λ e. ground arith) (omega arith)

-- A leader with many commands.
abbrev busy : Replica
busy = record start_state {
  commands = record {
    batch_size = 1;
    serial_numbers = [];
    cache =
        command 1
        ∷ command 2
        ∷ command 3
        ∷ command 4
        ∷ command 5
        ∷ command 6
        ∷ command 7
        ∷ command 8
        ∷ [];
  };
}

abbrev is_idle : Call → Bool
is_idle idle = true
is_idle _ = false

abbrev last_view : QuorumCert
last_view = record { signature = none; view = 18446744073709551615; hash = root.hash }

-- After the unsigned certificate of the last view the next view is 0, so AdvanceView enters it again
-- and again, and proposes each time: after seven calls one is still to be made.
never_settles :
    is_idle
      (run
        (record env { id = 2 })
        call_bound
        (advance_view_call (with_qc new_sync_info last_view))
        busy).1
    ≡ false
unfolding new_replica run handle on_propose advance_view get lookup chained_vote_rule new insert
    extends_block extends raise_serials new_cmd_cache chained_commit_rule qc_ref propose
never_settles = refl

advance_view_lem_example :
    Enters env
      (with_qc new_sync_info (certify b1))
      voted
      (advance_view env (with_qc new_sync_info (certify b1)) voted).0
advance_view_lem_example = advance_view_lem env (with_qc new_sync_info (certify b1)) voted

genesis_qc_advances_example :
    (advance_view env
      (with_qc new_sync_info (record { signature = none; view = 1000; hash = root.hash }))
      start_state).0.current_view
    ≡ 1001
unfolding new_replica
genesis_qc_advances_example = genesis_qc_advances env 1000 start_state (omega arith)

abbrev vote_by : ℕ → PartialCert
vote_by id = record { signature = some (ecdsa (signed_by id b1.hash)); block_hash = b1.hash }

-- Two votes are there.
abbrev two_votes : Replica
two_votes = record start_state { verified_votes = (b1.hash, vote_by 1 ∷ vote_by 2 ∷ []) ∷ [] }

verify_cert_sound_example :
    IsVerified env (verify_cert env (vote_by 3) b1 two_votes)
    × Announces env (vote_by 3) b1 two_votes (verify_cert env (vote_by 3) b1 two_votes)
unfolding new_replica insert lookup verify_partial_cert
verify_cert_sound_example = verify_cert_sound env (vote_by 3) b1 two_votes (
    insert-IsVerified env b1.hash (vote_by 1 ∷ vote_by 2 ∷ []) start_state (λ h. tt)
      ((refl, refl), ((refl, refl), tt)))
