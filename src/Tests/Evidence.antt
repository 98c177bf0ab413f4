-- ===== src/Tests/Evidence.antt =====
-- Timeouts and votes that a replica keeps, in short runs.
use hotstuff_repbased_leader.Prelude.{ℕ, ◌≡◌, ◌⊎◌, refl, false, some, none, lookup}
use hotstuff_repbased_leader.Types.{TimeoutMsg, ecdsa, new_sync_info}
use hotstuff_repbased_leader.State.{Replica}
use hotstuff_repbased_leader.Consensus.{advance_view_call}
use hotstuff_repbased_leader.Synchronizer.{run_all}
use hotstuff_repbased_leader.Timeouts.{on_remote_timeout, drop_old_timeouts}
use hotstuff_repbased_leader.Timeouts.Collected.{
  IsCollected, Formed, with_timeout, on_remote_timeout_sound,
}
use hotstuff_repbased_leader.Node.{new_replica, Reach, here, next, remote_timeout}
use hotstuff_repbased_leader.Node.Evidence.{IsEvidence, SameScheme, Reach-IsEvidence}
use hotstuff_repbased_leader.Tests.Setup.{env, digest, impl, signed_by}

abbrev timeout_of : ℕ → TimeoutMsg
timeout_of id = record {
  id = id;
  view = 1;
  view_signature = some (ecdsa (signed_by id 1));
  msg_signature = none;
  sync_info = new_sync_info;
}

abbrev start_state : Replica
start_state = new_replica env 1

abbrev with_one : Replica
with_one = on_remote_timeout env (timeout_of 3) start_state

abbrev with_two : Replica
with_two = on_remote_timeout env (timeout_of 4) with_one

abbrev short_run : Reach start_state with_two
short_run = next (next here (remote_timeout env (timeout_of 3))) (remote_timeout env (timeout_of 4))

short_run-SameScheme : SameScheme digest impl short_run
short_run-SameScheme = ((tt, (refl, refl)), (refl, refl))

Reach-IsEvidence_example : IsEvidence digest impl with_two
Reach-IsEvidence_example = Reach-IsEvidence env 1 with_two short_run short_run-SameScheme

start_state-IsCollected : IsCollected impl start_state
unfolding new_replica lookup
start_state-IsCollected = λ view. (tt, tt)

on_remote_timeout_sound_example :
    IsCollected impl with_one
    × (((env.impl.verify (timeout_of 3).view_signature 1 ≡ false)
          × (with_one ≡ drop_old_timeouts start_state))
        ⊎ (let r1 = run_all env (advance_view_call (timeout_of 3).sync_info) start_state in
            (s : Replica) × (with_one ≡ drop_old_timeouts s)
            × ((s ≡ with_timeout env (timeout_of 3) r1)
                ⊎ Formed env 1 (with_timeout env (timeout_of 3) r1) s)))
on_remote_timeout_sound_example =
    on_remote_timeout_sound env (timeout_of 3) start_state start_state-IsCollected
