-- ===== src/Node.antt =====
-- A replica over time: its initial state (the constructors New of the modules, and the certificates
-- of InitConsensusModule), and the events that its handlers take, in any order.
pub mod Evidence
use hotstuff_repbased_leader.Prelude.{ℕ, ◌≤◌, refl, false, none, [], arith}
use hotstuff_repbased_leader.Types.{
  PartialCert, Block, ProposeMsg, VoteMsg, TimeoutMsg, NewViewMsg, genesis,
}
use hotstuff_repbased_leader.BlockChain
use hotstuff_repbased_leader.CmdCache.{ClientCommand, add_command, new_cmd_cache}
use hotstuff_repbased_leader.State.{Replica, Env}
use hotstuff_repbased_leader.Consensus.{Call, on_propose_call, advance_view_call}
use hotstuff_repbased_leader.Consensus.Votes.{SignsOncePerView}
use hotstuff_repbased_leader.Synchronizer.{run_all, timer_fired}
use hotstuff_repbased_leader.Synchronizer.Votes.{Safe, Safe-of_same, run_all-Safe}
use hotstuff_repbased_leader.Timeouts.{on_new_view, on_remote_timeout, on_local_timeout, start}
use hotstuff_repbased_leader.Timeouts.Votes.{
  start-Safe, on_remote_timeout-Safe, on_local_timeout-Safe,
}
use hotstuff_repbased_leader.VotingMachine.{on_vote, verify_cert}

unfoldable pub new_replica : Env → ℕ → Replica
unfolding genesis
new_replica env batch_size =
    let root = genesis env.sha256 in
    record {
      chain = BlockChain.new env.sha256;
      commands = new_cmd_cache batch_size;
      current_view = 1;
      high_tc = record { signature = none; view = 0 };
      high_qc = record { signature = none; view = 0; hash = root.hash };
      leaf_block = root;
      last_timeout = none;
      timeouts = [];
      ctx_done = false;
      last_vote = 0;
      b_exec = root;
      locked = root;
      verified_votes = [];
      trace = [];
    }

-- One event. What the environment chooses is in the arguments, and the network's replies are those
-- of `env`, which may change from event to event.
pub data Step (r : Replica) : Replica → Type 0 where
  began : (env : Env) → Step r (start env r)
  -- What is left of a chain of calls that has not ended.
  goes_on : (env : Env) (call : Call) → Step r (run_all env call r)
  proposal : (env : Env) (msg : ProposeMsg) → Step r (run_all env (on_propose_call msg) r)
  vote : (env : Env) (msg : VoteMsg) → Step r (on_vote env msg r)
  vote_checked :
      (env : Env) (cert : PartialCert) (block : Block) → Step r (verify_cert env cert block r)
  new_view : (env : Env) (msg : NewViewMsg) → Step r (on_new_view env msg r)
  remote_timeout : (env : Env) (msg : TimeoutMsg) → Step r (on_remote_timeout env msg r)
  local_timeout : (env : Env) → Step r (on_local_timeout env r)
  timer : Step r (timer_fired r)
  command : (cmd : ClientCommand) → Step r (record r { commands = (add_command cmd r.commands).0 })

pub data Reach (r : Replica) : Replica → Type 0 where
  here : Reach r r
  next : {s t : Replica} → Reach r s → Step s t → Reach r t

on_vote-Safe : (env : Env) (msg : VoteMsg) (r : Replica) → Safe r (on_vote env msg r)
unfolding on_vote
on_vote-Safe env msg r = Safe-of_same (ground arith) (ground arith) (ground arith)

verify_cert-Safe :
    (env : Env) (cert : PartialCert) (block : Block) (r : Replica)
    → Safe r (verify_cert env cert block r)
unfolding verify_cert
verify_cert-Safe env cert block r = Safe-of_same (ground arith) (ground arith) (ground arith)

on_new_view-Safe : (env : Env) (msg : NewViewMsg) (r : Replica) → Safe r (on_new_view env msg r)
unfolding on_new_view
on_new_view-Safe env msg r = run_all-Safe env (advance_view_call msg.sync_info) r

Step-Safe : {r s : Replica} → Step r s → Safe r s
unfolding timer_fired
Step-Safe {r} (began env) = start-Safe env r
Step-Safe {r} (goes_on env call) = run_all-Safe env call r
Step-Safe {r} (proposal env msg) = run_all-Safe env (on_propose_call msg) r
Step-Safe {r} (vote env msg) = on_vote-Safe env msg r
Step-Safe {r} (vote_checked env cert block) = verify_cert-Safe env cert block r
Step-Safe {r} (new_view env msg) = on_new_view-Safe env msg r
Step-Safe {r} (remote_timeout env msg) = on_remote_timeout-Safe env msg r
Step-Safe {r} (local_timeout env) = on_local_timeout-Safe env r
Step-Safe {r} timer = Safe-of_same refl refl (omega arith)
Step-Safe {r} (command cmd) = Safe-of_same refl refl (omega arith)

-- Whatever proposals, votes, timeouts and commands reach a replica, in any order, the views of the
-- blocks that it has signed since its start fall strictly from the latest to the first, so no two
-- blocks of one view are signed, and none lies above its last vote.
pub Reach-SignsOncePerView :
    (env : Env) (batch_size : ℕ) (r : Replica)
    → Reach (new_replica env batch_size) r
    → SignsOncePerView r
unfolding new_replica
Reach-SignsOncePerView env batch_size r here = tt
Reach-SignsOncePerView env batch_size r (next {s = s} before step) =
    (Step-Safe step).kept (Reach-SignsOncePerView env batch_size s before)

-- Over any run the view of the block that a replica has locked never falls, nor does the view that
-- it voted in last.
pub Reach-lock_le :
    (r s : Replica) → Reach r s → (r.locked.view ≤ s.locked.view) × (r.last_vote ≤ s.last_vote)
Reach-lock_le r s here = (omega arith, omega arith)
Reach-lock_le r s (next {s = t} before step) =
    omega (arith, Reach-lock_le r t before, Step-Safe step)
