-- ===== src/Synchronizer.antt =====
-- synchronizer/synchronizer.go: the view of a replica, its timeouts, and the loop that runs the
-- calls of the handlers on one another.
pub mod Keeps
pub mod Votes
pub mod Settles
pub mod Certified
use hotstuff_repbased_leader.Prelude.{
  ℕ, zero, suc, Bool, true, false, not, Option, none, some, List, [], map, ltb, ◌==◌, if◌then◌else◌,
  elem, length, Dict, lookup, insert, delete, keep,
}
use hotstuff_repbased_leader.Types.{
  QuorumCert, TimeoutCert, SyncInfo, TimeoutMsg, NewViewMsg, next_view, timeout_hash, with_tc,
  with_agg_qc,
}
use hotstuff_repbased_leader.Sizes.{quorum_size}
use hotstuff_repbased_leader.Crypto.Base.{
  verify_quorum_cert, verify_timeout_cert, create_timeout_cert, create_aggregate_qc,
}
use hotstuff_repbased_leader.State.{
  net_timeout, send_new_view, view_change, stop_timer, reset_timer, new_ctx, view_started,
  view_succeeded, view_timeout, Replica, Env, uses_agg_qc,
}
use hotstuff_repbased_leader.Access.{emit}
use hotstuff_repbased_leader.HighQc.{update_high_qc, sync_info}
use hotstuff_repbased_leader.Consensus.{
  Call, idle, propose_call, on_propose_call, advance_view_call, propose, on_propose, stop_voting,
}

-- `newCtx`.
unfoldable pub renew_ctx : Replica → Replica
unfolding emit
renew_ctx r = emit new_ctx (record r { ctx_done = false })

-- The function of the timer: the context is cancelled, and the event loop will run
-- `on_local_timeout`.
unfoldable pub timer_fired : Replica → Replica
timer_fired r = record r { ctx_done = true }

-- `AdvanceView` after the test on the view: the new view, and the context and timers of it.
unfoldable pub enter_view : ℕ → Bool → Replica → Replica
unfolding emit renew_ctx
enter_view v timeout r =
    let started =
      emit view_started
        (record (emit stop_timer r) { current_view = next_view v; last_timeout = none }) in
    emit (view_change (next_view v) timeout) (emit reset_timer (renew_ctx started))

-- The number of calls after which a chain of calls has ended, unless the view overflows or the
-- replica forks.
abbrev pub call_bound : ℕ
call_bound = 7

unfoldable pub raise_high_tc : TimeoutCert → Replica → Replica
raise_high_tc tc r = if ltb r.high_tc.view tc.view then record r { high_tc = tc } else r

module _ (env : Env) where
  -- The end of `AdvanceView`: propose, or tell the leader.
  unfoldable pub notify_leader : SyncInfo → Replica → Replica × Call
  unfolding emit
  notify_leader si r =
      let leader = env.get_leader r r.current_view in
      if leader == env.id
      then (r, propose_call si)
      else (if elem leader env.replicas then emit (send_new_view leader si) r else r, idle)

  unfoldable pub advance_to : ℕ → Bool → SyncInfo → Replica → Replica × Call
  unfolding enter_view notify_leader
  advance_to v timeout si r =
      if ltb v r.current_view then (r, idle) else notify_leader si (enter_view v timeout r)

  unfoldable pub advance_qc : Option QuorumCert → SyncInfo → Replica → Replica × Call
  unfolding advance_to update_high_qc emit verify_quorum_cert
  advance_qc none si r = advance_to 0 false si r
  advance_qc (some qc) si r =
      if verify_quorum_cert env.sha256 env.impl qc
      then advance_to qc.view false si (emit view_succeeded (update_high_qc env qc r))
      else (r, idle)

  unfoldable pub advance_view : SyncInfo → Replica → Replica × Call
  unfolding advance_qc advance_to raise_high_tc verify_timeout_cert
  advance_view si r = elim si.tc [
    | some tc ↦
        if verify_timeout_cert env.sha256 env.impl tc
        then advance_to tc.view true si (raise_high_tc tc r)
        else (r, idle)
    | none ↦ advance_qc si.qc si r
  ]

  unfoldable pub handle : Call → Replica → Replica × Call
  handle idle r = (r, idle)
  handle (propose_call si) r = propose env si r
  handle (on_propose_call msg) r = on_propose env msg r
  handle (advance_view_call si) r = advance_view si r

  unfoldable pub run : ℕ → Call → Replica → Replica × Call
  run zero call r = (r, call)
  run (suc n) call r = let (r', call') = handle call r in run n call' r'

  unfoldable pub run_all : Call → Replica → Replica
  run_all call r = (run call_bound call r).0
