-- ===== src/Timeouts.antt =====
-- synchronizer/synchronizer.go: the start, and the timeouts of this replica and of others.
pub mod Votes
pub mod Collected
use hotstuff_repbased_leader.Prelude.{
  ℕ, zero, suc, Bool, true, false, not, Option, none, some, List, [], map, ltb, ◌==◌, if◌then◌else◌,
  elem, length, Dict, lookup, insert, delete, keep,
}
use hotstuff_repbased_leader.Types.{
  QuorumCert, TimeoutCert, SyncInfo, TimeoutMsg, NewViewMsg, next_view, timeout_hash, with_tc,
  with_agg_qc,
}
use hotstuff_repbased_leader.Sizes.{quorum_size}
use hotstuff_repbased_leader.Crypto.Base.{
  verify_quorum_cert, verify_timeout_cert, create_timeout_cert, create_aggregate_qc,
}
use hotstuff_repbased_leader.State.{
  net_timeout, send_new_view, view_change, stop_timer, reset_timer, new_ctx, view_started,
  view_succeeded, view_timeout, Replica, Env, uses_agg_qc,
}
use hotstuff_repbased_leader.Access.{emit}
use hotstuff_repbased_leader.HighQc.{update_high_qc, sync_info}
use hotstuff_repbased_leader.Synchronizer.{renew_ctx, run_all}
use hotstuff_repbased_leader.Consensus.{
  Call, idle, propose_call, on_propose_call, advance_view_call, propose, on_propose, stop_voting,
}

-- The deferred clean-up of `OnRemoteTimeout`.
unfoldable pub drop_old_timeouts : Replica → Replica
drop_old_timeouts r = record r {
  timeouts = keep (λ view _. not (ltb view r.current_view)) r.timeouts;
}

abbrev pub or_empty : Option (Dict TimeoutMsg) → Dict TimeoutMsg
or_empty none = []
or_empty (some m) = m

-- The first message of each replica counts.
unfoldable pub add_timeout : TimeoutMsg → Dict TimeoutMsg → Dict TimeoutMsg
add_timeout t collected = elim (lookup t.id collected) [
  | some _ ↦ collected
  | none ↦ insert t.id t collected
]

unfoldable pub timeouts_of : ℕ → Replica → Dict TimeoutMsg
timeouts_of view r = or_empty (lookup view r.timeouts)

abbrev pub sent_in : ℕ → Option TimeoutMsg → Bool
sent_in view none = false
sent_in view (some t) = t.view == view

abbrev pub resend : Option TimeoutMsg → Replica → Replica
resend none r = r
resend (some t) r = emit (net_timeout t) r

-- The deferred function of `onLocalTimeout`.
unfoldable pub reset : Replica → Replica
unfolding renew_ctx emit
reset r = emit reset_timer (if r.ctx_done then renew_ctx r else r)

module _ (env : Env) where
  unfoldable pub on_new_view : NewViewMsg → Replica → Replica
  on_new_view msg r = run_all env (advance_view_call msg.sync_info) r

  -- `Start`: the first proposal.
  unfoldable pub start : Replica → Replica
  unfolding sync_info
  start r =
      if r.current_view == 1
      then (if env.get_leader r r.current_view == env.id
          then run_all env (propose_call (sync_info r)) r
          else r)
      else r

  unfoldable pub with_aggregate : List TimeoutMsg → SyncInfo → Replica → SyncInfo
  unfolding create_aggregate_qc with_agg_qc
  with_aggregate messages si r =
      if uses_agg_qc env.protocol
      then elim (create_aggregate_qc env.sha256 env.impl r.current_view messages) [
        | none ↦ si
        | some agg ↦ with_agg_qc si agg
      ]
      else si

  -- `OnRemoteTimeout` once a quorum of timeouts is there.
  unfoldable pub form_timeout_cert : ℕ → Dict TimeoutMsg → Replica → Replica
  unfolding create_timeout_cert with_aggregate with_tc sync_info
  form_timeout_cert view collected r =
      let messages = map (λ (e : ℕ × TimeoutMsg). e.1) collected in
      elim (create_timeout_cert env.sha256 env.impl view messages) [
        | none ↦ r
        | some tc ↦
            let si = with_aggregate messages (with_tc (sync_info r) tc) r in
            run_all env (advance_view_call si) (record r { timeouts = delete view r.timeouts })
      ]

  -- `OnRemoteTimeout` after the first `AdvanceView`.
  unfoldable pub collect_timeout : TimeoutMsg → Replica → Replica
  unfolding add_timeout timeouts_of form_timeout_cert quorum_size
  collect_timeout t r =
      let collected = add_timeout t (timeouts_of t.view r) in
      let r' = record r { timeouts = insert t.view collected r.timeouts } in
      if ltb (length collected) (quorum_size (length env.replicas))
      then r'
      else form_timeout_cert t.view collected r'

  unfoldable pub on_remote_timeout : TimeoutMsg → Replica → Replica
  unfolding collect_timeout drop_old_timeouts
  on_remote_timeout t r = drop_old_timeouts (
      if env.impl.verify t.view_signature t.view
      then collect_timeout t (run_all env (advance_view_call t.sync_info) r)
      else r)

  -- The timeout message that is new: `none` is a signature that failed.
  unfoldable pub sign_message : TimeoutMsg → Option TimeoutMsg
  unfolding timeout_hash
  sign_message t =
      if uses_agg_qc env.protocol
      then elim (env.impl.sign (timeout_hash env.sha256 t)) [
        | none ↦ none
        | some sig ↦ some (record t { msg_signature = some sig })
      ]
      else some t

  unfoldable pub new_timeout : Replica → Option TimeoutMsg
  unfolding sign_message sync_info
  new_timeout r = elim (env.impl.sign r.current_view) [
    | none ↦ none
    | some sig ↦ sign_message (record {
      id = env.id;
      view = r.current_view;
      view_signature = some sig;
      msg_signature = none;
      sync_info = sync_info r;
    })
  ]

  unfoldable pub first_timeout : Replica → Replica
  unfolding new_timeout stop_voting emit
  first_timeout r = elim (new_timeout r) [
    | none ↦ r
    | some t ↦
        on_remote_timeout t
          (emit (net_timeout t) (stop_voting r.current_view (record r { last_timeout = some t })))
  ]

  -- `onLocalTimeout` without its deferred function.
  unfoldable pub send_timeout : Replica → Replica
  unfolding first_timeout emit
  send_timeout r =
      if sent_in r.current_view r.last_timeout
      then resend r.last_timeout r
      else first_timeout (emit view_timeout r)

  unfoldable pub on_local_timeout : Replica → Replica
  on_local_timeout r = reset (send_timeout r)
