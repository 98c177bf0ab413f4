-- ===== src/Timeouts/Votes.antt =====
-- What the handlers of timeouts do to the last vote and the blocks signed.
use hotstuff_repbased_leader.Prelude.{
  ℕ, refl, none, some, Option, map, Dict, arith, inl, inr, Bool-cases, Option-cases, insert, delete,
  ltb, length,
}
use hotstuff_repbased_leader.Types.{TimeoutMsg, with_tc}
use hotstuff_repbased_leader.Sizes.{quorum_size}
use hotstuff_repbased_leader.Crypto.Base.{create_timeout_cert}
use hotstuff_repbased_leader.State.{Replica, Env, view_timeout, net_timeout}
use hotstuff_repbased_leader.Access.{emit}
use hotstuff_repbased_leader.HighQc.{sync_info}
use hotstuff_repbased_leader.Consensus.{propose_call, advance_view_call, stop_voting}
use hotstuff_repbased_leader.Consensus.Votes.{
  stop_voting-kept, last-le-stop_voting, locked-stop_voting,
}
use hotstuff_repbased_leader.Synchronizer.{run_all}
use hotstuff_repbased_leader.Synchronizer.Votes.{
  Safe, Safe-refl, Safe-trans, Safe-of_same, run_all-Safe,
}
use hotstuff_repbased_leader.Timeouts.{
  form_timeout_cert, collect_timeout, on_remote_timeout, first_timeout, send_timeout,
  on_local_timeout, new_timeout, start, drop_old_timeouts, add_timeout, timeouts_of, with_aggregate,
  reset, resend, sent_in,
}

reset-Safe : (r : Replica) → Safe r (reset r)
unfolding reset
reset-Safe r = ground arith

resend-Safe : (t : Option TimeoutMsg) (r : Replica) → Safe r (resend t r)
unfolding emit
resend-Safe none r = Safe-refl r
resend-Safe (some t) r = Safe-of_same refl refl (omega arith)

module _ (env : Env) where
  -- Not through the definition of `run_all`: the chain of calls is one step.
  pub start-Safe : (r : Replica) → Safe r (start env r)
  unfolding start
  start-Safe r = ground (arith, run_all-Safe env (propose_call (sync_info r)) r, Safe-refl r)

  form_timeout_cert-Safe :
      (view : ℕ) (collected : Dict TimeoutMsg) (r : Replica)
      → Safe r (form_timeout_cert env view collected r)
  unfolding form_timeout_cert
  form_timeout_cert-Safe view collected r =
      let messages = map (λ (e : ℕ × TimeoutMsg). e.1) collected in
      elim (Option-cases (create_timeout_cert env.sha256 env.impl view messages)) [
        | inl failed ↦ rw (failed, form_timeout_cert) (Safe-refl r)
        | inr (tc, made) ↦
            let cleared = record r { timeouts = delete view r.timeouts } in
            let si = with_aggregate env messages (with_tc (sync_info r) tc) r in
            let s = run_all-Safe env (advance_view_call si) cleared in
            rw (made, form_timeout_cert)
              (record { kept = s.kept; last_le = s.last_le; lock_le = s.lock_le })
      ]

  collect_timeout-Safe : (t : TimeoutMsg) (r : Replica) → Safe r (collect_timeout env t r)
  unfolding collect_timeout
  collect_timeout-Safe t r =
      let collected = add_timeout t (timeouts_of t.view r) in
      let r' = record r { timeouts = insert t.view collected r.timeouts } in
      let s = form_timeout_cert-Safe t.view collected r' in
      elim (Bool-cases (ltb (length collected) (quorum_size (length env.replicas)))) [
        | inl few ↦ rw few (Safe-of_same refl refl (omega arith))
        | inr quorum ↦
            rw quorum (record { kept = s.kept; last_le = s.last_le; lock_le = s.lock_le })
      ]

  drop_old_timeouts-Safe : (r : Replica) → Safe r (drop_old_timeouts r)
  unfolding drop_old_timeouts
  drop_old_timeouts-Safe r = Safe-of_same refl refl (omega arith)

  pub on_remote_timeout-Safe : (t : TimeoutMsg) (r : Replica) → Safe r (on_remote_timeout env t r)
  unfolding on_remote_timeout
  on_remote_timeout-Safe t r =
      let r' = run_all env (advance_view_call t.sync_info) r in
      elim (Bool-cases (env.impl.verify t.view_signature t.view)) [
        | inl verified ↦ rw verified (
            Safe-trans
              (Safe-trans (run_all-Safe env (advance_view_call t.sync_info) r)
                (collect_timeout-Safe t r'))
              (drop_old_timeouts-Safe (collect_timeout env t r')))
        | inr forged ↦ rw forged (drop_old_timeouts-Safe r)
      ]

  stop_voting-Safe : (view : ℕ) (r : Replica) → Safe r (stop_voting view r)
  stop_voting-Safe view r = record {
    kept = stop_voting-kept view r;
    last_le = last-le-stop_voting view r;
    lock_le = rw (locked-stop_voting view r) (omega arith);
  }

  first_timeout-Safe : (r : Replica) → Safe r (first_timeout env r)
  unfolding first_timeout
  first_timeout-Safe r = elim (Option-cases (new_timeout env r)) [
    | inl unsigned ↦ rw (unsigned, first_timeout) (Safe-refl r)
    | inr (t, fresh) ↦
        let noted = record r { last_timeout = some t } in
        let stopped = stop_voting r.current_view noted in
        let before : Safe r stopped =
          Safe-trans (Safe-of_same refl refl (omega arith))
            (stop_voting-Safe r.current_view noted) in
        rw (fresh, first_timeout)
          (Safe-trans before (
            Safe-trans (Safe-of_same refl refl (omega arith))
              (on_remote_timeout-Safe t (emit (net_timeout t) stopped))))
  ]

  send_timeout-Safe : (r : Replica) → Safe r (send_timeout env r)
  unfolding send_timeout
  send_timeout-Safe r = elim (Bool-cases (sent_in r.current_view r.last_timeout)) [
    | inl sent ↦ rw sent (resend-Safe r.last_timeout r)
    | inr fresh ↦
        let timed = emit view_timeout r in
        rw fresh (Safe-trans (Safe-of_same refl refl (omega arith)) (first_timeout-Safe timed))
  ]

  pub on_local_timeout-Safe : (r : Replica) → Safe r (on_local_timeout env r)
  unfolding on_local_timeout
  on_local_timeout-Safe r = Safe-trans (send_timeout-Safe r) (reset-Safe (send_timeout env r))
