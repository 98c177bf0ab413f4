-- ===== src/Synchronizer/Keeps.antt =====
-- What a chain of calls of synchronizer/synchronizer.go and consensus/consensus.go leaves alone: the
-- timeouts collected and the votes verified.
use hotstuff_repbased_leader.Prelude.{
  ℕ, zero, suc, ◌≡◌, refl, ◌∙◌, none, some, Option, arith, inl, inr, Option-cases, Bool, false,
}
use hotstuff_repbased_leader.Types.{QuorumCert, SyncInfo}
use hotstuff_repbased_leader.State.{Replica, Env}
use hotstuff_repbased_leader.Consensus.{
  Call, idle, propose_call, on_propose_call, advance_view_call,
}
use hotstuff_repbased_leader.Consensus.Frame.{update_high_qc-Frame}
use hotstuff_repbased_leader.Consensus.Votes.{on_propose-Votes, propose-Frame}
use hotstuff_repbased_leader.Synchronizer.{
  advance_to, advance_qc, advance_view, handle, run, run_all, call_bound,
}

-- The same timeouts and votes.
pub record Keeps (r r' : Replica) : Type 0 where
  pub timeouts : r'.timeouts ≡ r.timeouts
  pub verified : r'.verified_votes ≡ r.verified_votes

pub Keeps-refl : (r : Replica) → Keeps r r
Keeps-refl r = record { timeouts = refl; verified = refl }

pub Keeps-trans : {r s t : Replica} → Keeps r s → Keeps s t → Keeps r t
Keeps-trans f g = record { timeouts = g.timeouts ∙ f.timeouts; verified = g.verified ∙ f.verified }

module _ (env : Env) where
  advance_to-Keeps :
      (v : ℕ) (timeout : Bool) (si : SyncInfo) (r : Replica)
      → Keeps r (advance_to env v timeout si r).0
  unfolding advance_to
  advance_to-Keeps v timeout si r = ground arith

  advance_qc-Keeps :
      (qc : Option QuorumCert) (si : SyncInfo) (r : Replica) → Keeps r (advance_qc env qc si r).0
  unfolding advance_qc
  advance_qc-Keeps none si r = advance_to-Keeps 0 false si r
  advance_qc-Keeps (some qc) si r = ground (arith, update_high_qc-Frame env qc r)

  advance_view-Keeps : (si : SyncInfo) (r : Replica) → Keeps r (advance_view env si r).0
  unfolding advance_view
  advance_view-Keeps si r = elim (Option-cases si.tc) [
    | inl no_tc ↦ rw (no_tc, advance_view) (advance_qc-Keeps si.qc si r)
    | inr (tc, has_tc) ↦ ground arith
  ]

  handle-Keeps : (call : Call) (r : Replica) → Keeps r (handle env call r).0
  unfolding handle
  handle-Keeps idle r = Keeps-refl r
  handle-Keeps (propose_call si) r =
      let f = propose-Frame env si r in
      record { timeouts = f.same_timeouts; verified = f.same_verified }
  handle-Keeps (on_propose_call msg) r =
      let v = on_propose-Votes env msg r in
      record { timeouts = v.timeouts_same; verified = v.verified_same }
  handle-Keeps (advance_view_call si) r = advance_view-Keeps si r

  run-Keeps : (n : ℕ) (call : Call) (r : Replica) → Keeps r (run env n call r).0
  unfolding run
  run-Keeps zero call r = Keeps-refl r
  run-Keeps (suc n) call r =
      let (r', call') = handle env call r in
      Keeps-trans (handle-Keeps call r) (run-Keeps n call' r')

  pub run_all-Keeps : (call : Call) (r : Replica) → Keeps r (run_all env call r)
  unfolding run_all
  run_all-Keeps call r = run-Keeps call_bound call r
