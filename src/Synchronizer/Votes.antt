-- ===== src/Synchronizer/Votes.antt =====
-- What the handlers of synchronizer/synchronizer.go, and the calls that they start, do to the last
-- vote and the blocks signed.
use hotstuff_repbased_leader.Prelude.{
  ℕ, zero, suc, ◌≤◌, ◌≡◌, false, none, some, Option, arith, inl, inr, Option-cases, Bool,
}
use hotstuff_repbased_leader.Types.{QuorumCert, SyncInfo}
use hotstuff_repbased_leader.State.{Replica, Env}
use hotstuff_repbased_leader.Consensus.{
  Call, idle, propose_call, on_propose_call, advance_view_call,
}
use hotstuff_repbased_leader.Consensus.Frame.{signed_views, update_high_qc-Frame}
use hotstuff_repbased_leader.Consensus.Votes.{
  SignsOncePerView, Votes, Votes-of_Frame, on_propose-Votes, propose-Frame,
}
use hotstuff_repbased_leader.Synchronizer.{
  advance_to, advance_qc, advance_view, handle, run, run_all, call_bound,
}

-- The last vote does not fall, and one signed block per view is kept.
pub record Safe (r r' : Replica) : Type 0 where
  pub kept : SignsOncePerView r → SignsOncePerView r'
  pub last_le : r.last_vote ≤ r'.last_vote
  pub lock_le : r.locked.view ≤ r'.locked.view

pub Safe-refl : (r : Replica) → Safe r r
Safe-refl r = record { kept = λ h. h; last_le = omega arith; lock_le = omega arith }

pub Safe-trans : {r s t : Replica} → Safe r s → Safe s t → Safe r t
Safe-trans f g = record {
  kept = λ h. g.kept (f.kept h);
  last_le = omega arith;
  lock_le = omega arith;
}

pub Safe-of_Votes : {r r' : Replica} → Votes r r' → Safe r r'
Safe-of_Votes v = record { kept = v.kept; last_le = v.last_le; lock_le = v.lock_le }

-- A step that leaves the last vote and the blocks signed.
pub Safe-of_same :
    {r r' : Replica}
    → r'.last_vote ≡ r.last_vote
    → signed_views r'.trace ≡ signed_views r.trace
    → r.locked.view ≤ r'.locked.view
    → Safe r r'
Safe-of_same p q l = record { kept = λ h. rw (q, p) h; last_le = omega arith; lock_le = l }

module _ (env : Env) where
  advance_to_same :
      (v : ℕ) (timeout : Bool) (si : SyncInfo) (r : Replica)
      → ((advance_to env v timeout si r).0.last_vote ≡ r.last_vote)
        × (signed_views (advance_to env v timeout si r).0.trace ≡ signed_views r.trace)
        × (r.locked.view ≤ (advance_to env v timeout si r).0.locked.view)
  unfolding advance_to
  advance_to_same v timeout si r = ground arith

  advance_qc_same :
      (qc : Option QuorumCert) (si : SyncInfo) (r : Replica)
      → ((advance_qc env qc si r).0.last_vote ≡ r.last_vote)
        × (signed_views (advance_qc env qc si r).0.trace ≡ signed_views r.trace)
        × (r.locked.view ≤ (advance_qc env qc si r).0.locked.view)
  unfolding advance_qc
  advance_qc_same none si r = advance_to_same 0 false si r
  advance_qc_same (some qc) si r = ground (arith, update_high_qc-Frame env qc r)

  advance_view_same :
      (si : SyncInfo) (r : Replica)
      → ((advance_view env si r).0.last_vote ≡ r.last_vote)
        × (signed_views (advance_view env si r).0.trace ≡ signed_views r.trace)
        × (r.locked.view ≤ (advance_view env si r).0.locked.view)
  unfolding advance_view
  advance_view_same si r = elim (Option-cases si.tc) [
    | inl no_tc ↦ rw (no_tc, advance_view) (advance_qc_same si.qc si r)
    | inr (tc, has_tc) ↦ ground arith
  ]

  handle-Safe : (call : Call) (r : Replica) → Safe r (handle env call r).0
  unfolding handle
  handle-Safe idle r = Safe-refl r
  handle-Safe (propose_call si) r = Safe-of_Votes (Votes-of_Frame (propose-Frame env si r))
  handle-Safe (on_propose_call msg) r = Safe-of_Votes (on_propose-Votes env msg r)
  handle-Safe (advance_view_call si) r =
      let (last, views, lock) = advance_view_same si r in Safe-of_same last views lock

  run-Safe : (n : ℕ) (call : Call) (r : Replica) → Safe r (run env n call r).0
  unfolding run
  run-Safe zero call r = Safe-refl r
  run-Safe (suc n) call r =
      let (r', call') = handle env call r in Safe-trans (handle-Safe call r) (run-Safe n call' r')

  pub run_all-Safe : (call : Call) (r : Replica) → Safe r (run_all env call r)
  unfolding run_all
  run_all-Safe call r = run-Safe call_bound call r
