-- ===== src/Synchronizer/Settles.antt =====
-- The calls of AdvanceView, Propose and OnPropose (synchronizer/synchronizer.go and
-- consensus/consensus.go) on one another.
use hotstuff_repbased_leader.Prelude.{
  ℕ, zero, suc, ◌+◌, ◌<◌, ◌≡◌, ◌≢◌, ◌⊎◌, refl, false, none, some, Option, arith, inl, inr,
  Option-cases, Bool, List, sym,
}
use mathlib.Core.Path.{subst}
use hotstuff_repbased_leader.Types.{QuorumCert, SyncInfo, ProposeMsg, with_qc, new_sync_info}
use hotstuff_repbased_leader.State.{Replica, Env, forking}
use hotstuff_repbased_leader.CmdCache.{get_batch}
use hotstuff_repbased_leader.Access.{get_block}
use hotstuff_repbased_leader.Consensus.{
  Call, idle, propose_call, on_propose_call, advance_view_call, qc_or_zero, propose, propose_next,
  propose_command, on_propose, note_proposed,
}
use hotstuff_repbased_leader.Consensus.Frame.{update_high_qc-Frame}
use hotstuff_repbased_leader.Consensus.Votes.{on_propose-Votes, propose-Frame}
use hotstuff_repbased_leader.Synchronizer.{
  advance_to, advance_qc, advance_view, handle, run, call_bound,
}

-- The view after that of the certificate is no overflow.
abbrev pub IsSmall : QuorumCert → Type 0
IsSmall qc = qc.view + 1 < 18446744073709551616

abbrev pub CallIsSmall : Call → Type 0
CallIsSmall idle = Unit
CallIsSmall (propose_call si) = IsSmall (qc_or_zero si.qc)
CallIsSmall (on_propose_call msg) = IsSmall msg.block.cert
CallIsSmall (advance_view_call si) = IsSmall (qc_or_zero si.qc)

module _ (env : Env) where
  -- What each handler calls last.

  advance_to-calls :
      (v : ℕ) (timeout : Bool) (si : SyncInfo) (r : Replica)
      → let c = (advance_to env v timeout si r).1 in (c ≡ idle) ⊎ (c ≡ propose_call si)
  unfolding advance_to
  advance_to-calls v timeout si r = ground arith

  advance_to_low :
      (v : ℕ) (timeout : Bool) (si : SyncInfo) (r : Replica)
      → v < r.current_view
      → (advance_to env v timeout si r).1 ≡ idle
  unfolding advance_to
  advance_to_low v timeout si r h = ground arith

  -- A view that is entered lies above its certificate.
  advance_to_above :
      (v : ℕ) (timeout : Bool) (si : SyncInfo) (r : Replica)
      → v + 1 < 18446744073709551616
      → v < (advance_to env v timeout si r).0.current_view
  unfolding advance_to
  advance_to_above v timeout si r h = ground arith

  advance_qc-calls :
      (qc : Option QuorumCert) (si : SyncInfo) (r : Replica)
      → let c = (advance_qc env qc si r).1 in (c ≡ idle) ⊎ (c ≡ propose_call si)
  unfolding advance_qc
  advance_qc-calls none si r = advance_to-calls 0 false si r
  advance_qc-calls (some qc) si r = ground arith

  advance_view-calls :
      (si : SyncInfo) (r : Replica)
      → let c = (advance_view env si r).1 in (c ≡ idle) ⊎ (c ≡ propose_call si)
  unfolding advance_view
  advance_view-calls si r = ground (arith, advance_qc-calls si.qc si r)

  abbrev only_qc : QuorumCert → SyncInfo
  unfolding with_qc new_sync_info
  only_qc qc = with_qc new_sync_info qc

  advance-only_qc_low :
      (qc : QuorumCert) (r : Replica)
      → qc.view < r.current_view
      → (advance_view env (only_qc qc) r).1 ≡ idle
  unfolding advance_view with_qc new_sync_info
  advance-only_qc_low qc r h = ground (arith, update_high_qc-Frame env qc r)

  advance-only_qc_above :
      (qc : QuorumCert) (r : Replica)
      → IsSmall qc
      → ((advance_view env (only_qc qc) r).1 ≡ idle)
        ⊎ (qc.view < (advance_view env (only_qc qc) r).0.current_view)
  unfolding advance_view with_qc new_sync_info
  advance-only_qc_above qc r h = ground arith

  on_propose-calls :
      (msg : ProposeMsg) (r : Replica)
      → let c = (on_propose env msg r).1 in
        (c ≡ idle) ⊎ (c ≡ advance_view_call (only_qc msg.block.cert))
  unfolding on_propose with_qc new_sync_info
  on_propose-calls msg r = ground arith

  abbrev Carries : QuorumCert → Call → Type 0
  Carries qc c =
      (c ≡ idle) ⊎ ((msg : ProposeMsg) × (c ≡ on_propose_call msg) × (msg.block.cert ≡ qc))

  propose_command-calls :
      (si : SyncInfo) (cmd : List ℕ) (r : Replica)
      → env.proposer ≢ forking
      → Carries (qc_or_zero si.qc) (propose_command env si cmd r).1
  unfolding propose_command
  propose_command-calls si cmd r h = ground arith

  propose_next-calls :
      (si : SyncInfo) (r : Replica)
      → env.proposer ≢ forking
      → Carries (qc_or_zero si.qc) (propose_next env si r).1
  unfolding propose_next
  propose_next-calls si r h =
      let (commands, cmd) = get_batch env.marshal (env.wakes r) r.commands in
      let r' = record r { commands = commands } in
      elim (Option-cases cmd) [
        | inl no_batch ↦ ground arith
        | inr (c, batch) ↦ ground (arith, propose_command-calls si c r' h)
      ]

  propose-calls :
      (si : SyncInfo) (r : Replica)
      → env.proposer ≢ forking
      → Carries (qc_or_zero si.qc) (propose env si r).1
  unfolding propose
  propose-calls si r h = elim (Option-cases si.qc) [
    | inl no_qc ↦ ground (arith, propose_next-calls si r h)
    | inr (qc, has_qc) ↦
        let (r', found) = get_block env qc.hash r in
        elim (Option-cases found) [
          | inl missing ↦ ground arith
          | inr (b, there) ↦ ground (arith, propose_next-calls si (note_proposed env (some b) r') h)
        ]
  ]

  -- How many calls are left, from the last stage back to the first.

  run-idle : (n : ℕ) (r : Replica) → (run env n idle r).1 ≡ idle
  unfolding run handle
  run-idle zero r = refl
  run-idle (suc n) r = run-idle n r

  abbrev Ends : ℕ → Call → Replica → Type 0
  Ends n call r = (run env n call r).1 ≡ idle

  -- One call, when all that it may call next ends.
  next-Ends :
      (n : ℕ) (call next : Call) (r : Replica)
      → ((handle env call r).1 ≡ idle) ⊎ ((handle env call r).1 ≡ next)
      → Ends n next (handle env call r).0
      → Ends (suc n) call r
  unfolding run
  next-Ends n call next r (inl stop) h =
      let r' = (handle env call r).0 in subst (λ c. Ends n c r') (sym stop) (run-idle n r')
  next-Ends n call next r (inr on) h = subst (λ c. Ends n c (handle env call r).0) (sym on) h

  low_advance :
      (n : ℕ) (qc : QuorumCert) (r : Replica)
      → qc.view < r.current_view
      → Ends (suc n) (advance_view_call (only_qc qc)) r
  unfolding handle
  low_advance n qc r h =
      let r' = (advance_view env (only_qc qc) r).0 in
      next-Ends n (advance_view_call (only_qc qc)) idle r (inl (advance-only_qc_low qc r h))
        (run-idle n r')

  low_on_propose :
      (n : ℕ) (msg : ProposeMsg) (r : Replica)
      → msg.block.cert.view < r.current_view
      → Ends (suc (suc n)) (on_propose_call msg) r
  unfolding handle
  low_on_propose n msg r h =
      next-Ends (suc n) (on_propose_call msg) (advance_view_call (only_qc msg.block.cert)) r
        (on_propose-calls msg r)
        (low_advance n msg.block.cert (on_propose env msg r).0
          (omega (arith, on_propose-Votes env msg r)))

  -- A proposal that carries a certificate, and what comes after it.
  proposal-Ends :
      (n : ℕ) (si : SyncInfo) (r : Replica)
      → env.proposer ≢ forking
      → ((msg : ProposeMsg)
          → msg.block.cert ≡ qc_or_zero si.qc
          → Ends n (on_propose_call msg) (propose env si r).0)
      → Ends (suc n) (propose_call si) r
  unfolding handle
  proposal-Ends n si r p h = elim (propose-calls si r p) [
    | inl stop ↦ next-Ends n (propose_call si) idle r (inl stop) (run-idle n (propose env si r).0)
    | inr (msg, calls, carried) ↦
        next-Ends n (propose_call si) (on_propose_call msg) r (inr calls) (h msg carried)
  ]

  low_propose :
      (n : ℕ) (si : SyncInfo) (r : Replica)
      → env.proposer ≢ forking
      → (qc_or_zero si.qc).view < r.current_view
      → Ends (suc (suc (suc n))) (propose_call si) r
  low_propose n si r p h = proposal-Ends (suc (suc n)) si r p λ msg carried.
      low_on_propose n msg (propose env si r).0 (rw carried (omega (arith, propose-Frame env si r)))

  advance-Ends :
      (n : ℕ) (qc : QuorumCert) (r : Replica)
      → env.proposer ≢ forking
      → IsSmall qc
      → Ends (suc (suc (suc (suc n)))) (advance_view_call (only_qc qc)) r
  unfolding handle with_qc new_sync_info
  advance-Ends n qc r p small =
      let m = suc (suc (suc n)) in
      let after = (advance_view env (only_qc qc) r).0 in
      elim (advance-only_qc_above qc r small) [
        | inl stop ↦
            next-Ends m (advance_view_call (only_qc qc)) idle r (inl stop) (run-idle m after)
        | inr above ↦
            next-Ends m (advance_view_call (only_qc qc)) (propose_call (only_qc qc)) r
              (advance_view-calls (only_qc qc) r) (low_propose n (only_qc qc) after p above)
      ]

  on_propose-Ends :
      (n : ℕ) (msg : ProposeMsg) (r : Replica)
      → env.proposer ≢ forking
      → IsSmall msg.block.cert
      → Ends (suc (suc (suc (suc (suc n))))) (on_propose_call msg) r
  unfolding handle
  on_propose-Ends n msg r p small =
      (next-Ends (suc (suc (suc (suc n)))) (on_propose_call msg)
        (advance_view_call (only_qc msg.block.cert)) r (on_propose-calls msg r)
        (advance-Ends n msg.block.cert (on_propose env msg r).0 p small))

  propose-Ends :
      (n : ℕ) (si : SyncInfo) (r : Replica)
      → env.proposer ≢ forking
      → IsSmall (qc_or_zero si.qc)
      → Ends (suc (suc (suc (suc (suc (suc n)))))) (propose_call si) r
  propose-Ends n si r p small =
      proposal-Ends (suc (suc (suc (suc (suc n))))) si r p
        λ msg carried. on_propose-Ends n msg (propose env si r).0 p (rw carried small)

  -- If the replica follows the protocol or stays silent, and the view after that of the quorum
  -- certificate in the first call fits 64 bits, then the chain of calls that it starts has ended after
  -- seven calls, whichever of the handlers is called first: nothing is left to call.
  pub run-ends :
      (call : Call) (r : Replica)
      → env.proposer ≢ forking
      → CallIsSmall call
      → (run env call_bound call r).1 ≡ idle
  unfolding handle
  run-ends idle r p small = run-idle call_bound r
  run-ends (propose_call si) r p small = propose-Ends 1 si r p small
  run-ends (on_propose_call msg) r p small = on_propose-Ends 2 msg r p small
  run-ends (advance_view_call si) r p small =
      next-Ends 6 (advance_view_call si) (propose_call si) r (advance_view-calls si r)
        (propose-Ends 0 si (advance_view env si r).0 p small)
