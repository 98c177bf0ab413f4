-- ===== src/Synchronizer/Certified.antt =====
-- What lets AdvanceView (synchronizer/synchronizer.go) leave a view.
use hotstuff_repbased_leader.Prelude.{
  ℕ, ◌≡◌, ◌<◌, ◌≤◌, refl, ◌∙◌, Bool, true, false, none, some, arith, ltb, Bool-cases, Option-cases,
  inl, inr, ◌⊎◌,
}
use hotstuff_repbased_leader.Types.{
  QuorumCert, TimeoutCert, SyncInfo, genesis, new_sync_info, with_qc, next_view,
}
use hotstuff_repbased_leader.Crypto.Base.{verify_quorum_cert, verify_timeout_cert}
use hotstuff_repbased_leader.State.{view_succeeded, Replica, Env}
use hotstuff_repbased_leader.Access.{emit}
use hotstuff_repbased_leader.HighQc.{update_high_qc}
use hotstuff_repbased_leader.Consensus.Frame.{update_high_qc-Frame}
use hotstuff_repbased_leader.Synchronizer.{
  enter_view, renew_ctx, raise_high_tc, notify_leader, advance_to, advance_qc, advance_view,
}

module _ (env : Env) where
  -- A certificate of a view that the sync info carries and that the scheme accepts. One with no
  -- certificate stands for view 0.
  pub data Certifies (si : SyncInfo) (view : ℕ) : Type 0 where
    by_timeout :
        (tc : TimeoutCert)
        → si.tc ≡ some tc
        → verify_timeout_cert env.sha256 env.impl tc ≡ true
        → tc.view ≡ view
        → Certifies si view
    by_quorum :
        (qc : QuorumCert)
        → si.tc ≡ none
        → si.qc ≡ some qc
        → verify_quorum_cert env.sha256 env.impl qc ≡ true
        → qc.view ≡ view
        → Certifies si view
    by_nothing : si.tc ≡ none → si.qc ≡ none → view ≡ 0 → Certifies si view

  -- The view that a step enters.
  abbrev pub Enters : SyncInfo → Replica → Replica → Type 0
  Enters si r r' =
      (r'.current_view ≡ r.current_view)
      ⊎ ((view : ℕ) × Certifies si view
          × (r.current_view ≤ view)
          × (r'.current_view ≡ next_view view)
          × (r'.last_timeout ≡ none))

  notify_leader_same :
      (si : SyncInfo) (r : Replica)
      → ((notify_leader env si r).0.current_view ≡ r.current_view)
        × ((notify_leader env si r).0.last_timeout ≡ r.last_timeout)
  unfolding notify_leader emit
  notify_leader_same si r = ground arith

  advance_to_lem :
      (view : ℕ) (timeout : Bool) (si : SyncInfo) (r : Replica)
      → (view < r.current_view)
          × ((advance_to env view timeout si r).0.current_view ≡ r.current_view)
        ⊎ ((r.current_view ≤ view)
            × ((advance_to env view timeout si r).0.current_view ≡ next_view view)
            × ((advance_to env view timeout si r).0.last_timeout ≡ none))
  unfolding advance_to enter_view renew_ctx emit
  advance_to_lem view timeout si r = elim (Bool-cases (ltb view r.current_view)) [
    | inl low ↦ inl (ground arith, ground arith)
    | inr high ↦
        let told = notify_leader_same si (enter_view view timeout r) in
        inr (ground arith, ground arith, ground arith)
  ]

  advance_to-Enters :
      (view : ℕ) (timeout : Bool) (si : SyncInfo) (r s : Replica)
      → s.current_view ≡ r.current_view
      → Certifies si view
      → Enters si r (advance_to env view timeout si s).0
  advance_to-Enters view timeout si r s same cert = elim (advance_to_lem view timeout si s) [
    | inl (_, stays) ↦ inl (stays ∙ same)
    | inr (high, entered, cleared) ↦ inr (view, cert, omega arith, entered, cleared)
  ]

  -- AdvanceView stays in its view, or it enters the view after one that is at least its own view and
  -- that the sync info certifies: by its timeout certificate if it has one, and else by its quorum
  -- certificate, which in either case the scheme accepts; with neither, it is view 0. A new view
  -- begins with no timeout sent.
  pub advance_view_lem : (si : SyncInfo) (r : Replica) → Enters si r (advance_view env si r).0
  unfolding advance_view advance_qc raise_high_tc emit
  advance_view_lem si r = elim (Option-cases si.tc) [
    | inr (tc, given) ↦ elim (Bool-cases (verify_timeout_cert env.sha256 env.impl tc)) [
      | inr refused ↦ inl (ground arith)
      | inl accepted ↦
          let to : (advance_view env si r).0
              ≡ (advance_to env tc.view true si (raise_high_tc tc r)).0 =
            ground arith in
          let same : (raise_high_tc tc r).current_view ≡ r.current_view = ground arith in
          rw to (
            advance_to-Enters tc.view true si r (raise_high_tc tc r) same
              (by_timeout tc given accepted refl))
    ]
    | inl no_tc ↦ elim (Option-cases si.qc) [
      | inl no_qc ↦
          let to : (advance_view env si r).0 ≡ (advance_to env 0 false si r).0 = ground arith in
          rw to (advance_to-Enters 0 false si r r refl (by_nothing no_tc no_qc refl))
      | inr (qc, given) ↦ elim (Bool-cases (verify_quorum_cert env.sha256 env.impl qc)) [
        | inr refused ↦ inl (ground arith)
        | inl accepted ↦
            let s = emit view_succeeded (update_high_qc env qc r) in
            let to : (advance_view env si r).0 ≡ (advance_to env qc.view false si s).0 =
              ground arith in
            let frame = update_high_qc-Frame env qc r in
            rw to (
              advance_to-Enters qc.view false si r s (ground arith)
                (by_quorum qc no_tc given accepted refl))
      ]
    ]
  ]

  -- A quorum certificate for the genesis block needs no signature, whatever view it claims: a
  -- sync info with such a certificate takes the replica from any view to the one after the
  -- claimed view, as long as the claimed view is not below its own.
  pub genesis_qc_advances :
      (view : ℕ) (r : Replica)
      → r.current_view ≤ view
      → (advance_view env
          (with_qc new_sync_info
            (record { signature = none; view = view; hash = (genesis env.sha256).hash }))
          r).0.current_view
        ≡ next_view view
  unfolding advance_view advance_qc verify_quorum_cert with_qc new_sync_info emit
  genesis_qc_advances view r h =
      let qc : QuorumCert = record {
        signature = none;
        view = view;
        hash = (genesis env.sha256).hash;
      } in
      let frame = update_high_qc-Frame env qc r in
      let s = emit view_succeeded (update_high_qc env qc r) in
      elim (advance_to_lem view false (with_qc new_sync_info qc) s) [
        | inl (low, stays) ↦ ground arith
        | inr (high, entered, cleared) ↦ ground arith
      ]
