-- ===== src/Crypto/Base.antt =====
-- crypto/base.go: certificates over a signature scheme. The scheme is a parameter; an error is
-- `none`. A range over a map runs in the order of its association list.
use hotstuff_repbased_leader.Prelude.{
  ℕ, Bool, true, Option, none, some, List, [], ◌∷◌, ◌++◌, map, ltb, ◌==◌, if◌then◌else◌, Dict,
  insert,
}
use hotstuff_repbased_leader.Types.{
  Signature, ThresholdSignature, PartialCert, QuorumCert, TimeoutCert, AggregateQc, TimeoutMsg,
  Block, genesis, timeout_hash, new_sync_info, with_qc,
}

-- `consensus.CryptoImpl`.
pub record CryptoImpl : Type 0 where
  pub sign : ℕ → Option Signature
  pub verify : Option Signature → ℕ → Bool
  pub create_threshold_signature : List (Option Signature) → ℕ → Option ThresholdSignature
  pub create_threshold_signature_for_message_set :
      List (Option Signature) → Dict ℕ → Option ThresholdSignature
  pub verify_threshold_signature : Option ThresholdSignature → ℕ → Bool
  pub verify_threshold_signature_for_message_set : Option ThresholdSignature → Dict ℕ → Bool

-- The outcome of `VerifyAggregateQC`. With no certificate inside, a signature that verifies leads to
-- the dereference of nil.
pub data AggregateCheck : Type 0 where
  valid : QuorumCert → AggregateCheck
  invalid : AggregateCheck
  nil_dereference : AggregateCheck

-- The certificates and the signatures that `CreateAggregateQC` collects.
pub record Collected : Type 0 where
  pub qcs : Dict QuorumCert
  pub sigs : List (Option Signature)
  pub hashes : Dict ℕ

module _ (sha256 : List ℕ → ℕ) where
  unfoldable pub collect_qc : TimeoutMsg → Dict QuorumCert → Dict QuorumCert
  collect_qc t qcs = elim t.sync_info.qc [ none ↦ qcs | some qc ↦ insert t.id qc qcs ]

  unfoldable pub collect_sig : TimeoutMsg → Collected → Collected
  unfolding collect_qc
  collect_sig t c =
      let c' = record c { qcs = collect_qc t c.qcs } in
      elim t.msg_signature [
        | none ↦ c'
        | some sig ↦ record c' {
          sigs = c.sigs ++ some sig ∷ [];
          hashes = insert t.id (timeout_hash sha256 t) c.hashes;
        }
      ]

  unfoldable pub collect : List TimeoutMsg → Collected → Collected
  unfolding collect_sig
  collect [] c = c
  collect (t ∷ ts) c = collect ts (collect_sig t c)

  -- The hash of the timeout message that is rebuilt for a certificate.
  unfoldable pub rebuilt_hash : ℕ → ℕ → QuorumCert → ℕ
  rebuilt_hash view id qc = timeout_hash sha256 (record {
    id = id;
    view = view;
    view_signature = none;
    msg_signature = none;
    sync_info = with_qc new_sync_info qc;
  })

  -- The loop of `VerifyAggregateQC`: the first certificate of the highest view, and the hashes.
  unfoldable pub scan_qcs :
      ℕ → Dict QuorumCert → Option QuorumCert → Dict ℕ → Option QuorumCert × Dict ℕ
  unfolding rebuilt_hash
  scan_qcs view [] high hashes = (high, hashes)
  scan_qcs view ((id, qc) ∷ qcs) high hashes =
      scan_qcs view qcs
        (elim high [ none ↦ some qc | some h ↦ some (if ltb h.view qc.view then qc else h) ])
        (insert id (rebuilt_hash view id qc) hashes)

module _ (sha256 : List ℕ → ℕ) (impl : CryptoImpl) where
  unfoldable pub create_partial_cert : Block → Option PartialCert
  create_partial_cert block = elim (impl.sign block.hash) [
    | none ↦ none
    | some sig ↦ some (record { signature = some sig; block_hash = block.hash })
  ]

  unfoldable pub create_quorum_cert : Block → List PartialCert → Option QuorumCert
  create_quorum_cert block certs =
      if block.hash == (genesis sha256).hash
      then some (record { signature = none; view = 0; hash = (genesis sha256).hash })
      else elim (impl.create_threshold_signature (map (λ c. c.signature) certs) block.hash) [
        | none ↦ none
        | some sig ↦ some (record { signature = some sig; view = block.view; hash = block.hash })
      ]

  unfoldable pub create_timeout_cert : ℕ → List TimeoutMsg → Option TimeoutCert
  create_timeout_cert view timeouts =
      if view == 0
      then some (record { signature = none; view = 0 })
      else elim (impl.create_threshold_signature (map (λ t. t.view_signature) timeouts) view) [
        | none ↦ none
        | some sig ↦ some (record { signature = some sig; view = view })
      ]

  unfoldable pub create_aggregate_qc : ℕ → List TimeoutMsg → Option AggregateQc
  unfolding collect
  create_aggregate_qc view timeouts =
      let c = collect sha256 timeouts (record { qcs = []; sigs = []; hashes = [] }) in
      elim (impl.create_threshold_signature_for_message_set c.sigs c.hashes) [
        | none ↦ none
        | some sig ↦ some (record { qcs = c.qcs; sig = some sig; view = view })
      ]

  unfoldable pub verify_partial_cert : PartialCert → Bool
  verify_partial_cert cert = impl.verify cert.signature cert.block_hash

  unfoldable pub verify_quorum_cert : QuorumCert → Bool
  verify_quorum_cert qc =
      if qc.hash == (genesis sha256).hash
      then true
      else impl.verify_threshold_signature qc.signature qc.hash

  unfoldable pub verify_timeout_cert : TimeoutCert → Bool
  verify_timeout_cert tc =
      if tc.view == 0 then true else impl.verify_threshold_signature tc.signature tc.view

  unfoldable pub check_high : Option QuorumCert → AggregateCheck
  unfolding verify_quorum_cert
  check_high none = nil_dereference
  check_high (some qc) = if verify_quorum_cert qc then valid qc else invalid

  unfoldable pub verify_aggregate_qc : AggregateQc → AggregateCheck
  unfolding scan_qcs check_high
  verify_aggregate_qc agg =
      let (high, hashes) = scan_qcs sha256 agg.view agg.qcs none [] in
      if impl.verify_threshold_signature_for_message_set agg.sig hashes
      then check_high high
      else invalid
