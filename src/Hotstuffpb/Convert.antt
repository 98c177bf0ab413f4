-- ===== src/Hotstuffpb/Convert.antt =====
-- internal/proto/hotstuffpb/convert.go, and the restoring of signatures in crypto/bls12/bls12.go. A
-- point of the curve is its compressed bytes, and the library's `FromCompressed` is a parameter. A
-- conversion that can panic returns `none` for the panic.
use mathlib.Core.Option
use hotstuff_repbased_leader.Prelude.{
  ℕ, true, false, Option, none, some, List, [], ◌∷◌, map, ltb, Dict, insert, length,
}
use hotstuff_repbased_leader.Types
use hotstuff_repbased_leader.Types.{
  ecdsa, bls12, ecdsa_set, aggregate, be_bytes, le_bytes, signature_bytes, new_sync_info, with_qc,
  with_tc, with_agg_qc, new_block,
}
use hotstuff_repbased_leader.Crypto.Ecdsa.{restore_threshold_signature}
use hotstuff_repbased_leader.Hotstuffpb.{
  EcdsaSignature, Signature, no_sig, ecdsa_sig, bls12_sig, ThresholdSignature, no_agg_sig,
  ecdsa_sigs, bls12_agg_sig, PartialCert, QuorumCert, TimeoutCert, AggQc, SyncInfo, Block, Proposal,
  TimeoutMsg,
}
use hotstuff_repbased_leader.Hotstuffpb.Bytes.{set_bytes, le_value}

-- The conversions to messages.

unfoldable pub ecdsa_to_proto : Types.EcdsaSignature → EcdsaSignature
unfolding be_bytes
ecdsa_to_proto s = record { signer = s.signer; r = be_bytes s.r s.r; s = be_bytes s.s s.s }

unfoldable pub signature_to_proto : Option Types.Signature → Signature
unfolding ecdsa_to_proto signature_bytes
signature_to_proto none = no_sig
signature_to_proto (some (ecdsa s)) = ecdsa_sig (ecdsa_to_proto s)
signature_to_proto (some (bls12 s)) = bls12_sig (signature_bytes (bls12 s))

unfoldable pub sigs_to_proto : Dict Types.EcdsaSignature → List EcdsaSignature
unfolding ecdsa_to_proto
sigs_to_proto [] = []
sigs_to_proto ((_, s) ∷ sigs) = ecdsa_to_proto s ∷ sigs_to_proto sigs

unfoldable pub threshold_to_proto : Option Types.ThresholdSignature → ThresholdSignature
unfolding sigs_to_proto
threshold_to_proto none = no_agg_sig
threshold_to_proto (some (ecdsa_set sigs)) = ecdsa_sigs (sigs_to_proto sigs)
threshold_to_proto (some (aggregate sig participants)) = bls12_agg_sig sig participants

unfoldable pub partial_cert_to_proto : Types.PartialCert → PartialCert
unfolding signature_to_proto le_bytes
partial_cert_to_proto cert = record {
  sig = some (signature_to_proto cert.signature);
  hash = le_bytes 32 cert.block_hash;
}

unfoldable pub quorum_cert_to_proto : Types.QuorumCert → QuorumCert
unfolding threshold_to_proto le_bytes
quorum_cert_to_proto qc = record {
  sig = some (threshold_to_proto qc.signature);
  view = qc.view;
  hash = le_bytes 32 qc.hash;
}

unfoldable pub timeout_cert_to_proto : Types.TimeoutCert → TimeoutCert
unfolding threshold_to_proto
timeout_cert_to_proto tc = record { sig = some (threshold_to_proto tc.signature); view = tc.view }

unfoldable pub qcs_to_proto : Dict Types.QuorumCert → Dict QuorumCert
unfolding quorum_cert_to_proto
qcs_to_proto [] = []
qcs_to_proto ((id, qc) ∷ qcs) = (id, quorum_cert_to_proto qc) ∷ qcs_to_proto qcs

unfoldable pub aggregate_qc_to_proto : Types.AggregateQc → AggQc
unfolding qcs_to_proto threshold_to_proto
aggregate_qc_to_proto agg = record {
  qcs = qcs_to_proto agg.qcs;
  sig = some (threshold_to_proto agg.sig);
  view = agg.view;
}

unfoldable pub sync_info_to_proto : Types.SyncInfo → SyncInfo
unfolding quorum_cert_to_proto timeout_cert_to_proto aggregate_qc_to_proto
sync_info_to_proto si = record {
  qc = Option.map quorum_cert_to_proto si.qc;
  tc = Option.map timeout_cert_to_proto si.tc;
  agg_qc = Option.map aggregate_qc_to_proto si.agg_qc;
}

unfoldable pub block_to_proto : Types.Block → Block
unfolding quorum_cert_to_proto le_bytes
block_to_proto block = record {
  parent = le_bytes 32 block.parent;
  qc = some (quorum_cert_to_proto block.cert);
  view = block.view;
  command = block.cmd;
  proposer = block.proposer;
}

unfoldable pub proposal_to_proto : Types.ProposeMsg → Proposal
unfolding block_to_proto aggregate_qc_to_proto
proposal_to_proto proposal = record {
  block = some (block_to_proto proposal.block);
  agg_qc = Option.map aggregate_qc_to_proto proposal.aggregate_qc;
}

-- A nil signature is left out.
abbrev pub msg_sig_to_proto : Option Types.Signature → Option Signature
msg_sig_to_proto none = none
msg_sig_to_proto (some sig) = some (signature_to_proto (some sig))

unfoldable pub timeout_msg_to_proto : Types.TimeoutMsg → TimeoutMsg
unfolding signature_to_proto sync_info_to_proto
timeout_msg_to_proto t = record {
  view = t.view;
  sync_info = some (sync_info_to_proto t.sync_info);
  view_sig = some (signature_to_proto t.view_signature);
  msg_sig = msg_sig_to_proto t.msg_signature;
}

-- The conversions from messages.

unfoldable pub ecdsa_from_proto : EcdsaSignature → Types.EcdsaSignature
unfolding set_bytes
ecdsa_from_proto s = record { r = set_bytes s.r 0; s = set_bytes s.s 0; signer = s.signer }

unfoldable pub sigs_from_proto : List EcdsaSignature → List Types.EcdsaSignature
unfolding ecdsa_from_proto
sigs_from_proto sigs = map ecdsa_from_proto sigs

abbrev drop_id : List ℕ → List ℕ
drop_id (_ ∷ _ ∷ _ ∷ _ ∷ point) = point
drop_id _ = []

module _ (from_compressed : List ℕ → Option (List ℕ)) where
  -- `Signature.FromBytes`: fewer than the four bytes of the signer are a panic, and a point that
  -- cannot be read is an error, for which no signature is returned.
  unfoldable pub bls12_from_bytes : List ℕ → Option (Option Types.Signature)
  unfolding le_value
  bls12_from_bytes b = elim (ltb (length b) 4) [
    | true ↦ none
    | false ↦ some (
        Option.map (λ point. bls12 (record { signer = le_value 4 b; point = point }))
          (from_compressed (drop_id b)))
  ]

  unfoldable pub signature_from_proto : Option Signature → Option (Option Types.Signature)
  unfolding ecdsa_from_proto bls12_from_bytes
  signature_from_proto none = some none
  signature_from_proto (some no_sig) = some none
  signature_from_proto (some (ecdsa_sig s)) = some (some (ecdsa (ecdsa_from_proto s)))
  signature_from_proto (some (bls12_sig b)) = bls12_from_bytes b

  unfoldable pub threshold_from_proto : Option ThresholdSignature → Option Types.ThresholdSignature
  unfolding sigs_from_proto restore_threshold_signature
  threshold_from_proto none = none
  threshold_from_proto (some no_agg_sig) = none
  threshold_from_proto (some (ecdsa_sigs sigs)) =
      some (ecdsa_set (restore_threshold_signature (sigs_from_proto sigs) []))
  threshold_from_proto (some (bls12_agg_sig sig participants)) =
      Option.map (λ point. aggregate point participants) (from_compressed sig)

  unfoldable pub partial_cert_from_proto : PartialCert → Option Types.PartialCert
  unfolding signature_from_proto le_value
  partial_cert_from_proto cert =
      Option.map (λ sig. record { signature = sig; block_hash = le_value 32 cert.hash })
        (signature_from_proto cert.sig)

  unfoldable pub quorum_cert_from_proto : Option QuorumCert → Types.QuorumCert
  unfolding threshold_from_proto le_value
  quorum_cert_from_proto none = record { signature = none; view = 0; hash = 0 }
  quorum_cert_from_proto (some qc) = record {
    signature = threshold_from_proto qc.sig;
    view = qc.view;
    hash = le_value 32 qc.hash;
  }

  unfoldable pub timeout_cert_from_proto : TimeoutCert → Types.TimeoutCert
  unfolding threshold_from_proto
  timeout_cert_from_proto tc = record { signature = threshold_from_proto tc.sig; view = tc.view }

  unfoldable pub qcs_from_proto : Dict QuorumCert → Dict Types.QuorumCert → Dict Types.QuorumCert
  unfolding quorum_cert_from_proto
  qcs_from_proto [] qcs = qcs
  qcs_from_proto ((id, qc) ∷ rest) qcs =
      qcs_from_proto rest (insert id (quorum_cert_from_proto (some qc)) qcs)

  unfoldable pub aggregate_qc_from_proto : AggQc → Types.AggregateQc
  unfolding qcs_from_proto threshold_from_proto
  aggregate_qc_from_proto agg = record {
    qcs = qcs_from_proto agg.qcs [];
    sig = threshold_from_proto agg.sig;
    view = agg.view;
  }

  abbrev pub add_qc : Option QuorumCert → Types.SyncInfo → Types.SyncInfo
  add_qc none si = si
  add_qc (some qc) si = with_qc si (quorum_cert_from_proto (some qc))

  abbrev pub add_tc : Option TimeoutCert → Types.SyncInfo → Types.SyncInfo
  add_tc none si = si
  add_tc (some tc) si = with_tc si (timeout_cert_from_proto tc)

  abbrev pub add_agg_qc : Option AggQc → Types.SyncInfo → Types.SyncInfo
  add_agg_qc none si = si
  add_agg_qc (some agg) si = with_agg_qc si (aggregate_qc_from_proto agg)

  unfoldable pub sync_info_from_proto : Option SyncInfo → Types.SyncInfo
  unfolding new_sync_info with_qc with_tc with_agg_qc
  sync_info_from_proto none = new_sync_info
  sync_info_from_proto (some m) = add_agg_qc m.agg_qc (add_tc m.tc (add_qc m.qc new_sync_info))

  abbrev pub optional_signature :
      Option Signature → Option Signature → Option (Option Types.Signature)
  optional_signature none sig = some none
  optional_signature (some _) sig = signature_from_proto sig

  -- The test that precedes the message's signature is on the signature of the view.
  unfoldable pub timeout_msg_from_proto : TimeoutMsg → Option Types.TimeoutMsg
  unfolding signature_from_proto sync_info_from_proto
  timeout_msg_from_proto m = elim (signature_from_proto m.view_sig) [
    | none ↦ none
    | some view_sig ↦
        Option.map
          (λ msg_sig. record {
            id = 0;
            view = m.view;
            view_signature = view_sig;
            msg_signature = msg_sig;
            sync_info = sync_info_from_proto m.sync_info;
          })
          (optional_signature m.view_sig m.msg_sig)
  ]

  module _ (sha256 : List ℕ → ℕ) where
    unfoldable pub block_from_proto : Option Block → Types.Block
    unfolding quorum_cert_from_proto le_value new_block
    block_from_proto none = new_block sha256 0 (quorum_cert_from_proto none) [] 0 0
    block_from_proto (some b) =
        new_block sha256 (le_value 32 b.parent) (quorum_cert_from_proto b.qc) b.command b.view
          b.proposer

    unfoldable pub proposal_from_proto : Proposal → Types.ProposeMsg
    unfolding block_from_proto aggregate_qc_from_proto
    proposal_from_proto p = record {
      id = 0;
      block = block_from_proto p.block;
      aggregate_qc = Option.map aggregate_qc_from_proto p.agg_qc;
    }
