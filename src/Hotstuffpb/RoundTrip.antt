-- ===== src/Hotstuffpb/RoundTrip.antt =====
-- The certificates, blocks and messages of internal/proto/hotstuffpb/convert.go, to protobuf
-- messages and back.
use mathlib.Core.Option
use hotstuff_repbased_leader.Prelude.{
  ℕ, ◌≡◌, refl, ap, ◌∙◌, Option, none, some, List, [], ◌∷◌, Dict, All, DistinctKeys, insert_all,
  insert_all-append, insert, arith,
}
use hotstuff_repbased_leader.Types
use hotstuff_repbased_leader.Types.{
  block_bytes, new_block, new_sync_info, with_qc, with_tc, with_agg_qc,
}
use hotstuff_repbased_leader.Hotstuffpb.{Signature}
use hotstuff_repbased_leader.Hotstuffpb.Convert.{
  signature_to_proto, signature_from_proto, msg_sig_to_proto, partial_cert_to_proto,
  quorum_cert_to_proto, timeout_cert_to_proto, qcs_to_proto, aggregate_qc_to_proto,
  sync_info_to_proto, block_to_proto, proposal_to_proto, timeout_msg_to_proto,
  partial_cert_from_proto, quorum_cert_from_proto, timeout_cert_from_proto, qcs_from_proto,
  aggregate_qc_from_proto, sync_info_from_proto, block_from_proto, proposal_from_proto,
  timeout_msg_from_proto, add_qc, add_tc, add_agg_qc, optional_signature,
}
use hotstuff_repbased_leader.Hotstuffpb.Signatures.{
  IsHash, IsSendable, IsThreshold, read_hash, signature_from_proto-signature_to_proto,
  threshold_from_proto-threshold_to_proto,
}

abbrev pub IfPresent : {A : Type 0} → (A → Type 0) → Option A → Type 0
IfPresent P none = Unit
IfPresent P (some a) = P a

module _ (from_compressed : List ℕ → Option (List ℕ)) where
  abbrev pub IsPartial : Types.PartialCert → Type 0
  IsPartial cert = IsHash cert.block_hash × IsSendable from_compressed cert.signature

  abbrev pub IsQc : Types.QuorumCert → Type 0
  IsQc qc = IsHash qc.hash × IsThreshold from_compressed qc.signature

  abbrev pub IsAggregate : Types.AggregateQc → Type 0
  IsAggregate agg =
      DistinctKeys agg.qcs × All (λ e. IsQc e.1) agg.qcs × IsThreshold from_compressed agg.sig

  abbrev pub IsInfo : Types.SyncInfo → Type 0
  IsInfo si =
      IfPresent IsQc si.qc
      × IfPresent (λ tc. IsThreshold from_compressed tc.signature) si.tc
      × IfPresent IsAggregate si.agg_qc

  -- A partial certificate comes back as it was sent.
  pub partial_cert_round_trip :
      (cert : Types.PartialCert)
      → IsPartial cert
      → partial_cert_from_proto from_compressed (partial_cert_to_proto cert) ≡ some cert
  unfolding partial_cert_from_proto partial_cert_to_proto
  partial_cert_round_trip cert h = ground (
    arith,
    read_hash cert.block_hash h.0,
    signature_from_proto-signature_to_proto from_compressed cert.signature h.1,
  )

  pub quorum_cert_round_trip :
      (qc : Types.QuorumCert)
      → IsQc qc
      → quorum_cert_from_proto from_compressed (some (quorum_cert_to_proto qc)) ≡ qc
  unfolding quorum_cert_from_proto quorum_cert_to_proto
  quorum_cert_round_trip qc h = ground (
    arith,
    read_hash qc.hash h.0,
    threshold_from_proto-threshold_to_proto from_compressed qc.signature h.1,
  )

  pub timeout_cert_round_trip :
      (tc : Types.TimeoutCert)
      → IsThreshold from_compressed tc.signature
      → timeout_cert_from_proto from_compressed (timeout_cert_to_proto tc) ≡ tc
  unfolding timeout_cert_from_proto timeout_cert_to_proto
  timeout_cert_round_trip tc h =
      ground (arith, threshold_from_proto-threshold_to_proto from_compressed tc.signature h)

  rebuild_qcs :
      (qcs found : Dict Types.QuorumCert)
      → All (λ e. IsQc e.1) qcs
      → qcs_from_proto from_compressed (qcs_to_proto qcs) found ≡ insert_all qcs found
  unfolding qcs_from_proto qcs_to_proto
  rebuild_qcs [] found h = refl
  rebuild_qcs ((id, qc) ∷ qcs) found h =
      ap (λ c. qcs_from_proto from_compressed (qcs_to_proto qcs) (insert id c found))
        (quorum_cert_round_trip qc h.0)
      ∙ rebuild_qcs qcs (insert id qc found) h.1

  pub aggregate_qc_round_trip :
      (agg : Types.AggregateQc)
      → IsAggregate agg
      → aggregate_qc_from_proto from_compressed (aggregate_qc_to_proto agg) ≡ agg
  unfolding aggregate_qc_from_proto aggregate_qc_to_proto
  aggregate_qc_round_trip agg h = ground (
    arith,
    rebuild_qcs agg.qcs [] h.1,
    insert_all-append agg.qcs [] h.0,
    threshold_from_proto-threshold_to_proto from_compressed agg.sig h.2,
  )

  read_qc :
      (qc : Option Types.QuorumCert) (si : Types.SyncInfo)
      → IfPresent IsQc qc
      → si.qc ≡ none
      → add_qc from_compressed (Option.map quorum_cert_to_proto qc) si ≡ record si { qc = qc }
  unfolding with_qc
  read_qc none si h blank = ground arith
  read_qc (some qc) si h blank = ground (arith, quorum_cert_round_trip qc h)

  read_tc :
      (tc : Option Types.TimeoutCert) (si : Types.SyncInfo)
      → IfPresent (λ tc. IsThreshold from_compressed tc.signature) tc
      → si.tc ≡ none
      → add_tc from_compressed (Option.map timeout_cert_to_proto tc) si ≡ record si { tc = tc }
  unfolding with_tc
  read_tc none si h blank = ground arith
  read_tc (some tc) si h blank = ground (arith, timeout_cert_round_trip tc h)

  read_agg_qc :
      (agg : Option Types.AggregateQc) (si : Types.SyncInfo)
      → IfPresent IsAggregate agg
      → si.agg_qc ≡ none
      → add_agg_qc from_compressed (Option.map aggregate_qc_to_proto agg) si
        ≡ record si { agg_qc = agg }
  unfolding with_agg_qc
  read_agg_qc none si h blank = ground arith
  read_agg_qc (some agg) si h blank = ground (arith, aggregate_qc_round_trip agg h)

  -- A sync info comes back with the certificates that it has, and without those that it has not.
  pub sync_info_round_trip :
      (si : Types.SyncInfo)
      → IsInfo si
      → sync_info_from_proto from_compressed (some (sync_info_to_proto si)) ≡ si
  unfolding sync_info_from_proto sync_info_to_proto new_sync_info
  sync_info_round_trip si h = ground (
    arith,
    read_qc si.qc new_sync_info h.0 refl,
    read_tc si.tc (record new_sync_info { qc = si.qc }) h.1 refl,
    read_agg_qc si.agg_qc (record new_sync_info { qc = si.qc; tc = si.tc }) h.2 refl,
  )

  -- What the block carries, besides its hash, is of the right size and the scheme's own.
  abbrev pub IsBlock : Types.Block → Type 0
  IsBlock b = IsHash b.parent × IsQc b.cert

  read_aggregate :
      (agg : Option Types.AggregateQc)
      → IfPresent IsAggregate agg
      → Option.map (aggregate_qc_from_proto from_compressed) (Option.map aggregate_qc_to_proto agg)
        ≡ agg
  read_aggregate none h = refl
  read_aggregate (some agg) h = ap some (aggregate_qc_round_trip agg h)

  module _ (sha256 : List ℕ → ℕ) where
    -- The hash of the block is computed again.
    pub block_round_trip :
        (b : Types.Block)
        → IsBlock b
        → block_from_proto from_compressed sha256 (some (block_to_proto b))
          ≡ record b { hash = sha256 (block_bytes b) }
    unfolding block_from_proto block_to_proto block_bytes
    block_round_trip b h = ground (arith, read_hash b.parent h.0, quorum_cert_round_trip b.cert h.1)

    pub proposal_round_trip :
        (p : Types.ProposeMsg)
        → IsBlock p.block
        → IfPresent IsAggregate p.aggregate_qc
        → p.block.hash ≡ sha256 (block_bytes p.block)
        → proposal_from_proto from_compressed sha256 (proposal_to_proto p) ≡ record p { id = 0 }
    unfolding proposal_from_proto proposal_to_proto
    proposal_round_trip p block agg hashed =
        ground (arith, block_round_trip p.block block, read_aggregate p.aggregate_qc agg)

  read_msg_sig :
      (view_sig : Signature) (sig : Option Types.Signature)
      → IsSendable from_compressed sig
      → optional_signature from_compressed (some view_sig) (msg_sig_to_proto sig) ≡ some sig
  unfolding signature_from_proto
  read_msg_sig view_sig none h = refl
  read_msg_sig view_sig (some sig) h =
      signature_from_proto-signature_to_proto from_compressed (some sig) h

  pub timeout_msg_round_trip :
      (t : Types.TimeoutMsg)
      → IsSendable from_compressed t.view_signature
      → IsSendable from_compressed t.msg_signature
      → IsInfo t.sync_info
      → timeout_msg_from_proto from_compressed (timeout_msg_to_proto t) ≡ some (record t { id = 0 })
  unfolding timeout_msg_from_proto timeout_msg_to_proto
  timeout_msg_round_trip t view msg info = ground (
    arith,
    signature_from_proto-signature_to_proto from_compressed t.view_signature view,
    read_msg_sig (signature_to_proto t.view_signature) t.msg_signature msg,
    sync_info_round_trip t.sync_info info,
  )
