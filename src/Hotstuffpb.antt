-- ===== src/Hotstuffpb.antt =====
-- The messages of internal/proto/hotstuffpb as their protobuf definition declares them. A message
-- that is absent is `none`, and what its getters then return is written out in Convert.
use hotstuff_repbased_leader.Prelude.{ℕ, Option, List, Dict}
pub mod Bytes
pub mod Convert
pub mod Signatures
pub mod RoundTrip

pub record EcdsaSignature : Type 0 where
  pub signer : ℕ
  pub r : List ℕ
  pub s : List ℕ

-- The oneof of `Signature`.
pub data Signature : Type 0 where
  no_sig : Signature
  ecdsa_sig : EcdsaSignature → Signature
  bls12_sig : List ℕ → Signature

-- The oneof of `ThresholdSignature`.
pub data ThresholdSignature : Type 0 where
  no_agg_sig : ThresholdSignature
  ecdsa_sigs : List EcdsaSignature → ThresholdSignature
  bls12_agg_sig : List ℕ → List ℕ → ThresholdSignature

pub record PartialCert : Type 0 where
  pub sig : Option Signature
  pub hash : List ℕ

pub record QuorumCert : Type 0 where
  pub sig : Option ThresholdSignature
  pub view : ℕ
  pub hash : List ℕ

pub record TimeoutCert : Type 0 where
  pub sig : Option ThresholdSignature
  pub view : ℕ

-- The map of certificates in the order of a range over it.
pub record AggQc : Type 0 where
  pub qcs : Dict QuorumCert
  pub sig : Option ThresholdSignature
  pub view : ℕ

pub record SyncInfo : Type 0 where
  pub qc : Option QuorumCert
  pub tc : Option TimeoutCert
  pub agg_qc : Option AggQc

pub record Block : Type 0 where
  pub parent : List ℕ
  pub qc : Option QuorumCert
  pub view : ℕ
  pub command : List ℕ
  pub proposer : ℕ

pub record Proposal : Type 0 where
  pub block : Option Block
  pub agg_qc : Option AggQc

pub record TimeoutMsg : Type 0 where
  pub view : ℕ
  pub sync_info : Option SyncInfo
  pub view_sig : Option Signature
  pub msg_sig : Option Signature
