-- ===== src/Hotstuffpb/Signatures.antt =====
-- The signatures of internal/proto/hotstuffpb/convert.go, to messages and back.
use mathlib.Core.List.{append-nil}
use hotstuff_repbased_leader.Prelude.{
  ℕ, ◌^◌, ◌<◌, ◌≡◌, refl, sym, ap, ◌∙◌, Option, none, some, List, [], ◌∷◌, ◌++◌, Dict, All,
  DistinctKeys, insert_all, insert_all-append, insert, arith,
}
use hotstuff_repbased_leader.Types
use hotstuff_repbased_leader.Types.{ecdsa, bls12, ecdsa_set, aggregate, le_bytes, be_bytes}
use hotstuff_repbased_leader.Crypto.Ecdsa.{restore_threshold_signature}
use hotstuff_repbased_leader.Hotstuffpb.Bytes.{le_value, set_bytes-be_bytes, le_value-le_bytes}
use hotstuff_repbased_leader.Hotstuffpb.Convert.{
  ecdsa_to_proto, signature_to_proto, sigs_to_proto, threshold_to_proto, ecdsa_from_proto,
  sigs_from_proto, bls12_from_bytes, signature_from_proto, threshold_from_proto,
}

-- The number of a 32-byte array.
abbrev pub IsHash : ℕ → Type 0
IsHash h = h < 256 ^ 32

pub read_hash : (h : ℕ) → IsHash h → le_value 32 (le_bytes 32 h) ≡ h
read_hash h fits = rw append-nil at (le_value-le_bytes 32 h [] fits)

-- Every signature is filed under its signer.
abbrev pub IsFiled : ℕ × Types.EcdsaSignature → Type 0
IsFiled e = e.0 ≡ e.1.signer

module _ (from_compressed : List ℕ → Option (List ℕ)) where
  -- The bytes of a point that the library compressed are read as the point.
  abbrev pub IsPoint : List ℕ → Type 0
  IsPoint bytes = from_compressed bytes ≡ some bytes

  abbrev pub IsSendable : Option Types.Signature → Type 0
  IsSendable (some (bls12 s)) = (s.signer < 256 ^ 4) × IsPoint s.point
  IsSendable (some (ecdsa s)) = Unit
  IsSendable none = Unit

  abbrev pub IsThreshold : Option Types.ThresholdSignature → Type 0
  IsThreshold (some (ecdsa_set sigs)) = All IsFiled sigs × DistinctKeys sigs
  IsThreshold (some (aggregate sig participants)) = IsPoint sig
  IsThreshold none = Unit

  ecdsa_from_proto-ecdsa_to_proto :
      (s : Types.EcdsaSignature) → ecdsa_from_proto (ecdsa_to_proto s) ≡ s
  unfolding ecdsa_from_proto ecdsa_to_proto
  ecdsa_from_proto-ecdsa_to_proto s =
      ground (arith, set_bytes-be_bytes s.r s.r, set_bytes-be_bytes s.s s.s)

  bls12_from_bytes_lem :
      (s : Types.Bls12Signature)
      → s.signer < 256 ^ 4
      → IsPoint s.point
      → bls12_from_bytes from_compressed (le_bytes 4 s.signer ++ s.point) ≡ some (some (bls12 s))
  unfolding bls12_from_bytes le_bytes
  bls12_from_bytes_lem s fits point = ground (arith, le_value-le_bytes 4 s.signer s.point fits)

  pub signature_from_proto-signature_to_proto :
      (sig : Option Types.Signature)
      → IsSendable sig
      → signature_from_proto from_compressed (some (signature_to_proto sig)) ≡ some sig
  unfolding signature_from_proto signature_to_proto
  signature_from_proto-signature_to_proto none h = refl
  signature_from_proto-signature_to_proto (some (ecdsa s)) h =
      ap (λ t. some (some (ecdsa t))) (ecdsa_from_proto-ecdsa_to_proto s)
  signature_from_proto-signature_to_proto (some (bls12 s)) h = bls12_from_bytes_lem s h.0 h.1

  restored :
      (sigs found : Dict Types.EcdsaSignature)
      → All IsFiled sigs
      → restore_threshold_signature (sigs_from_proto (sigs_to_proto sigs)) found
        ≡ insert_all sigs found
  unfolding restore_threshold_signature sigs_from_proto sigs_to_proto
  restored [] found h = refl
  restored ((k, s) ∷ sigs) found h =
      ap
        (λ t.
          restore_threshold_signature (sigs_from_proto (sigs_to_proto sigs))
            (insert (Types.EcdsaSignature.signer t) t found))
        (ecdsa_from_proto-ecdsa_to_proto s)
      ∙ restored sigs (insert s.signer s found) h.1
      ∙ ap (λ j. insert_all sigs (insert j s found)) (sym h.0)

  pub threshold_from_proto-threshold_to_proto :
      (sig : Option Types.ThresholdSignature)
      → IsThreshold sig
      → threshold_from_proto from_compressed (some (threshold_to_proto sig)) ≡ sig
  unfolding threshold_from_proto threshold_to_proto
  threshold_from_proto-threshold_to_proto none h = refl
  threshold_from_proto-threshold_to_proto (some (ecdsa_set sigs)) h =
      ap (λ m. some (ecdsa_set m)) (restored sigs [] h.0 ∙ insert_all-append sigs [] h.1)
  threshold_from_proto-threshold_to_proto (some (aggregate sig participants)) h = rw h
