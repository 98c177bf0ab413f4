-- ===== src/Crypto/Ecdsa.antt =====
-- crypto/ecdsa/ecdsa.go: threshold signatures as sets of ECDSA signatures. The curve's own signing
-- and checking are parameters, and so is the check through the registered verifier
-- (`mods.Crypto().Verify`), which may cache. Errors are kept as their kinds.
pub mod Quorums
pub mod MessageSets
use hotstuff_repbased_leader.Prelude.{
  ℕ, suc, Bool, true, false, Option, none, some, List, [], ◌∷◌, ◌++◌, ltb, leb, if◌then◌else◌, Dict,
  lookup, insert, elem, length,
}
use hotstuff_repbased_leader.Types.{
  EcdsaSignature, Signature, ecdsa, bls12, signer, ThresholdSignature, ecdsa_set, aggregate,
}

pub data CryptoError : Type 0 where
  not_a_quorum partial_duplicate wrong_type : CryptoError

pub data Outcome : Type 0 where
  signature_set : Dict EcdsaSignature → Outcome
  failed : List CryptoError → Outcome

-- `RestoreThresholdSignature`: a later signature of the same signer wins.
unfoldable pub restore_threshold_signature :
    List EcdsaSignature → Dict EcdsaSignature → Dict EcdsaSignature
restore_threshold_signature [] sig = sig
restore_threshold_signature (s ∷ ss) sig = restore_threshold_signature ss (insert s.signer s sig)

unfoldable pub contains_id : ℕ → Dict EcdsaSignature → Bool
contains_id id sig = elim (lookup id sig) [ none ↦ false | some _ ↦ true ]

module _ (id : ℕ) (curve_sign : ℕ → Option (ℕ × ℕ)) where
  unfoldable pub sign : ℕ → Option Signature
  sign hash = elim (curve_sign hash) [
    | none ↦ none
    | some (r, s) ↦ some (ecdsa (record { r = r; s = s; signer = id }))
  ]

-- `Verify`: the replica must be in the configuration. The check of the curve takes its public key.
unfoldable pub verify : List ℕ → (EcdsaSignature → ℕ → Bool) → Option Signature → ℕ → Bool
verify replicas curve_verify (some (ecdsa s)) hash =
    if elem s.signer replicas then curve_verify s hash else false
verify replicas curve_verify (some (bls12 s)) hash = false
verify replicas curve_verify none hash = false

-- The set so far and the errors.
abbrev pub Progress : Type 0
Progress = Dict EcdsaSignature × List CryptoError

module _ (registered : Signature → ℕ → Bool) (quorum : ℕ) where
  -- One round of the loop, past the test for a duplicate.
  unfoldable pub add_signature : Signature → ℕ → Progress → Progress
  add_signature (ecdsa s) hash (sigs, errors) =
      if registered (ecdsa s) hash then (insert s.signer s sigs, errors) else (sigs, errors)
  add_signature (bls12 s) hash (sigs, errors) = (sigs, errors ++ wrong_type ∷ [])

  unfoldable pub add_partial : Signature → ℕ → Progress → Progress
  unfolding contains_id signer
  add_partial s hash (sigs, errors) =
      if contains_id (signer s) sigs
      then (sigs, errors ++ partial_duplicate ∷ [])
      else add_signature s hash (sigs, errors)

  unfoldable pub add_partials : List Signature → ℕ → Progress → Progress
  unfolding add_partial add_signature
  add_partials [] hash p = p
  add_partials (s ∷ ss) hash p = add_partials ss hash (add_partial s hash p)

  unfoldable pub finish : Progress → Outcome
  finish (sigs, errors) =
      if leb quorum (length sigs) then signature_set sigs else failed (not_a_quorum ∷ errors)

  unfoldable pub create_threshold_signature : List Signature → ℕ → Outcome
  unfolding add_partials finish
  create_threshold_signature partials hash = finish (add_partials partials hash ([], []))

  -- The loop of `CreateThresholdSignatureForMessageSet`: a signer with no hash is passed over.
  unfoldable pub add_partials_for_set : List Signature → Dict ℕ → Progress → Progress
  unfolding add_signature contains_id signer
  add_partials_for_set [] hashes p = p
  add_partials_for_set (s ∷ ss) hashes (sigs, errors) = add_partials_for_set ss hashes (
      if contains_id (signer s) sigs
      then (sigs, errors ++ partial_duplicate ∷ [])
      else elim (lookup (signer s) hashes) [
        | none ↦ (sigs, errors)
        | some hash ↦ add_signature s hash (sigs, errors)
      ])

  unfoldable pub create_threshold_signature_for_message_set : List Signature → Dict ℕ → Outcome
  unfolding add_partials_for_set finish
  create_threshold_signature_for_message_set partials hashes =
      finish (add_partials_for_set partials hashes ([], []))

  -- The number of results that are true; the order in which the goroutines end does not matter.
  unfoldable pub num_verified : Dict EcdsaSignature → ℕ → ℕ
  num_verified [] hash = 0
  num_verified ((_, s) ∷ sigs) hash =
      let rest = num_verified sigs hash in if registered (ecdsa s) hash then suc rest else rest

  unfoldable pub verify_threshold_signature : Option ThresholdSignature → ℕ → Bool
  unfolding num_verified
  verify_threshold_signature (some (ecdsa_set sigs)) hash =
      if ltb (length sigs) quorum then false else leb quorum (num_verified sigs hash)
  verify_threshold_signature (some (aggregate _ _)) hash = false
  verify_threshold_signature none hash = false
