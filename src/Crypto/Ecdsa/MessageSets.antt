-- ===== src/Crypto/Ecdsa/MessageSets.antt =====
-- VerifyThresholdSignatureForMessageSet of crypto/ecdsa/ecdsa.go: one check is started for each hash,
-- and one result is awaited for each signature. The results arrive in the order of the hashes.
use hotstuff_repbased_leader.Prelude.{
  ℕ, zero, suc, ◌+◌, ◌≡◌, ◌≤◌, ◌<◌, refl, ap, ◌∙◌, not, ◌&&◌, Bool, true, false, Option, none, some,
  List, [], ◌∷◌, arith, leb, ltb, if◌then◌else◌, Dict, lookup, elem, length, Option-cases,
  Bool-cases, inl, inr,
}
use hotstuff_repbased_leader.Types.{
  EcdsaSignature, Signature, ecdsa, ThresholdSignature, ecdsa_set, aggregate,
}

-- `waits_forever` is a receive that no sender is left for.
pub data SetCheck : Type 0 where
  answered : Bool → SetCheck
  waits_forever : SetCheck

module _ (registered : Signature → ℕ → Bool) where
  -- The first loop: the results of the checks, or none where it returns false: a hash occurs twice,
  -- or a signer has no signature.
  unfoldable pub start_checks : Dict EcdsaSignature → Dict ℕ → List ℕ → Option (List Bool)
  start_checks sig [] seen = some []
  start_checks sig ((id, hash) ∷ hashes) seen = elim (elem hash seen) [
    | true ↦ none
    | false ↦ elim (lookup id sig) [
      | none ↦ none
      | some s ↦ elim (start_checks sig hashes (hash ∷ seen)) [
        | none ↦ none
        | some results ↦ some (registered (ecdsa s) hash ∷ results)
      ]
    ]
  ]

  -- The second loop, over `n` signatures: the number of results that are true.
  unfoldable pub receive : ℕ → List Bool → ℕ → Option ℕ
  receive zero results verified = some verified
  receive (suc n) [] verified = none
  receive (suc n) (ok ∷ results) verified =
      receive n results (if ok then verified + 1 else verified)

  abbrev answer : ℕ → Option ℕ → SetCheck
  answer quorum none = waits_forever
  answer quorum (some verified) = answered (leb quorum verified)

  abbrev await : ℕ → ℕ → Option (List Bool) → SetCheck
  await quorum n none = answered false
  await quorum n (some results) = answer quorum (receive n results 0)

  unfoldable pub verify_threshold_signature_for_message_set :
      ℕ → Option ThresholdSignature → Dict ℕ → SetCheck
  verify_threshold_signature_for_message_set quorum (some (ecdsa_set sig)) hashes =
      await quorum (length sig) (start_checks sig hashes [])
  verify_threshold_signature_for_message_set quorum (some (aggregate _ _)) hashes = answered false
  verify_threshold_signature_for_message_set quorum none hashes = answered false

  abbrev present : Option EcdsaSignature → Bool
  present none = false
  present (some _) = true

  -- No hash occurs twice or among those seen, and each has a signature of its signer.
  abbrev pub are_signed : Dict EcdsaSignature → Dict ℕ → List ℕ → Bool
  are_signed sig [] seen = true
  are_signed sig ((id, hash) ∷ hashes) seen =
      not (elem hash seen) && (present (lookup id sig) && are_signed sig hashes (hash ∷ seen))

  abbrev valid : Option EcdsaSignature → ℕ → Bool
  valid none hash = false
  valid (some s) hash = registered (ecdsa s) hash

  -- How many of the hashes have a signature of their signer that verifies.
  abbrev pub num_valid : Dict EcdsaSignature → Dict ℕ → ℕ
  num_valid sig [] = 0
  num_valid sig ((id, hash) ∷ hashes) =
      if valid (lookup id sig) hash then suc (num_valid sig hashes) else num_valid sig hashes

  abbrev results_of : Dict EcdsaSignature → Dict ℕ → List Bool
  results_of sig [] = []
  results_of sig ((id, hash) ∷ hashes) = valid (lookup id sig) hash ∷ results_of sig hashes

  length-results_of :
      (sig : Dict EcdsaSignature) (hashes : Dict ℕ) → length (results_of sig hashes) ≡ length hashes
  length-results_of sig [] = refl
  length-results_of sig ((id, hash) ∷ hashes) = ap suc (length-results_of sig hashes)

  start_checks_lem :
      (sig : Dict EcdsaSignature) (hashes : Dict ℕ) (seen : List ℕ)
      → start_checks sig hashes seen
        ≡ (if are_signed sig hashes seen then some (results_of sig hashes) else none)
  unfolding start_checks
  start_checks_lem sig [] seen = refl
  start_checks_lem sig ((id, hash) ∷ hashes) seen = elim (Option-cases (lookup id sig)) [
    | inl missing ↦ ground arith
    | inr (s, found) ↦ ground (arith, start_checks_lem sig hashes (hash ∷ seen))
  ]

  receive_all :
      (sig : Dict EcdsaSignature) (hashes : Dict ℕ) (verified : ℕ)
      → receive (length hashes) (results_of sig hashes) verified
        ≡ some (verified + num_valid sig hashes)
  unfolding receive
  receive_all sig [] verified = ground arith
  receive_all sig ((id, hash) ∷ hashes) verified = elim (Bool-cases (valid (lookup id sig) hash)) [
    | inl ok ↦ ground (arith, receive_all sig hashes (verified + 1))
    | inr wrong ↦ ground (arith, receive_all sig hashes verified)
  ]

  receive_blocks :
      (n : ℕ) (results : List Bool) (verified : ℕ)
      → length results < n
      → receive n results verified ≡ none
  unfolding receive
  receive_blocks zero results verified h = elim h [ ]
  receive_blocks (suc n) [] verified h = refl
  receive_blocks (suc n) (b ∷ bs) verified h =
      receive_blocks n bs (if b then verified + 1 else verified) (omega arith)

  -- What the check answers, for a map of hashes with no more entries than there are signatures: no,
  -- if a hash occurs twice or has no signature of its signer; and otherwise, if every signature has
  -- a hash, whether at least a quorum of the hashes has a valid signature. If there are fewer hashes
  -- than signatures, it never answers.
  pub verify_set_lem :
      (quorum : ℕ) (sig : Dict EcdsaSignature) (hashes : Dict ℕ)
      → length hashes ≤ length sig
      → verify_threshold_signature_for_message_set quorum (some (ecdsa_set sig)) hashes ≡ (
          if are_signed sig hashes []
          then (if ltb (length hashes) (length sig)
              then waits_forever
              else answered (leb quorum (num_valid sig hashes)))
          else answered false)
  unfolding verify_threshold_signature_for_message_set
  verify_set_lem quorum sig hashes fits =
      ap (await quorum (length sig)) (start_checks_lem sig hashes [])
      ∙ elim (Bool-cases (are_signed sig hashes [])) [
        | inr unsigned ↦ rw unsigned
        | inl signed ↦ elim (Bool-cases (ltb (length hashes) (length sig))) [
          | inl fewer ↦ ground (
            arith,
            length-results_of sig hashes,
            receive_blocks (length sig) (results_of sig hashes) 0,
          )
          | inr all ↦
              let same : length sig ≡ length hashes = ground arith in
              ground (
                arith,
                ap (λ n. receive n (results_of sig hashes) 0) same,
                receive_all sig hashes 0,
              )
        ]
      ]
