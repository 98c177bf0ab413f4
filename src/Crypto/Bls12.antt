-- ===== src/Crypto/Bls12.antt =====
-- crypto/bls12/bls12.go: aggregate signatures on the curve BLS12-381. The pairing library is a
-- parameter, and a point is its compressed bytes. A panic is `none`, or an outcome of its own.
pub mod Sums
pub mod Quorums
use hotstuff_repbased_leader.Prelude.{
  ℕ, Bool, true, false, ◌&&◌, Option, none, some, List, [], ◌∷◌, ◌++◌, map, ltb, leb, ◌==◌,
  if◌then◌else◌, Dict, lookup, insert, length, elem,
}
use hotstuff_repbased_leader.Types.{
  Bls12Signature, Signature, ecdsa, bls12, signer, ThresholdSignature, ecdsa_set, aggregate,
  be_bytes,
}
use hotstuff_repbased_leader.Crypto.Bitfield.{Bitfield, add, for_each}
use hotstuff_repbased_leader.Crypto.Ecdsa.{CryptoError, not_a_quorum, partial_duplicate, wrong_type}
use hotstuff_repbased_leader.Hotstuffpb.Bytes.{set_bytes}

abbrev pub Point : Type 0
Point = List ℕ

-- The library's operations on the groups, and its pairing engine: `is_one s pairs` is the result for
-- the inverse pair of the generator with `s` and for the pairs of keys and points.
pub record Pairing : Type 0 where
  pub zero_point : Point
  pub add_points : Point → Point → Point
  pub mul_scalar : Point → ℕ → Point
  pub generator_times : ℕ → Point
  pub hash_to_curve : ℕ → Option Point
  pub is_one : Point → List (Point × Point) → Bool

-- `PrivateKey.ToBytes` and `FromBytes`.
unfoldable pub private_key_bytes : ℕ → List ℕ
unfolding be_bytes
private_key_bytes key = be_bytes key key

unfoldable pub private_key_from_bytes : List ℕ → ℕ
unfolding set_bytes
private_key_from_bytes bytes = set_bytes bytes 0

-- The signatures by signer, and the errors.
abbrev pub Progress : Type 0
Progress = Dict Bls12Signature × List CryptoError

pub data Outcome : Type 0 where
  aggregated : Point → Bitfield → Outcome
  -- a nil pointer in an interface that is not nil
  nil_aggregate : Outcome
  failed : List CryptoError → Outcome
  panicked : Outcome

-- One round of the loop of `CreateThresholdSignature`.
unfoldable pub collect_signature : Signature → Progress → Progress
unfolding signer
collect_signature sig (sigs, errors) = elim (lookup (signer sig) sigs) [
  | some _ ↦ (sigs, errors ++ partial_duplicate ∷ [])
  | none ↦ elim sig [
    | ecdsa _ ↦ (sigs, errors ++ wrong_type ∷ [])
    | bls12 s ↦ (insert s.signer s sigs, errors)
  ]
]

unfoldable pub collect_signatures : List Signature → Progress → Progress
collect_signatures [] p = p
collect_signatures (sig ∷ sigs) p = collect_signatures sigs (collect_signature sig p)

module _ (lib : Pairing) where
  -- `Public`.
  unfoldable pub public_key : ℕ → Point
  public_key key = lib.generator_times key

  -- `Sign`, with the replica's ID and private key.
  unfoldable pub sign : ℕ → ℕ → ℕ → Option Signature
  sign id key hash = elim (lib.hash_to_curve hash) [
    | none ↦ none
    | some p ↦ some (bls12 (record { signer = id; point = lib.mul_scalar p key }))
  ]

  -- The loop of `aggregateSignatures`.
  unfoldable pub sum_signatures : Dict Bls12Signature → Point → Bitfield → Option (Point × Bitfield)
  sum_signatures [] sig bm = some (sig, bm)
  sum_signatures ((id, s) ∷ sigs) sig bm = elim (add id bm) [
    | none ↦ none
    | some bm' ↦ sum_signatures sigs (lib.add_points sig s.point) bm'
  ]

  abbrev outcome_of : Option (Point × Bitfield) → Outcome
  outcome_of none = panicked
  outcome_of (some (sig, bm)) = aggregated sig bm

  unfoldable pub aggregate_signatures : Dict Bls12Signature → Outcome
  aggregate_signatures [] = nil_aggregate
  aggregate_signatures ((id, s) ∷ sigs) =
      outcome_of (sum_signatures ((id, s) ∷ sigs) lib.zero_point [])

  -- `CreateThresholdSignature`, and that for a message set, which passes its call on.
  unfoldable pub create_threshold_signature : ℕ → List Signature → Outcome
  create_threshold_signature quorum partials =
      let (sigs, errors) = collect_signatures partials ([], []) in
      if ltb (length partials) quorum
      then failed (not_a_quorum ∷ [])
      else if ltb (length sigs) quorum
      then failed (not_a_quorum ∷ errors)
      else aggregate_signatures sigs

  -- The public keys of the configuration by ID.
  module _ (keys : Dict Point) where
    abbrev pair_is_one : Point → Point → Option Point → Bool
    pair_is_one sig pk none = false
    pair_is_one sig pk (some p) = lib.is_one sig ((pk, p) ∷ [])

    -- `Verify`: a signer outside the configuration is only logged, and the nil replica has no key.
    unfoldable pub verify : Option Signature → ℕ → Option Bool
    verify (some (bls12 s)) hash = elim (lookup s.signer keys) [
      | none ↦ none
      | some pk ↦ some (pair_is_one s.point pk (lib.hash_to_curve hash))
    ]
    verify (some (ecdsa s)) hash = none
    verify none hash = none

    unfoldable pub public_keys : List ℕ → List Point
    public_keys [] = []
    public_keys (id ∷ ids) =
        let rest = public_keys ids in elim (lookup id keys) [ none ↦ rest | some pk ↦ pk ∷ rest ]

    abbrev pair_with : Point → List Point → List (Point × Point)
    pair_with p pks = map (λ pk. (pk, p)) pks

    unfoldable pub check_aggregate : ℕ → Point → List Point → Option Point → Bool
    check_aggregate quorum sig pks none = false
    check_aggregate quorum sig pks (some p) =
        if ltb (length pks) quorum then false else lib.is_one sig (pair_with p pks)

    unfoldable pub verify_threshold_signature : ℕ → Option ThresholdSignature → ℕ → Bool
    verify_threshold_signature quorum (some (aggregate sig bm)) hash =
        check_aggregate quorum sig (public_keys (for_each bm)) (lib.hash_to_curve hash)
    verify_threshold_signature quorum (some (ecdsa_set _)) hash = false
    verify_threshold_signature quorum none hash = false

    -- The loop of `VerifyThresholdSignatureForMessageSet`: the hashes seen and the pairs; `none` is
    -- the return of false.
    unfoldable pub pair_hashes :
        Dict ℕ → List ℕ → List (Point × Point) → Option (List ℕ × List (Point × Point))
    pair_hashes [] seen pairs = some (seen, pairs)
    pair_hashes ((id, hash) ∷ hashes) seen pairs = elim (elem hash seen) [
      | true ↦ pair_hashes hashes seen pairs
      | false ↦ elim (lookup id keys) [
        | none ↦ none
        | some pk ↦ elim (lib.hash_to_curve hash) [
          | none ↦ none
          | some p ↦ pair_hashes hashes (hash ∷ seen) (pairs ++ (pk, p) ∷ [])
        ]
      ]
    ]

    abbrev check_pairs : ℕ → Point → Option (List ℕ × List (Point × Point)) → Bool
    check_pairs quorum sig none = false
    check_pairs quorum sig (some (seen, pairs)) = lib.is_one sig pairs && leb quorum (length seen)

    unfoldable pub verify_threshold_signature_for_message_set :
        ℕ → Option ThresholdSignature → Dict ℕ → Bool
    verify_threshold_signature_for_message_set quorum (some (aggregate sig _)) hashes =
        check_pairs quorum sig (pair_hashes hashes [] [])
    verify_threshold_signature_for_message_set quorum (some (ecdsa_set _)) hashes = false
    verify_threshold_signature_for_message_set quorum none hashes = false
