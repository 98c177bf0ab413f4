-- ===== src/Crypto/Bls12/Quorums.antt =====
-- Aggregates of crypto/bls12/bls12.go: made of a quorum of signatures and then verified.

use mathlib.Core.Path.{subst}
use hotstuff_repbased_leader.Prelude.{
  ℕ, zero, suc, ◌+◌, ◌≡◌, ◌≤◌, ◌<◌, refl, sym, ap, ◌∙◌, true, false, none, some, List, [], ◌∷◌, map,
  arith, Option-cases, inl, inr, Dict, lookup, insert, length, All, DistinctKeys,
  DistinctKeys-insert, All-insert,
}
use hotstuff_repbased_leader.Types.{Bls12Signature, Signature, ecdsa, bls12, signer, aggregate}
use hotstuff_repbased_leader.Crypto.Bitfield.{Bitfield, index, contains, for_each}
use hotstuff_repbased_leader.Crypto.Bls12.{
  Point, Pairing, Progress, aggregated, collect_signature, collect_signatures, sum_signatures,
  aggregate_signatures, create_threshold_signature, verify, public_keys, check_aggregate,
  verify_threshold_signature,
}
use hotstuff_repbased_leader.Crypto.Bls12.Sums
use hotstuff_repbased_leader.Crypto.Bls12.Sums.{IsBilinear}

module _ (lib : Pairing) (laws : IsBilinear lib) (keys : Dict Point) (hash : ℕ) (p : Point) where
  abbrev IsGood : ℕ × Bls12Signature → Type 0
  IsGood = Sums.IsGood lib laws keys p

  -- The replica's own check of the signature succeeds.
  abbrev pub Verifies : Signature → Type 0
  Verifies sig = verify lib keys (some sig) hash ≡ some true

  -- The signers are distinct, and none is in the set yet.
  abbrev pub AreFresh : List Signature → Dict Bls12Signature → Type 0
  AreFresh [] sigs = Unit
  AreFresh (ecdsa s ∷ partials) sigs = Unit
  AreFresh (bls12 s ∷ partials) sigs =
      (lookup s.signer sigs ≡ none) × AreFresh partials (insert s.signer s sigs)

  length-insert :
      (k : ℕ) (s : Bls12Signature) (sigs : Dict Bls12Signature)
      → lookup k sigs ≡ none
      → length (insert k s sigs) ≡ suc (length sigs)
  unfolding insert lookup
  length-insert k s [] new = refl
  length-insert k s ((j, t) ∷ sigs) new = ground (arith, length-insert k s sigs)

  IsGood-of_Verifies :
      (s : Bls12Signature)
      → lib.hash_to_curve hash ≡ some p
      → Verifies (bls12 s)
      → IsGood (s.signer, s)
  unfolding verify
  IsGood-of_Verifies s curve ok = elim (Option-cases (lookup s.signer keys)) [
    | inl missing ↦ ground arith
    | inr (pk, found) ↦ (pk, refl, found, ground arith)
  ]

  collect_signature_new :
      (s : Bls12Signature) (prog : Progress)
      → lookup s.signer prog.0 ≡ none
      → collect_signature (bls12 s) prog ≡ (insert s.signer s prog.0, prog.1)
  unfolding collect_signature signer
  collect_signature_new s (sigs, errors) new = ground arith

  collect-IsGood :
      (partials : List Signature) (prog : Progress)
      → lib.hash_to_curve hash ≡ some p
      → All Verifies partials
      → AreFresh partials prog.0
      → All IsGood prog.0
      → DistinctKeys prog.0
      → All IsGood (collect_signatures partials prog).0
        × DistinctKeys (collect_signatures partials prog).0
        × (length (collect_signatures partials prog).0 ≡ length prog.0 + length partials)
  unfolding collect_signatures
  collect-IsGood [] prog curve ok fresh good distinct = (good, distinct, omega arith)
  collect-IsGood (ecdsa s ∷ partials) prog curve ok fresh good distinct =
      absurd (unfold verify in ground (arith, ok.0))
  collect-IsGood (bls12 s ∷ partials) prog curve ok fresh good distinct =
      let rest =
        collect-IsGood partials (insert s.signer s prog.0, prog.1) curve ok.1 fresh.1
          (All-insert IsGood s.signer s prog.0 fresh.0 (IsGood-of_Verifies s curve ok.0) good)
          (DistinctKeys-insert s.signer s prog.0 fresh.0 distinct) in
      subst
        (λ q.
          All IsGood (collect_signatures partials q).0
          × DistinctKeys (collect_signatures partials q).0
          × (length (collect_signatures partials q).0 ≡ length prog.0 + suc (length partials)))
        (sym (collect_signature_new s prog fresh.0))
        (rest.0, rest.1, omega (arith, rest.2, length-insert s.signer s prog.0 fresh.0))

  none_contained :
      (sigs : Dict Bls12Signature)
      → lookup 0 keys ≡ none
      → All IsGood sigs
      → All (λ e. contains e.0 [] ≡ some false) sigs
  unfolding contains index
  none_contained [] no_zero good = tt
  none_contained ((zero, s) ∷ sigs) no_zero good =
      absurd (Sums.none_good lib laws keys p 0 no_zero good.0.2)
  none_contained ((suc i, s) ∷ sigs) no_zero good =
      (ground arith, none_contained sigs no_zero good.1)

  aggregate_signatures_lem :
      (sigs : Dict Bls12Signature) (sig : Point) (bm : Bitfield)
      → 0 < length sigs
      → sum_signatures lib sigs lib.zero_point [] ≡ some (sig, bm)
      → aggregate_signatures lib sigs ≡ aggregated sig bm
  unfolding aggregate_signatures
  aggregate_signatures_lem [] sig bm some_sig h = absurd (omega arith)
  aggregate_signatures_lem ((k, s) ∷ sigs) sig bm some_sig h = rw h

  check_aggregate_lem :
      (quorum : ℕ) (sig : Point) (pks : List Point)
      → quorum ≤ length pks
      → lib.is_one sig (map (λ pk. (pk, p)) pks) ≡ true
      → check_aggregate lib keys quorum sig pks (some p) ≡ true
  unfolding check_aggregate
  check_aggregate_lem quorum sig pks enough one = ground arith

  -- A quorum of signatures of distinct signers, each of which verifies for the hash, is made into an
  -- aggregate signature, and this verifies for the hash, if the pairing is bilinear, no replica has
  -- the ID 0, and the quorum is not empty.
  pub aggregate-Verifies :
      (quorum : ℕ) (partials : List Signature)
      → lib.hash_to_curve hash ≡ some p
      → lookup 0 keys ≡ none
      → 0 < quorum
      → quorum ≤ length partials
      → All Verifies partials
      → AreFresh partials []
      → (sig : Point) × (bm : Bitfield) × (create_threshold_signature lib quorum partials
          ≡ aggregated sig bm)
        × (verify_threshold_signature lib keys quorum (some (aggregate sig bm)) hash ≡ true)
  unfolding create_threshold_signature verify_threshold_signature public_keys for_each
  aggregate-Verifies quorum partials curve no_zero some_quorum enough ok fresh =
      let sigs = (collect_signatures partials ([], [])).0 in
      let all = collect-IsGood partials ([], []) curve ok fresh tt tt in
      let sum =
        Sums.sum_good lib laws keys p sigs lib.zero_point [] no_zero all.0 all.1
          (none_contained sigs no_zero all.0) tt laws.empty in
      (
        sum.0,
        sum.1,
        ground
            (arith, aggregate_signatures_lem sigs sum.0 sum.1 (omega (arith, all.2)) sum.2, all.2),
        ap (check_aggregate lib keys quorum sum.0 (public_keys lib keys (for_each sum.1))) curve
            ∙ check_aggregate_lem quorum sum.0 (public_keys lib keys (for_each sum.1))
                (omega (arith, sum.4, all.2)) sum.3,
      )
