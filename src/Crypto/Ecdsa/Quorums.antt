-- ===== src/Crypto/Ecdsa/Quorums.antt =====
-- What the loop of CreateThresholdSignature (crypto/ecdsa/ecdsa.go) collects.
use mathlib.Core.Path.{subst}
use hotstuff_repbased_leader.Prelude.{
  ℕ, suc, ◌+◌, ◌≡◌, ◌≤◌, refl, sym, Bool, true, none, some, List, [], ◌∷◌, arith, Option-cases,
  Bool-cases, inl, inr, Dict, lookup, insert, lookup-insert, length, ◌==◌,
}
use hotstuff_repbased_leader.Types.{EcdsaSignature, Signature, ecdsa, bls12, signer, ecdsa_set}
use hotstuff_repbased_leader.Crypto.Ecdsa.{
  CryptoError, signature_set, Progress, contains_id, add_signature, add_partial, add_partials,
  finish, create_threshold_signature, num_verified, verify_threshold_signature,
}

module _ (registered : Signature → ℕ → Bool) (hash : ℕ) where
  -- Each signer is in the set once, under its own ID, with a signature that verifies.
  abbrev pub IsVerified : Dict EcdsaSignature → Type 0
  IsVerified [] = Unit
  IsVerified ((k, s) ∷ sigs) =
      (k ≡ s.signer) × (registered (ecdsa s) hash ≡ true) × (lookup k sigs ≡ none) × IsVerified sigs

  -- ECDSA signatures that verify, of signers that are distinct and not in the set.
  abbrev pub AreFresh : List Signature → Dict EcdsaSignature → Type 0
  AreFresh [] sigs = Unit
  AreFresh (ecdsa s ∷ ss) sigs =
      (registered (ecdsa s) hash ≡ true)
      × (lookup s.signer sigs ≡ none)
      × AreFresh ss (insert s.signer s sigs)
  AreFresh (bls12 s ∷ ss) sigs = ⊥

  insert-IsVerified :
      (s : EcdsaSignature) (sigs : Dict EcdsaSignature)
      → registered (ecdsa s) hash ≡ true
      → lookup s.signer sigs ≡ none
      → IsVerified sigs
      → IsVerified (insert s.signer s sigs)
  unfolding insert lookup
  insert-IsVerified s [] h new all = (refl, h, refl, tt)
  insert-IsVerified s ((k, t) ∷ sigs) h new all = elim (Bool-cases (k == s.signer)) [
    | inl same ↦ ground arith
    | inr other ↦
        ground
          (arith, lookup-insert s.signer k s sigs, insert-IsVerified s sigs h (ground arith) all.3)
  ]

  length-insert :
      (s : EcdsaSignature) (sigs : Dict EcdsaSignature)
      → lookup s.signer sigs ≡ none
      → length (insert s.signer s sigs) ≡ suc (length sigs)
  unfolding insert lookup
  length-insert s [] new = refl
  length-insert s ((k, t) ∷ sigs) new = ground (arith, length-insert s sigs)

  num_verified-length :
      (quorum : ℕ) (sigs : Dict EcdsaSignature)
      → IsVerified sigs
      → num_verified registered quorum sigs hash ≡ length sigs
  unfolding num_verified
  num_verified-length quorum [] all = refl
  num_verified-length quorum ((k, s) ∷ sigs) all =
      ground (arith, num_verified-length quorum sigs all.3)

  add_partial-IsVerified :
      (quorum : ℕ) (s : Signature) (p : Progress)
      → IsVerified p.0
      → IsVerified (add_partial registered quorum s hash p).0
  unfolding add_partial add_signature contains_id signer
  add_partial-IsVerified quorum (ecdsa s) (sigs, errors) all =
      elim (Option-cases (lookup s.signer sigs)) [
        | inl new ↦ ground (arith, insert-IsVerified s sigs, all)
        | inr (t, old) ↦ ground (arith, all)
      ]
  add_partial-IsVerified quorum (bls12 s) (sigs, errors) all = ground (arith, all)

  add_partials-IsVerified :
      (quorum : ℕ) (ss : List Signature) (p : Progress)
      → IsVerified p.0
      → IsVerified (add_partials registered quorum ss hash p).0
  unfolding add_partials
  add_partials-IsVerified quorum [] p all = all
  add_partials-IsVerified quorum (s ∷ ss) p all =
      add_partials-IsVerified quorum ss (add_partial registered quorum s hash p)
        (add_partial-IsVerified quorum s p all)

  add_partial_new :
      (quorum : ℕ) (s : EcdsaSignature) (sigs : Dict EcdsaSignature) (errors : List CryptoError)
      → registered (ecdsa s) hash ≡ true
      → lookup s.signer sigs ≡ none
      → add_partial registered quorum (ecdsa s) hash (sigs, errors)
        ≡ (insert s.signer s sigs, errors)
  unfolding add_partial add_signature contains_id signer
  add_partial_new quorum s sigs errors h new = ground arith

  add_partials-length :
      (quorum : ℕ) (ss : List Signature) (p : Progress)
      → AreFresh ss p.0
      → length (add_partials registered quorum ss hash p).0 ≡ length p.0 + length ss
  unfolding add_partials
  add_partials-length quorum [] p fresh = omega arith
  add_partials-length quorum (ecdsa s ∷ ss) (sigs, errors) fresh =
      subst
        (λ p. length (add_partials registered quorum ss hash p).0 ≡ length sigs + suc (length ss))
        (sym (add_partial_new quorum s sigs errors fresh.0 fresh.1)) ground
        (
          arith,
          add_partials-length quorum ss (insert s.signer s sigs, errors) fresh.2,
          length-insert s sigs fresh.1,
        )
  add_partials-length quorum (bls12 s ∷ ss) p fresh = elim fresh [ ]

  -- A threshold signature that CreateThresholdSignature returns holds one signature of each of at
  -- least a quorum of distinct signers, each of which verifies for the hash, and
  -- VerifyThresholdSignature accepts it.
  pub create_threshold_signature_sound :
      (quorum : ℕ) (partials : List Signature) (sigs : Dict EcdsaSignature)
      → create_threshold_signature registered quorum partials hash ≡ signature_set sigs
      → IsVerified sigs
        × (quorum ≤ length sigs)
        × (verify_threshold_signature registered quorum (some (ecdsa_set sigs)) hash ≡ true)
  unfolding create_threshold_signature finish verify_threshold_signature
  create_threshold_signature_sound quorum partials sigs h =
      let made = (add_partials registered quorum partials hash ([], [])).0 in
      let all = add_partials-IsVerified quorum partials ([], []) tt in
      let (enough, same) : (quorum ≤ length made) × (made ≡ sigs) = ground arith in
      let verified : IsVerified sigs = subst IsVerified same all in
      (verified, ground arith, ground (arith, num_verified-length quorum sigs verified))

  -- A quorum of ECDSA signatures of distinct signers, each of which verifies for the hash, is
  -- always made into a threshold signature, which holds as many signatures.
  pub create_threshold_signature_complete :
      (quorum : ℕ) (partials : List Signature)
      → AreFresh partials []
      → quorum ≤ length partials
      → (sigs : Dict EcdsaSignature) × (create_threshold_signature registered quorum partials hash
          ≡ signature_set sigs)
        × (length sigs ≡ length partials)
  unfolding create_threshold_signature finish
  create_threshold_signature_complete quorum partials fresh enough =
      let counted = add_partials-length quorum partials ([], []) fresh in
      (
        (add_partials registered quorum partials hash ([], [])).0,
        ground arith,
        omega (arith, counted),
      )
