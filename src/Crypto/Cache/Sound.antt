-- ===== src/Crypto/Cache/Sound.antt =====
-- What a verification through the cache of crypto/cache.go answers, against the scheme that it caches.
use mathlib.Core.List.{append-nil}
use hotstuff_repbased_leader.Prelude.{
  ap, ℕ, ◌≡◌, Bool, true, some, List, [], ◌∷◌, ◌++◌, arith, Option-cases, Bool-cases, inl, inr, ◌⊎◌,
  elem, ◌∙◌,
}
use hotstuff_repbased_leader.Types.{
  le_bytes, Signature, EcdsaSignature, ecdsa, ecdsa_set, signature_bytes, threshold_bytes,
  sort_by_signer, insert_by_signer,
}
use hotstuff_repbased_leader.Crypto.Base.{CryptoImpl}
use hotstuff_repbased_leader.Crypto.Cache.{
  Cache, without, move_to_front, remove_back, evict, insert_key, check, verify_with, signature_key,
  threshold_key, verify, verify_threshold_signature,
}

elem-without : (k j : ℕ) (xs : List ℕ) → elem j (without k xs) ≡ true → elem j xs ≡ true
unfolding without
elem-without k j [] h = h
elem-without k j (x ∷ xs) h = ground (arith, elem-without k j xs)

pub evict-elem :
    (c d : Cache) (j : ℕ) → evict c ≡ some d → elem j d.entries ≡ true → elem j c.entries ≡ true
unfolding evict
evict-elem c d j h e = elim (Option-cases (remove_back c.access_order)) [
  | inl empty ↦ ground arith
  | inr ((key, order), back) ↦ ground (arith, elem-without key j c.entries)
]

insert_key-elem :
    (k j : ℕ) (c d : Cache)
    → insert_key k c ≡ some d
    → elem j d.entries ≡ true
    → (j ≡ k) ⊎ (elem j c.entries ≡ true)
unfolding insert_key
insert_key-elem k j c d h e = elim (Option-cases (evict c)) [
  | inl empty ↦ ground arith
  | inr (c', evicted) ↦ ground (arith, evict-elem c c' j evicted)
]

insert_key_self : (k : ℕ) (c d : Cache) → insert_key k c ≡ some d → elem k d.entries ≡ true
unfolding insert_key move_to_front
insert_key_self k c d h = elim (Option-cases (evict c)) [
  | inl empty ↦ ground arith
  | inr (c', evicted) ↦ ground arith
]

module _ (valid : ℕ → Bool) where
  -- Every cached key is the key of a check that succeeds.
  abbrev pub OnlyValid : Cache → Type 0
  OnlyValid c = (j : ℕ) → elem j c.entries ≡ true → valid j ≡ true

  -- A cached verification answers as the scheme does, and caches only what is valid, as long as the
  -- cache holds only valid keys and the key is valid exactly if the scheme says so.
  pub verify_with_lem :
      (key : ℕ) (answer : Bool) (c d : Cache) (result : Bool)
      → OnlyValid c
      → valid key ≡ answer
      → verify_with key answer c ≡ some (d, result)
      → (result ≡ answer) × OnlyValid d
  unfolding verify_with check move_to_front
  verify_with_lem key answer c d result only e h = elim (Bool-cases (elem key c.entries)) [
    | inl hit ↦ (ground (arith, only key hit), λ j m. only j (ground arith))
    | inr miss ↦ elim (Bool-cases answer) [
      | inr refused ↦ (ground arith, λ j m. only j (ground arith))
      | inl accepted ↦ elim (Option-cases (insert_key key c)) [
        | inl panics ↦ ground arith
        | inr (c', inserted) ↦ (
          ground arith,
          λ j m. elim (insert_key-elem key j c c' inserted (ground arith)) [
            | inl same ↦ rw same (e ∙ accepted)
            | inr old ↦ only j old
          ],
        )
      ]
    ]
  ]

-- A verification that answers `true` leaves its key in the cache.
verify_with-cached :
    (key : ℕ) (answer : Bool) (c d : Cache)
    → verify_with key answer c ≡ some (d, true)
    → elem key d.entries ≡ true
unfolding verify_with check move_to_front
verify_with-cached key answer c d h = elim (Bool-cases (elem key c.entries)) [
  | inl hit ↦ ground arith
  | inr miss ↦ elim (Option-cases (insert_key key c)) [
    | inl panics ↦ ground arith
    | inr (c', inserted) ↦ ground (arith, insert_key_self key c c' inserted)
  ]
]

verify_with_hit :
    (key : ℕ) (answer : Bool) (c : Cache)
    → elem key c.entries ≡ true
    → verify_with key answer c ≡ some (move_to_front key c, true)
unfolding verify_with check
verify_with_hit key answer c hit = ground arith

-- The set of one signature has the bytes of the signature.
single_set_bytes :
    (s : EcdsaSignature)
    → threshold_bytes (ecdsa_set ((s.signer, s) ∷ [])) ≡ signature_bytes (ecdsa s)
unfolding threshold_bytes signature_bytes sort_by_signer insert_by_signer
single_set_bytes s = append-nil _

module _ (sha256 : List ℕ → ℕ) (impl : CryptoImpl) where
  -- Once a single ECDSA signature on a hash has been verified, a threshold signature that holds
  -- nothing but this one signature passes for the same hash, whatever the scheme would say of it and
  -- whatever the size of a quorum: the two have the same bytes, and so the same key.
  pub single_signature_passes :
      (s : EcdsaSignature) (hash : ℕ) (c d : Cache)
      → verify sha256 impl (some (ecdsa s)) hash c ≡ some (d, true)
      → (e : Cache) × (verify_threshold_signature sha256 impl
            (some (ecdsa_set ((s.signer, s) ∷ [])))
            hash
            d
          ≡ some (e, true))
  unfolding verify verify_threshold_signature signature_key threshold_key
  single_signature_passes s hash c d h =
      let key = signature_key sha256 (ecdsa s) hash in
      let cached = verify_with-cached key (impl.verify (some (ecdsa s)) hash) c d h in
      let same : threshold_key sha256 (ecdsa_set ((s.signer, s) ∷ [])) hash ≡ key =
        ap (λ bytes. sha256 (le_bytes 32 hash ++ bytes)) (single_set_bytes s) in
      (
        move_to_front key d,
        rw same (
            verify_with_hit key
              (impl.verify_threshold_signature (some (ecdsa_set ((s.signer, s) ∷ []))) hash) d
              cached),
      )

  -- Verifying through the cache answers what the scheme answers, and keeps the cache to valid keys,
  -- as long as the signatures and hashes that have the same key get the same answer from the scheme.
  pub verify_sound :
      (valid : ℕ → Bool) (sig : Signature) (hash : ℕ) (c d : Cache) (result : Bool)
      → OnlyValid valid c
      → valid (signature_key sha256 sig hash) ≡ impl.verify (some sig) hash
      → verify sha256 impl (some sig) hash c ≡ some (d, result)
      → (result ≡ impl.verify (some sig) hash) × OnlyValid valid d
  unfolding verify
  verify_sound valid sig hash c d result only e h =
      verify_with_lem valid (signature_key sha256 sig hash) (impl.verify (some sig) hash) c d result
        only e h
