-- ===== src/Crypto/Cache.antt =====
-- crypto/cache.go: a signature scheme whose successful checks are remembered. The map `entries` is
-- the list of its keys, and an element of the access order stands for its key. `none` is the panic
-- of an eviction from an empty order.
pub mod Sound
pub mod Bounded
use hotstuff_repbased_leader.Prelude.{
  ℕ, Bool, true, false, Option, none, some, List, [], ◌∷◌, ◌++◌, ltb, ◌==◌, if◌then◌else◌, Dict,
  elem, length,
}
use hotstuff_repbased_leader.Types.{
  Signature, ThresholdSignature, signature_bytes, threshold_bytes, le_bytes,
}
use hotstuff_repbased_leader.Crypto.Base.{CryptoImpl}

pub record Cache : Type 0 where
  pub capacity : ℕ
  pub entries : List ℕ
  -- most recent first
  pub access_order : List ℕ

unfoldable pub new_cache : ℕ → Cache
new_cache capacity = record { capacity = capacity; entries = []; access_order = [] }

unfoldable pub without : ℕ → List ℕ → List ℕ
without key [] = []
without key (x ∷ xs) = let rest = without key xs in if x == key then rest else x ∷ rest

-- `MoveToFront`.
unfoldable pub move_to_front : ℕ → Cache → Cache
unfolding without
move_to_front key c = record c { access_order = key ∷ without key c.access_order }

-- `Back` and `Remove`: the last key, and the order without it.
unfoldable pub remove_back : List ℕ → Option (ℕ × List ℕ)
remove_back [] = none
remove_back (x ∷ xs) = elim (remove_back xs) [
  | none ↦ some (x, [])
  | some (y, rest) ↦ some (y, x ∷ rest)
]

unfoldable pub evict : Cache → Option Cache
unfolding remove_back without
evict c = if ltb (length c.entries) c.capacity then some c else elim (remove_back c.access_order) [
  | none ↦ none
  | some (key, order) ↦ some (record c { entries = without key c.entries; access_order = order })
]

unfoldable pub insert_key : ℕ → Cache → Option Cache
unfolding move_to_front
insert_key key c = if elem key c.entries then some (move_to_front key c) else elim (evict c) [
  | none ↦ none
  | some c' ↦ some (record c' { entries = key ∷ c'.entries; access_order = key ∷ c'.access_order })
]

unfoldable pub check : ℕ → Cache → Cache × Bool
unfolding move_to_front
check key c = if elem key c.entries then (move_to_front key c, true) else (c, false)

-- A result beside the new cache; `none` is the panic.
abbrev pub with_key {ℓ} : {A : Type ℓ} → ℕ → Cache → A → Option (Cache × A)
with_key key c a = elim (insert_key key c) [ none ↦ none | some c' ↦ some (c', a) ]

abbrev pub hash_values : Dict ℕ → List ℕ
hash_values [] = []
hash_values ((_, h) ∷ hashes) = le_bytes 32 h ++ hash_values hashes

-- The common body of the three `Verify` functions: the cache, then the scheme.
unfoldable pub verify_with : ℕ → Bool → Cache → Option (Cache × Bool)
unfolding check
verify_with key answer c =
    let (c', hit) = check key c in
    if hit then some (c', true) else if answer then with_key key c' true else some (c', false)

module _ (sha256 : List ℕ → ℕ) where
  -- The keys of a single signature, of a threshold signature, and of one for a set of messages.
  unfoldable pub signature_key : Signature → ℕ → ℕ
  signature_key sig hash = sha256 (le_bytes 32 hash ++ signature_bytes sig)

  unfoldable pub threshold_key : ThresholdSignature → ℕ → ℕ
  threshold_key sig hash = sha256 (le_bytes 32 hash ++ threshold_bytes sig)

  unfoldable pub message_set_key : ThresholdSignature → Dict ℕ → ℕ
  message_set_key sig hashes = sha256 (hash_values hashes ++ threshold_bytes sig)

module _ (sha256 : List ℕ → ℕ) (impl : CryptoImpl) where
  unfoldable pub sign : ℕ → Cache → Option (Cache × Option Signature)
  sign hash c = elim (impl.sign hash) [
    | none ↦ some (c, none)
    | some sig ↦ with_key (signature_key sha256 sig hash) c (some sig)
  ]

  unfoldable pub verify : Option Signature → ℕ → Cache → Option (Cache × Bool)
  verify none hash c = some (c, false)
  verify (some sig) hash c =
      verify_with (signature_key sha256 sig hash) (impl.verify (some sig) hash) c

  unfoldable pub create_threshold_signature :
      List (Option Signature) → ℕ → Cache → Option (Cache × Option ThresholdSignature)
  create_threshold_signature sigs hash c = elim (impl.create_threshold_signature sigs hash) [
    | none ↦ some (c, none)
    | some sig ↦ with_key (threshold_key sha256 sig hash) c (some sig)
  ]

  unfoldable pub verify_threshold_signature :
      Option ThresholdSignature → ℕ → Cache → Option (Cache × Bool)
  verify_threshold_signature none hash c = some (c, false)
  verify_threshold_signature (some sig) hash c =
      verify_with (threshold_key sha256 sig hash) (impl.verify_threshold_signature (some sig) hash)
        c

  unfoldable pub create_threshold_signature_for_message_set :
      List (Option Signature) → Dict ℕ → Cache → Option (Cache × Option ThresholdSignature)
  create_threshold_signature_for_message_set sigs hashes c =
      elim (impl.create_threshold_signature_for_message_set sigs hashes) [
        | none ↦ some (c, none)
        | some sig ↦ with_key (message_set_key sha256 sig hashes) c (some sig)
      ]

  unfoldable pub verify_threshold_signature_for_message_set :
      Option ThresholdSignature → Dict ℕ → Cache → Option (Cache × Bool)
  verify_threshold_signature_for_message_set none hashes c = some (c, false)
  verify_threshold_signature_for_message_set (some sig) hashes c =
      verify_with (message_set_key sha256 sig hashes)
        (impl.verify_threshold_signature_for_message_set (some sig) hashes) c
