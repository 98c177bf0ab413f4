-- ===== src/Tests/Keys.antt =====
-- Quorums, signatures, bitfields and leaders.
use hotstuff_repbased_leader.Prelude.{
  ℕ, ◌+◌, ◌*◌, ◌-◌, ◌/◌, ◌%◌, ◌≡◌, ◌≤◌, refl, not, ◌&&◌, Bool, true, false, some, List, [], ◌∷◌,
  ◌==◌, ltb, if◌then◌else◌, elem, length, lookup, insert, arith,
}
use hotstuff_repbased_leader.Sizes.{num_faulty, quorum_size}
use hotstuff_repbased_leader.Sizes.Intersections.{Witness, count, quorum_intersection}
use hotstuff_repbased_leader.Types.{
  EcdsaSignature, Signature, ecdsa, ecdsa_set, signature_bytes, le_bytes, participants, new_block,
}
use hotstuff_repbased_leader.Crypto.Ecdsa.{
  signature_set, create_threshold_signature, verify_threshold_signature,
}
use hotstuff_repbased_leader.Crypto.Ecdsa.Quorums.{
  IsVerified, create_threshold_signature_sound, create_threshold_signature_complete,
}
use hotstuff_repbased_leader.Crypto.Cache
use hotstuff_repbased_leader.Crypto.Cache.Sound.{OnlyValid, single_signature_passes, verify_sound}
use hotstuff_repbased_leader.Crypto.Cache.Bounded.{IsBounded, verify_with-IsBounded}
use hotstuff_repbased_leader.Crypto.Bitfield.Walks.{for_each-contains}
use hotstuff_repbased_leader.Crypto.Bitfield.{contains, for_each}
use hotstuff_repbased_leader.LeaderRotation.RoundRobin.{round_robin}
use hotstuff_repbased_leader.LeaderRotation.RoundRobin.Fair.{round_robin_lem}
use hotstuff_repbased_leader.LeaderRotation.Carousel.{last_or, remove_active}
use hotstuff_repbased_leader.LeaderRotation.Carousel.Candidates.{remove_active_lem}
use hotstuff_repbased_leader.LeaderRotation.Reputation
use hotstuff_repbased_leader.LeaderRotation.Reputation.{Float}
use hotstuff_repbased_leader.LeaderRotation.Reputation.Rewards.{added, get_leader_rewards}
use hotstuff_repbased_leader.Tests.Setup.{digest, impl, registered, signed_by, child, b1}

quorum_intersection_example : Witness (λ i. ltb i 4) (λ i. ltb 1 i) (λ i. i == 2) 4
unfolding quorum_size num_faulty
quorum_intersection_example =
    let size : quorum_size 4 ≡ 3 = refl in
    let first : count (λ i. ltb i 4) 4 ≡ 3 = refl in
    let second : count (λ i. ltb 1 i) 4 ≡ 3 = refl in
    let tolerated : num_faulty 4 ≡ 1 = refl in
    let bad : count (λ i. i == 2) 4 ≡ 1 = refl in
    quorum_intersection 4 (λ i. ltb i 4) (λ i. ltb 1 i) (λ i. i == 2) (omega arith)
      (omega (arith, size, first)) (omega (arith, size, second)) (omega (arith, bad, tolerated))

abbrev partials : List Signature
partials =
    ecdsa (signed_by 1 42)
    ∷ ecdsa (signed_by 2 42)
    ∷ ecdsa (signed_by 2 42)
    ∷ ecdsa (signed_by 3 41)
    ∷ ecdsa (signed_by 4 42)
    ∷ []

abbrev signers : List (ℕ × EcdsaSignature)
signers = (1, signed_by 1 42) ∷ (2, signed_by 2 42) ∷ (4, signed_by 4 42) ∷ []

create_threshold_signature_sound_example :
    IsVerified registered 42 signers
    × (3 ≤ length signers)
    × (verify_threshold_signature registered 3 (some (ecdsa_set signers)) 42 ≡ true)
unfolding create_threshold_signature lookup insert
create_threshold_signature_sound_example =
    create_threshold_signature_sound registered 42 3 partials signers refl

abbrev fresh_partials : List Signature
fresh_partials = ecdsa (signed_by 3 42) ∷ ecdsa (signed_by 1 42) ∷ ecdsa (signed_by 2 42) ∷ []

create_threshold_signature_complete_example :
    (sigs : List (ℕ × EcdsaSignature)) × (create_threshold_signature registered 3 fresh_partials 42
      ≡ signature_set sigs)
    × (length sigs ≡ 3)
unfolding lookup insert
create_threshold_signature_complete_example =
    create_threshold_signature_complete registered 42 3 fresh_partials
      (refl, refl, (refl, refl, (refl, refl, tt))) (omega arith)

abbrev valid_key : ℕ → Bool
valid_key k = k == Cache.signature_key digest (ecdsa (signed_by 1 42)) 42

-- A cache that has checked the signature.
abbrev checked : Cache.Cache
checked = record {
  capacity = 2;
  entries = Cache.signature_key digest (ecdsa (signed_by 1 42)) 42 ∷ [];
  access_order = Cache.signature_key digest (ecdsa (signed_by 1 42)) 42 ∷ [];
}

-- The cache after a second check, which is a hit.
single_signature_passes_example :
    (e : Cache.Cache) × (Cache.verify_threshold_signature digest impl
        (some (ecdsa_set ((1, signed_by 1 42) ∷ [])))
        42
        checked
      ≡ some (e, true))
unfolding Cache.verify Cache.signature_key signature_bytes le_bytes Cache.without Cache.verify_with
single_signature_passes_example =
    single_signature_passes digest impl (signed_by 1 42) 42 checked checked refl

verify_sound_example :
    (false ≡ impl.verify (some (ecdsa (signed_by 1 43))) 42) × OnlyValid valid_key checked
unfolding Cache.verify Cache.signature_key signature_bytes le_bytes Cache.without Cache.verify_with
verify_sound_example =
    verify_sound digest impl valid_key (ecdsa (signed_by 1 43)) 42 checked checked false
      (λ j m. ground arith) refl refl

round_robin_lem_example :
    ((view : ℕ) → (leader : ℕ) × (round_robin 4 view ≡ some leader) × (1 ≤ leader) × (leader ≤ 4))
    × ((view : ℕ) → round_robin 4 (view + 4) ≡ round_robin 4 view)
    × ((id : ℕ) → round_robin 4 (id % 4) ≡ some (id % 4 + 1))
round_robin_lem_example = round_robin_lem 4 (omega arith) (omega arith)

remove_active_lem_example :
    (length (remove_active (1 ∷ 2 ∷ 3 ∷ []) (3 ∷ 2 ∷ [])) ≡ 3)
    × ((j : ℕ)
        → elem j (remove_active (1 ∷ 2 ∷ 3 ∷ []) (3 ∷ 2 ∷ [])) ≡ (
            if last_or 0 (1 ∷ 2 ∷ 3 ∷ []) == j
            then true
            else (elem j (1 ∷ 2 ∷ 3 ∷ []) && not (elem j (3 ∷ 2 ∷ [])))))
remove_active_lem_example = remove_active_lem 1 (2 ∷ 3 ∷ []) (3 ∷ 2 ∷ [])

-- Whole numbers in place of floats.
abbrev whole : Float
whole = record {
  F = ℕ;
  of_nat = λ n. n;
  two_thirds = 2;
  add = λ a b. a + b;
  sub = λ a b. a - b;
  mul = λ a b. a * b;
  div = λ a b. a / b;
  to_uint = λ a. a;
}

abbrev reps : List (ℕ × ℕ)
reps = (1, 1) ∷ (2, 2) ∷ (3, 3) ∷ (4, 4) ∷ []

get_leader_rewards_example :
    let pick = λ (choices : List (ℕ × ℕ)) (seed : ℕ). some seed in
    let head = child b1 2 in
    let once = Reputation.get_leader whole (λ b. b.hash) pick 4 head 20 reps in
    let twice = Reputation.get_leader whole (λ b. b.hash) pick 4 head 20 once.0 in
    let rep = Reputation.reputation_of whole 4 (1 ∷ 2 ∷ 3 ∷ []) in
    (lookup 2 once.0 ≡ added whole rep (lookup 2 reps))
    × (lookup 2 twice.0 ≡ added whole rep (added whole rep (lookup 2 reps)))
unfolding participants lookup new_block
get_leader_rewards_example =
    get_leader_rewards whole (λ b. b.hash) (λ choices seed. some seed) 4 20 (child b1 2)
      (ecdsa_set
        ((1, signed_by 1 b1.hash) ∷ (2, signed_by 2 b1.hash) ∷ (3, signed_by 3 b1.hash) ∷ []))
      reps 2 (omega arith) (omega arith) refl (refl, (refl, (refl, tt)))
      ((1, refl), ((2, refl), ((3, refl), tt)))

-- A full cache of two keys.
abbrev full_cache : Cache.Cache
full_cache = record { capacity = 2; entries = 4 ∷ 9 ∷ []; access_order = 9 ∷ 4 ∷ [] }

full_cache-IsBounded : IsBounded full_cache
full_cache-IsBounded = record {
  room = omega arith;
  once = (refl, (refl, tt));
  same = λ j. ground arith;
}

verify_with-IsBounded_example :
    (d : Cache.Cache) × (Cache.verify_with 7 true full_cache ≡ some (d, true))
    × IsBounded d
    × (d.capacity ≡ 2)
verify_with-IsBounded_example =
    verify_with-IsBounded 7 true full_cache (omega arith) full_cache-IsBounded

for_each-contains_example : contains 11 (5 ∷ 4 ∷ []) ≡ some (elem 11 (for_each (5 ∷ 4 ∷ [])))
for_each-contains_example = for_each-contains (5 ∷ 4 ∷ []) 10
