-- ===== src/Tests/Aggregates.antt =====
-- Threshold signatures of the two schemes at concrete keys.
use hotstuff_repbased_leader.Prelude.{
  ℕ, ◌+◌, ◌*◌, ◌≡◌, refl, true, ◌∙◌, ap, sym, false, some, List, [], ◌∷◌, ◌++◌, Dict, lookup,
  insert, length, leb, ltb, ◌==◌, if◌then◌else◌, arith,
}
use hotstuff_repbased_leader.Types.{Signature, bls12, EcdsaSignature, ecdsa_set, aggregate}
use hotstuff_repbased_leader.Crypto.Bitfield.{Bitfield}
use hotstuff_repbased_leader.Crypto.Ecdsa.MessageSets.{
  answered, waits_forever, verify_threshold_signature_for_message_set, are_signed, num_valid,
  verify_set_lem,
}
use hotstuff_repbased_leader.Crypto.Bls12.{
  Point, Pairing, aggregated, create_threshold_signature, verify, verify_threshold_signature,
}
use hotstuff_repbased_leader.Crypto.Bls12.Sums.{IsBilinear}
use hotstuff_repbased_leader.Crypto.Bls12.Quorums.{aggregate-Verifies}
use hotstuff_repbased_leader.Tests.Setup.{registered, signed_by}

-- A group of numbers, whose pairing is the product.
abbrev number : Point → ℕ
number [] = 0
number (x ∷ _) = x

abbrev total : List (Point × Point) → ℕ
total [] = 0
total ((pk, p) ∷ pairs) = number pk * number p + total pairs

abbrev numbers : Pairing
numbers = record {
  zero_point = [];
  add_points = λ s t. (number s + number t) ∷ [];
  mul_scalar = λ s k. (number s * k) ∷ [];
  generator_times = λ k. k ∷ [];
  hash_to_curve = λ hash. some ((hash + 1) ∷ []);
  is_one = λ s pairs. number s == total pairs;
}

total-append : (xs ys : List (Point × Point)) → total (xs ++ ys) ≡ total xs + total ys
total-append [] ys = omega arith
total-append ((pk, p) ∷ xs) ys = omega (arith, total-append xs ys)

numbers-sum :
    (s t : Point) (xs ys : List (Point × Point))
    → (number s == total xs) ≡ true
    → (number t == total ys) ≡ true
    → (number s + number t == total (xs ++ ys)) ≡ true
numbers-sum s t xs ys h k = ground (arith, total-append xs ys)

numbers-swap :
    (s : Point) (xs ys : List (Point × Point)) (a b : Point × Point)
    → (number s == total (xs ++ a ∷ b ∷ ys)) ≡ (number s == total (xs ++ b ∷ a ∷ ys))
numbers-swap s xs ys a b =
    ap (λ n. number s == n)
      (total-append xs (a ∷ b ∷ ys) ∙ omega arith ∙ sym (total-append xs (b ∷ a ∷ ys)))

numbers-IsBilinear : IsBilinear numbers
numbers-IsBilinear = record { empty = refl; sum = numbers-sum; swap = numbers-swap }

-- The replicas 1, 2 and 3 have the keys 4, 5 and 6.
abbrev keys : Dict Point
keys = (1, 4 ∷ []) ∷ (2, 5 ∷ []) ∷ (3, 6 ∷ []) ∷ []

abbrev partials : List Signature
partials =
    bls12 (record { signer = 1; point = 40 ∷ [] })
    ∷ bls12 (record { signer = 3; point = 60 ∷ [] })
    ∷ bls12 (record { signer = 2; point = 50 ∷ [] })
    ∷ []

aggregate-Verifies_example :
    (sig : Point) × (bm : Bitfield) × (create_threshold_signature numbers 3 partials
      ≡ aggregated sig bm)
    × (verify_threshold_signature numbers keys 3 (some (aggregate sig bm)) 9 ≡ true)
unfolding verify lookup insert
aggregate-Verifies_example =
    aggregate-Verifies numbers numbers-IsBilinear keys 9 (10 ∷ []) 3 partials refl refl
      (omega arith) (omega arith) (refl, (refl, (refl, tt))) (refl, (refl, (refl, tt)))

-- The replica 3 has signed, and its hash is missing.
abbrev three_signed : Dict EcdsaSignature
three_signed = (1, signed_by 1 21) ∷ (2, signed_by 2 22) ∷ (3, signed_by 3 23) ∷ []

verify_set_lem_example :
    verify_threshold_signature_for_message_set registered 2
      (some (ecdsa_set three_signed))
      ((2, 22) ∷ (1, 21) ∷ [])
    ≡ (if are_signed registered three_signed ((2, 22) ∷ (1, 21) ∷ []) []
        then (if ltb (length {A = ℕ × ℕ} ((2, 22) ∷ (1, 21) ∷ [])) (length three_signed)
            then waits_forever
            else answered (leb 2 (num_valid registered three_signed ((2, 22) ∷ (1, 21) ∷ []))))
        else answered false)
verify_set_lem_example =
    verify_set_lem registered 2 three_signed ((2, 22) ∷ (1, 21) ∷ []) (omega arith)
