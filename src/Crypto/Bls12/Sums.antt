-- ===== src/Crypto/Bls12/Sums.antt =====
-- The sums of signatures in crypto/bls12/bls12.go, and the pairs of keys and points that go with them.
use mathlib.Core.List.{append_assoc, map-append}
use hotstuff_repbased_leader.Prelude.{
  ℕ, zero, suc, ◌+◌, ◌≡◌, refl, sym, ap, ◌∙◌, true, false, none, some, List, [], ◌∷◌, ◌++◌, map,
  arith, Option-cases, inl, inr, Dict, lookup, length, length-append, All, DistinctKeys, ◌==◌,
  if◌then◌else◌,
}
use hotstuff_repbased_leader.Types.{Bls12Signature}
use hotstuff_repbased_leader.Crypto.Bitfield.{Bitfield, contains, for_each}
use hotstuff_repbased_leader.Crypto.Bitfield.Sets.{AreBytes}
use hotstuff_repbased_leader.Crypto.Bitfield.Orders.{for_each-add}
use hotstuff_repbased_leader.Crypto.Bls12.{Point, Pairing, sum_signatures, public_keys}

-- What the engine computes is a product of pairings, and a pairing is bilinear: true of no pairs, of
-- two sums together, and in any order of the pairs.
pub record IsBilinear (lib : Pairing) : Type 0 where
  pub empty : lib.is_one lib.zero_point [] ≡ true
  pub sum :
      (s t : Point) (xs ys : List (Point × Point))
      → lib.is_one s xs ≡ true
      → lib.is_one t ys ≡ true
      → lib.is_one (lib.add_points s t) (xs ++ ys) ≡ true
  pub swap :
      (s : Point) (xs ys : List (Point × Point)) (a b : Point × Point)
      → lib.is_one s (xs ++ a ∷ b ∷ ys) ≡ lib.is_one s (xs ++ b ∷ a ∷ ys)

module _ (lib : Pairing) (laws : IsBilinear lib) (keys : Dict Point) (p : Point) where
  move_pair :
      (s : Point) (xs ys : List (Point × Point)) (a : Point × Point)
      → lib.is_one s (xs ++ (ys ++ a ∷ [])) ≡ lib.is_one s (xs ++ a ∷ ys)
  move_pair s xs [] a = refl
  move_pair s xs (y ∷ ys) a =
      ap (lib.is_one s) (sym (append_assoc xs (y ∷ []) (ys ++ a ∷ [])))
      ∙ move_pair s (xs ++ y ∷ []) ys a
      ∙ ap (lib.is_one s) (append_assoc xs (y ∷ []) (a ∷ ys))
      ∙ laws.swap s xs ys y a

  public_keys-append :
      (front back : List ℕ)
      → public_keys lib keys (front ++ back)
        ≡ public_keys lib keys front ++ public_keys lib keys back
  unfolding public_keys
  public_keys-append [] back = refl
  public_keys-append (id ∷ front) back = elim (Option-cases (lookup id keys)) [
    | inl missing ↦ ground (arith, public_keys-append front back)
    | inr (pk, found) ↦ ground (arith, public_keys-append front back)
  ]

  -- An entry under its signer, whose signature verifies with the signer's key.
  abbrev pub IsGood : ℕ × Bls12Signature → Type 0
  IsGood e =
      (pk : Point) × (e.0 ≡ e.1.signer)
      × (lookup e.0 keys ≡ some pk)
      × (lib.is_one e.1.point ((pk, p) ∷ []) ≡ true)

  abbrev pub pairs_of : Bitfield → List (Point × Point)
  pairs_of bm = map (λ pk. (pk, p)) (public_keys lib keys (for_each bm))

  public_keys_found :
      (id : ℕ) (ids : List ℕ) {pk : Point}
      → lookup id keys ≡ some pk
      → public_keys lib keys (id ∷ ids) ≡ pk ∷ public_keys lib keys ids
  unfolding public_keys
  public_keys_found id ids found = ground arith

  add_pair :
      (sig s : Point) (pk : Point) (i : ℕ) (bm bm' : Bitfield) (front back : List ℕ)
      → for_each bm ≡ front ++ back
      → for_each bm' ≡ front ++ suc i ∷ back
      → lookup (suc i) keys ≡ some pk
      → lib.is_one sig (pairs_of bm) ≡ true
      → lib.is_one s ((pk, p) ∷ []) ≡ true
      → (lib.is_one (lib.add_points sig s) (pairs_of bm') ≡ true)
        × (length (public_keys lib keys (for_each bm'))
            ≡ suc (length (public_keys lib keys (for_each bm))))
  add_pair sig s pk i bm bm' front back before after found one two =
      let f = λ (pk : Point). let pair : Point × Point = (pk, p) in pair in
      let front_keys = public_keys lib keys front in
      let back_keys = public_keys lib keys back in
      let keys_before = ap (public_keys lib keys) before ∙ public_keys-append front back in
      let keys_after =
        ap (public_keys lib keys) after
        ∙ public_keys-append front (suc i ∷ back)
        ∙ ap (λ l. front_keys ++ l) (public_keys_found (suc i) back found) in
      let pairs_before = ap (map f) keys_before ∙ map-append f front_keys back_keys in
      let pairs_after = ap (map f) keys_after ∙ map-append f front_keys (pk ∷ back_keys) in
      let both =
        laws.sum sig s (map f front_keys ++ map f back_keys) ((pk, p) ∷ []) (rw pairs_before at one)
          two in
      (
        ap (lib.is_one (lib.add_points sig s)) pairs_after
            ∙ sym (move_pair (lib.add_points sig s) (map f front_keys) (map f back_keys) (pk, p))
            ∙ (rw (append_assoc (map f front_keys) (map f back_keys) ((pk, p) ∷ [])) at both),
        rw (keys_before, keys_after)
            (omega (
              arith,
              length-append front_keys back_keys,
              length-append front_keys (pk ∷ back_keys),
            )),
      )

  pub none_good : (id : ℕ) {pk : Point} → lookup id keys ≡ none → lookup id keys ≡ some pk → ⊥
  none_good id missing found = cc

  still_new :
      (i : ℕ) (bm bm' : Bitfield) (sigs : Dict Bls12Signature)
      → lookup 0 keys ≡ none
      → All IsGood sigs
      → lookup (suc i) sigs ≡ none
      → ((j : ℕ) → contains (suc j) bm' ≡ (if i == j then some true else contains (suc j) bm))
      → All (λ e. contains e.0 bm ≡ some false) sigs
      → All (λ e. contains e.0 bm' ≡ some false) sigs
  unfolding lookup
  still_new i bm bm' [] no_zero good other added new = tt
  still_new i bm bm' ((zero, s) ∷ sigs) no_zero good other added new =
      absurd (none_good 0 no_zero good.0.2)
  still_new i bm bm' ((suc j, s) ∷ sigs) no_zero good other added new =
      (ground (arith, added j), still_new i bm bm' sigs no_zero good.1 (ground arith) added new.1)

  pub sum_good :
      (sigs : Dict Bls12Signature) (sig : Point) (bm : Bitfield)
      → lookup 0 keys ≡ none
      → All IsGood sigs
      → DistinctKeys sigs
      → All (λ e. contains e.0 bm ≡ some false) sigs
      → AreBytes bm
      → lib.is_one sig (pairs_of bm) ≡ true
      → (sig' : Point) × (bm' : Bitfield) × (sum_signatures lib sigs sig bm ≡ some (sig', bm'))
        × (lib.is_one sig' (pairs_of bm') ≡ true)
        × (length (public_keys lib keys (for_each bm'))
            ≡ length (public_keys lib keys (for_each bm)) + length sigs)
  unfolding sum_signatures
  sum_good [] sig bm no_zero good distinct new bytes one = (sig, bm, refl, one, omega arith)
  sum_good ((zero, s) ∷ sigs) sig bm no_zero good distinct new bytes one =
      absurd (none_good 0 no_zero good.0.2)
  sum_good ((suc i, s) ∷ sigs) sig bm no_zero good distinct new bytes one =
      let r = for_each-add bm i bytes new.0 in
      let paired = add_pair sig s.point good.0.0 i bm r.0 r.1 r.2 r.5 r.6 good.0.2 one good.0.3 in
      let rest =
        sum_good sigs (lib.add_points sig s.point) r.0 no_zero good.1 distinct.1
          (still_new i bm r.0 sigs no_zero good.1 distinct.0 r.7 new.1) r.4 paired.0 in
      (rest.0, rest.1, ground (arith, r.3, rest.2), rest.3, omega (arith, rest.4, paired.1))
