-- ===== src/Crypto/Bitfield/Orders.antt =====
-- The order in which ForEach of crypto/bitfield.go visits the IDs, and where Add puts a new one.
use mathlib.Core.Path.{subst}
use hotstuff_repbased_leader.Prelude.{
  ℕ, zero, suc, ◌+◌, ◌*◌, ◌≡◌, ◌≢◌, ◌≤◌, ◌<◌, refl, sym, ap, ◌∙◌, true, false, some, List, [], ◌∷◌,
  ◌++◌, arith, ltb, ◌==◌, if◌then◌else◌, elem, length, Bool-cases, inl, inr,
}
use hotstuff_repbased_leader.Crypto.Bitfield.{
  Bitfield, is_set, id_of, add, contains, for_each_bit, for_each_byte, for_each,
}
use hotstuff_repbased_leader.Crypto.Bitfield.Sets.{AreBytes, add-contains}
use hotstuff_repbased_leader.Crypto.Bitfield.Walks.{for_each-contains}

-- The list ascends strictly from above `lo`.
abbrev Above : ℕ → List ℕ → Type 0
Above lo [] = Unit
Above lo (x ∷ xs) = (lo < x) × Above x xs

-- The same, and it stays within `hi`.
abbrev Between : ℕ → List ℕ → ℕ → Type 0
Between lo [] hi = lo ≤ hi
Between lo (x ∷ xs) hi = (lo < x) × Between x xs hi

Between-lower :
    (lo lo' : ℕ) (xs : List ℕ) (hi : ℕ) → lo ≤ lo' → Between lo' xs hi → Between lo xs hi
Between-lower lo lo' [] hi le h = omega arith
Between-lower lo lo' (x ∷ xs) hi le h = (omega arith, h.1)

Between-append :
    (lo : ℕ) (xs : List ℕ) (mid : ℕ) (ys : List ℕ) (hi : ℕ)
    → Between lo xs mid
    → Between mid ys hi
    → Between lo (xs ++ ys) hi
Between-append lo [] mid ys hi h k = Between-lower lo mid ys hi h k
Between-append lo (x ∷ xs) mid ys hi h k = (h.0, Between-append x xs mid ys hi h.1 k)

Between-Above : (lo : ℕ) (xs : List ℕ) (hi : ℕ) → Between lo xs hi → Above lo xs
Between-Above lo [] hi h = tt
Between-Above lo (x ∷ xs) hi h = (h.0, Between-Above x xs hi h.1)

for_each_bit-Between :
    (bm : Bitfield) (k i n : ℕ) → Between (k * 8 + i) (for_each_bit bm k i n) (k * 8 + i + n)
unfolding for_each_bit
for_each_bit-Between bm k i zero = omega arith
for_each_bit-Between bm k i (suc n) =
    let rest = for_each_bit-Between bm k (suc i) n in
    let hi_same : k * 8 + suc i + n ≡ k * 8 + i + suc n = omega arith in
    let rest' = subst (Between (k * 8 + suc i) (for_each_bit bm k (suc i) n)) hi_same rest in
    elim (is_set bm k i)
      as (λ b.
        Between (k * 8 + i)
          (if b then id_of k i ∷ for_each_bit bm k (suc i) n else for_each_bit bm k (suc i) n)
          (k * 8 + i + suc n)) [
            | true ↦ (
              unfold id_of in omega arith,
              unfold id_of in
                  Between-lower (1 + k * 8 + i) (k * 8 + suc i) (for_each_bit bm k (suc i) n) _
                    (omega arith) rest',
            )
            | false ↦ Between-lower (k * 8 + i) (k * 8 + suc i) _ _ (omega arith) rest'
          ]

for_each_byte-Between :
    (bm : Bitfield) (k n : ℕ) → Between (k * 8) (for_each_byte bm k n) ((k + n) * 8)
unfolding for_each_byte
for_each_byte-Between bm k zero = omega arith
for_each_byte-Between bm k (suc n) =
    let byte = for_each_bit-Between bm k 0 8 in
    let rest = for_each_byte-Between bm (suc k) n in
    let mid : k * 8 + 0 + 8 ≡ suc k * 8 = omega arith in
    let hi : (suc k + n) * 8 ≡ (k + suc n) * 8 = omega arith in
    let lo : k * 8 + 0 ≡ k * 8 = omega arith in
    Between-append (k * 8) (for_each_bit bm k 0 8) (suc k * 8) (for_each_byte bm (suc k) n) _
      (subst (λ a. Between a (for_each_bit bm k 0 8) (suc k * 8)) lo
        (subst (Between (k * 8 + 0) (for_each_bit bm k 0 8)) mid byte))
      (subst (Between (suc k * 8) (for_each_byte bm (suc k) n)) hi rest)

for_each-Above : (bm : Bitfield) → Above 0 (for_each bm)
unfolding for_each
for_each-Above bm = Between-Above 0 _ _ (for_each_byte-Between bm 0 (length bm))

elem_below : (n : ℕ) (xs : List ℕ) (j : ℕ) → Above n xs → j ≤ n → elem j xs ≡ false
elem_below n [] j h le = refl
elem_below n (x ∷ xs) j h le = ground (arith, elem_below x xs j h.1)

elem_at : (n x : ℕ) (xs : List ℕ) (j : ℕ) → x ≢ j → elem j (x ∷ xs) ≡ elem j xs
elem_at n x xs j ne = ground arith

-- Two ascending lists with the same members are the same list.
Above-unique :
    (lo : ℕ) (xs ys : List ℕ)
    → Above lo xs
    → Above lo ys
    → ((j : ℕ) → lo < j → elem j xs ≡ elem j ys)
    → xs ≡ ys
Above-unique lo [] [] h k same = refl
Above-unique lo [] (y ∷ ys) h k same = ground (arith, same y)
Above-unique lo (x ∷ xs) [] h k same = ground (arith, same x)
Above-unique lo (x ∷ xs) (y ∷ ys) h k same =
    let first : x ≡ y =
      ground (arith, same x, same y, elem_below y ys x k.1, elem_below x xs y h.1) in
    let rest =
      Above-unique x xs ys h.1 (subst (λ a. Above a ys) (sym first) k.1)
        (λ j lt. ground (arith, same j)) in
    ground arith

-- A new member at its place in an ascending list.
insert_ascending : ℕ → List ℕ → List ℕ
insert_ascending a [] = a ∷ []
insert_ascending a (x ∷ xs) = if ltb a x then a ∷ x ∷ xs else x ∷ insert_ascending a xs

elem-insert_ascending :
    (a : ℕ) (xs : List ℕ) (j : ℕ)
    → elem j (insert_ascending a xs) ≡ (if a == j then true else elem j xs)
unfolding insert_ascending
elem-insert_ascending a [] j = refl
elem-insert_ascending a (x ∷ xs) j = ground (arith, elem-insert_ascending a xs j)

insert_ascending-Above :
    (lo a : ℕ) (xs : List ℕ)
    → lo < a
    → Above lo xs
    → elem a xs ≡ false
    → Above lo (insert_ascending a xs)
unfolding insert_ascending
insert_ascending-Above lo a [] lt h new = (lt, tt)
insert_ascending-Above lo a (x ∷ xs) lt h new = elim (Bool-cases (ltb a x)) [
  | inl before ↦ rw before (lt, (ground arith, h.1))
  | inr after ↦ rw after (h.0, insert_ascending-Above x a xs (ground arith) h.1 (ground arith))
]

insert_ascending-split :
    (a : ℕ) (xs : List ℕ)
    → (front : List ℕ) × (back : List ℕ) × (xs ≡ front ++ back)
      × (insert_ascending a xs ≡ front ++ a ∷ back)
unfolding insert_ascending
insert_ascending-split a [] = ([], [], refl, refl)
insert_ascending-split a (x ∷ xs) = elim (Bool-cases (ltb a x)) [
  | inl before ↦ ([], x ∷ xs, refl, ground arith)
  | inr after ↦
      let r = insert_ascending-split a xs in
      (x ∷ r.0, r.1, ap (λ l. x ∷ l) r.2, ground (arith, r.3))
]

same_members :
    (bm bm' : Bitfield) (i : ℕ)
    → ((j : ℕ) → contains (suc j) bm' ≡ (if i == j then some true else contains (suc j) bm))
    → (j : ℕ) → 0 < j
    → elem j (for_each bm') ≡ elem j (insert_ascending (suc i) (for_each bm))
same_members bm bm' i added zero lt = absurd (omega arith)
same_members bm bm' i added (suc j) lt = ground (
  arith,
  added j,
  for_each-contains bm j,
  for_each-contains bm' j,
  elem-insert_ascending (suc i) (for_each bm) (suc j),
)

-- Adding an ID that is no member puts it into the order of ForEach and moves no other.
pub for_each-add :
    (bm : Bitfield) (i : ℕ)
    → AreBytes bm
    → contains (suc i) bm ≡ some false
    → (bm' : Bitfield) × (front : List ℕ) × (back : List ℕ) × (add (suc i) bm ≡ some bm')
      × AreBytes bm'
      × (for_each bm ≡ front ++ back)
      × (for_each bm' ≡ front ++ suc i ∷ back)
      × ((j : ℕ) → contains (suc j) bm' ≡ (if i == j then some true else contains (suc j) bm))
for_each-add bm i bytes new =
    let r = add-contains bm i bytes in
    let split = insert_ascending-split (suc i) (for_each bm) in
    let new_first : elem (suc i) (for_each bm) ≡ false = ground (arith, for_each-contains bm i) in
    let order =
      Above-unique 0 (for_each r.0) (insert_ascending (suc i) (for_each bm)) (for_each-Above r.0)
        (insert_ascending-Above 0 (suc i) (for_each bm) (omega arith) (for_each-Above bm) new_first)
        (same_members bm r.0 i r.3) in
    (r.0, split.0, split.1, r.1, r.2, split.2, order ∙ split.3, r.3)
