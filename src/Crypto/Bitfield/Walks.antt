-- ===== src/Crypto/Bitfield/Walks.antt =====
-- The IDs that ForEach of crypto/bitfield.go visits.
use hotstuff_repbased_leader.Prelude.{
  ℕ, zero, suc, ◌+◌, ◌/◌, ◌%◌, ◌≡◌, ◌≤◌, ◌<◌, refl, ap, ◌∙◌, ◌&&◌, ◌||◌, some, List, [], ◌∷◌, ◌++◌,
  arith, ltb, leb, ◌==◌, elem, length, Bool-cases, inl, inr,
}
use hotstuff_repbased_leader.Crypto.Bitfield.{
  Bitfield, is_set, index, id_of, contains, for_each_bit, for_each_byte, for_each,
}

elem-append : (a : ℕ) (xs ys : List ℕ) → elem a (xs ++ ys) ≡ (elem a xs || elem a ys)
elem-append a [] ys = refl
elem-append a (x ∷ xs) ys = ground (arith, elem-append a xs ys)

id_of-place : (k i j : ℕ) → i < 8 → (id_of k i == suc j) ≡ (j / 8 == k && j % 8 == i)
unfolding id_of
id_of-place k i j low = ground arith

elem-for_each_bit :
    (bm : Bitfield) (k i n j : ℕ)
    → i + n ≤ 8
    → elem (suc j) (for_each_bit bm k i n)
      ≡ (j / 8 == k && (leb i (j % 8) && (ltb (j % 8) (i + n) && is_set bm k (j % 8))))
unfolding for_each_bit
elem-for_each_bit bm k i zero j low = ground arith
elem-for_each_bit bm k i (suc n) j low =
    let rest = elem-for_each_bit bm k (suc i) n j (omega arith) in
    let place = id_of-place k i j (omega arith) in
    elim (Bool-cases (j % 8 == i)) [
      | inl same ↦
          let here : j % 8 ≡ i = ground arith in
          let bit : is_set bm k (j % 8) ≡ is_set bm k i = ap (is_set bm k) here in
          elim (Bool-cases (is_set bm k i)) [
            | inl set_bit ↦ ground arith
            | inr clear ↦ ground arith
          ]
      | inr other ↦ elim (Bool-cases (is_set bm k i)) [
        | inl set_bit ↦ ground arith
        | inr clear ↦ ground arith
      ]
    ]

elem-for_each_byte :
    (bm : Bitfield) (k n j : ℕ)
    → elem (suc j) (for_each_byte bm k n)
      ≡ (leb k (j / 8) && (ltb (j / 8) (k + n) && is_set bm (j / 8) (j % 8)))
unfolding for_each_byte
elem-for_each_byte bm k zero j = ground arith
elem-for_each_byte bm k (suc n) j =
    let rest = elem-for_each_byte bm (suc k) n j in
    let first = elem-for_each_bit bm k 0 8 j (omega arith) in
    elem-append (suc j) (for_each_bit bm k 0 8) (for_each_byte bm (suc k) n)
    ∙ (elim (Bool-cases (j / 8 == k)) [
      | inl same ↦
          let here : j / 8 ≡ k = ground arith in
          let bit : is_set bm (j / 8) (j % 8) ≡ is_set bm k (j % 8) =
            ap (λ b. is_set bm b (j % 8)) here in
          ground arith
      | inr other ↦ ground arith
    ])

-- The loop of ForEach visits exactly the IDs, from 1 on, that Contains says are in the set.
pub for_each-contains :
    (bm : Bitfield) (j : ℕ) → contains (suc j) bm ≡ some (elem (suc j) (for_each bm))
unfolding for_each contains index
for_each-contains bm j =
    let visited = elem-for_each_byte bm 0 (length bm) j in
    elim (Bool-cases (leb (length bm) (j / 8))) [
      | inl beyond ↦ ground arith
      | inr inside ↦ ground arith
    ]
