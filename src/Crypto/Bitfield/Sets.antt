-- ===== src/Crypto/Bitfield/Sets.antt =====
-- The membership of IDs in a bitfield (crypto/bitfield.go), and what Add does to it.
use Prim.Native.Nat.{bit_and, bit_or}
use hotstuff_repbased_leader.Prelude.{
  ℕ, zero, suc, ◌+◌, ◌-◌, ◌/◌, ◌%◌, ◌^◌, ◌≡◌, ◌≤◌, ◌<◌, refl, Bool, true, false, not, ◌&&◌, some,
  [], ◌∷◌, arith, leb, Bool-cases, inl, inr, length, length-append, get_elem?, set, replicate, ◌==◌,
  if◌then◌else◌, All,
}
use hotstuff_repbased_leader.Crypto.Bitfield.{
  Bitfield, byte_or_zero, extend, set_bit, is_set, index, add, contains,
}

abbrev pub AreBytes : Bitfield → Type 0
AreBytes bm = All (λ b. b < 256) bm

-- A test at every number below a bound.
holds_below : (ℕ → Bool) → ℕ → Bool
holds_below test zero = true
holds_below test (suc bound) = if test bound then holds_below test bound else false

holds_below_at :
    (test : ℕ → Bool) (bound at : ℕ) → at < bound → holds_below test bound ≡ true → test at ≡ true
unfolding holds_below
holds_below_at test zero at low table = absurd (omega arith)
holds_below_at test (suc bound) at low table = ground (arith, holds_below_at test bound at)

bool_eq : Bool → Bool → Bool
bool_eq true b = b
bool_eq false b = not b

bool_eq_sound : (a b : Bool) → bool_eq a b ≡ true → a ≡ b
unfolding bool_eq
bool_eq_sound a b h = ground arith

bit : ℕ → ℕ → Bool
bit b i = not (bit_and b (2 ^ i) == 0)

-- What setting a bit of a byte does, at every byte and every two bits.
bit_fact : ℕ → ℕ → ℕ → Bool
bit_fact b i j =
    bool_eq (bit (bit_or b (2 ^ i)) j) (if i == j then true else bit b j)
    && leb (bit_or b (2 ^ i)) 255

bit_table : holds_below (λ i. holds_below (λ j. holds_below (λ b. bit_fact b i j) 256) 8) 8 ≡ true
unfolding holds_below bit_fact bit bool_eq
bit_table = refl

bit_zero_table : holds_below (λ i. not (bit 0 i)) 8 ≡ true
unfolding holds_below bit
bit_zero_table = refl

bit-bit_or :
    (b i j : ℕ)
    → b < 256
    → i < 8
    → j < 8
    → (bit (bit_or b (2 ^ i)) j ≡ (if i == j then true else bit b j)) × (bit_or b (2 ^ i) < 256)
unfolding bit_fact
bit-bit_or b i j hb hi hj =
    let row =
      holds_below_at (λ i. holds_below (λ j. holds_below (λ b. bit_fact b i j) 256) 8) 8 i hi
        bit_table in
    let column = holds_below_at (λ j. holds_below (λ b. bit_fact b i j) 256) 8 j hj row in
    let fact = holds_below_at (λ b. bit_fact b i j) 256 b hb column in
    let same = bool_eq_sound (bit (bit_or b (2 ^ i)) j) (if i == j then true else bit b j) in
    (ground (arith, same), ground arith)

-- The byte at an index, 0 beyond the end.
abbrev byte : Bitfield → ℕ → ℕ
byte bm k = byte_or_zero (get_elem? bm k)

byte-replicate : (n k : ℕ) → byte (replicate n 0) k ≡ 0
byte-replicate zero k = refl
byte-replicate (suc n) zero = refl
byte-replicate (suc n) (suc k) = byte-replicate n k

byte-extend : (bm : Bitfield) (n k : ℕ) → byte (extend bm n) k ≡ byte bm k
unfolding extend
byte-extend [] n k = byte-replicate n k
byte-extend (b ∷ bm) n zero = refl
byte-extend (b ∷ bm) n (suc k) = byte-extend bm n k

byte-set :
    (bm : Bitfield) (i k v : ℕ)
    → i < length bm
    → byte (set bm i v) k ≡ (if i == k then v else byte bm k)
byte-set [] i k v h = elim h [ ]
byte-set (b ∷ bm) zero zero v h = refl
byte-set (b ∷ bm) zero (suc k) v h = ground arith
byte-set (b ∷ bm) (suc i) zero v h = ground arith
byte-set (b ∷ bm) (suc i) (suc k) v h = ground (arith, byte-set bm i k v (omega arith))

byte-lt : (bm : Bitfield) (k : ℕ) → AreBytes bm → byte bm k < 256
byte-lt [] k h = omega arith
byte-lt (b ∷ bm) zero h = h.0
byte-lt (b ∷ bm) (suc k) h = byte-lt bm k h.1

byte_beyond : (bm : Bitfield) (k : ℕ) → length bm ≤ k → byte bm k ≡ 0
byte_beyond [] k h = refl
byte_beyond (b ∷ bm) zero h = elim h [ ]
byte_beyond (b ∷ bm) (suc k) h = byte_beyond bm k (omega arith)

AreBytes-set : (bm : Bitfield) (i v : ℕ) → AreBytes bm → v < 256 → AreBytes (set bm i v)
AreBytes-set [] i v h hv = tt
AreBytes-set (b ∷ bm) zero v h hv = (hv, h.1)
AreBytes-set (b ∷ bm) (suc i) v h hv = (h.0, AreBytes-set bm i v h.1 hv)

AreBytes-extend : (bm : Bitfield) (n : ℕ) → AreBytes bm → AreBytes (extend bm n)
unfolding extend
AreBytes-extend [] zero h = tt
AreBytes-extend [] (suc n) h = (omega arith, AreBytes-extend [] n tt)
AreBytes-extend (b ∷ bm) n h = (h.0, AreBytes-extend bm n h.1)

length-replicate : (n : ℕ) → length {A = ℕ} (replicate n 0) ≡ n
length-replicate zero = refl
length-replicate (suc n) = omega (arith, length-replicate n)

length-extend : (bm : Bitfield) (n : ℕ) → length (extend bm n) ≡ length bm + n
unfolding extend
length-extend bm n = omega (arith, length-append bm (replicate n 0), length-replicate n)

bit-zero : (i : ℕ) → i < 8 → bit 0 i ≡ false
bit-zero i lt = ground (arith, holds_below_at (λ i. not (bit 0 i)) 8 i lt bit_zero_table)

-- Membership of an ID from 1 on, as the bit that stands for it.
contains-bit : (bm : Bitfield) (j : ℕ) → contains (suc j) bm ≡ some (bit (byte bm (j / 8)) (j % 8))
unfolding contains bit index is_set
contains-bit bm j = elim (Bool-cases (leb (length bm) (j / 8))) [
  | inl beyond ↦ ground (arith, byte_beyond bm (j / 8), bit-zero (j % 8) (omega arith))
  | inr inside ↦ ground arith
]

-- The bytes that `Add` makes room for.
abbrev room : ℕ → Bitfield → Bitfield
room k bm = if leb (length bm) k then extend bm (k + 1 - length bm) else bm

room_lem :
    (bm : Bitfield) (k : ℕ)
    → AreBytes bm
    → (k < length (room k bm)) × AreBytes (room k bm) × ((j : ℕ) → byte (room k bm) j ≡ byte bm j)
room_lem bm k h = elim (Bool-cases (leb (length bm) k)) [
  | inl short ↦ (
    ground (arith, length-extend bm (k + 1 - length bm)),
    ground (arith, AreBytes-extend bm (k + 1 - length bm) h),
    λ j. ground (arith, byte-extend bm (k + 1 - length bm) j),
  )
  | inr enough ↦ (ground arith, ground (arith, h), λ j. ground arith)
]

-- Two IDs have the same byte and the same bit only if they are equal.
same_place : (i j : ℕ) → i / 8 ≡ j / 8 → i % 8 ≡ j % 8 → i ≡ j
same_place i j hq hr = omega arith

byte-set_bit :
    (bm : Bitfield) (i j : ℕ)
    → AreBytes bm
    → i / 8 < length bm
    → bit (byte (set_bit bm (i / 8) (i % 8)) (j / 8)) (j % 8)
      ≡ (if i == j then true else bit (byte bm (j / 8)) (j % 8))
unfolding set_bit
byte-set_bit bm i j h inside =
    let v = bit_or (byte bm (i / 8)) (2 ^ (i % 8)) in
    let at = byte-set bm (i / 8) (j / 8) v inside in
    let (fact, _) =
      bit-bit_or (byte bm (i / 8)) (i % 8) (j % 8) (byte-lt bm (i / 8) h) (omega arith)
        (omega arith) in
    rw at elim (Bool-cases (i / 8 == j / 8)) [
      | inl q ↦ elim (Bool-cases (i % 8 == j % 8)) [
        | inl r ↦ let same = same_place i j (ground arith) (ground arith) in ground arith
        | inr r ↦ ground arith
      ]
      | inr q ↦ ground arith
    ]

-- Adding an ID from 1 on does not fail, keeps the bytes bytes, makes the ID a member, and changes the
-- membership of no other ID.
pub add-contains :
    (bm : Bitfield) (i : ℕ)
    → AreBytes bm
    → (bm' : Bitfield) × (add (suc i) bm ≡ some bm')
      × AreBytes bm'
      × ((j : ℕ) → contains (suc j) bm' ≡ (if i == j then some true else contains (suc j) bm))
unfolding add set_bit index
add-contains bm i h =
    let (inside, bytes, same) = room_lem bm (i / 8) h in
    let r = room (i / 8) bm in
    let (_, byte_bound) =
      bit-bit_or (byte r (i / 8)) (i % 8) 0 (byte-lt r (i / 8) bytes) (omega arith) (omega arith) in
    (
      set_bit r (i / 8) (i % 8),
      refl,
      AreBytes-set r (i / 8) _ bytes byte_bound,
      λ j.
          rw (contains-bit, byte-set_bit r i j bytes inside, same) ground
            (arith, contains-bit bm j),
    )
