-- ===== src/Crypto/Bitfield.antt =====
-- crypto/bitfield.go: a set of replica IDs as a slice of bytes. An ID `i` is bit `i - 1`.
-- `none` is a panic: the shift by -1 that an ID of 0 leads to.
pub mod Sets
pub mod Walks
pub mod Orders
use Prim.Native.Nat.{bit_and, bit_or}
use hotstuff_repbased_leader.Prelude.{
  ℕ, zero, suc, ◌+◌, ◌-◌, ◌*◌, ◌/◌, ◌%◌, ◌^◌, Bool, not, false, Option, none, some, List, [], ◌∷◌,
  ◌++◌, length, get_elem?, set, replicate, leb, ◌==◌, if◌then◌else◌,
}

-- A slice of bytes, each below 256.
abbrev pub Bitfield : Type 0
Bitfield = List ℕ

unfoldable pub extend : Bitfield → ℕ → Bitfield
extend bm n_bytes = bm ++ replicate n_bytes 0

abbrev byte_or_zero : Option ℕ → ℕ
byte_or_zero none = 0
byte_or_zero (some b) = b

-- `(*bm)[byteIdx] |= 1 << bitIdx`; the callers keep the index in range.
unfoldable pub set_bit : Bitfield → ℕ → ℕ → Bitfield
set_bit bm byte_idx bit_idx =
    set bm byte_idx (bit_or (byte_or_zero (get_elem? bm byte_idx)) (2 ^ bit_idx))

unfoldable pub is_set : Bitfield → ℕ → ℕ → Bool
is_set bm byte_idx bit_idx = not (bit_and (byte_or_zero (get_elem? bm byte_idx)) (2 ^ bit_idx) == 0)

-- The byte and the bit of an ID. For ID 0 Go computes byte 0 and bit -1.
unfoldable pub index : ℕ → ℕ × Option ℕ
index zero = (0, none)
index (suc i) = (i / 8, some (i % 8))

unfoldable pub id_of : ℕ → ℕ → ℕ
id_of byte_idx bit_idx = 1 + byte_idx * 8 + bit_idx

unfoldable pub add : ℕ → Bitfield → Option Bitfield
unfolding extend set_bit index
add id bm =
    let (byte_idx, bit) = index id in
    let room = if leb (length bm) byte_idx then extend bm (byte_idx + 1 - length bm) else bm in
    elim bit [ none ↦ none | some bit_idx ↦ some (set_bit room byte_idx bit_idx) ]

unfoldable pub contains : ℕ → Bitfield → Option Bool
unfolding is_set index
contains id bm =
    let (byte_idx, bit) = index id in
    if leb (length bm) byte_idx
    then some false
    else elim bit [ none ↦ none | some bit_idx ↦ some (is_set bm byte_idx bit_idx) ]

-- The inner loop of `ForEach`: the IDs of the bits from `bit_idx` on, `n` of them.
unfoldable pub for_each_bit : Bitfield → ℕ → ℕ → ℕ → List ℕ
unfolding is_set id_of
for_each_bit bm byte_idx bit_idx zero = []
for_each_bit bm byte_idx bit_idx (suc n) =
    let rest = for_each_bit bm byte_idx (suc bit_idx) n in
    if is_set bm byte_idx bit_idx then id_of byte_idx bit_idx ∷ rest else rest

-- The outer loop, over `n` bytes from `byte_idx` on.
unfoldable pub for_each_byte : Bitfield → ℕ → ℕ → List ℕ
for_each_byte bm byte_idx zero = []
for_each_byte bm byte_idx (suc n) =
    for_each_bit bm byte_idx 0 8 ++ for_each_byte bm (suc byte_idx) n

-- The IDs that `ForEach` calls its argument with, in order.
unfoldable pub for_each : Bitfield → List ℕ
unfolding for_each_byte
for_each bm = for_each_byte bm 0 (length bm)
