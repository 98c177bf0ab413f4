-- ===== src/Hotstuffpb/Bytes.antt =====
-- The numbers that internal/proto/hotstuffpb/convert.go reads from bytes: `big.Int.SetBytes`,
-- `binary.LittleEndian.Uint32` and the copy of a slice into the 32 bytes of a hash.
use native.Mathlib.Numerals.{unary_clauses}
use hotstuff_repbased_leader.Prelude.{
  ℕ, zero, suc, ◌+◌, ◌*◌, ◌/◌, ◌%◌, ◌^◌, ◌≤◌, ◌<◌, ◌≡◌, refl, ◌==◌, inl, inr, Bool-cases, List, [],
  ◌∷◌, ◌++◌, arith,
}
use hotstuff_repbased_leader.Types.{le_bytes, be_bytes}

-- `SetBytes` on a number that is `acc` so far.
unfoldable pub set_bytes : List ℕ → ℕ → ℕ
set_bytes [] acc = acc
set_bytes (b ∷ bs) acc = set_bytes bs (acc * 256 + b)

-- The number in the first `n` bytes, the lowest first. Bytes that are missing are zero, as they are
-- in a hash that too short a slice is copied into.
unfoldable pub le_value : ℕ → List ℕ → ℕ
le_value zero bs = 0
le_value (suc n) [] = 0
le_value (suc n) (b ∷ bs) = b + 256 * le_value n bs

set_bytes-append :
    (bs : List ℕ) (b acc : ℕ) → set_bytes (bs ++ b ∷ []) acc ≡ set_bytes bs acc * 256 + b
unfolding set_bytes
set_bytes-append [] b acc = refl
set_bytes-append (c ∷ bs) b acc = set_bytes-append bs b (acc * 256 + c)

pub set_bytes-be_bytes : (n x : ℕ) → x ≤ n → set_bytes (be_bytes n x) 0 ≡ x
unfolding be_bytes set_bytes
set_bytes-be_bytes zero x h = omega arith
set_bytes-be_bytes (suc n) x h = elim (Bool-cases (x == 0)) [
  | inl nought ↦ ground arith
  | inr more ↦ ground (
    arith,
    set_bytes-append (be_bytes n (x / 256)) (x % 256) 0,
    set_bytes-be_bytes n (x / 256) (ground arith),
  )
]

pow_suc : (n : ℕ) → 256 ^ suc n ≡ 256 * 256 ^ n
pow_suc n = simp unary_clauses (omega arith)

pub le_value-le_bytes :
    (n x : ℕ) (rest : List ℕ) → x < 256 ^ n → le_value n (le_bytes n x ++ rest) ≡ x
unfolding le_value le_bytes
le_value-le_bytes zero x rest h = omega arith
le_value-le_bytes (suc n) x rest h =
    omega (arith, pow_suc n, le_value-le_bytes n (x / 256) rest (omega (arith, pow_suc n)))
