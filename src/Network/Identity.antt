-- ===== src/Network/Identity.antt =====
-- How a replica without TLS is known: NewConfig of backend/gorums/gorumsconfig.go puts its ID in the
-- metadata, and getClientID of backend/gorums/gorumsserver.go reads it.
use hotstuff_repbased_leader.Prelude.{
  pos, ℕ, zero, suc, ◌+◌, ◌-◌, ◌*◌, ◌/◌, ◌%◌, ◌<◌, ◌≡◌, Option, none, some, List, [], ◌∷◌, ◌++◌,
  ltb, inl, inr, Bool-cases, length, length-append, arith,
}
use hotstuff_repbased_leader.Server.{digits, atoi, to_id, get_client_id, no_tls}
use hotstuff_repbased_leader.Network.{decimal, new_config}

abbrev then_digit : ℕ → Option ℕ → Option ℕ
then_digit d none = none
then_digit d (some n) = some (n * 10 + d)

digits-append :
    (cs : List ℕ) (d acc : ℕ)
    → d < 10
    → digits (cs ++ (48 + d) ∷ []) acc ≡ then_digit d (digits cs acc)
unfolding digits
digits-append [] d acc h = ground arith
digits-append (c ∷ cs) d acc h = ground (arith, digits-append cs d (acc * 10 + (c - 48)) h)

digits-decimal : (fuel n : ℕ) → n < fuel → digits (decimal fuel n) 0 ≡ some n
unfolding decimal digits
digits-decimal zero n h = elim h [ ]
digits-decimal (suc fuel) n h = elim (Bool-cases (ltb n 10)) [
  | inl small ↦ ground (arith, digits-append [] n 0 (ground arith))
  | inr more ↦ ground (
    arith,
    digits-append (decimal fuel (n / 10)) (n % 10) 0 (omega arith),
    digits-decimal fuel (n / 10) (ground arith),
  )
]

atoi_of_digits :
    (cs : List ℕ) (n : ℕ)
    → 0 < length cs
    → digits cs 0 ≡ some n
    → n < 9223372036854775808
    → atoi cs ≡ some (pos n)
unfolding atoi digits
atoi_of_digits [] n some_digit h fits = absurd (omega arith)
atoi_of_digits (c ∷ cs) n some_digit h fits = ground arith

decimal_nonempty : (fuel n : ℕ) → 0 < fuel → 0 < length (decimal fuel n)
unfolding decimal
decimal_nonempty zero n h = h
decimal_nonempty (suc fuel) n h =
    ground (arith, length-append (decimal fuel (n / 10)) ((48 + n % 10) ∷ []))

-- A server that is called without TLS takes the sender for the replica whose ID its NewConfig was
-- given.
pub get_client_id-new_config :
    (replicas : List ℕ) (id : ℕ)
    → id < 4294967296
    → get_client_id replicas
        (record { peer = some no_tls; metadata = some (new_config id).metadata })
      ≡ some id
unfolding get_client_id new_config to_id
get_client_id-new_config replicas id fits = ground (
  arith,
  atoi_of_digits (decimal (id + 1) id) id (decimal_nonempty (id + 1) id (omega arith))
      (digits-decimal (id + 1) id (omega arith)) (omega arith),
)
