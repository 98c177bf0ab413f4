-- ===== src/Sizes/Intersections.antt =====
-- Counts of replicas, and the sizes of helper.go.
use hotstuff_repbased_leader.Prelude.{
  ℕ, zero, suc, ◌+◌, ◌*◌, ◌≡◌, ◌≤◌, ◌<◌, ◌⊎◌, ◌↔◌, Bool, true, false, arith, inl, inr, Bool-cases,
  if◌then◌else◌,
}
use hotstuff_repbased_leader.Sizes.{num_faulty, quorum_size}

-- How many of the replicas 1 to `n` pass a test.
abbrev pub count : (ℕ → Bool) → ℕ → ℕ
count p zero = 0
count p (suc n) = let rest = count p n in if p (suc n) then suc rest else rest

-- A replica that is in both sets and not faulty.
pub record Witness (p q faulty : ℕ → Bool) (n : ℕ) : Type 0 where
  pub id : ℕ
  pub positive : 0 < id
  pub within : id ≤ n
  pub in_p : p id ≡ true
  pub in_q : q id ≡ true
  pub correct : faulty id ≡ false

pub Witness-or_bound :
    (p q faulty : ℕ → Bool) (n : ℕ)
    → Witness p q faulty n ⊎ (count p n + count q n ≤ n + count faulty n)
Witness-or_bound p q faulty zero = inr (omega arith)
Witness-or_bound p q faulty (suc n) = elim (Witness-or_bound p q faulty n) [
  | inl w ↦ inl (record {
    id = w.id;
    positive = w.positive;
    within = omega arith;
    in_p = w.in_p;
    in_q = w.in_q;
    correct = w.correct;
  })
  | inr bound ↦ elim (Bool-cases (p (suc n))) [
    | inr not_p ↦ inr (ground arith)
    | inl in_p ↦ elim (Bool-cases (q (suc n))) [
      | inr not_q ↦ inr (ground arith)
      | inl in_q ↦ elim (Bool-cases (faulty (suc n))) [
        | inl bad ↦ inr (ground arith)
        | inr good ↦ inl (record {
          id = suc n;
          positive = omega arith;
          within = omega arith;
          in_p = in_p;
          in_q = in_q;
          correct = good;
        })
      ]
    ]
  ]
]

-- In any configuration that is not empty, two sets of the size of a quorum have a replica in
-- common that is not faulty, if no more replicas are faulty than the configuration tolerates.
pub quorum_intersection :
    (n : ℕ) (p q faulty : ℕ → Bool)
    → 0 < n
    → quorum_size n ≤ count p n
    → quorum_size n ≤ count q n
    → count faulty n ≤ num_faulty n
    → Witness p q faulty n
unfolding quorum_size
quorum_intersection n p q faulty pos hp hq hf = elim (Witness-or_bound p q faulty n) [
  | inl w ↦ w
  | inr bound ↦ absurd (omega arith)
]

-- The correct replicas alone make a quorum. The size is 2 f + 1, as its comment says, exactly if the
-- configuration has 3 f + 1 replicas; for the other sizes it is greater.
pub quorum_size_lem :
    (n : ℕ)
    → 0 < n
    → (quorum_size n + num_faulty n ≡ n)
      × (2 * num_faulty n + 1 ≤ quorum_size n)
      × ((quorum_size n ≡ 2 * num_faulty n + 1) ↔ (n ≡ 3 * num_faulty n + 1))
unfolding quorum_size
quorum_size_lem n pos = (omega arith, omega arith, (λ e. omega arith, λ e. omega arith))
