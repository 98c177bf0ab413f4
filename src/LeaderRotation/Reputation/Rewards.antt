-- ===== src/LeaderRotation/Reputation/Rewards.antt =====
-- What GetLeader of leaderrotation/reputation.go does to the reputations.
use hotstuff_repbased_leader.Prelude.{
  ℕ, ◌+◌, ◌≡◌, false, Option, some, none, List, [], refl, ◌∷◌, if◌then◌else◌, elem, arith, lookup,
  insert, lookup-insert, All, All-map, Bool-cases, ◌==◌, ◌∙◌, ◌+◌, ◌<◌, ◌≤◌, Option-cases, inl, inr,
}
use hotstuff_repbased_leader.Types.{ThresholdSignature, Block, participants}
use hotstuff_repbased_leader.LeaderRotation.RoundRobin.{round_robin}
use hotstuff_repbased_leader.LeaderRotation.Reputation.{
  Float, Reputations, update_rep, reputation_of, reward, get_leader,
}

-- No ID occurs twice.
abbrev pub IsDistinct : List ℕ → Type 0
IsDistinct [] = Unit
IsDistinct (x ∷ xs) = (elem x xs ≡ false) × IsDistinct xs

module _ (fl : Float) where
  open fl use {F, add, mul, of_nat, to_uint}

  abbrev pub added : F → Option F → Option F
  added rep none = none
  added rep (some prev) = some (add prev rep)

  reward_lem :
      (rep : F) (voters : List ℕ) (reps reps' : Reputations fl) (choices : List (ℕ × ℕ)) (j : ℕ)
      → IsDistinct voters
      → reward fl rep voters reps ≡ some (reps', choices)
      → lookup j reps' ≡ (if elem j voters then added rep (lookup j reps) else lookup j reps)
  unfolding reward update_rep
  reward_lem rep [] reps reps' choices j distinct h = ground arith
  reward_lem rep (v ∷ voters) reps reps' choices j distinct h =
      elim (Option-cases (lookup v reps)) [
        | inl missing ↦ ground arith
        | inr (prev, found) ↦
            elim (Option-cases (reward fl rep voters (insert v (add prev rep) reps))) [
              | inl panics ↦ ground arith
              | inr ((reps2, rest), went) ↦
                  let after =
                    reward_lem rep voters (insert v (add prev rep) reps) reps2 rest j distinct.1
                      went in
                  ground (arith, after, lookup-insert v j (add prev rep) reps)
            ]
      ]

  -- A replica of the configuration.
  abbrev pub IsKnown : Reputations fl → ℕ → Type 0
  IsKnown reps id = (rep : F) × (lookup id reps ≡ some rep)

  IsKnown-insert :
      (k id : ℕ) (v : F) (reps : Reputations fl) → IsKnown reps id → IsKnown (insert k v reps) id
  IsKnown-insert k id v reps (rep, found) = elim (Bool-cases (k == id)) [
    | inl same ↦ (v, ground (arith, lookup-insert k id v reps))
    | inr other ↦ (rep, ground (arith, lookup-insert k id v reps))
  ]

  reward_total :
      (rep : F) (voters : List ℕ) (reps : Reputations fl)
      → All (IsKnown reps) voters
      → (out : Reputations fl × List (ℕ × ℕ)) × (reward fl rep voters reps ≡ some out)
  unfolding reward update_rep
  reward_total rep [] reps known = ((reps, []), refl)
  reward_total rep (v ∷ voters) reps ((prev, found), known) =
      let reps1 = insert v (add prev rep) reps in
      let ((reps', choices), went) =
        reward_total rep voters reps1
          (All-map voters (λ id. IsKnown-insert v id (add prev rep) reps) known) in
      ((reps', (v, to_uint (mul (add prev rep) (of_nat 10))) ∷ choices), ground arith)

  module _ (seed_of : Block → ℕ) (pick_source : List (ℕ × ℕ) → ℕ → Option ℕ) where
    once :
        (n view : ℕ) (head : Block) (sig : ThresholdSignature) (reps : Reputations fl) (j : ℕ)
        → n + 10 < view
        → view < 9223372036854775808
        → head.cert.signature ≡ some sig
        → IsDistinct (participants sig)
        → All (IsKnown reps) (participants sig)
        → lookup j (get_leader fl seed_of pick_source n head view reps).0 ≡ (
            if elem j (participants sig)
            then added (reputation_of fl n (participants sig)) (lookup j reps)
            else lookup j reps)
    unfolding get_leader
    once n view head sig reps j late small signed distinct known =
        let voters = participants sig in
        let rep = reputation_of fl n voters in
        let ((reps', choices), went) = reward_total rep voters reps known in
        ground (arith, reward_lem rep voters reps reps' choices j distinct went)

    still-IsKnown :
        (n view : ℕ) (head : Block) (sig : ThresholdSignature) (reps : Reputations fl) (j : ℕ)
        → n + 10 < view
        → view < 9223372036854775808
        → head.cert.signature ≡ some sig
        → IsDistinct (participants sig)
        → All (IsKnown reps) (participants sig)
        → IsKnown reps j
        → IsKnown (get_leader fl seed_of pick_source n head view reps).0 j
    still-IsKnown n view head sig reps j late small signed distinct known (prev, found) =
        let after = once n view head sig reps j late small signed distinct known in
        elim (Bool-cases (elem j (participants sig))) [
          | inl voted ↦ (add prev (reputation_of fl n (participants sig)), ground arith)
          | inr other ↦ (prev, ground arith)
        ]

    -- A view of 2^63 or more is negative as an `int`, and is led in turn again.
    pub get_leader_high :
        (n view : ℕ) (head : Block) (reps : Reputations fl)
        → 9223372036854775808 ≤ view
        → get_leader fl seed_of pick_source n head view reps ≡ (reps, round_robin n view)
    unfolding get_leader
    get_leader_high n view head reps high = ground arith

    -- For a view above n + 10 and below 2^63, and with a certificate in the committed block that is
    -- signed by distinct replicas of the configuration, every call of GetLeader adds the reputation
    -- of the certificate to that of each voter and to no other, so two calls for one view add it
    -- twice.
    pub get_leader_rewards :
        (n view : ℕ) (head : Block) (sig : ThresholdSignature) (reps : Reputations fl) (j : ℕ)
        → n + 10 < view
        → view < 9223372036854775808
        → head.cert.signature ≡ some sig
        → IsDistinct (participants sig)
        → All (IsKnown reps) (participants sig)
        → let once = get_leader fl seed_of pick_source n head view reps in
          let twice = get_leader fl seed_of pick_source n head view once.0 in
          let rep = reputation_of fl n (participants sig) in
          (lookup j once.0
            ≡ (if elem j (participants sig) then added rep (lookup j reps) else lookup j reps))
          × (lookup j twice.0 ≡ (
              if elem j (participants sig)
              then added rep (added rep (lookup j reps))
              else lookup j reps))
    get_leader_rewards n view head sig reps j late small signed distinct known =
        let first = once n view head sig reps j late small signed distinct known in
        let reps1 = (get_leader fl seed_of pick_source n head view reps).0 in
        let known1 =
          All-map (participants sig)
            (λ id. still-IsKnown n view head sig reps id late small signed distinct known) known in
        let second = once n view head sig reps1 j late small signed distinct known1 in
        (first, second ∙ ground (arith, first))
