-- ===== src/LeaderRotation/Reputation.antt =====
-- leaderrotation/reputation.go, with the reputations of backend/gorums/gorumsconfig.go. Floats are a
-- parameter, and so are the seed (an FNV hash of the committed block) and the weighted choice
-- (github.com/mroth/weightedrand). `none` is a panic: a method of nil.
pub mod Rewards
use hotstuff_repbased_leader.Prelude.{
  ℕ, ◌+◌, true, false, Option, none, some, List, [], ◌∷◌, to_int, at_most, Dict, lookup, insert,
}
use hotstuff_repbased_leader.Types.{Block, participants}
use hotstuff_repbased_leader.LeaderRotation.RoundRobin.{round_robin}

-- float64, as far as the code uses it.
pub record Float : Type 1 where
  pub F : Type 0
  pub of_nat : ℕ → F
  pub two_thirds : F
  pub add : F → F → F
  pub sub : F → F → F
  pub mul : F → F → F
  pub div : F → F → F
  -- `uint(x)`
  pub to_uint : F → ℕ

module _ (fl : Float) where
  open fl use {F, of_nat, two_thirds, add, sub, mul, div, to_uint}

  -- The reputation of every replica of the configuration.
  abbrev pub Reputations : Type 0
  Reputations = Dict F

  -- `Connect`: a replica starts with its ID for a reputation.
  unfoldable pub connect : List ℕ → Reputations
  connect [] = []
  connect (id ∷ ids) = (id, of_nat id) ∷ connect ids

  -- `UpdateRep`.
  unfoldable pub update_rep : F → F → F
  update_rep prev rep = add prev rep

  -- The votes counted, from 1 on for the leader.
  unfoldable pub count_votes : List ℕ → F → F
  count_votes [] n = n
  count_votes (_ ∷ voters) n = count_votes voters (add n (of_nat 1))

  unfoldable pub reputation_of : ℕ → List ℕ → F
  unfolding count_votes
  reputation_of n voters =
      let frac = mul two_thirds (of_nat n) in div (sub (count_votes voters (of_nat 1)) frac) frac

  -- The loop over the voters: the new reputations and the weighted choices, or the panic on a voter
  -- that is not in the configuration.
  unfoldable pub reward : F → List ℕ → Reputations → Option (Reputations × List (ℕ × ℕ))
  unfolding update_rep
  reward rep [] reps = some (reps, [])
  reward rep (voter ∷ voters) reps = elim (lookup voter reps) [
    | none ↦ none
    | some prev ↦
        let rep' = update_rep prev rep in
        elim (reward rep voters (insert voter rep' reps)) [
          | none ↦ none
          | some (reps', choices) ↦ some (reps', (voter, to_uint (mul rep' (of_nat 10))) ∷ choices)
        ]
  ]

  module _ (seed_of : Block → ℕ) (pick_source : List (ℕ × ℕ) → ℕ → Option ℕ) where
    -- The replicas' reputations after the call, and the leader.
    -- The view is compared as an `int`.
    unfoldable pub get_leader : ℕ → Block → ℕ → Reputations → Reputations × Option ℕ
    unfolding reward reputation_of round_robin participants
    get_leader n commit_head view reps = elim (at_most (to_int view) (n + 10)) [
      | true ↦ (reps, round_robin n view)
      | false ↦ elim commit_head.cert.signature [
        | none ↦ (reps, none)
        | some sig ↦
            let voters = participants sig in
            elim (reward (reputation_of n voters) voters reps) [
              | none ↦ (reps, none)
              | some (reps', choices) ↦ (reps', pick_source choices (seed_of commit_head))
            ]
      ]
    ]
