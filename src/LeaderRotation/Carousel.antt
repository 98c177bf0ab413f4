-- ===== src/LeaderRotation/Carousel.antt =====
-- leaderrotation/carousel.go: a leader among the voters of the committed block, without the latest
-- authors. The random number is an argument. `none` is a panic: a method of nil, or the remainder
-- by zero.
pub mod Candidates
use hotstuff_repbased_leader.Prelude.{
  ℕ, zero, suc, ◌-◌, ◌%◌, true, false, Option, none, some, List, [], ◌∷◌, map, leb, ◌==◌,
  if◌then◌else◌, length, get_elem?,
}
use hotstuff_repbased_leader.Types.{Block, participants, genesis}
use hotstuff_repbased_leader.Sizes.{num_faulty}
use hotstuff_repbased_leader.BlockChain.{Chain, FetchOutcome, get}
use hotstuff_repbased_leader.LeaderRotation.RoundRobin.{round_robin}

-- `active[len(active)-1]`, where there is one.
unfoldable pub last_or : ℕ → List ℕ → ℕ
last_or d [] = d
last_or d (x ∷ xs) = last_or x xs

-- The inner loop of `RemoveActive`: `remove` writes the last element over the one found, and the
-- shorter slice that it returns is dropped.
unfoldable pub overwrite : ℕ → List ℕ → List ℕ
unfolding last_or
overwrite id active = map (λ x. if x == id then last_or 0 active else x) active

unfoldable pub remove_active : List ℕ → List ℕ → List ℕ
unfolding overwrite
remove_active active [] = active
remove_active active (id ∷ last) = remove_active (overwrite id active) last

module _ (sha256 : List ℕ → ℕ) (fetch : ℕ → FetchOutcome) where
  -- The loop over the ancestors, for `n` authors more. A missing parent is nil, whose proposer the
  -- next round asks for. Blocks are compared by their hashes.
  unfoldable pub last_authors : ℕ → Option Block → Chain → Chain × Option (List ℕ)
  unfolding get genesis
  last_authors zero block chain = (chain, some [])
  last_authors (suc n) none chain = (chain, none)
  last_authors (suc n) (some block) chain = elim (block.hash == (genesis sha256).hash) [
    | true ↦ (chain, some [])
    | false ↦
        let (chain', parent) = get sha256 fetch block.parent chain in
        let (chain'', authors) = last_authors n parent chain' in
        (chain'', elim authors [ none ↦ none | some ids ↦ some (block.proposer ∷ ids) ])
  ]

  -- `leader_candidates[r.Int() % len(leader_candidates)]`.
  unfoldable pub pick : ℕ → List ℕ → Option ℕ
  pick random [] = none
  pick random (x ∷ xs) = get_elem? (x ∷ xs) (random % length (x ∷ xs))

  unfoldable pub choose : ℕ → List ℕ → Option (List ℕ) → Option ℕ
  unfolding remove_active pick
  choose random endorsers none = none
  choose random endorsers (some authors) = pick random (remove_active endorsers authors)

  -- `GetLeader` for `n` replicas, at a committed block and the view of the highest certificate.
  unfoldable pub get_leader : ℕ → ℕ → Block → ℕ → ℕ → Chain → Chain × Option ℕ
  unfolding last_authors choose round_robin participants num_faulty
  get_leader n random commit_head high_view round chain = elim (leb round 10) [
    | true ↦ (chain, round_robin n round)
    | false ↦ elim commit_head.cert.signature [
      | none ↦ (chain, none)
      | some sig ↦ elim (high_view == round - 1) [
        | false ↦ (chain, round_robin n round)
        | true ↦
            let (chain', authors) = last_authors (num_faulty n) (some commit_head) chain in
            (chain', choose random (participants sig) authors)
      ]
    ]
  ]
