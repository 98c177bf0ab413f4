-- ===== src/BlockChain/Walks.antt =====
-- The walk of `Extends` (blockchain/blockchain.go) down a branch.
use hotstuff_repbased_leader.Prelude.{
  ℕ, zero, suc, ◌≡◌, ◌≤◌, ◌<◌, ◌-◌, true, false, none, some, List, arith, ltb, Option-cases,
  Bool-cases, inl, inr, ◌==◌, ◌∙◌,
}
use hotstuff_repbased_leader.Types.{Block}
use hotstuff_repbased_leader.BlockChain.{Chain, FetchOutcome, get, walk_down, extends}
use hotstuff_repbased_leader.BlockChain.Lookups.{block_at, get-keeps, get-found, get_hit}

-- `a` is reached from a block by following parents in the chain.
pub data Descends (chain : Chain) : Block → Block → Type 0 where
  self : {b : Block} → Descends chain b b
  above :
      {b p a : Block} → block_at b.parent chain ≡ some p → Descends chain p a → Descends chain b a

-- A branch of falling views from a block to the first one at or below a height.
pub data Branch (chain : Chain) (height : ℕ) : Block → Block → Type 0 where
  reached : {b : Block} → b.view ≤ height → Branch chain height b b
  down :
      {b p a : Block}
      → height < b.view
      → block_at b.parent chain ≡ some p
      → p.view < b.view
      → Branch chain height p a
      → Branch chain height b a

-- Every block of one chain is in the other.
abbrev pub Grows : Chain → Chain → Type 0
Grows c d = (k : ℕ) (b : Block) → block_at k c ≡ some b → block_at k d ≡ some b

Descends-grow : {c d : Chain} {b a : Block} → Grows c d → Descends c b a → Descends d b a
Descends-grow g self = self
Descends-grow g (above {b = b} {p = p} found up) = above (g b.parent p found) (Descends-grow g up)

module _ (sha256 : List ℕ → ℕ) (fetch : ℕ → FetchOutcome) where
  -- One round of the loop.

  walk_stop :
      (fuel height : ℕ) (b : Block) (chain : Chain)
      → ltb height b.view ≡ false
      → walk_down sha256 fetch (suc fuel) height b chain ≡ (chain, some b)
  unfolding walk_down
  walk_stop fuel height b chain low = rw (low, walk_down)

  walk_missing :
      (fuel height : ℕ) (b : Block) (chain : Chain)
      → ltb height b.view ≡ true
      → (get sha256 fetch b.parent chain).1 ≡ none
      → walk_down sha256 fetch (suc fuel) height b chain
        ≡ ((get sha256 fetch b.parent chain).0, none)
  unfolding walk_down
  walk_missing fuel height b chain high missing = rw (high, missing, walk_down)

  walk_parent :
      (fuel height : ℕ) (b : Block) (chain : Chain) {p : Block}
      → ltb height b.view ≡ true
      → (get sha256 fetch b.parent chain).1 ≡ some p
      → walk_down sha256 fetch (suc fuel) height b chain
        ≡ walk_down sha256 fetch fuel height p (get sha256 fetch b.parent chain).0
  unfolding walk_down
  walk_parent fuel height b chain high found = rw (high, found, walk_down)

  walk_down-Grows :
      (fuel height : ℕ) (b : Block) (chain : Chain)
      → Grows chain (walk_down sha256 fetch fuel height b chain).0
  unfolding walk_down
  walk_down-Grows zero height b chain k d found = found
  walk_down-Grows (suc fuel) height b chain k d found =
      let after = (get sha256 fetch b.parent chain).0 in
      let kept = get-keeps sha256 fetch b.parent k chain found in
      elim (Option-cases (get sha256 fetch b.parent chain).1) [
        | inl missing ↦ ground arith
        | inr (p, there) ↦ ground (arith, walk_down-Grows fuel height p after k d kept)
      ]

  walk_down-Descends :
      (fuel height : ℕ) (b a : Block) (chain : Chain)
      → (walk_down sha256 fetch fuel height b chain).1 ≡ some a
      → Descends (walk_down sha256 fetch fuel height b chain).0 b a
  unfolding walk_down
  walk_down-Descends zero height b a chain h = ground arith
  walk_down-Descends (suc fuel) height b a chain h =
      let after = (get sha256 fetch b.parent chain).0 in
      elim (Bool-cases (ltb height b.view)) [
        | inr low ↦
            let e = walk_stop fuel height b chain low in
            let same : b ≡ a = ground arith in rw (e, ← same) self
        | inl high ↦ elim (Option-cases (get sha256 fetch b.parent chain).1) [
          | inl missing ↦ let e = walk_missing fuel height b chain high missing in ground arith
          | inr (p, found) ↦
              let e = walk_parent fuel height b chain high found in
              rw e (
                above
                  (walk_down-Grows fuel height p after b.parent p
                    (get-found sha256 fetch b.parent chain found))
                  (walk_down-Descends fuel height p a after (rw e at h)))
        ]
      ]

  -- Where the loop stops, the block is no higher than the target.
  walk_down-le :
      (fuel height : ℕ) (b a : Block) (chain : Chain)
      → (walk_down sha256 fetch fuel height b chain).1 ≡ some a
      → a.view ≤ height
  unfolding walk_down
  walk_down-le zero height b a chain h = ground arith
  walk_down-le (suc fuel) height b a chain h =
      elim (Option-cases (get sha256 fetch b.parent chain).1) [
        | inl missing ↦ ground arith
        | inr (p, found) ↦
            ground (arith, walk_down-le fuel height p a (get sha256 fetch b.parent chain).0)
      ]

  -- If `Extends` says yes, then following the parents of the block in the chain, as it is
  -- afterwards, leads to a block with the target's hash, which is no higher than the target.
  pub extends_sound :
      (fuel : ℕ) (block target : Block) (chain : Chain)
      → (extends sha256 fetch fuel block target chain).1 ≡ true
      → (a : Block) × Descends (extends sha256 fetch fuel block target chain).0 block a
        × (a.hash ≡ target.hash)
        × (a.view ≤ target.view)
  unfolding extends
  extends_sound fuel block target chain h =
      elim (Option-cases (walk_down sha256 fetch fuel target.view block chain).1) [
        | inl lost ↦ ground arith
        | inr (a, stopped) ↦ (
          a,
          walk_down-Descends fuel target.view block a chain stopped,
          ground arith,
          walk_down-le fuel target.view block a chain stopped,
        )
      ]

  -- On a branch of falling views that is stored, the loop ends at the first block that is no
  -- higher than the target, with fuel for the difference of the views, and fetches nothing.
  walk_down-Branch :
      (fuel height : ℕ) (b a : Block) (chain : Chain)
      → Branch chain height b a
      → b.view - height < fuel
      → walk_down sha256 fetch fuel height b chain ≡ (chain, some a)
  walk_down-Branch zero height b a chain br enough = absurd (omega arith)
  walk_down-Branch (suc fuel) height b a chain (reached le) enough =
      walk_stop fuel height b chain (ground arith)
  walk_down-Branch (suc fuel) height b a chain (down {p = p} high found falls br) enough =
      let hit = get_hit sha256 fetch b.parent chain found in
      walk_parent fuel height b chain {p = p} (ground arith) (rw hit)
      ∙ rw hit (walk_down-Branch fuel height p a chain br (omega arith))

  -- On a stored branch of falling views `Extends` is exact: it compares the target with the first
  -- block of the branch that is no higher, changes nothing, and any fuel above the difference of
  -- the views gives this answer.
  pub extends-Branch :
      (fuel : ℕ) (block target a : Block) (chain : Chain)
      → Branch chain target.view block a
      → block.view - target.view < fuel
      → extends sha256 fetch fuel block target chain ≡ (chain, a.hash == target.hash)
  unfolding extends
  extends-Branch fuel block target a chain br enough =
      rw (walk_down-Branch fuel target.view block a chain br enough)
