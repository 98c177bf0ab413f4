-- ===== src/BlockChain/Pruned.antt =====
-- What PruneToHeight (blockchain/blockchain.go) removes and reports.
use hotstuff_repbased_leader.Prelude.{
  ℕ, zero, suc, ◌+◌, ◌-◌, ◌≡◌, ◌<◌, ◌≤◌, refl, Bool, true, false, not, ◌&&◌, none, some, List, [],
  ◌∷◌, ◌++◌, arith, ltb, leb, ◌==◌, if◌then◌else◌, Bool-cases, Option-cases, inl, inr, Dict, lookup,
  delete, lookup-delete, elem, ◌⊎◌, All, All-append, All-map, found, All-found, length,
}
use hotstuff_repbased_leader.Types.{Block}
use hotstuff_repbased_leader.BlockChain.{
  Chain, forked_at, prune_heights, committed_views, prune_to_height,
}

lookup-prune_heights :
    (committed : List ℕ) (low n : ℕ) (at_height : Dict Block) (h : ℕ)
    → lookup h (prune_heights committed low n at_height).0
      ≡ (if ltb low h && leb h (low + n) then none else lookup h at_height)
unfolding prune_heights
lookup-prune_heights committed low zero at_height h = ground arith
lookup-prune_heights committed low (suc n) at_height h = ground (
  arith,
  lookup-prune_heights committed low n (delete (low + suc n) at_height) h,
  lookup-delete (low + suc n) h at_height,
)

abbrev pub In : Block → List Block → Type 0
In b [] = ⊥
In b (x ∷ xs) = (b ≡ x) ⊎ In b xs

In-append_left : (b : Block) (xs ys : List Block) → In b xs → In b (xs ++ ys)
In-append_left b [] ys h = elim h [ ]
In-append_left b (x ∷ xs) ys (inl e) = inl e
In-append_left b (x ∷ xs) ys (inr h) = inr (In-append_left b xs ys h)

In-append_right : (b : Block) (xs ys : List Block) → In b ys → In b (xs ++ ys)
In-append_right b [] ys h = h
In-append_right b (x ∷ xs) ys h = inr (In-append_right b xs ys h)

-- A block that is not of a committed view stands at a height of the range.
abbrev pub IsForked : List ℕ → ℕ → ℕ → Dict Block → Block → Type 0
IsForked committed low high at_height b =
    (h : ℕ) × (low < h) × (h ≤ high) × (elem h committed ≡ false) × (lookup h at_height ≡ some b)

IsForked-lower :
    (committed : List ℕ) (low n : ℕ) (at_height : Dict Block) (b : Block)
    → IsForked committed low (low + n) (delete (low + suc n) at_height) b
    → IsForked committed low (low + suc n) at_height b
IsForked-lower committed low n at_height b (h, above, below, other, found) =
    (h, above, omega arith, other, ground (arith, lookup-delete (low + suc n) h at_height))

forked_at-cases :
    (committed : List ℕ) (h : ℕ) (at_height : Dict Block)
    → ((forked_at committed h at_height ≡ [])
        × ((elem h committed ≡ false) → lookup h at_height ≡ none))
      ⊎ ((b : Block) × (elem h committed ≡ false)
          × (lookup h at_height ≡ some b)
          × (forked_at committed h at_height ≡ b ∷ []))
unfolding forked_at
forked_at-cases committed h at_height = elim (Bool-cases (elem h committed)) [
  | inl known ↦ inl (ground arith, λ other. ground arith)
  | inr other ↦ elim (Option-cases (lookup h at_height)) [
    | inl empty ↦ inl (ground arith, λ _. empty)
    | inr (b, found) ↦ inr (b, other, found, ground arith)
  ]
]

prune_heights-IsForked :
    (committed : List ℕ) (low n : ℕ) (at_height : Dict Block)
    → All (IsForked committed low (low + n) at_height) (prune_heights committed low n at_height).1
unfolding prune_heights
prune_heights-IsForked committed low zero at_height = tt
prune_heights-IsForked committed low (suc n) at_height =
    let rest = prune_heights-IsForked committed low n (delete (low + suc n) at_height) in
    let here : All (IsForked committed low (low + suc n) at_height)
        (forked_at committed (low + suc n) at_height) =
      elim (forked_at-cases committed (low + suc n) at_height) [
        | inl (nothing, _) ↦ rw nothing tt
        | inr (b, other, found, one) ↦
            rw one (((low + suc n, omega arith, omega arith, other, found)), tt)
      ] in
    All-append _ _ _ here (All-map _ (IsForked-lower committed low n at_height) rest)

prune_heights_complete :
    (committed : List ℕ) (low n : ℕ) (at_height : Dict Block) (b : Block)
    → IsForked committed low (low + n) at_height b
    → In b (prune_heights committed low n at_height).1
unfolding prune_heights
prune_heights_complete committed low zero at_height b (h, above, below, other, found) =
    absurd (omega arith)
prune_heights_complete committed low (suc n) at_height b (h, above, below, other, found) =
    elim (Bool-cases (h == low + suc n)) [
      | inl top ↦
          In-append_left b (forked_at committed (low + suc n) at_height) _
            (elim (forked_at-cases committed (low + suc n) at_height) [
              | inl (nothing, empty) ↦ absurd (ground arith)
              | inr (c, _, at_top, one) ↦ rw one (inl (ground arith))
            ])
      | inr lower ↦ In-append_right b (forked_at committed (low + suc n) at_height) _ (
          prune_heights_complete committed low n (delete (low + suc n) at_height) b (
            h,
            above,
            ground arith,
            other,
            ground (arith, lookup-delete (low + suc n) h at_height),
          ))
    ]

-- The heights that a prune passes over.
abbrev pub in_range : ℕ → Chain → ℕ → Bool
in_range height chain h = ltb chain.prune_height h && leb h height

-- The stored ancestors of a block down to the last pruned height, the parent first, each at its own
-- height unless it is the last one; that one's height may have been emptied by an earlier prune.
pub data CommittedBranch (chain : Chain) : Block → List Block → Type 0 where
  missing : {b : Block} → lookup b.parent chain.blocks ≡ none → CommittedBranch chain b []
  low :
      {b p : Block}
      → lookup b.parent chain.blocks ≡ some p
      → p.view < chain.prune_height
      → CommittedBranch chain b []
  emptied :
      {b p : Block}
      → lookup b.parent chain.blocks ≡ some p
      → chain.prune_height ≤ p.view
      → lookup p.view chain.block_at_height ≡ none
      → CommittedBranch chain b (p ∷ [])
  more :
      {b p : Block} {bs : List Block}
      → lookup b.parent chain.blocks ≡ some p
      → chain.prune_height ≤ p.view
      → lookup p.view chain.block_at_height ≡ some p
      → CommittedBranch chain p bs
      → CommittedBranch chain b (p ∷ bs)

abbrev pub views : List Block → List ℕ
views [] = []
views (b ∷ bs) = b.view ∷ views bs

committed_views-emptied :
    (fuel h : ℕ) (chain : Chain)
    → lookup h chain.block_at_height ≡ none
    → committed_views fuel h chain ≡ []
unfolding committed_views
committed_views-emptied zero h chain empty = refl
committed_views-emptied (suc fuel) h chain empty = ground arith

committed_views_lem :
    (fuel : ℕ) (chain : Chain) (b : Block) (bs : List Block)
    → lookup b.view chain.block_at_height ≡ some b
    → chain.prune_height ≤ b.view
    → CommittedBranch chain b bs
    → length bs < fuel
    → committed_views fuel b.view chain ≡ views bs
unfolding committed_views
committed_views_lem zero chain b bs here above branch enough = absurd (omega arith)
committed_views_lem (suc fuel) chain b [] here above (missing gone) enough = ground arith
committed_views_lem (suc fuel) chain b [] here above (low stored below) enough = ground arith
committed_views_lem (suc fuel) chain b (p ∷ []) here above (emptied stored not_low empty) enough =
    ground (arith, committed_views-emptied fuel p.view chain empty)
committed_views_lem (suc fuel) chain b (p ∷ bs) here above (more stored not_low at branch) enough =
    ground (arith, committed_views_lem fuel chain p bs at not_low branch)

-- The committed block stands at its height, above or at the last pruned height, and has a branch of
-- stored ancestors down to that height, each at its own height too unless an earlier prune has emptied
-- that of the last; the fuel is above their number. Then PruneToHeight empties exactly the heights
-- above the last pruned height up to the new one, keeps every other height and every block that is
-- stored under its hash, and reports exactly the blocks of the emptied heights that are not the view
-- of the committed block or of an ancestor on the branch.
pub prune_to_height_lem :
    (fuel height : ℕ) (chain : Chain) (b : Block) (bs : List Block)
    → lookup b.view chain.block_at_height ≡ some b
    → chain.prune_height ≤ b.view
    → CommittedBranch chain b bs
    → length bs < fuel
    → let (chain', forked) = prune_to_height fuel b.view height chain in
      ((h : ℕ)
        → lookup h chain'.block_at_height
          ≡ (if in_range height chain h then none else lookup h chain.block_at_height))
      × (chain'.blocks ≡ chain.blocks)
      × (chain'.prune_height ≡ height)
      × All
          (λ f.
            (h : ℕ) × (in_range height chain h ≡ true)
            × (elem h (views (b ∷ bs)) ≡ false)
            × (lookup h chain.block_at_height ≡ some f))
          forked
      × ((h : ℕ)
          → All
              (λ f. In f forked)
              (if in_range height chain h && not (elem h (views (b ∷ bs)))
                then found (lookup h chain.block_at_height)
                else []))
unfolding prune_to_height
prune_to_height_lem fuel height chain b bs here above branch enough =
    let committed = views (b ∷ bs) in
    let walk = committed_views_lem fuel chain b bs here above branch enough in
    let low = chain.prune_height in
    let n = height - low in
    let forked = prune_heights-IsForked committed low n chain.block_at_height in
    rw walk (
      λ h. ground (arith, lookup-prune_heights committed low n chain.block_at_height h),
      refl,
      refl,
      All-map _ (λ f (h, above, below, other, at). (h, ground arith, other, at)) forked,
      λ h.
          All-found (in_range height chain h && not (elem h committed))
            (lookup h chain.block_at_height)
            (λ f inside at.
              prune_heights_complete committed low n chain.block_at_height f
                (h, ground arith, ground arith, ground arith, at)),
    )
