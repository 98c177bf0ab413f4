-- ===== src/BlockChain/Lookups.antt =====
-- What `Store` and `Get` of blockchain/blockchain.go do to the blocks of the chain.
use hotstuff_repbased_leader.Prelude.{
  ℕ, ◌≡◌, none, some, Option, List, arith, lookup, lookup-insert, Option-cases, inl, inr, ◌==◌,
  if◌then◌else◌,
}
use hotstuff_repbased_leader.Types.{Block}
use hotstuff_repbased_leader.BlockChain.{Chain, FetchOutcome, config_fetch, get, store}

-- The block stored under a hash.
abbrev pub block_at : ℕ → Chain → Option Block
block_at h chain = lookup h chain.blocks

pub block_at-store :
    (k : ℕ) (block : Block) (chain : Chain)
    → block_at k (store block chain) ≡ (if block.hash == k then some block else block_at k chain)
unfolding store
block_at-store k block chain = lookup-insert block.hash k block chain.blocks

module _ (sha256 : List ℕ → ℕ) (fetch : ℕ → FetchOutcome) where
  -- A block that is there is returned, and nothing changes.
  pub get_hit :
      (h : ℕ) (chain : Chain) {b : Block}
      → block_at h chain ≡ some b
      → get sha256 fetch h chain ≡ (chain, some b)
  unfolding get
  get_hit h chain found = rw (found, get)

  -- A block that is not there is what the network returns, or missing.
  pub get_miss :
      (h : ℕ) (chain : Chain)
      → block_at h chain ≡ none
      → (get sha256 fetch h chain).1 ≡ config_fetch sha256 h (fetch h)
  unfolding get
  get_miss h chain missing = ground arith

  -- `Get` never drops or replaces a block.
  pub get-keeps :
      (h k : ℕ) (chain : Chain) {b : Block}
      → block_at k chain ≡ some b
      → block_at k (get sha256 fetch h chain).0 ≡ some b
  unfolding get
  get-keeps h k chain {b} found = elim (Option-cases (block_at h chain)) [
    | inr (c, there) ↦ rw (there, get) found
    | inl missing ↦ elim (Option-cases (config_fetch sha256 h (fetch h))) [
      | inl failed ↦ ground arith
      | inr (c, fetched) ↦ ground (arith, lookup-insert h k c chain.blocks)
    ]
  ]

  -- What `Get` returns is stored under the hash.
  pub get-found :
      (h : ℕ) (chain : Chain) {b : Block}
      → (get sha256 fetch h chain).1 ≡ some b
      → block_at h (get sha256 fetch h chain).0 ≡ some b
  unfolding get
  get-found h chain {b} found = elim (Option-cases (block_at h chain)) [
    | inr (c, there) ↦ ground arith
    | inl missing ↦ elim (Option-cases (config_fetch sha256 h (fetch h))) [
      | inl failed ↦ ground arith
      | inr (c, fetched) ↦ ground (arith, lookup-insert h h c chain.blocks)
    ]
  ]
