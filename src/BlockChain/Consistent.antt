-- ===== src/BlockChain/Consistent.antt =====
-- The hashes that blocks are stored under, and what fetches return (blockchain/blockchain.go).
use hotstuff_repbased_leader.Prelude.{
  ℕ, ◌≡◌, ◌≢◌, refl, none, some, List, [], ◌∷◌, arith, lookup, insert, lookup-insert, Option-cases,
  Bool-cases, inl, inr, ◌==◌,
}
use hotstuff_repbased_leader.Types.{Block, genesis}
use hotstuff_repbased_leader.BlockChain.{
  Chain, ProtoBlock, FetchOutcome, replies, network_error, context_cancelled, config_fetch,
  fetch_qf, block_from_proto, get, store, new,
}
use hotstuff_repbased_leader.BlockChain.Lookups.{block_at, block_at-store}

abbrev pub IsConsistent : Chain → Type 0
IsConsistent chain = (h : ℕ) (b : Block) → block_at h chain ≡ some b → b.hash ≡ h

pub new-IsConsistent : (sha256 : List ℕ → ℕ) → IsConsistent (new sha256)
unfolding new lookup insert
new-IsConsistent sha256 h b found = ground arith

-- Storing a block keeps every block under its own hash.
pub store-IsConsistent :
    (block : Block) (chain : Chain) → IsConsistent chain → IsConsistent (store block chain)
store-IsConsistent block chain c h b found = ground (arith, block_at-store h block chain, c h b)

module _ (sha256 : List ℕ → ℕ) (fetch : ℕ → FetchOutcome) where
  fetch_qf-hash :
      (h : ℕ) (bs : List ProtoBlock) {b : ProtoBlock}
      → fetch_qf sha256 h bs ≡ some b
      → (block_from_proto sha256 (some b)).hash ≡ h
  unfolding fetch_qf
  fetch_qf-hash h [] found = ground arith
  fetch_qf-hash h (c ∷ bs) {b} found =
      elim (Bool-cases (h == (block_from_proto sha256 (some c)).hash)) [
        | inl same ↦ ground arith
        | inr other ↦ fetch_qf-hash h bs (ground arith)
      ]

  -- A fetch that is not cancelled returns a block with the hash that was asked for, or nothing.
  pub config_fetch-hash :
      (h : ℕ) (o : FetchOutcome) {b : Block}
      → o ≢ context_cancelled
      → config_fetch sha256 h o ≡ some b
      → b.hash ≡ h
  unfolding config_fetch
  config_fetch-hash h (replies bs) n found = elim (Option-cases (fetch_qf sha256 h bs)) [
    | inl none_fits ↦ ground arith
    | inr (c, fits) ↦ ground (arith, fetch_qf-hash h bs fits)
  ]
  config_fetch-hash h network_error n found = ground arith
  config_fetch-hash h context_cancelled n found = absurd (n refl)

  -- `Get` keeps every block under its own hash, if the fetch that it may make is not cancelled.
  pub get-IsConsistent :
      (h : ℕ) (chain : Chain)
      → fetch h ≢ context_cancelled
      → IsConsistent chain
      → IsConsistent (get sha256 fetch h chain).0
  unfolding get
  get-IsConsistent h chain n c k b found = elim (Option-cases (block_at h chain)) [
    | inr (d, there) ↦ ground (arith, c k b)
    | inl missing ↦ elim (Option-cases (config_fetch sha256 h (fetch h))) [
      | inl failed ↦ ground (arith, c k b)
      | inr (d, fetched) ↦
          ground (
            arith,
            lookup-insert h k d chain.blocks,
            c k b,
            config_fetch-hash h (fetch h) n fetched,
          )
    ]
  ]

  -- After a fetch that is cancelled `Get` reports success with a block made of zero values, which is
  -- the genesis block, and stores it under the hash that was asked for, which is then found there.
  pub get_cancelled :
      (h : ℕ) (chain : Chain)
      → block_at h chain ≡ none
      → fetch h ≡ context_cancelled
      → ((get sha256 fetch h chain).1 ≡ some (genesis sha256))
        × (block_at h (get sha256 fetch h chain).0 ≡ some (genesis sha256))
  unfolding get config_fetch block_from_proto genesis
  get_cancelled h chain missing cancelled =
      (ground arith, ground (arith, lookup-insert h h (genesis sha256) chain.blocks))
