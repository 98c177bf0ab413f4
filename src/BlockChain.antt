-- ===== src/BlockChain.antt =====
-- blockchain/blockchain.go, and the fetch of a block in backend/gorums/gorumsconfig.go and
-- internal/proto/hotstuffpb/convert.go. The reply of the network is an argument.
pub mod Lookups
pub mod Consistent
pub mod Walks
pub mod Pruned
use hotstuff_repbased_leader.Prelude.{
  ℕ, zero, suc, ◌+◌, ◌-◌, Bool, true, false, Option, none, some, List, [], ◌∷◌, ◌++◌, ltb, leb,
  ◌==◌, if◌then◌else◌, Dict, lookup, insert, delete, elem,
}
use hotstuff_repbased_leader.Types.{Block, QuorumCert, zero_qc, new_block, genesis}

-- `hotstuffpb.Block`, its fields decoded. The hash does not travel.
pub record ProtoBlock : Type 0 where
  pub parent : ℕ
  pub qc : QuorumCert
  pub command : List ℕ
  pub view : ℕ
  pub proposer : ℕ

-- How the quorum call of `Fetch` ends.
pub data FetchOutcome : Type 0 where
  replies : List ProtoBlock → FetchOutcome
  network_error : FetchOutcome
  context_cancelled : FetchOutcome

pub record Chain : Type 0 where
  pub prune_height : ℕ
  pub blocks : Dict Block
  pub block_at_height : Dict Block
  pub pending_fetch : List ℕ
  -- The fetches whose context `Store` has cancelled, latest first.
  pub cancelled : List ℕ

module _ (sha256 : List ℕ → ℕ) where
  -- `BlockFromProto`; the getters of a nil message return zero values.
  unfoldable pub block_from_proto : Option ProtoBlock → Block
  block_from_proto none = new_block sha256 0 zero_qc [] 0 0
  block_from_proto (some b) = new_block sha256 b.parent b.qc b.command b.view b.proposer

  -- `FetchQF`: the first reply whose block has the hash.
  unfoldable pub fetch_qf : ℕ → List ProtoBlock → Option ProtoBlock
  fetch_qf h [] = none
  fetch_qf h (b ∷ bs) = if h == (block_from_proto (some b)).hash then some b else fetch_qf h bs

  -- `Config.Fetch`: a cancelled call goes on with the nil reply.
  unfoldable pub config_fetch : ℕ → FetchOutcome → Option Block
  config_fetch h (replies bs) = elim (fetch_qf h bs) [
    | none ↦ none
    | some b ↦ some (block_from_proto (some b))
  ]
  config_fetch h network_error = none
  config_fetch h context_cancelled = some (block_from_proto none)

unfoldable pub store : Block → Chain → Chain
store block chain = record chain {
  blocks = insert block.hash block chain.blocks;
  block_at_height = insert block.view block chain.block_at_height;
  cancelled =
      if elem block.hash chain.pending_fetch then block.hash ∷ chain.cancelled else chain.cancelled;
}

-- `New`.
unfoldable pub new : (List ℕ → ℕ) → Chain
unfolding store genesis
new sha256 =
    let empty : Chain = record {
      prune_height = 0;
      blocks = [];
      block_at_height = [];
      pending_fetch = [];
      cancelled = [];
    } in
    store (genesis sha256) empty

unfoldable pub local_get : ℕ → Chain → Option Block
local_get h chain = lookup h chain.blocks

unfoldable pub remove_key : ℕ → List ℕ → List ℕ
remove_key h [] = []
remove_key h (x ∷ xs) = let rest = remove_key h xs in if x == h then rest else x ∷ rest

-- `Get` up to the first unlock, on a miss: the fetch is pending.
unfoldable pub begin_fetch : ℕ → Chain → Chain
begin_fetch h chain = record chain { pending_fetch = h ∷ chain.pending_fetch }

-- `Get` from the second lock on, with what `Fetch` returned. The chain may have changed in between.
unfoldable pub finish_fetch : ℕ → Option Block → Chain → Chain × Option Block
unfolding remove_key
finish_fetch h fetched chain =
    let chain' = record chain { pending_fetch = remove_key h chain.pending_fetch } in
    elim fetched [
      | none ↦ (chain', lookup h chain.blocks)
      | some block ↦ (
        record chain' {
          blocks = insert h block chain.blocks;
          block_at_height = insert block.view block chain.block_at_height;
        },
        some block,
      )
    ]

module _ (sha256 : List ℕ → ℕ) (fetch : ℕ → FetchOutcome) where
  -- `Get` with nothing in between.
  unfoldable pub get : ℕ → Chain → Chain × Option Block
  unfolding begin_fetch finish_fetch
  get h chain = elim (lookup h chain.blocks) [
    | some block ↦ (chain, some block)
    | none ↦ finish_fetch h (config_fetch sha256 h (fetch h)) (begin_fetch h chain)
  ]

  -- The loop of `Extends`: the first block at or below the target's view, or none where a parent
  -- is missing.
  unfoldable pub walk_down : ℕ → ℕ → Block → Chain → Chain × Option Block
  walk_down zero height current chain = (chain, none)
  walk_down (suc fuel) height current chain = elim (ltb height current.view) [
    | false ↦ (chain, some current)
    | true ↦
        let (chain', parent) = get current.parent chain in
        elim parent [ none ↦ (chain', none) | some p ↦ walk_down fuel height p chain' ]
  ]

  abbrev has_hash : ℕ → Option Block → Bool
  has_hash h none = false
  has_hash h (some b) = b.hash == h

  unfoldable pub extends : ℕ → Block → Block → Chain → Chain × Bool
  unfolding walk_down
  extends fuel block target chain =
      let (chain', current) = walk_down fuel target.view block chain in
      (chain', has_hash target.hash current)

-- The first loop of `PruneToHeight`: the views of the committed branch from `h` down.
unfoldable pub committed_views : ℕ → ℕ → Chain → List ℕ
committed_views zero h chain = []
committed_views (suc fuel) h chain = elim (leb chain.prune_height h) [
  | false ↦ []
  | true ↦ elim (lookup h chain.block_at_height) [
    | none ↦ []
    | some block ↦ elim (lookup block.parent chain.blocks) [
      | none ↦ []
      | some parent ↦ elim (ltb parent.view chain.prune_height) [
        | true ↦ []
        | false ↦ parent.view ∷ committed_views fuel parent.view chain
      ]
    ]
  ]
]

-- The block at height `h`, if `h` is no committed view.
unfoldable pub forked_at : List ℕ → ℕ → Dict Block → List Block
forked_at committed h at_height =
    if elem h committed
    then []
    else elim (lookup h at_height) [ none ↦ [] | some block ↦ block ∷ [] ]

-- The second loop, over `n` heights from `low + n` down to `low + 1`.
unfoldable pub prune_heights : List ℕ → ℕ → ℕ → Dict Block → Dict Block × List Block
unfolding forked_at
prune_heights committed low zero at_height = (at_height, [])
prune_heights committed low (suc n) at_height =
    let forked = forked_at committed (low + suc n) at_height in
    let (at_height', rest) = prune_heights committed low n (delete (low + suc n) at_height) in
    (at_height', forked ++ rest)

unfoldable pub prune_to_height : ℕ → ℕ → ℕ → Chain → Chain × List Block
unfolding prune_heights committed_views
prune_to_height fuel committed_height height chain =
    let committed = committed_height ∷ committed_views fuel committed_height chain in
    let (at_height, forked) =
      prune_heights committed chain.prune_height (height - chain.prune_height)
        chain.block_at_height in
    (record chain { block_at_height = at_height; prune_height = height }, forked)
