-- ===== src/Consensus/Commits.antt =====
-- What `commitInner` of consensus/consensus.go executes.
use hotstuff_repbased_leader.Prelude.{
  ℕ, zero, suc, ◌≡◌, ◌≤◌, ◌<◌, refl, some, List, [], ◌∷◌, ◌++◌, map, arith, ap, length,
}
use hotstuff_repbased_leader.Types.{Block}
use hotstuff_repbased_leader.BlockChain.{Chain}
use hotstuff_repbased_leader.BlockChain.Lookups.{block_at, get_hit}
use hotstuff_repbased_leader.State.{exec, Replica, Env}
use hotstuff_repbased_leader.Access.{get_block}
use hotstuff_repbased_leader.Consensus.{commit_inner, execute}

-- The stored ancestors of a block above a view, the block first, down to the first ancestor at or
-- below the view. The views need not fall on the way.
pub data Uncommitted (chain : Chain) (view : ℕ) : Block → List Block → Type 0 where
  done : {b : Block} → b.view ≤ view → Uncommitted chain view b []
  more :
      {b p : Block} {bs : List Block}
      → view < b.view
      → block_at b.parent chain ≡ some p
      → Uncommitted chain view p bs
      → Uncommitted chain view b (b ∷ bs)

abbrev pub first_or : Block → List Block → Block
first_or d [] = d
first_or d (b ∷ bs) = b

-- The state after the blocks are executed from the last to the first.
abbrev execute_all : List Block → Replica → Replica
execute_all [] r = r
execute_all (b ∷ bs) r = execute b (execute_all bs r)

execute_all-trace :
    (bs : List Block) (r : Replica) → (execute_all bs r).trace ≡ map exec bs ++ r.trace
unfolding execute
execute_all-trace [] r = refl
execute_all-trace (b ∷ bs) r = ap (◌∷◌ (exec b)) (execute_all-trace bs r)

execute_all-b_exec :
    (bs : List Block) (r : Replica) → (execute_all bs r).b_exec ≡ first_or r.b_exec bs
unfolding execute
execute_all-b_exec [] r = refl
execute_all-b_exec (b ∷ bs) r = refl

execute_all-chain : (bs : List Block) (r : Replica) → (execute_all bs r).chain ≡ r.chain
unfolding execute
execute_all-chain [] r = refl
execute_all-chain (b ∷ bs) r = execute_all-chain bs r

pub get_block_hit :
    (env : Env) (h : ℕ) (r : Replica) {b : Block}
    → block_at h r.chain ≡ some b
    → get_block env h r ≡ (r, some b)
unfolding get_block
get_block_hit env h r found = rw (get_hit env.sha256 env.fetch h r.chain found)

commit_inner-execute_all :
    (env : Env) (fuel : ℕ) (b : Block) (bs : List Block) (r : Replica)
    → Uncommitted r.chain r.b_exec.view b bs
    → length bs < fuel
    → commit_inner env fuel b r ≡ execute_all bs r
unfolding commit_inner
commit_inner-execute_all env zero b bs r u enough = absurd (omega arith)
commit_inner-execute_all env (suc fuel) b [] r (done le) enough = ground arith
commit_inner-execute_all env (suc fuel) b (_ ∷ bs) r (more {p = p} high found u) enough =
    ground (arith, get_block_hit env b.parent r found, commit_inner-execute_all env fuel p bs r u)

-- Committing a block whose ancestors are stored down to the first one at or below the committed
-- view, whatever the views in between, executes exactly the block and the ancestors before that one,
-- the oldest first and the block last, each once, on top of what was executed before; the block is
-- then the committed block, and a block at or below the committed view changes nothing. No block is
-- fetched. The fuel is above the number of the blocks executed.
pub commit_inner_lem :
    (env : Env) (fuel : ℕ) (b : Block) (bs : List Block) (r : Replica)
    → Uncommitted r.chain r.b_exec.view b bs
    → length bs < fuel
    → let r' = commit_inner env fuel b r in
      (r'.trace ≡ map exec bs ++ r.trace)
      × (r'.b_exec ≡ first_or r.b_exec bs)
      × (r'.chain ≡ r.chain)
commit_inner_lem env fuel b bs r u enough =
    rw (commit_inner-execute_all env fuel b bs r u enough)
      (execute_all-trace bs r, execute_all-b_exec bs r, execute_all-chain bs r)
