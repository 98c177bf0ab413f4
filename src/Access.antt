-- ===== src/Access.antt =====
-- The calls of the modules on one another that read or write the block chain, and the trace.
use hotstuff_repbased_leader.Prelude.{ℕ, Bool, Option, ◌∷◌}
use hotstuff_repbased_leader.Types.{Block}
use hotstuff_repbased_leader.BlockChain
use hotstuff_repbased_leader.State.{Effect, Replica, Env}

unfoldable pub emit : Effect → Replica → Replica
emit e r = record r { trace = e ∷ r.trace }

module _ (env : Env) where
  unfoldable pub get_block : ℕ → Replica → Replica × Option Block
  get_block h r =
      let (chain, block) = BlockChain.get env.sha256 env.fetch h r.chain in
      (record r { chain = chain }, block)

  unfoldable pub extends_block : Block → Block → Replica → Replica × Bool
  extends_block block target r =
      let (chain, answer) = BlockChain.extends env.sha256 env.fetch env.fuel block target r.chain in
      (record r { chain = chain }, answer)

unfoldable pub store_block : Block → Replica → Replica
store_block block r = record r { chain = BlockChain.store block r.chain }
