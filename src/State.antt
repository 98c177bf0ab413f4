-- ===== src/State.antt =====
-- The state of one replica (the fields of consensusBase, the rules, Synchronizer, VotingMachine,
-- blockChain and cmdCache), the calls that leave it, and what its modules are configured with.
use hotstuff_repbased_leader.Prelude.{ℕ, Bool, true, false, Option, List, Dict}
use hotstuff_repbased_leader.Types.{
  PartialCert, QuorumCert, TimeoutCert, SyncInfo, Block, ProposeMsg, VoteMsg, TimeoutMsg,
  NewViewMsg,
}
use hotstuff_repbased_leader.Crypto.Base.{CryptoImpl}
use hotstuff_repbased_leader.BlockChain.{Chain, FetchOutcome}
use hotstuff_repbased_leader.CmdCache.{CmdCache, ClientCommand}

-- What a handler does outside the replica's state.
pub data Effect : Type 0 where
  -- messages
  net_propose : ProposeMsg → Effect
  net_timeout : TimeoutMsg → Effect
  send_vote : ℕ → PartialCert → Effect
  send_new_view : ℕ → SyncInfo → Effect
  -- a call of `CreatePartialCert` that signed a block
  signed : Block → Effect
  -- events for the replica's own loop, and the goroutine of the voting machine
  add_vote : VoteMsg → Effect
  add_new_view : NewViewMsg → Effect
  delay_until_propose : VoteMsg → Effect
  go_verify_cert : PartialCert → Block → Effect
  -- the executor, the fork handler, the metrics
  exec : Block → Effect
  fork : Block → Effect
  view_change : ℕ → Bool → Effect
  -- timers, contexts and the estimate of the view's duration
  stop_timer : Effect
  reset_timer : Effect
  new_ctx : Effect
  view_started : Effect
  view_succeeded : Effect
  view_timeout : Effect
  -- a panic
  panic : Effect

pub record Replica : Type 0 where
  pub chain : Chain
  pub commands : CmdCache
  -- Synchronizer
  pub current_view : ℕ
  pub high_tc : TimeoutCert
  pub high_qc : QuorumCert
  pub leaf_block : Block
  pub last_timeout : Option TimeoutMsg
  pub timeouts : Dict (Dict TimeoutMsg)
  -- `viewCtx.Err() != nil`
  pub ctx_done : Bool
  -- consensusBase
  pub last_vote : ℕ
  pub b_exec : Block
  -- `bLock` of ChainedHotStuff, `locked` of SimpleHotStuff
  pub locked : Block
  -- VotingMachine
  pub verified_votes : Dict (List PartialCert)
  -- latest first
  pub trace : List Effect

-- The implementations of `Rules`, and the byzantine wrappers that add a `ProposeRule`.
pub data Protocol : Type 0 where
  chained_hotstuff fast_hotstuff simple_hotstuff : Protocol

pub data Proposer : Type 0 where
  honest silence forking : Proposer

pub record Env : Type 0 where
  pub id : ℕ
  pub sha256 : List ℕ → ℕ
  pub impl : CryptoImpl
  pub protocol : Protocol
  pub proposer : Proposer
  -- the IDs of the configuration
  pub replicas : List ℕ
  pub fetch : ℕ → FetchOutcome
  pub get_leader : Replica → ℕ → ℕ
  -- the arrivals while the command queue waits
  pub wakes : Replica → List (List ClientCommand)
  pub marshal : List ClientCommand → Option (List ℕ)
  pub unmarshal : List ℕ → Option (List ClientCommand)
  -- a bound on the length of a branch that is walked
  pub fuel : ℕ

-- Only FastHotStuff calls `SetShouldUseAggQC`.
abbrev pub uses_agg_qc : Protocol → Bool
uses_agg_qc chained_hotstuff = false
uses_agg_qc fast_hotstuff = true
uses_agg_qc simple_hotstuff = false
