-- ===== src/Network.antt =====
-- backend/gorums/gorumsconfig.go: the configuration of replicas and the messages that leave through
-- it. A context is a number, and `cancelled` has those whose cancel function was called. The calls
-- of the gorums library are kept in `sent`, latest first. Fetch is in BlockChain, and the reputations
-- are in LeaderRotation.
pub mod Identity
pub mod Delivery
use hotstuff_repbased_leader.Prelude.{
  ℕ, zero, suc, ◌+◌, ◌/◌, ◌%◌, Bool, true, false, Option, none, some, List, [], ◌∷◌, ◌++◌, ltb,
  ◌==◌, if◌then◌else◌, Dict, lookup, insert, length,
}
use hotstuff_repbased_leader.Sizes.{quorum_size}
use hotstuff_repbased_leader.Types.{PartialCert, SyncInfo, ProposeMsg, TimeoutMsg}
use hotstuff_repbased_leader.Hotstuffpb
use hotstuff_repbased_leader.Hotstuffpb.Convert.{
  proposal_to_proto, timeout_msg_to_proto, partial_cert_to_proto, sync_info_to_proto,
}

-- `fmt.Sprintf("%d", n)`. The number itself is fuel enough.
unfoldable pub decimal : ℕ → ℕ → List ℕ
decimal zero n = []
decimal (suc fuel) n = elim (ltb n 10) [
  | true ↦ (48 + n) ∷ []
  | false ↦ decimal fuel (n / 10) ++ (48 + n % 10) ∷ []
]

pub record GorumsReplica : Type 0 where
  pub id : ℕ
  pub pub_key : List ℕ
  -- whether `node` is set
  pub has_node : Bool
  pub vote_ctx : Option ℕ
  pub newview_ctx : Option ℕ

-- A call of the library, under its context.
pub data Sent : Type 0 where
  propose_call : ℕ → Hotstuffpb.Proposal → Sent
  timeout_call : ℕ → Hotstuffpb.TimeoutMsg → Sent
  vote_call : ℕ → ℕ → Hotstuffpb.PartialCert → Sent
  new_view_call : ℕ → ℕ → Hotstuffpb.SyncInfo → Sent

pub record Network : Type 0 where
  -- the values of "id" in the metadata of each call
  pub metadata : List (List ℕ)
  pub replicas : Dict GorumsReplica
  -- whether `cfg` is set
  pub configured : Bool
  pub propose_ctx : Option ℕ
  pub timeout_ctx : Option ℕ
  pub next_ctx : ℕ
  pub cancelled : List ℕ
  pub sent : List Sent

-- `NewConfig`.
unfoldable pub new_config : ℕ → Network
unfolding decimal
new_config id = record {
  metadata = decimal (id + 1) id ∷ [];
  replicas = [];
  configured = false;
  propose_ctx = none;
  timeout_ctx = none;
  next_ctx = 0;
  cancelled = [];
  sent = [];
}

-- `config.ReplicaInfo`.
pub record ReplicaInfo : Type 0 where
  pub id : ℕ
  pub address : ℕ
  pub pub_key : List ℕ

-- The first loop of `Connect`: the replicas, and the addresses of all but the own one.
unfoldable pub add_replicas :
    ℕ → List ReplicaInfo → Dict GorumsReplica × Dict ℕ → Dict GorumsReplica × Dict ℕ
add_replicas own [] found = found
add_replicas own (info ∷ infos) (replicas, addresses) = add_replicas own infos (
  insert info.id
      (record {
        id = info.id;
        pub_key = info.pub_key;
        has_node = false;
        vote_ctx = none;
        newview_ctx = none;
      })
      replicas,
  if info.id == own then addresses else insert info.address info.id addresses,
)

-- The second loop: a node that is no replica is the failed type assertion, a panic.
unfoldable pub set_nodes : List ℕ → Dict GorumsReplica → Option (Dict GorumsReplica)
set_nodes [] replicas = some replicas
set_nodes (id ∷ ids) replicas = elim (lookup id replicas) [
  | none ↦ none
  | some r ↦ set_nodes ids (insert id (record r { has_node = true }) replicas)
]

pub data Connected : Type 0 where
  connected : Network → Connected
  connect_error : Network → Connected
  connect_panic : Connected

-- `Connect`. The manager's `NewConfiguration` is an argument: the IDs of its nodes, or an error.
unfoldable pub connect : (Dict ℕ → Option (List ℕ)) → ℕ → List ReplicaInfo → Network → Connected
unfolding add_replicas set_nodes
connect new_configuration own infos net =
    let (replicas, addresses) = add_replicas own infos (net.replicas, []) in
    let net' = record net { replicas = replicas } in
    elim (new_configuration addresses) [
      | none ↦ connect_error net'
      | some nodes ↦ elim (set_nodes nodes replicas) [
        | none ↦ connect_panic
        | some replicas' ↦ connected (record net' { replicas = replicas'; configured = true })
      ]
    ]

unfoldable pub replica : ℕ → Network → Option GorumsReplica
replica id net = lookup id net.replicas

unfoldable pub len : Network → ℕ
len net = length net.replicas

unfoldable pub config_quorum_size : Network → ℕ
unfolding len quorum_size
config_quorum_size net = quorum_size (len net)

-- The cancel function of a context; at first it does nothing.
abbrev pub cancel : Option ℕ → List ℕ → List ℕ
cancel none cancelled = cancelled
cancel (some ctx) cancelled = ctx ∷ cancelled

-- `Config.Propose`.
unfoldable pub propose : ProposeMsg → Network → Network
unfolding proposal_to_proto
propose proposal net =
    if net.configured
    then record net {
      cancelled = cancel net.propose_ctx net.cancelled;
      propose_ctx = some net.next_ctx;
      next_ctx = net.next_ctx + 1;
      sent = propose_call net.next_ctx (proposal_to_proto proposal) ∷ net.sent;
    }
    else net

-- `Config.Timeout`.
unfoldable pub timeout : TimeoutMsg → Network → Network
unfolding timeout_msg_to_proto
timeout msg net =
    if net.configured
    then record net {
      cancelled = cancel net.timeout_ctx net.cancelled;
      timeout_ctx = some net.next_ctx;
      next_ctx = net.next_ctx + 1;
      sent = timeout_call net.next_ctx (timeout_msg_to_proto msg) ∷ net.sent;
    }
    else net

-- `gorumsReplica.Vote`.
unfoldable pub vote : GorumsReplica → PartialCert → Network → Network
unfolding partial_cert_to_proto
vote r cert net =
    if r.has_node
    then record net {
      cancelled = cancel r.vote_ctx net.cancelled;
      replicas = insert r.id (record r { vote_ctx = some net.next_ctx }) net.replicas;
      next_ctx = net.next_ctx + 1;
      sent = vote_call net.next_ctx r.id (partial_cert_to_proto cert) ∷ net.sent;
    }
    else net

-- `gorumsReplica.NewView`.
unfoldable pub new_view : GorumsReplica → SyncInfo → Network → Network
unfolding sync_info_to_proto
new_view r si net =
    if r.has_node
    then record net {
      cancelled = cancel r.newview_ctx net.cancelled;
      replicas = insert r.id (record r { newview_ctx = some net.next_ctx }) net.replicas;
      next_ctx = net.next_ctx + 1;
      sent = new_view_call net.next_ctx r.id (sync_info_to_proto si) ∷ net.sent;
    }
    else net
