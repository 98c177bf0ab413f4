-- ===== src/Server.antt =====
-- backend/gorums/gorumsserver.go: who sent a message, and the handlers that turn the messages of
-- other replicas into events. What gRPC knows of a call (the peer's certificates and the metadata) is
-- an argument. A text is its bytes.
pub mod Senders
use hotstuff_repbased_leader.Prelude.{
  ℕ, ◌+◌, ◌-◌, ◌*◌, ◌%◌, Bool, true, false, ◌&&◌, Option, none, some, List, [], ◌∷◌, ltb, leb, ◌==◌,
  if◌then◌else◌, elem, ℤ, pos, negsuc,
}
use hotstuff_repbased_leader.Types.{ProposeMsg, VoteMsg, TimeoutMsg, NewViewMsg}
use hotstuff_repbased_leader.BlockChain.{Chain, local_get}
use hotstuff_repbased_leader.Hotstuffpb
use hotstuff_repbased_leader.Hotstuffpb.Bytes.{le_value}
use hotstuff_repbased_leader.Hotstuffpb.Convert.{
  block_to_proto, proposal_from_proto, partial_cert_from_proto, sync_info_from_proto,
  timeout_msg_from_proto,
}

-- The decimal digits of a number that is `acc` so far.
unfoldable pub digits : List ℕ → ℕ → Option ℕ
digits [] acc = some acc
digits (c ∷ cs) acc = elim (leb 48 c && leb c 57) [
  | true ↦ digits cs (acc * 10 + (c - 48))
  | false ↦ none
]

abbrev in_range : ℕ → (ℕ → ℤ) → Option ℕ → Option ℤ
in_range bound sign none = none
in_range bound sign (some n) = if ltb n bound then some (sign n) else none

abbrev negate : ℕ → ℤ
negate n = if n == 0 then pos 0 else negsuc (n - 1)

unfoldable pub magnitude : List ℕ → Option ℕ
unfolding digits
magnitude [] = none
magnitude (c ∷ cs) = digits (c ∷ cs) 0

-- `strconv.Atoi` on a 64-bit machine.
unfoldable pub atoi : List ℕ → Option ℤ
unfolding magnitude
atoi [] = none
atoi (c ∷ cs) =
    if c == b'-'
    then in_range 9223372036854775809 negate (magnitude cs)
    else if c == b'+'
    then in_range 9223372036854775808 pos (magnitude cs)
    else in_range 9223372036854775808 pos (magnitude (c ∷ cs))

-- `hotstuff.ID(n)`.
unfoldable pub to_id : ℤ → ℕ
to_id (pos n) = n % 4294967296
to_id (negsuc n) = 4294967295 - n % 4294967296

-- `AuthInfo` of the peer: TLS with the common names of its certificates, a value of another type that
-- says "tls", or no TLS.
pub data AuthInfo : Type 0 where
  tls : List (List ℕ) → AuthInfo
  wrong_type : AuthInfo
  no_tls : AuthInfo

-- The peer, and the values of "id" in the metadata.
pub record ServerCtx : Type 0 where
  pub peer : Option AuthInfo
  pub metadata : Option (List (List ℕ))

unfoldable pub find_replica : List ℕ → List ℕ → Option ℕ
unfolding atoi to_id
find_replica replicas name = elim (atoi name) [
  | none ↦ none
  | some n ↦ if elem (to_id n) replicas then some (to_id n) else none
]

unfoldable pub metadata_id : Option (List (List ℕ)) → Option ℕ
unfolding atoi to_id
metadata_id none = none
metadata_id (some []) = none
metadata_id (some (v ∷ _)) = elim (atoi v) [ none ↦ none | some n ↦ some (to_id n) ]

abbrev first_replica : List ℕ → List (List ℕ) → Option ℕ
first_replica replicas [] = none
first_replica replicas (name ∷ _) = find_replica replicas name

abbrev peer_id : List ℕ → Option (List (List ℕ)) → Option AuthInfo → Option ℕ
peer_id replicas md none = none
peer_id replicas md (some (tls names)) = first_replica replicas names
peer_id replicas md (some wrong_type) = none
peer_id replicas md (some no_tls) = metadata_id md

-- `getClientID`: an error is `none`.
unfoldable pub get_client_id : List ℕ → ServerCtx → Option ℕ
unfolding find_replica metadata_id
get_client_id replicas ctx = peer_id replicas ctx.metadata ctx.peer

pub data Event : Type 0 where
  propose_event : ProposeMsg → Event
  vote_event : VoteMsg → Event
  new_view_event : NewViewMsg → Event
  timeout_event : TimeoutMsg → Event

-- What a handler does with a message.
pub data Received : Type 0 where
  added : Event → Received
  dropped : Received
  panicked : Received

module _ (from_compressed : List ℕ → Option (List ℕ)) where
  module _ (sha256 : List ℕ → ℕ) where
    -- `Propose` for a known sender: a message with no block is the dereference of nil.
    unfoldable pub receive_proposal : ℕ → Hotstuffpb.Proposal → Option Hotstuffpb.Block → Received
    unfolding proposal_from_proto
    receive_proposal id p none = panicked
    receive_proposal id p (some b) =
        let p' = record p { block = some (record b { proposer = id }) } in
        let msg = proposal_from_proto from_compressed sha256 p' in
        added (propose_event (record msg { id = id }))

    unfoldable pub propose : List ℕ → ServerCtx → Hotstuffpb.Proposal → Received
    unfolding get_client_id receive_proposal
    propose replicas ctx p = elim (get_client_id replicas ctx) [
      | none ↦ dropped
      | some id ↦ receive_proposal id p p.block
    ]

  unfoldable pub vote : List ℕ → ServerCtx → Hotstuffpb.PartialCert → Received
  unfolding get_client_id partial_cert_from_proto
  vote replicas ctx cert = elim (get_client_id replicas ctx) [
    | none ↦ dropped
    | some id ↦ elim (partial_cert_from_proto from_compressed cert) [
      | none ↦ panicked
      | some c ↦ added (vote_event (record { id = id; partial_cert = c; deferred = false }))
    ]
  ]

  unfoldable pub new_view : List ℕ → ServerCtx → Hotstuffpb.SyncInfo → Received
  unfolding get_client_id sync_info_from_proto
  new_view replicas ctx msg = elim (get_client_id replicas ctx) [
    | none ↦ dropped
    | some id ↦ added (
        new_view_event
          (record { id = id; sync_info = sync_info_from_proto from_compressed (some msg) }))
  ]

  abbrev pub id_or_zero : Option ℕ → ℕ
  id_or_zero none = 0
  id_or_zero (some id) = id

  -- `Timeout`: an unknown sender is only logged, and its ID is then zero.
  unfoldable pub timeout : List ℕ → ServerCtx → Hotstuffpb.TimeoutMsg → Received
  unfolding get_client_id timeout_msg_from_proto
  timeout replicas ctx msg = elim (timeout_msg_from_proto from_compressed msg) [
    | none ↦ panicked
    | some t ↦ added (timeout_event (record t { id = id_or_zero (get_client_id replicas ctx) }))
  ]

-- `Fetch`: `none` is the status NotFound.
unfoldable pub fetch : List ℕ → Chain → Option Hotstuffpb.Block
unfolding local_get le_value block_to_proto
fetch hash chain = elim (local_get (le_value 32 hash) chain) [
  | none ↦ none
  | some block ↦ some (block_to_proto block)
]
