-- ===== src/Network/Delivery.antt =====
-- The way of a message: sent by backend/gorums/gorumsconfig.go, converted by
-- internal/proto/hotstuffpb/convert.go, and received by backend/gorums/gorumsserver.go.
use hotstuff_repbased_leader.Prelude.{
  ℕ, ◌<◌, ◌≡◌, refl, ap, ◌∙◌, map, true, false, Option, some, List, ◌∷◌, arith,
}
use hotstuff_repbased_leader.Types.{
  Block, ProposeMsg, TimeoutMsg, PartialCert, SyncInfo, block_bytes,
}
use hotstuff_repbased_leader.Hotstuffpb
use hotstuff_repbased_leader.Hotstuffpb.Signatures.{IsSendable}
use hotstuff_repbased_leader.Hotstuffpb.RoundTrip.{
  IsBlock, IsAggregate, IsPartial, IsInfo, IfPresent, partial_cert_round_trip, sync_info_round_trip,
  timeout_msg_round_trip, proposal_round_trip,
}
use hotstuff_repbased_leader.Hotstuffpb.Convert.{
  proposal_to_proto, block_to_proto, partial_cert_to_proto, sync_info_to_proto,
  timeout_msg_to_proto,
}
use hotstuff_repbased_leader.Server
use hotstuff_repbased_leader.Server.{
  ServerCtx, no_tls, get_client_id, Received, added, dropped, panicked, propose_event, vote_event,
  new_view_event, timeout_event,
}
use hotstuff_repbased_leader.Network.{Sent, propose_call, timeout_call, vote_call, new_view_call}
use hotstuff_repbased_leader.Network.Identity.{get_client_id-new_config}
use hotstuff_repbased_leader.Network

-- The block as the receiver takes it: proposed by the sender, and hashed again.
abbrev pub proposed_by : (List ℕ → ℕ) → ℕ → Block → Block
proposed_by sha256 id b =
    let b' = record b { proposer = id } in record b' { hash = sha256 (block_bytes b') }

module _ (from_compressed : List ℕ → Option (List ℕ)) (sha256 : List ℕ → ℕ) where
  -- What the server does with a call.
  unfoldable pub deliver : List ℕ → ServerCtx → Sent → Received
  deliver replicas ctx (propose_call _ p) = Server.propose from_compressed sha256 replicas ctx p
  deliver replicas ctx (timeout_call _ t) = Server.timeout from_compressed replicas ctx t
  deliver replicas ctx (vote_call _ _ cert) = Server.vote from_compressed replicas ctx cert
  deliver replicas ctx (new_view_call _ _ si) = Server.new_view from_compressed replicas ctx si

  receive_lem :
      (id : ℕ) (p : ProposeMsg)
      → IsBlock from_compressed p.block
      → IfPresent (IsAggregate from_compressed) p.aggregate_qc
      → Server.receive_proposal from_compressed sha256 id
          (proposal_to_proto p)
          (some (block_to_proto p.block))
        ≡ added (propose_event (record p { id = id; block = proposed_by sha256 id p.block }))
  unfolding Server.receive_proposal proposal_to_proto block_to_proto
  receive_lem id p block agg =
      ap (λ m. added (propose_event (record m { id = id })))
        (proposal_round_trip from_compressed sha256
          (record p { block = proposed_by sha256 id p.block }) block agg refl)

  module _ (replicas : List ℕ) (ctx : ServerCtx) (id : ℕ)
      (known : get_client_id replicas ctx ≡ some id) where
    from_known :
        (p : Hotstuffpb.Proposal)
        → Server.propose from_compressed sha256 replicas ctx p
          ≡ Server.receive_proposal from_compressed sha256 id p p.block
    unfolding Server.propose
    from_known p = ground (arith, known)

    pub propose-delivered :
        (p : ProposeMsg)
        → IsBlock from_compressed p.block
        → IfPresent (IsAggregate from_compressed) p.aggregate_qc
        → Server.propose from_compressed sha256 replicas ctx (proposal_to_proto p)
          ≡ added (propose_event (record p { id = id; block = proposed_by sha256 id p.block }))
    unfolding proposal_to_proto
    propose-delivered p block agg = from_known (proposal_to_proto p) ∙ receive_lem id p block agg

    pub vote-delivered :
        (cert : PartialCert)
        → IsPartial from_compressed cert
        → Server.vote from_compressed replicas ctx (partial_cert_to_proto cert)
          ≡ added (vote_event (record { id = id; partial_cert = cert; deferred = false }))
    unfolding Server.vote
    vote-delivered cert h = ground (arith, known, partial_cert_round_trip from_compressed cert h)

    pub new_view-delivered :
        (si : SyncInfo)
        → IsInfo from_compressed si
        → Server.new_view from_compressed replicas ctx (sync_info_to_proto si)
          ≡ added (new_view_event (record { id = id; sync_info = si }))
    unfolding Server.new_view
    new_view-delivered si h = ground (arith, known, sync_info_round_trip from_compressed si h)

    pub timeout-delivered :
        (t : TimeoutMsg)
        → IsSendable from_compressed t.view_signature
        → IsSendable from_compressed t.msg_signature
        → IsInfo from_compressed t.sync_info
        → Server.timeout from_compressed replicas ctx (timeout_msg_to_proto t)
          ≡ added (timeout_event (record t { id = id }))
    unfolding Server.timeout
    timeout-delivered t view msg info =
        ground (arith, known, timeout_msg_round_trip from_compressed t view msg info)

-- The call as a server that is reached without TLS sees it.
abbrev pub plain_ctx : Network.Network → ServerCtx
plain_ctx net = record { peer = some no_tls; metadata = some net.metadata }

module _ (from_compressed : List ℕ → Option (List ℕ)) (sha256 : List ℕ → ℕ) (replicas : List ℕ)
    (id : ℕ) (net : Network.Network) where
  abbrev pub deliver_all : List Sent → List Received
  deliver_all calls = map (deliver from_compressed sha256 replicas (plain_ctx net)) calls

  known_sender :
      id < 4294967296
      → net.metadata ≡ (Network.new_config id).metadata
      → get_client_id replicas (plain_ctx net) ≡ some id
  known_sender fits named =
      ap (λ md. get_client_id replicas (record { peer = some no_tls; metadata = some md })) named
      ∙ get_client_id-new_config replicas id fits

  -- A proposal that a connected replica sends arrives as the same proposal from this replica, if the
  -- block in it names the replica as its proposer and is stored under its own hash, and if the hashes
  -- in it have 32 bytes and the signatures are the scheme's own. Nothing else is sent.
  pub propose_arrives :
      (p : ProposeMsg)
      → id < 4294967296
      → net.configured ≡ true
      → net.metadata ≡ (Network.new_config id).metadata
      → p.block.proposer ≡ id
      → p.block.hash ≡ sha256 (block_bytes p.block)
      → IsBlock from_compressed p.block
      → IfPresent (IsAggregate from_compressed) p.aggregate_qc
      → deliver_all (Network.propose p net).sent
        ≡ added (propose_event (record p { id = id })) ∷ deliver_all net.sent
  unfolding Network.propose deliver
  propose_arrives p fits on named proposer hashed block agg = ground (
    arith,
    propose-delivered from_compressed sha256 replicas (plain_ctx net) id (known_sender fits named) p
        block agg,
  )

  -- A vote for a replica that has a node, a new-view message to it, and a timeout message of a
  -- connected replica arrive unchanged, with the sender's ID and the vote not deferred, if their
  -- hashes have 32 bytes and their signatures are the scheme's own.
  pub messages_arrive :
      (r : Network.GorumsReplica) (cert : PartialCert) (si : SyncInfo) (t : TimeoutMsg)
      → id < 4294967296
      → net.configured ≡ true
      → r.has_node ≡ true
      → net.metadata ≡ (Network.new_config id).metadata
      → IsPartial from_compressed cert
      → IsInfo from_compressed si
      → IsSendable from_compressed t.view_signature
      → IsSendable from_compressed t.msg_signature
      → IsInfo from_compressed t.sync_info
      → (deliver_all (Network.vote r cert net).sent
          ≡ added (vote_event (record { id = id; partial_cert = cert; deferred = false }))
            ∷ deliver_all net.sent)
        × (deliver_all (Network.new_view r si net).sent
            ≡ added (new_view_event (record { id = id; sync_info = si })) ∷ deliver_all net.sent)
        × (deliver_all (Network.timeout t net).sent
            ≡ added (timeout_event (record t { id = id })) ∷ deliver_all net.sent)
  unfolding Network.vote Network.new_view Network.timeout deliver
  messages_arrive r cert si t fits on node named partial info view msg t_info =
      let known = known_sender fits named in
      (
        ground (
          arith,
          vote-delivered from_compressed sha256 replicas (plain_ctx net) id known cert partial,
        ),
        ground (
          arith,
          new_view-delivered from_compressed sha256 replicas (plain_ctx net) id known si info,
        ),
        ground (
          arith,
          timeout-delivered from_compressed sha256 replicas (plain_ctx net) id known t view msg
              t_info,
        ),
      )
