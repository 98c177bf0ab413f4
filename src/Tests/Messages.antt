-- ===== src/Tests/Messages.antt =====
-- Messages on their way from one replica to another, and on a stream.
use hotstuff_repbased_leader.Prelude.{
  ℕ, ◌≡◌, ◌⊎◌, inl, refl, true, false, Option, none, some, List, [], ◌∷◌, ◌++◌, lookup, arith,
}
use hotstuff_repbased_leader.Types.{
  ecdsa, PartialCert, SyncInfo, TimeoutMsg, ProposeMsg, new_block, block_bytes,
}
use hotstuff_repbased_leader.Hotstuffpb
use hotstuff_repbased_leader.Hotstuffpb.Convert.{proposal_to_proto}
use hotstuff_repbased_leader.Server
use hotstuff_repbased_leader.Server.{
  ServerCtx, no_tls, tls, get_client_id, Received, added, dropped, panicked, propose_event,
  vote_event, new_view_event, timeout_event,
}
use hotstuff_repbased_leader.Server.Senders.{propose_lem}
use hotstuff_repbased_leader.Network
use hotstuff_repbased_leader.Network.Delivery.{deliver_all, propose_arrives, messages_arrive}
use hotstuff_repbased_leader.Protostream.{write, read}
use hotstuff_repbased_leader.Protostream.RoundTrip.{read-write}
use hotstuff_repbased_leader.Tests.Setup.{digest, certify, signed_by, b1, b2, proposal_of}

-- A point is a list of one number.
abbrev from_compressed : List ℕ → Option (List ℕ)
from_compressed (x ∷ []) = some (x ∷ [])
from_compressed _ = none

abbrev replica3 : Network.GorumsReplica
replica3 = record {
  id = 3;
  pub_key = 7 ∷ [];
  has_node = true;
  vote_ctx = none;
  newview_ctx = some 4;
}

abbrev net : Network.Network
net = record (Network.new_config 2) {
  replicas = (3, replica3) ∷ [];
  configured = true;
  next_ctx = 5;
}

abbrev receive_all : List Network.Sent → List Received
receive_all calls = deliver_all from_compressed digest (1 ∷ 2 ∷ 3 ∷ 4 ∷ []) 2 net calls

propose_arrives_example :
    receive_all (Network.propose (proposal_of b2) net).sent
    ≡ added (propose_event (record (proposal_of b2) { id = 2 })) ∷ receive_all net.sent
unfolding new_block Network.new_config lookup
propose_arrives_example =
    propose_arrives from_compressed digest (1 ∷ 2 ∷ 3 ∷ 4 ∷ []) 2 net (proposal_of b2) (omega arith)
      refl refl refl refl
      (omega arith, (omega arith, ((refl, (refl, (refl, tt))), (refl, (refl, (refl, tt)))))) tt

abbrev vote_cert : PartialCert
vote_cert = record { signature = some (ecdsa (signed_by 2 9)); block_hash = 9 }

abbrev info : SyncInfo
info = record { qc = some (certify b1); tc = none; agg_qc = none }

abbrev timeout_msg : TimeoutMsg
timeout_msg = record {
  id = 2;
  view = 3;
  view_signature = some (ecdsa (signed_by 2 3));
  msg_signature = none;
  sync_info = info;
}

messages_arrive_example :
    (receive_all (Network.vote replica3 vote_cert net).sent
      ≡ added (vote_event (record { id = 2; partial_cert = vote_cert; deferred = false }))
        ∷ receive_all net.sent)
    × (receive_all (Network.new_view replica3 info net).sent
        ≡ added (new_view_event (record { id = 2; sync_info = info })) ∷ receive_all net.sent)
    × (receive_all (Network.timeout timeout_msg net).sent
        ≡ added (timeout_event (record timeout_msg { id = 2 })) ∷ receive_all net.sent)
unfolding new_block Network.new_config lookup
messages_arrive_example =
    messages_arrive from_compressed digest (1 ∷ 2 ∷ 3 ∷ 4 ∷ []) 2 net replica3 vote_cert info
      timeout_msg (omega arith) refl refl refl (omega arith, tt)
      ((omega arith, ((refl, (refl, (refl, tt))), (refl, (refl, (refl, tt))))), tt, tt) tt tt
      ((omega arith, ((refl, (refl, (refl, tt))), (refl, (refl, (refl, tt))))), tt, tt)

abbrev plain : ServerCtx
plain = record { peer = some no_tls; metadata = some ((b'2' ∷ []) ∷ []) }

abbrev message : Hotstuffpb.Proposal
message = proposal_to_proto (proposal_of b1)

propose_lem_example :
    ((get_client_id (1 ∷ 2 ∷ []) plain ≡ none)
      × (Server.propose from_compressed digest (1 ∷ 2 ∷ []) plain message ≡ dropped))
    ⊎ ((id : ℕ) × (get_client_id (1 ∷ 2 ∷ []) plain ≡ some id)
        × (((message.block ≡ none)
              × (Server.propose from_compressed digest (1 ∷ 2 ∷ []) plain message ≡ panicked))
            ⊎ ((msg : ProposeMsg) × (Server.propose from_compressed digest
                    (1 ∷ 2 ∷ [])
                    plain
                    message
                  ≡ added (propose_event msg))
                × (msg.id ≡ id)
                × (msg.block.proposer ≡ id)
                × (msg.block.hash ≡ digest (block_bytes msg.block)))))
propose_lem_example = propose_lem from_compressed digest (1 ∷ 2 ∷ []) plain message

-- A message is its bytes.
read-write_example :
    let (dest, failed) =
      write (List ℕ) (λ m. some m) (7 ∷ 8 ∷ []) (record { written = []; room = 20 }) in
    (failed ≡ none)
    × (read (List ℕ) (λ b. some b) (dest.written ++ 9 ∷ []) ≡ (inl (7 ∷ 8 ∷ []), 9 ∷ []))
read-write_example =
    read-write (List ℕ) (λ b. some b) (λ m. some m) (7 ∷ 8 ∷ []) (7 ∷ 8 ∷ []) (9 ∷ []) 20 refl refl
      (omega arith) (omega arith)
