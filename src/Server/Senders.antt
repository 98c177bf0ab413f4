-- ===== src/Server/Senders.antt =====
-- What backend/gorums/gorumsserver.go makes of messages that any peer may have sent.
use hotstuff_repbased_leader.Prelude.{
  ℕ, ◌<◌, ◌≡◌, refl, ◌⊎◌, inl, inr, Option, none, some, Option-cases, List, length, arith,
}
use hotstuff_repbased_leader.Types.{ProposeMsg, TimeoutMsg, block_bytes, new_block}
use hotstuff_repbased_leader.Hotstuffpb
use hotstuff_repbased_leader.Hotstuffpb.{bls12_sig}
use hotstuff_repbased_leader.Hotstuffpb.Convert.{
  proposal_from_proto, block_from_proto, partial_cert_from_proto, signature_from_proto,
  bls12_from_bytes, timeout_msg_from_proto,
}
use hotstuff_repbased_leader.Server.{
  ServerCtx, get_client_id, receive_proposal, propose, vote, timeout, added, panicked, dropped,
  propose_event, timeout_event,
}

module _ (from_compressed : List ℕ → Option (List ℕ)) (sha256 : List ℕ → ℕ) where
  received_block :
      (id : ℕ) (p : Hotstuffpb.Proposal) (b : Hotstuffpb.Block)
      → (msg : ProposeMsg) × (receive_proposal from_compressed sha256 id p (some b)
          ≡ added (propose_event msg))
        × (msg.id ≡ id)
        × (msg.block.proposer ≡ id)
        × (msg.block.hash ≡ sha256 (block_bytes msg.block))
  unfolding receive_proposal proposal_from_proto block_from_proto new_block block_bytes
  received_block id p b = (_, refl, refl, refl, refl)

  -- Whatever proposal a peer sends, the server drops it if it cannot tell the sender, and panics if
  -- the message has no block. Otherwise it adds a proposal with the sender's ID, whose block names
  -- the sender as its proposer and is stored under the hash of its own bytes.
  pub propose_lem :
      (replicas : List ℕ) (ctx : ServerCtx) (p : Hotstuffpb.Proposal)
      → ((get_client_id replicas ctx ≡ none)
          × (propose from_compressed sha256 replicas ctx p ≡ dropped))
        ⊎ ((id : ℕ) × (get_client_id replicas ctx ≡ some id)
            × (((p.block ≡ none) × (propose from_compressed sha256 replicas ctx p ≡ panicked))
                ⊎ ((msg : ProposeMsg) × (propose from_compressed sha256 replicas ctx p
                      ≡ added (propose_event msg))
                    × (msg.id ≡ id)
                    × (msg.block.proposer ≡ id)
                    × (msg.block.hash ≡ sha256 (block_bytes msg.block)))))
  unfolding propose
  propose_lem replicas ctx p = elim (Option-cases (get_client_id replicas ctx)) [
    | inl unknown ↦ inl (unknown, ground arith)
    | inr (id, known) ↦ inr (
      id,
      known,
      elim (Option-cases p.block) [
        | inl empty ↦ inl (empty, unfold receive_proposal in ground arith)
        | inr (b, there) ↦
            let r = received_block id p b in inr (r.0, ground (arith, r.1), r.2, r.3, r.4)
      ],
    )
  ]

  -- The server adds a timeout message that it can read even if it cannot tell who sent it: the
  -- message then has the ID 0, which no replica has.
  pub timeout-unknown :
      (replicas : List ℕ) (ctx : ServerCtx) (m : Hotstuffpb.TimeoutMsg) {t : TimeoutMsg}
      → get_client_id replicas ctx ≡ none
      → timeout_msg_from_proto from_compressed m ≡ some t
      → timeout from_compressed replicas ctx m ≡ added (timeout_event (record t { id = 0 }))
  unfolding timeout
  timeout-unknown replicas ctx m unknown read = ground arith

  -- A vote of a known sender whose BLS12 signature has fewer than the four bytes of the signer's ID
  -- makes the server panic, whatever the scheme in use.
  pub vote-short :
      (replicas : List ℕ) (ctx : ServerCtx) (id : ℕ) (bytes hash : List ℕ)
      → get_client_id replicas ctx ≡ some id
      → length bytes < 4
      → vote from_compressed replicas ctx (record { sig = some (bls12_sig bytes); hash = hash })
        ≡ panicked
  unfolding vote partial_cert_from_proto signature_from_proto bls12_from_bytes
  vote-short replicas ctx id bytes hash known short = ground arith
