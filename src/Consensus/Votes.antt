-- ===== src/Consensus/Votes.antt =====
-- What `OnPropose`, `Propose` and `StopVoting` of consensus/consensus.go do to the last vote and to
-- the blocks signed.
use hotstuff_repbased_leader.Prelude.{
  ℕ, suc, ◌≤◌, ◌<◌, ◌≡◌, ◌∙◌, some, List, [], ◌∷◌, arith, inl, inr, Bool-cases, Option-cases, ◌==◌,
}
use hotstuff_repbased_leader.Types.{Block, ProposeMsg, SyncInfo}
use hotstuff_repbased_leader.State.{Replica, Env, Proposer, honest, silence, forking}
use hotstuff_repbased_leader.Access.{get_block, store_block}
use hotstuff_repbased_leader.CmdCache.{accept, get_batch}
use hotstuff_repbased_leader.Rules.{vote_rule, fork_propose_rule}
use hotstuff_repbased_leader.Consensus.{
  cast_vote, accept_block, handle_proposal, on_propose, stop_voting, propose, propose_next,
  propose_command, proposed_block, note_proposed,
}
use hotstuff_repbased_leader.Consensus.Frame.{
  Frame, signed_views, Frame-refl, Frame-trans, get_block-Frame, vote_rule-Frame, try_commit-Frame,
  note_proposed-Frame,
}

-- Strictly falling, and below a bound.
abbrev pub IsDescending : ℕ → List ℕ → Type 0
IsDescending bound [] = Unit
IsDescending bound (v ∷ vs) = (v < bound) × IsDescending v vs

IsDescending-mono : (a b : ℕ) (vs : List ℕ) → a ≤ b → IsDescending a vs → IsDescending b vs
IsDescending-mono a b [] h d = tt
IsDescending-mono a b (v ∷ vs) h d = (omega arith, d.1)

-- The views of the blocks that a replica has signed fall strictly from the latest to the first, and
-- none is above the last vote.
abbrev pub SignsOncePerView : Replica → Type 0
SignsOncePerView r = IsDescending (suc r.last_vote) (signed_views r.trace)

-- What one call does: it signs nothing and leaves the last vote, or raises the last vote; or it
-- signs one block above the last vote, which becomes the last vote.
pub record Votes (r r' : Replica) : Type 0 where
  pub kept : SignsOncePerView r → SignsOncePerView r'
  pub last_le : r.last_vote ≤ r'.last_vote
  pub view_same : r'.current_view ≡ r.current_view
  pub lock_le : r.locked.view ≤ r'.locked.view
  pub timeouts_same : r'.timeouts ≡ r.timeouts
  pub verified_same : r'.verified_votes ≡ r.verified_votes

pub Votes-trans : {r s t : Replica} → Votes r s → Votes s t → Votes r t
Votes-trans f g = record {
  kept = λ h. g.kept (f.kept h);
  last_le = omega arith;
  view_same = g.view_same ∙ f.view_same;
  lock_le = omega arith;
  timeouts_same = g.timeouts_same ∙ f.timeouts_same;
  verified_same = g.verified_same ∙ f.verified_same;
}

pub Votes-of_Frame : {r r' : Replica} → Frame r r' → Votes r r'
Votes-of_Frame {r} f = record {
  kept = λ h. rw (f.same_signed, f.same_last) h;
  last_le = omega arith;
  view_same = f.same_view;
  lock_le = f.lock_le;
  timeouts_same = f.same_timeouts;
  verified_same = f.same_verified;
}

pub stop_voting-kept :
    (view : ℕ) (r : Replica) → SignsOncePerView r → SignsOncePerView (stop_voting view r)
unfolding stop_voting
stop_voting-kept view r h =
    ground (arith, IsDescending-mono (suc r.last_vote) (suc view) (signed_views r.trace))

pub locked-stop_voting : (view : ℕ) (r : Replica) → (stop_voting view r).locked ≡ r.locked
unfolding stop_voting
locked-stop_voting view r = ground arith

pub last-le-stop_voting : (view : ℕ) (r : Replica) → r.last_vote ≤ (stop_voting view r).last_vote
unfolding stop_voting
last-le-stop_voting view r = ground arith

module _ (env : Env) where
  cast_vote-Votes : (block : Block) (r : Replica) → Votes r (cast_vote env block r)
  unfolding cast_vote
  cast_vote-Votes block r =
      ground (arith, IsDescending-mono (suc r.last_vote) block.view (signed_views r.trace))

  accept_block-Votes : (block : Block) (r : Replica) → Votes r (accept_block env block r)
  unfolding accept_block
  accept_block-Votes block r = elim (Bool-cases (accept env.unmarshal block.cmd r.commands)) [
    | inl ok ↦
        let stored = store_block block r in
        rw ok (
          Votes-trans {s = stored} (ground arith) (
            Votes-trans (cast_vote-Votes block stored)
              (Votes-of_Frame (try_commit-Frame env block (cast_vote env block stored)))))
    | inr refused ↦ rw refused (Votes-of_Frame (Frame-refl r))
  ]

  handle_proposal-Votes : (msg : ProposeMsg) (r : Replica) → Votes r (handle_proposal env msg r)
  unfolding handle_proposal
  handle_proposal-Votes msg r = elim (Bool-cases (msg.id == env.get_leader r msg.block.view)) [
    | inr other ↦ rw other (Votes-of_Frame (Frame-refl r))
    | inl leader ↦
        let voted = vote_rule-Frame env msg r in
        let r1 = (vote_rule env msg r).0 in
        elim (Bool-cases (vote_rule env msg r).1) [
          | inr unsafe ↦ rw (leader, unsafe, handle_proposal) (Votes-of_Frame voted)
          | inl safe ↦
              let (r2, qc_block) = get_block env msg.block.cert.hash r1 in
              rw (leader, safe, handle_proposal)
                (Votes-trans
                  (Votes-of_Frame (
                    Frame-trans voted (
                      Frame-trans {s = r2} (get_block-Frame env msg.block.cert.hash r1)
                        (note_proposed-Frame env qc_block r2))))
                  (accept_block-Votes msg.block (note_proposed env qc_block r2)))
        ]
  ]

  pub on_propose-Votes : (msg : ProposeMsg) (r : Replica) → Votes r (on_propose env msg r).0
  unfolding on_propose
  on_propose-Votes msg r = ground (arith, handle_proposal-Votes msg r)

  fork_propose_rule-Frame :
      (si : SyncInfo) (h : ℕ) (r : Replica) → Frame r (fork_propose_rule env si h r).0
  unfolding fork_propose_rule get_block
  fork_propose_rule-Frame si h r = ground arith

  proposed_block-Frame :
      (p : Proposer) (si : SyncInfo) (cmd : List ℕ) (r : Replica)
      → Frame r (proposed_block env p si cmd r).0
  unfolding proposed_block
  proposed_block-Frame honest si cmd r = Frame-refl r
  proposed_block-Frame silence si cmd r = Frame-refl r
  proposed_block-Frame forking si cmd r =
      ground (arith, fork_propose_rule-Frame si r.leaf_block.parent r)

  propose_command-Frame :
      (si : SyncInfo) (cmd : List ℕ) (r : Replica) → Frame r (propose_command env si cmd r).0
  unfolding propose_command
  propose_command-Frame si cmd r = ground (arith, proposed_block-Frame env.proposer si cmd r)

  propose_next-Frame : (si : SyncInfo) (r : Replica) → Frame r (propose_next env si r).0
  unfolding propose_next
  propose_next-Frame si r =
      let (commands, cmd) = get_batch env.marshal (env.wakes r) r.commands in
      let r' = record r { commands = commands } in
      elim (Option-cases cmd) [
        | inl no_batch ↦ ground arith
        | inr (c, batch) ↦ ground (arith, propose_command-Frame si c r')
      ]

  pub propose-Frame : (si : SyncInfo) (r : Replica) → Frame r (propose env si r).0
  unfolding propose
  propose-Frame si r = elim (Option-cases si.qc) [
    | inl no_qc ↦ rw (no_qc, propose) (propose_next-Frame si r)
    | inr (qc, has_qc) ↦
        let (r', found) = get_block env qc.hash r in
        elim (Option-cases found) [
          | inl missing ↦ rw (has_qc, missing, propose) (get_block-Frame env qc.hash r)
          | inr (b, there) ↦
              rw (has_qc, there, propose)
                (Frame-trans (get_block-Frame env qc.hash r) (
                  Frame-trans (note_proposed-Frame env (some b) r')
                    (propose_next-Frame si (note_proposed env (some b) r'))))
        ]
  ]
