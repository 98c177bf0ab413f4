-- ===== src/Consensus/Frame.antt =====
-- What the handlers of consensus.go and the rules leave alone: the view and the timeouts of the
-- synchronizer, the last vote, the blocks signed and the votes verified.
use hotstuff_repbased_leader.Prelude.{
  ℕ, zero, suc, ◌≡◌, ◌≤◌, refl, ◌∙◌, none, some, Option, List, [], ◌∷◌, arith, inl, inr,
  Option-cases,
}
use hotstuff_repbased_leader.Types.{QuorumCert, Block, ProposeMsg}
use hotstuff_repbased_leader.BlockChain.{prune_to_height}
use hotstuff_repbased_leader.State.{
  Effect, fork, signed, Replica, Env, Protocol, chained_hotstuff, fast_hotstuff, simple_hotstuff,
}
use hotstuff_repbased_leader.Access.{emit, get_block, extends_block}
use hotstuff_repbased_leader.HighQc.{update_high_qc}
use hotstuff_repbased_leader.Rules.{
  vote_rule, commit_rule, chained_vote_rule, fast_vote_rule, simple_vote_rule, chained_commit_rule,
  fast_commit_rule, simple_commit_rule, chained_decide, simple_decide, qc_ref, vote_of, commit_of,
}
use hotstuff_repbased_leader.Consensus.{
  commit_inner, fork_all, prune, commit, try_commit, note_proposed,
}

-- The views of the blocks signed, latest first.
abbrev pub signed_views : List Effect → List ℕ
signed_views [] = []
signed_views (signed block ∷ es) = block.view ∷ signed_views es
signed_views (_ ∷ es) = signed_views es

pub record Frame (r r' : Replica) : Type 0 where
  pub same_view : r'.current_view ≡ r.current_view
  pub same_last : r'.last_vote ≡ r.last_vote
  pub same_signed : signed_views r'.trace ≡ signed_views r.trace
  pub lock_le : r.locked.view ≤ r'.locked.view
  pub same_timeouts : r'.timeouts ≡ r.timeouts
  pub same_verified : r'.verified_votes ≡ r.verified_votes

pub Frame-refl : (r : Replica) → Frame r r
Frame-refl r = record {
  same_view = refl;
  same_last = refl;
  same_signed = refl;
  lock_le = omega arith;
  same_timeouts = refl;
  same_verified = refl;
}

pub Frame-trans : {r s t : Replica} → Frame r s → Frame s t → Frame r t
Frame-trans f g = record {
  same_view = g.same_view ∙ f.same_view;
  same_last = g.same_last ∙ f.same_last;
  same_signed = g.same_signed ∙ f.same_signed;
  lock_le = omega arith;
  same_timeouts = g.same_timeouts ∙ f.same_timeouts;
  same_verified = g.same_verified ∙ f.same_verified;
}

module _ (env : Env) where
  pub get_block-Frame : (h : ℕ) (r : Replica) → Frame r (get_block env h r).0
  unfolding get_block
  get_block-Frame h r = record {
    same_view = refl;
    same_last = refl;
    same_signed = refl;
    lock_le = omega arith;
    same_timeouts = refl;
    same_verified = refl;
  }

  pub update_high_qc-Frame : (qc : QuorumCert) (r : Replica) → Frame r (update_high_qc env qc r)
  unfolding update_high_qc
  update_high_qc-Frame qc r = ground arith

  pub chained_vote_rule-Frame :
      (msg : ProposeMsg) (r : Replica) → Frame r (chained_vote_rule env msg r).0
  unfolding chained_vote_rule get_block extends_block
  chained_vote_rule-Frame msg r = ground arith

  pub fast_vote_rule-Frame : (msg : ProposeMsg) (r : Replica) → Frame r (fast_vote_rule env msg r).0
  unfolding fast_vote_rule get_block extends_block
  fast_vote_rule-Frame msg r = ground arith

  pub simple_vote_rule-Frame :
      (msg : ProposeMsg) (r : Replica) → Frame r (simple_vote_rule env msg r).0
  unfolding simple_vote_rule get_block
  simple_vote_rule-Frame msg r = ground arith

  pub chained_commit_rule-Frame :
      (block : Block) (r : Replica) → Frame r (chained_commit_rule env block r).0
  unfolding chained_commit_rule chained_decide qc_ref update_high_qc
  chained_commit_rule-Frame block r = ground arith

  pub fast_commit_rule-Frame :
      (block : Block) (r : Replica) → Frame r (fast_commit_rule env block r).0
  unfolding fast_commit_rule qc_ref
  fast_commit_rule-Frame block r = ground arith

  pub simple_commit_rule-Frame :
      (block : Block) (r : Replica) → Frame r (simple_commit_rule env block r).0
  unfolding simple_commit_rule simple_decide get_block
  simple_commit_rule-Frame block r = ground arith

  commit_inner-Frame :
      (fuel : ℕ) (block : Block) (r : Replica) → Frame r (commit_inner env fuel block r)
  unfolding commit_inner
  commit_inner-Frame zero block r = Frame-refl r
  commit_inner-Frame (suc fuel) block r = elim (Option-cases (get_block env block.parent r).1) [
    | inl missing ↦ ground arith
    | inr (p, found) ↦ ground (arith, commit_inner-Frame fuel p (get_block env block.parent r).0)
  ]

  fork_all-Frame : (blocks : List Block) (r : Replica) → Frame r (fork_all env blocks r)
  unfolding fork_all
  fork_all-Frame [] r = Frame-refl r
  fork_all-Frame (b ∷ bs) r = ground (arith, fork_all-Frame bs (emit (fork b) r))

  prune-Frame : (height : ℕ) (r : Replica) → Frame r (prune env height r)
  unfolding prune
  prune-Frame height r =
      let (chain, forked) = prune_to_height env.fuel r.b_exec.view height r.chain in
      let f = fork_all-Frame forked (record r { chain = chain }) in
      record {
        same_view = f.same_view;
        same_last = f.same_last;
        same_signed = f.same_signed;
        lock_le = f.lock_le;
        same_timeouts = f.same_timeouts;
        same_verified = f.same_verified;
      }

  pub commit-Frame : (block : Block) (r : Replica) → Frame r (commit env block r)
  unfolding commit
  commit-Frame block r =
      Frame-trans (commit_inner-Frame env.fuel block r)
        (prune-Frame block.view (commit_inner env env.fuel block r))

  commit_rule-Frame : (block : Block) (r : Replica) → Frame r (commit_rule env block r).0
  unfolding commit_rule
  commit_rule-Frame block r = by_protocol env.protocol
    where
      by_protocol : (p : Protocol) → Frame r (commit_of env p block r).0
      by_protocol chained_hotstuff = chained_commit_rule-Frame block r
      by_protocol fast_hotstuff = fast_commit_rule-Frame block r
      by_protocol simple_hotstuff = simple_commit_rule-Frame block r

  pub vote_rule-Frame : (msg : ProposeMsg) (r : Replica) → Frame r (vote_rule env msg r).0
  unfolding vote_rule
  vote_rule-Frame msg r = by_protocol env.protocol
    where
      by_protocol : (p : Protocol) → Frame r (vote_of env p msg r).0
      by_protocol chained_hotstuff = chained_vote_rule-Frame msg r
      by_protocol fast_hotstuff = fast_vote_rule-Frame msg r
      by_protocol simple_hotstuff = simple_vote_rule-Frame msg r

  pub try_commit-Frame : (block : Block) (r : Replica) → Frame r (try_commit env block r)
  unfolding try_commit
  try_commit-Frame block r = elim (Option-cases (commit_rule env block r).1) [
    | inl none_decided ↦ rw (none_decided, try_commit) (commit_rule-Frame block r)
    | inr (b, decided) ↦
        rw (decided, try_commit) (Frame-trans (commit_rule-Frame block r) (commit-Frame b _))
  ]

  pub note_proposed-Frame : (b : Option Block) (r : Replica) → Frame r (note_proposed env b r)
  unfolding note_proposed
  note_proposed-Frame none r = Frame-refl r
  note_proposed-Frame (some b) r = ground arith
