-- ===== src/Node/Evidence.antt =====
-- The timeouts and the votes that a replica keeps, over a run of the events in Node.
use mathlib.Core.Path.{subst}
use hotstuff_repbased_leader.Prelude.{
  ℕ, ◌≡◌, refl, true, none, some, Option, List, arith, Option-cases, Bool-cases, inl, inr, Dict,
  lookup, insert, delete, All, map,
}
use hotstuff_repbased_leader.Types.{TimeoutMsg, VoteMsg, NewViewMsg, PartialCert, Block, with_tc}
use hotstuff_repbased_leader.Crypto.Base.{CryptoImpl, verify_partial_cert, create_timeout_cert}
use hotstuff_repbased_leader.State.{Effect, Replica, Env, view_timeout, net_timeout}
use hotstuff_repbased_leader.Access.{emit}
use hotstuff_repbased_leader.HighQc.{sync_info}
use hotstuff_repbased_leader.Consensus.{
  advance_view_call, on_propose_call, propose_call, stop_voting,
}
use hotstuff_repbased_leader.Synchronizer.{run_all, timer_fired}
use hotstuff_repbased_leader.Synchronizer.Keeps.{Keeps, Keeps-refl, run_all-Keeps}
use hotstuff_repbased_leader.Timeouts.{
  with_aggregate, add_timeout, timeouts_of, drop_old_timeouts, form_timeout_cert, collect_timeout,
  on_remote_timeout, first_timeout, send_timeout, on_local_timeout, new_timeout, start, reset,
  resend, sent_in, on_new_view,
}
use hotstuff_repbased_leader.Timeouts.Collected.{
  IsCollected, Keeps-IsCollected, on_remote_timeout_sound,
}
use hotstuff_repbased_leader.VotingMachine.{votes_or_empty, on_vote, verify_cert}
use hotstuff_repbased_leader.VotingMachine.Quorums.{verify_cert_sound}
use hotstuff_repbased_leader.Node.{
  new_replica, Step, Reach, began, goes_on, proposal, vote, vote_checked, new_view, remote_timeout,
  local_timeout, timer, command, here, next,
}

-- What the replica holds of others is what they signed: the timeouts collected, and the votes.
abbrev pub IsEvidence : (List ℕ → ℕ) → CryptoImpl → Replica → Type 0
IsEvidence sha256 impl r =
    IsCollected impl r
    × ((h : ℕ)
        → All (λ v. (v.block_hash ≡ h) × (verify_partial_cert sha256 impl v ≡ true))
            (votes_or_empty (lookup h r.verified_votes)))

Keeps-IsEvidence :
    (sha256 : List ℕ → ℕ) (impl : CryptoImpl) {r s : Replica}
    → Keeps r s
    → IsEvidence sha256 impl r
    → IsEvidence sha256 impl s
Keeps-IsEvidence sha256 impl kept (timeouts, votes) =
    (Keeps-IsCollected impl kept timeouts, λ h. rw kept.verified (votes h))

emit-Keeps : (e : Effect) (r : Replica) → Keeps r (emit e r)
unfolding emit
emit-Keeps e r = record { timeouts = refl; verified = refl }

ready-Keeps :
    (t : TimeoutMsg) (r : Replica)
    → Keeps r
        (emit (net_timeout t) (stop_voting r.current_view (record r { last_timeout = some t })))
unfolding emit stop_voting
ready-Keeps t r = ground arith

resend-Keeps : (t : Option TimeoutMsg) (r : Replica) → Keeps r (resend t r)
unfolding emit
resend-Keeps none r = Keeps-refl r
resend-Keeps (some t) r = record { timeouts = refl; verified = refl }

reset-Keeps : (r : Replica) → Keeps r (reset r)
unfolding reset
reset-Keeps r = ground arith

module _ (env : Env) where
  form_timeout_cert_verified :
      (view : ℕ) (m : Dict TimeoutMsg) (r : Replica)
      → (form_timeout_cert env view m r).verified_votes ≡ r.verified_votes
  unfolding form_timeout_cert
  form_timeout_cert_verified view m r =
      let messages = map (λ (e : ℕ × TimeoutMsg). e.1) m in
      elim (Option-cases (create_timeout_cert env.sha256 env.impl view messages)) [
        | inl refused ↦ rw (refused, form_timeout_cert)
        | inr (tc, made) ↦
            let si = with_aggregate env messages (with_tc (sync_info r) tc) r in
            let cleared = record r { timeouts = delete view r.timeouts } in
            rw (made, form_timeout_cert) (run_all-Keeps env (advance_view_call si) cleared).verified
      ]

  collect_timeout_verified :
      (t : TimeoutMsg) (r : Replica) → (collect_timeout env t r).verified_votes ≡ r.verified_votes
  unfolding collect_timeout
  collect_timeout_verified t r =
      let m = add_timeout t (timeouts_of t.view r) in
      ground (
        arith,
        form_timeout_cert_verified t.view m (record r { timeouts = insert t.view m r.timeouts }),
      )

  on_remote_timeout_verified :
      (t : TimeoutMsg) (r : Replica) → (on_remote_timeout env t r).verified_votes ≡ r.verified_votes
  unfolding on_remote_timeout drop_old_timeouts
  on_remote_timeout_verified t r =
      let r1 = run_all env (advance_view_call t.sync_info) r in
      ground (
        arith,
        collect_timeout_verified t r1,
        (run_all-Keeps env (advance_view_call t.sync_info) r).verified,
      )

  on_remote_timeout-IsEvidence :
      (t : TimeoutMsg) (r : Replica)
      → IsEvidence env.sha256 env.impl r
      → IsEvidence env.sha256 env.impl (on_remote_timeout env t r)
  on_remote_timeout-IsEvidence t r (timeouts, votes) = (
    (on_remote_timeout_sound env t r timeouts).0,
    λ h. rw (on_remote_timeout_verified t r) (votes h),
  )

  first_timeout-IsEvidence :
      (r : Replica)
      → IsEvidence env.sha256 env.impl r
      → IsEvidence env.sha256 env.impl (first_timeout env r)
  unfolding first_timeout
  first_timeout-IsEvidence r all = elim (Option-cases (new_timeout env r)) [
    | inl unsigned ↦ rw (unsigned, first_timeout) all
    | inr (t, made) ↦
        let ready =
          emit (net_timeout t) (stop_voting r.current_view (record r { last_timeout = some t })) in
        rw (made, first_timeout)
          (on_remote_timeout-IsEvidence t ready
            (Keeps-IsEvidence env.sha256 env.impl (ready-Keeps t r) all))
  ]

  send_timeout-IsEvidence :
      (r : Replica)
      → IsEvidence env.sha256 env.impl r
      → IsEvidence env.sha256 env.impl (send_timeout env r)
  unfolding send_timeout
  send_timeout-IsEvidence r all = elim (Bool-cases (sent_in r.current_view r.last_timeout)) [
    | inl sent ↦
        rw (sent, send_timeout)
          (Keeps-IsEvidence env.sha256 env.impl (resend-Keeps r.last_timeout r) all)
    | inr unsent ↦
        rw (unsent, send_timeout)
          (first_timeout-IsEvidence (emit view_timeout r)
            (Keeps-IsEvidence env.sha256 env.impl (emit-Keeps view_timeout r) all))
  ]

  start-Keeps : (r : Replica) → Keeps r (start env r)
  unfolding start
  start-Keeps r = ground (arith, run_all-Keeps env (propose_call (sync_info r)) r, Keeps-refl r)

  on_vote-Keeps : (msg : VoteMsg) (r : Replica) → Keeps r (on_vote env msg r)
  unfolding on_vote
  on_vote-Keeps msg r = ground arith

  verify_cert_timeouts :
      (cert : PartialCert) (block : Block) (r : Replica)
      → (verify_cert env cert block r).timeouts ≡ r.timeouts
  unfolding verify_cert
  verify_cert_timeouts cert block r = ground arith

  verify_cert-IsEvidence :
      (cert : PartialCert) (block : Block) (r : Replica)
      → IsEvidence env.sha256 env.impl r
      → IsEvidence env.sha256 env.impl (verify_cert env cert block r)
  verify_cert-IsEvidence cert block r (timeouts, votes) = (
    λ view. rw (verify_cert_timeouts cert block r) (timeouts view),
    (verify_cert_sound env cert block r votes).0,
  )

-- The environment of an event, if it has one.
abbrev pub step_env : {r s : Replica} → Step r s → Option Env
step_env (began env) = some env
step_env (goes_on env call) = some env
step_env (proposal env msg) = some env
step_env (vote env msg) = some env
step_env (vote_checked env cert block) = some env
step_env (new_view env msg) = some env
step_env (remote_timeout env msg) = some env
step_env (local_timeout env) = some env
step_env timer = none
step_env (command cmd) = none

abbrev pub UsesScheme : (List ℕ → ℕ) → CryptoImpl → Option Env → Type 0
UsesScheme sha256 impl none = Unit
UsesScheme sha256 impl (some env) = (env.sha256 ≡ sha256) × (env.impl ≡ impl)

-- Every event of the run uses one hash function and one scheme.
abbrev pub SameScheme : (List ℕ → ℕ) → CryptoImpl → {r s : Replica} → Reach r s → Type 0
SameScheme sha256 impl here = Unit
SameScheme sha256 impl (next before step) =
    SameScheme sha256 impl before × UsesScheme sha256 impl (step_env step)

in_env :
    (env : Env) {sha256 : List ℕ → ℕ} {impl : CryptoImpl} (r s : Replica)
    → UsesScheme sha256 impl (some env)
    → (IsEvidence env.sha256 env.impl r → IsEvidence env.sha256 env.impl s)
    → IsEvidence sha256 impl r
    → IsEvidence sha256 impl s
in_env env {sha256} {impl} r s (same_hash, same_impl) f =
    subst (λ h. IsEvidence h impl r → IsEvidence h impl s) same_hash
      (subst (λ i. IsEvidence env.sha256 i r → IsEvidence env.sha256 i s) same_impl f)

on_local_timeout-IsEvidence :
    (env : Env) (r : Replica)
    → IsEvidence env.sha256 env.impl r
    → IsEvidence env.sha256 env.impl (on_local_timeout env r)
unfolding on_local_timeout
on_local_timeout-IsEvidence env r all =
    Keeps-IsEvidence env.sha256 env.impl (reset-Keeps (send_timeout env r))
      (send_timeout-IsEvidence env r all)

on_new_view-Keeps : (env : Env) (msg : NewViewMsg) (r : Replica) → Keeps r (on_new_view env msg r)
unfolding on_new_view
on_new_view-Keeps env msg r = run_all-Keeps env (advance_view_call msg.sync_info) r

Step-IsEvidence :
    (sha256 : List ℕ → ℕ) (impl : CryptoImpl) {r s : Replica} (step : Step r s)
    → UsesScheme sha256 impl (step_env step)
    → IsEvidence sha256 impl r
    → IsEvidence sha256 impl s
unfolding timer_fired
Step-IsEvidence sha256 impl {r} (began env) same all =
    Keeps-IsEvidence sha256 impl (start-Keeps env r) all
Step-IsEvidence sha256 impl {r} (goes_on env call) same all =
    Keeps-IsEvidence sha256 impl (run_all-Keeps env call r) all
Step-IsEvidence sha256 impl {r} (proposal env msg) same all =
    Keeps-IsEvidence sha256 impl (run_all-Keeps env (on_propose_call msg) r) all
Step-IsEvidence sha256 impl {r} (vote env msg) same all =
    Keeps-IsEvidence sha256 impl (on_vote-Keeps env msg r) all
Step-IsEvidence sha256 impl {r} (vote_checked env cert block) same all =
    in_env env r (verify_cert env cert block r) same (verify_cert-IsEvidence env cert block r) all
Step-IsEvidence sha256 impl {r} (new_view env msg) same all =
    Keeps-IsEvidence sha256 impl (on_new_view-Keeps env msg r) all
Step-IsEvidence sha256 impl {r} (remote_timeout env msg) same all =
    in_env env r (on_remote_timeout env msg r) same (on_remote_timeout-IsEvidence env msg r) all
Step-IsEvidence sha256 impl {r} (local_timeout env) same all =
    in_env env r (on_local_timeout env r) same (on_local_timeout-IsEvidence env r) all
Step-IsEvidence sha256 impl {r} timer same all = all
Step-IsEvidence sha256 impl {r} (command cmd) same all = all

-- Over any run from the initial state in which the scheme and the hash function stay the same, what
-- a replica keeps of others is what the scheme accepts: under each view at most one timeout of each
-- sender, for this view and with an accepted signature on it, and under each hash votes for the
-- block of this hash with an accepted signature.
pub Reach-IsEvidence :
    (env : Env) (batch_size : ℕ) (r : Replica) (run : Reach (new_replica env batch_size) r)
    → SameScheme env.sha256 env.impl run
    → IsEvidence env.sha256 env.impl r
unfolding new_replica lookup
Reach-IsEvidence env batch_size r here same = (λ view. (tt, tt), λ h. tt)
Reach-IsEvidence env batch_size r (next {s = s} before step) (same, now) =
    Step-IsEvidence env.sha256 env.impl step now (Reach-IsEvidence env batch_size s before same)
