-- ===== src/Timeouts/Collected.antt =====
-- The timeouts that OnRemoteTimeout of synchronizer/synchronizer.go keeps, and of which it makes a
-- certificate.
use mathlib.Core.Path.{subst}
use hotstuff_repbased_leader.Prelude.{
  ℕ, ◌≡◌, ◌≤◌, ◌⊎◌, refl, sym, Bool, true, false, none, some, Option, List, arith, Option-cases,
  Bool-cases, inl, inr, Dict, lookup, insert, delete, lookup-insert, lookup-delete, lookup-keep,
  eq_of_==, length, ltb, ◌==◌, if◌then◌else◌, All, map, not, DistinctKeys, DistinctKeys-insert,
  All-insert,
}
use hotstuff_repbased_leader.Types.{TimeoutCert, TimeoutMsg, with_tc}
use hotstuff_repbased_leader.Sizes.{quorum_size}
use hotstuff_repbased_leader.Crypto.Base.{CryptoImpl, create_timeout_cert}
use hotstuff_repbased_leader.State.{Replica, Env}
use hotstuff_repbased_leader.HighQc.{sync_info}
use hotstuff_repbased_leader.Consensus.{advance_view_call}
use hotstuff_repbased_leader.Synchronizer.{run_all}
use hotstuff_repbased_leader.Synchronizer.Keeps.{Keeps, run_all-Keeps}
use hotstuff_repbased_leader.Timeouts.{
  drop_old_timeouts, or_empty, add_timeout, timeouts_of, with_aggregate, form_timeout_cert,
  collect_timeout, on_remote_timeout,
}

module _ (impl : CryptoImpl) where
  -- A timeout under its sender's ID, with a signature on the view that the scheme accepts.
  abbrev pub IsTimeout : ℕ → ℕ × TimeoutMsg → Type 0
  IsTimeout view e =
      (e.0 ≡ e.1.id) × (e.1.view ≡ view) × (impl.verify e.1.view_signature view ≡ true)

  -- The timeouts of a view, at most one of each sender.
  abbrev pub AreTimeouts : ℕ → Dict TimeoutMsg → Type 0
  AreTimeouts view m = All (IsTimeout view) m × DistinctKeys m

  abbrev pub IsCollected : Replica → Type 0
  IsCollected r = (view : ℕ) → AreTimeouts view (or_empty (lookup view r.timeouts))

  add_timeout-AreTimeouts :
      (t : TimeoutMsg) (m : Dict TimeoutMsg)
      → impl.verify t.view_signature t.view ≡ true
      → AreTimeouts t.view m
      → AreTimeouts t.view (add_timeout t m)
  unfolding add_timeout
  add_timeout-AreTimeouts t m ok all = elim (Option-cases (lookup t.id m)) [
    | inl new ↦
        rw (new, add_timeout)
          (
            All-insert (IsTimeout t.view) t.id t m new (refl, refl, ok) all.0,
            DistinctKeys-insert t.id t m new all.1,
          )
    | inr (old, found) ↦ rw (found, add_timeout) all
  ]

  if_same :
      (view : ℕ) (b : Bool) (x y : Option (Dict TimeoutMsg))
      → (b ≡ true → AreTimeouts view (or_empty x))
      → (b ≡ false → AreTimeouts view (or_empty y))
      → AreTimeouts view (or_empty (if b then x else y))
  if_same view true x y hx hy = hx refl
  if_same view false x y hx hy = hy refl

  insert-IsCollected :
      (view : ℕ) (m : Dict TimeoutMsg) (r : Replica)
      → AreTimeouts view m
      → IsCollected r
      → IsCollected (record r { timeouts = insert view m r.timeouts })
  insert-IsCollected view m r new all j = rw (lookup-insert view j m r.timeouts) (
      if_same j (view == j) (some m) _
        (λ same. subst (λ k. AreTimeouts k m) (eq_of_== view j same) new) (λ _. all j))

  delete-IsCollected :
      (view : ℕ) (r : Replica)
      → IsCollected r
      → IsCollected (record r { timeouts = delete view r.timeouts })
  delete-IsCollected view r all j =
      rw (lookup-delete view j r.timeouts)
        (if_same j (view == j) none _ (λ _. (tt, tt)) (λ _. all j))

  pub drop_old_timeouts-IsCollected :
      (r : Replica) → IsCollected r → IsCollected (drop_old_timeouts r)
  unfolding drop_old_timeouts
  drop_old_timeouts-IsCollected r all j =
      rw (lookup-keep (λ view. not (ltb view r.current_view)) j r.timeouts)
        (if_same j (not (ltb j r.current_view)) _ none (λ _. all j) (λ _. (tt, tt)))

  pub Keeps-IsCollected : {r s : Replica} → Keeps r s → IsCollected r → IsCollected s
  Keeps-IsCollected kept all view = rw kept.timeouts (all view)

module _ (env : Env) where
  abbrev messages_of : Dict TimeoutMsg → List TimeoutMsg
  messages_of m = map (λ e. e.1) m

  -- A timeout certificate was made, and the replica went on with it: at least a quorum of timeouts of
  -- the view went into it.
  pub record Formed (view : ℕ) (r s : Replica) : Type 0 where
    pub tc : TimeoutCert
    pub collected : Dict TimeoutMsg
    pub all : AreTimeouts env.impl view collected
    pub enough : quorum_size (length env.replicas) ≤ length collected
    pub created : create_timeout_cert env.sha256 env.impl view (map (λ e. e.1) collected) ≡ some tc
    pub went_on :
        s
        ≡ run_all env
            (advance_view_call
              (with_aggregate env (map (λ e. e.1) collected) (with_tc (sync_info r) tc) r))
            (record r { timeouts = delete view r.timeouts })

  form_timeout_cert_lem :
      (view : ℕ) (m : Dict TimeoutMsg) (r : Replica)
      → AreTimeouts env.impl view m
      → quorum_size (length env.replicas) ≤ length m
      → (form_timeout_cert env view m r ≡ r) ⊎ Formed view r (form_timeout_cert env view m r)
  unfolding form_timeout_cert
  form_timeout_cert_lem view m r all enough =
      elim (Option-cases (create_timeout_cert env.sha256 env.impl view (messages_of m))) [
        | inl refused ↦ inl (rw (refused, form_timeout_cert))
        | inr (tc, made) ↦ inr (record {
          tc = tc;
          collected = m;
          all = all;
          enough = enough;
          created = made;
          went_on = rw (made, form_timeout_cert);
        })
      ]

  Formed-IsCollected :
      {view : ℕ} {r s : Replica} → IsCollected env.impl r → Formed view r s → IsCollected env.impl s
  Formed-IsCollected {view} {r} all f = subst (IsCollected env.impl) (sym f.went_on) (
      Keeps-IsCollected env.impl
        (run_all-Keeps env _ (record r { timeouts = delete view r.timeouts }))
        (delete-IsCollected env.impl view r all))

  -- The state with the timeout among the collected ones.
  abbrev pub with_timeout : TimeoutMsg → Replica → Replica
  with_timeout t r = record r {
    timeouts = insert t.view (add_timeout t (timeouts_of t.view r)) r.timeouts;
  }

  added :
      (t : TimeoutMsg) (r : Replica)
      → env.impl.verify t.view_signature t.view ≡ true
      → IsCollected env.impl r
      → AreTimeouts env.impl t.view (add_timeout t (timeouts_of t.view r))
  unfolding timeouts_of
  added t r ok all = add_timeout-AreTimeouts env.impl t _ ok (all t.view)

  collect_timeout_lem :
      (t : TimeoutMsg) (r : Replica)
      → env.impl.verify t.view_signature t.view ≡ true
      → IsCollected env.impl r
      → (collect_timeout env t r ≡ with_timeout t r)
        ⊎ Formed t.view (with_timeout t r) (collect_timeout env t r)
  unfolding collect_timeout
  collect_timeout_lem t r ok all =
      let m = add_timeout t (timeouts_of t.view r) in
      elim (Bool-cases (ltb (length m) (quorum_size (length env.replicas)))) [
        | inl few ↦ inl (rw (few, collect_timeout))
        | inr enough ↦
            rw (enough, collect_timeout)
              (form_timeout_cert_lem t.view m (with_timeout t r) (added t r ok all) (ground arith))
      ]

  collect_timeout-IsCollected :
      (t : TimeoutMsg) (r : Replica)
      → env.impl.verify t.view_signature t.view ≡ true
      → IsCollected env.impl r
      → IsCollected env.impl (collect_timeout env t r)
  collect_timeout-IsCollected t r ok all =
      let stored = insert-IsCollected env.impl t.view _ r (added t r ok all) all in
      elim (collect_timeout_lem t r ok all) [
        | inl same ↦ subst (IsCollected env.impl) (sym same) stored
        | inr formed ↦ Formed-IsCollected stored formed
      ]

  -- `OnRemoteTimeout` keeps the collected timeouts: under each view at most one of each sender, each
  -- for this view and with a signature on it that the scheme accepts. A timeout whose signature the
  -- scheme refuses is not kept. After any other, the replica has gone through `AdvanceView` with the
  -- sync info of the message and then either it has only stored the message, unless there was one of
  -- its sender, or it has made a timeout certificate of at least a quorum of collected timeouts and
  -- gone through `AdvanceView` with it.
  pub on_remote_timeout_sound :
      (t : TimeoutMsg) (r : Replica)
      → IsCollected env.impl r
      → IsCollected env.impl (on_remote_timeout env t r)
        × (((env.impl.verify t.view_signature t.view ≡ false)
              × (on_remote_timeout env t r ≡ drop_old_timeouts r))
            ⊎ (let r1 = run_all env (advance_view_call t.sync_info) r in
                (s : Replica) × (on_remote_timeout env t r ≡ drop_old_timeouts s)
                × ((s ≡ with_timeout t r1) ⊎ Formed t.view (with_timeout t r1) s)))
  unfolding on_remote_timeout
  on_remote_timeout_sound t r all = elim (Bool-cases (env.impl.verify t.view_signature t.view)) [
    | inr refused ↦
        rw (refused, on_remote_timeout)
          (drop_old_timeouts-IsCollected env.impl r all, inl (refl, refl))
    | inl ok ↦
        let r1 = run_all env (advance_view_call t.sync_info) r in
        let all1 =
          Keeps-IsCollected env.impl (run_all-Keeps env (advance_view_call t.sync_info) r) all in
        rw (ok, on_remote_timeout)
          (
            drop_old_timeouts-IsCollected env.impl (collect_timeout env t r1)
                (collect_timeout-IsCollected t r1 ok all1),
            inr (collect_timeout env t r1, refl, collect_timeout_lem t r1 ok all1),
          )
  ]
