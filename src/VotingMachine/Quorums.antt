-- ===== src/VotingMachine/Quorums.antt =====
-- The votes that the voting machine (consensus/votingmachine.go) keeps, and when it makes a
-- certificate of them.
use mathlib.Core.Path.{subst}
use hotstuff_repbased_leader.Prelude.{
  ℕ, ◌≡◌, ◌≤◌, refl, Bool, true, false, none, some, Option, List, [], ◌∷◌, ◌++◌, arith,
  Option-cases, Bool-cases, inl, inr, ◌⊎◌, lookup, insert, delete, lookup-insert, lookup-delete,
  lookup-keep, eq_of_==, length, ltb, ◌==◌, if◌then◌else◌, All, All-append,
}
use hotstuff_repbased_leader.Types.{PartialCert, QuorumCert, Block, new_sync_info, with_qc}
use hotstuff_repbased_leader.Sizes.{quorum_size}
use hotstuff_repbased_leader.Crypto.Base.{verify_partial_cert, create_quorum_cert}
use hotstuff_repbased_leader.BlockChain.{local_get}
use hotstuff_repbased_leader.State.{add_new_view, Replica, Env}
use hotstuff_repbased_leader.Access.{emit}
use hotstuff_repbased_leader.VotingMachine.{
  votes_or_empty, newer, drop_old_votes, add_cert, verify_cert,
}

module _ (env : Env) where
  -- A vote for the block of a hash that the scheme accepts.
  abbrev pub IsVote : ℕ → PartialCert → Type 0
  IsVote h vote = (vote.block_hash ≡ h) × (verify_partial_cert env.sha256 env.impl vote ≡ true)

  -- The votes under each hash are verified votes for the block of that hash.
  abbrev pub IsVerified : Replica → Type 0
  IsVerified r = (h : ℕ) → All (IsVote h) (votes_or_empty (lookup h r.verified_votes))

  -- A certificate that was made: at least a quorum of verified votes for the block went into it.
  pub record Certified (block : Block) (hash : ℕ) (qc : QuorumCert) : Type 0 where
    pub votes : List PartialCert
    pub enough : quorum_size (length env.replicas) ≤ length votes
    pub all : All (IsVote hash) votes
    pub created : create_quorum_cert env.sha256 env.impl block votes ≡ some qc

All-if :
    (P : PartialCert → Type 0) (b : Bool) (x y : Option (List PartialCert))
    → (b ≡ true → All P (votes_or_empty x))
    → (b ≡ false → All P (votes_or_empty y))
    → All P (votes_or_empty (if b then x else y))
All-if P true x y hx hy = hx refl
All-if P false x y hx hy = hy refl

module _ (env : Env) where
  drop_old_votes-IsVerified : (r : Replica) → IsVerified env r → IsVerified env (drop_old_votes r)
  unfolding drop_old_votes
  drop_old_votes-IsVerified r all h =
      rw (lookup-keep (λ k. newer r.leaf_block.view (local_get k r.chain)) h r.verified_votes) (
        All-if (IsVote env h) (newer r.leaf_block.view (local_get h r.chain)) _ _ (λ _. all h)
          (λ _. tt))

  -- The votes with the new one.
  with-IsVote :
      (cert : PartialCert) (r : Replica)
      → IsVerified env r
      → verify_partial_cert env.sha256 env.impl cert ≡ true
      → All
          (IsVote env cert.block_hash)
          (votes_or_empty (lookup cert.block_hash r.verified_votes) ++ cert ∷ [])
  with-IsVote cert r all h =
      All-append (IsVote env cert.block_hash)
        (votes_or_empty (lookup cert.block_hash r.verified_votes)) (cert ∷ []) (all cert.block_hash)
        ((refl, h), tt)

  pub insert-IsVerified :
      (h : ℕ) (votes : List PartialCert) (r : Replica)
      → IsVerified env r
      → All (IsVote env h) votes
      → IsVerified env (record r { verified_votes = insert h votes r.verified_votes })
  insert-IsVerified h votes r all new j = rw (lookup-insert h j votes r.verified_votes) (
      All-if (IsVote env j) (h == j) (some votes) _
        (λ same. subst (λ j. All (IsVote env j) votes) (eq_of_== h j same) new) (λ _. all j))

  delete-IsVerified :
      (h : ℕ) (r : Replica)
      → IsVerified env r
      → IsVerified env (record r { verified_votes = delete h r.verified_votes })
  delete-IsVerified h r all j =
      rw (lookup-delete h j r.verified_votes)
        (All-if (IsVote env j) (h == j) none _ (λ _. tt) (λ _. all j))

  add_cert-IsVerified :
      (cert : PartialCert) (block : Block) (r : Replica)
      → IsVerified env r
      → verify_partial_cert env.sha256 env.impl cert ≡ true
      → IsVerified env (add_cert env cert block r)
  unfolding add_cert emit
  add_cert-IsVerified cert block r all h j =
      let votes = votes_or_empty (lookup cert.block_hash r.verified_votes) ++ cert ∷ [] in
      let r' = record r { verified_votes = insert cert.block_hash votes r.verified_votes } in
      let stored = insert-IsVerified cert.block_hash votes r all (with-IsVote cert r all h) in
      let cleared = delete-IsVerified cert.block_hash r' stored in
      elim (Option-cases (create_quorum_cert env.sha256 env.impl block votes)) [
        | inl failed ↦ ground (arith, stored j)
        | inr (qc, made) ↦ ground (arith, stored j, cleared j)
      ]

  -- What making a certificate announces.
  abbrev pub Announces : PartialCert → Block → Replica → Replica → Type 0
  Announces cert block r r' =
      (r'.trace ≡ r.trace)
      ⊎ ((qc : QuorumCert) × Certified env block cert.block_hash qc
          × (r'.trace
              ≡ add_new_view (record { id = env.id; sync_info = with_qc new_sync_info qc })
                ∷ r.trace))

  drop_old_votes-Announces :
      (cert : PartialCert) (block : Block) (r r' : Replica)
      → Announces cert block r r'
      → Announces cert block r (drop_old_votes r')
  unfolding drop_old_votes
  drop_old_votes-Announces cert block r r' h = h

  add_cert-Announces :
      (cert : PartialCert) (block : Block) (r : Replica)
      → IsVerified env r
      → verify_partial_cert env.sha256 env.impl cert ≡ true
      → Announces cert block r (add_cert env cert block r)
  unfolding add_cert emit
  add_cert-Announces cert block r all h =
      let votes = votes_or_empty (lookup cert.block_hash r.verified_votes) ++ cert ∷ [] in
      elim (Bool-cases (ltb (length votes) (quorum_size (length env.replicas)))) [
        | inl few ↦ inl (ground arith)
        | inr enough ↦ elim (Option-cases (create_quorum_cert env.sha256 env.impl block votes)) [
          | inl failed ↦ inl (ground arith)
          | inr (qc, made) ↦ inr (
            qc,
            record {
              votes = votes;
              enough = ground arith;
              all = with-IsVote cert r all h;
              created = made;
            },
            ground arith,
          )
        ]
      ]

  -- Verifying a vote keeps the stored votes verified, each under the hash of its block, and it either
  -- asks for nothing, or it announces one quorum certificate (as a new-view message of the
  -- replica itself), which was created from at least a quorum of verified votes for the hash that
  -- the vote names.
  pub verify_cert_sound :
      (cert : PartialCert) (block : Block) (r : Replica)
      → IsVerified env r
      → IsVerified env (verify_cert env cert block r)
        × Announces cert block r (verify_cert env cert block r)
  unfolding verify_cert
  verify_cert_sound cert block r all =
      elim (Bool-cases (verify_partial_cert env.sha256 env.impl cert)) [
        | inl valid ↦
            let checked : verify_cert env cert block r
                ≡ drop_old_votes (add_cert env cert block r) =
              ground arith in
            rw checked (
              drop_old_votes-IsVerified (add_cert env cert block r)
                  (add_cert-IsVerified cert block r all valid),
              drop_old_votes-Announces cert block r (add_cert env cert block r)
                  (add_cert-Announces cert block r all valid),
            )
        | inr invalid ↦ (λ j. ground (arith, all j), inl (ground arith))
      ]
