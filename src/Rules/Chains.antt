-- ===== src/Rules/Chains.antt =====
-- What the commit rules of the three protocols demand before they name a block.
use hotstuff_repbased_leader.Prelude.{ℕ, ◌+◌, ◌%◌, ◌≡◌, ◌≢◌, some, arith, Option-cases, inl, inr}
use hotstuff_repbased_leader.Types.{Block, QuorumCert, next_view}
use hotstuff_repbased_leader.BlockChain.Lookups.{block_at, get-found, get-keeps}
use hotstuff_repbased_leader.State.{Replica, Env}
use hotstuff_repbased_leader.Access.{get_block}
use hotstuff_repbased_leader.HighQc.{update_high_qc}
use hotstuff_repbased_leader.Rules.{
  qc_ref, chained_decide, chained_commit_rule, fast_commit_rule, lock_higher, simple_commit_rule,
  simple_decide,
}

module _ (env : Env) where
  -- `Get` on a replica: what it returns is stored, and what was stored stays.

  pub get_block-found :
      (h : ℕ) (r : Replica) {b : Block}
      → (get_block env h r).1 ≡ some b
      → block_at h (get_block env h r).0.chain ≡ some b
  unfolding get_block
  get_block-found h r found = get-found env.sha256 env.fetch h r.chain found

  pub get_block-keeps :
      (h k : ℕ) (r : Replica) {b : Block}
      → block_at k r.chain ≡ some b
      → block_at k (get_block env h r).0.chain ≡ some b
  unfolding get_block
  get_block-keeps h k r found = get-keeps env.sha256 env.fetch h k r.chain found

  -- The certificates of the three blocks form a chain in the store.
  pub record ThreeChain (r : Replica) (block block1 block2 block3 : Block) : Type 0 where
    pub certifies1 : block_at block.cert.hash r.chain ≡ some block1
    pub certifies2 : block_at block1.cert.hash r.chain ≡ some block2
    pub certifies3 : block_at block2.cert.hash r.chain ≡ some block3
    pub parent1 : block1.parent ≡ block2.hash
    pub parent2 : block2.parent ≡ block3.hash

  qc_ref-found :
      (qc : QuorumCert) (r : Replica) {b : Block}
      → (qc_ref env qc r).1 ≡ some b
      → (qc.hash ≢ 0) × (block_at qc.hash (qc_ref env qc r).0.chain ≡ some b)
  unfolding qc_ref
  qc_ref-found qc r {b} found = ground (arith, get_block-found qc.hash r {b = b})

  qc_ref-keeps :
      (qc : QuorumCert) (k : ℕ) (r : Replica) {b : Block}
      → block_at k r.chain ≡ some b
      → block_at k (qc_ref env qc r).0.chain ≡ some b
  unfolding qc_ref
  qc_ref-keeps qc k r {b} found = ground (arith, get_block-keeps qc.hash k r found)

  chained_decide-keeps :
      (block1 block2 : Block) (k : ℕ) (r : Replica) {b : Block}
      → block_at k r.chain ≡ some b
      → block_at k (chained_decide env block1 block2 r).0.chain ≡ some b
  unfolding chained_decide
  chained_decide-keeps block1 block2 k r {b} found =
      let kept : block_at k (lock_higher block2 r).chain ≡ some b = ground arith in
      ground (arith, qc_ref-keeps block2.cert k (lock_higher block2 r) kept)

  chained_decide_lem :
      (block1 block2 : Block) (r : Replica) {b : Block}
      → (chained_decide env block1 block2 r).1 ≡ some b
      → (block1.parent ≡ block2.hash)
        × (block2.parent ≡ b.hash)
        × (block_at block2.cert.hash (chained_decide env block1 block2 r).0.chain ≡ some b)
  unfolding chained_decide
  chained_decide_lem block1 block2 r {b} h =
      elim (Option-cases (qc_ref env block2.cert (lock_higher block2 r)).1) [
        | inl missing ↦ ground arith
        | inr (block3, found) ↦
            ground (arith, qc_ref-found block2.cert (lock_higher block2 r) found)
      ]

  -- ChainedHotStuff decides a block only if, in the chain as it is afterwards, it is certified by
  -- the certificate in a second block, that one by the certificate in a first, and the first by the
  -- certificate in the block at hand, and if the second is the parent of the first and the decided
  -- block has the hash of the second's parent.
  pub chained_commit_rule_sound :
      (block : Block) (r : Replica) {b : Block}
      → (chained_commit_rule env block r).1 ≡ some b
      → (block1 : Block) × (block2 : Block) × ThreeChain
          (chained_commit_rule env block r).0
          block
          block1
          block2
          b
  unfolding chained_commit_rule
  chained_commit_rule_sound block r {b} h =
      let raised = update_high_qc env block.cert r in
      elim (Option-cases (qc_ref env block.cert raised).1) [
        | inl missing ↦ ground arith
        | inr (block1, found1) ↦
            let r1 = (qc_ref env block.cert raised).0 in
            let at1 = qc_ref-found block.cert raised found1 in
            elim (Option-cases (qc_ref env block1.cert r1).1) [
              | inl missing ↦ ground arith
              | inr (block2, found2) ↦
                  let r2 = (qc_ref env block1.cert r1).0 in
                  let at2 = qc_ref-found block1.cert r1 found2 in
                  let at1' = qc_ref-keeps block1.cert block.cert.hash r1 at1.1 in
                  let decided : (chained_decide env block1 block2 r2).1 ≡ some b = ground arith in
                  let last = chained_decide_lem block1 block2 r2 decided in
                  let keep1 = chained_decide-keeps block1 block2 block.cert.hash r2 at1' in
                  let keep2 = chained_decide-keeps block1 block2 block1.cert.hash r2 at2.1 in
                  (block1, block2, ground arith)
            ]
      ]

  -- FastHotStuff decides a block only if, in the chain as it is afterwards, it is certified by the
  -- certificate in a block that the certificate in the block at hand certifies, each is named as the
  -- parent by the next, and the three views are consecutive.
  pub fast_commit_rule_sound :
      (block : Block) (r : Replica) {b : Block}
      → (fast_commit_rule env block r).1 ≡ some b
      → let chain = (fast_commit_rule env block r).0.chain in
        (parent : Block) × (block_at block.cert.hash chain ≡ some parent)
        × (block_at parent.cert.hash chain ≡ some b)
        × (block.parent ≡ parent.hash)
        × (parent.parent ≡ b.hash)
        × (block.view ≡ next_view parent.view)
        × (parent.view ≡ next_view b.view)
  unfolding fast_commit_rule
  fast_commit_rule_sound block r {b} h = elim (Option-cases (qc_ref env block.cert r).1) [
    | inl missing ↦ ground arith
    | inr (parent, found1) ↦
        let r1 = (qc_ref env block.cert r).0 in
        let at1 = qc_ref-found block.cert r found1 in
        elim (Option-cases (qc_ref env parent.cert r1).1) [
          | inl missing ↦ ground arith
          | inr (grandparent, found2) ↦
              let at2 = qc_ref-found parent.cert r1 found2 in
              let at1' = qc_ref-keeps parent.cert block.cert.hash r1 at1.1 in
              (
                parent,
                ground arith,
                ground arith,
                ground arith,
                ground arith,
                ground arith,
                ground arith,
              )
        ]
  ]

  simple_decide-keeps :
      (p gp : Block) (k : ℕ) (r : Replica) {b : Block}
      → block_at k r.chain ≡ some b
      → block_at k (simple_decide env p gp r).0.chain ≡ some b
  unfolding simple_decide
  simple_decide-keeps p gp k r {b} found =
      let kept : block_at k (lock_higher gp r).chain ≡ some b = ground arith in
      ground (arith, get_block-keeps gp.cert.hash k (lock_higher gp r) kept)

  simple_decide_lem :
      (p gp : Block) (r : Replica) {b : Block}
      → (simple_decide env p gp r).1 ≡ some b
      → (block_at gp.cert.hash (simple_decide env p gp r).0.chain ≡ some b)
        × ((b.view + 2) % 18446744073709551616 ≡ p.view)
  unfolding simple_decide
  simple_decide_lem p gp r {b} h =
      elim (Option-cases (get_block env gp.cert.hash (lock_higher gp r)).1) [
        | inl missing ↦ ground arith
        | inr (ggp, found) ↦ ground (arith, get_block-found gp.cert.hash (lock_higher gp r) found)
      ]

  -- SimpleHotStuff decides a block only if, in the chain as it is afterwards, three certificates
  -- lead to it from the block at hand, and the view of the first of the three certified blocks is
  -- the decided view plus two.
  pub simple_commit_rule_sound :
      (block : Block) (r : Replica) {b : Block}
      → (simple_commit_rule env block r).1 ≡ some b
      → let chain = (simple_commit_rule env block r).0.chain in
        (p : Block) × (gp : Block) × (block_at block.cert.hash chain ≡ some p)
        × (block_at p.cert.hash chain ≡ some gp)
        × (block_at gp.cert.hash chain ≡ some b)
        × ((b.view + 2) % 18446744073709551616 ≡ p.view)
  unfolding simple_commit_rule
  simple_commit_rule_sound block r {b} h = elim (Option-cases (get_block env block.cert.hash r).1) [
    | inl missing ↦ ground arith
    | inr (p, found1) ↦
        let r1 = (get_block env block.cert.hash r).0 in
        let at1 = get_block-found block.cert.hash r found1 in
        elim (Option-cases (get_block env p.cert.hash r1).1) [
          | inl missing ↦ ground arith
          | inr (gp, found2) ↦
              let r2 = (get_block env p.cert.hash r1).0 in
              let at2 = get_block-found p.cert.hash r1 found2 in
              let at1' = get_block-keeps p.cert.hash block.cert.hash r1 at1 in
              let decided : (simple_decide env p gp r2).1 ≡ some b = ground arith in
              let last = simple_decide_lem p gp r2 decided in
              let keep1 = simple_decide-keeps p gp block.cert.hash r2 at1' in
              let keep2 = simple_decide-keeps p gp p.cert.hash r2 at2 in
              (p, gp, ground arith, ground arith, ground arith, ground arith)
        ]
  ]
