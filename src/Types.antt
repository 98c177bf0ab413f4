-- ===== src/Types.antt =====
-- consensus/types.go, block.go, events.go and genesis.go: the data that the modules exchange.
-- A `View` and a `Hash` are numbers: a hash is its 32 bytes read in little endian, so that
-- `View.ToHash` is the view itself. A command is its bytes. A nil pointer or interface is `none`.
use hotstuff_repbased_leader.Prelude.{
  ℕ, zero, suc, ◌+◌, ◌/◌, ◌%◌, Bool, true, false, ◌&&◌, Option, none, some, List, [], ◌∷◌, ◌++◌,
  map, Dict, ltb, ◌==◌, if◌then◌else◌,
}
use hotstuff_repbased_leader.Crypto.Bitfield.{Bitfield, for_each}

-- `binary.LittleEndian.PutUint32` and `PutUint64`: the lowest `n` bytes.
unfoldable pub le_bytes : ℕ → ℕ → List ℕ
le_bytes zero x = []
le_bytes (suc n) x = x % 256 ∷ le_bytes n (x / 256)

-- `big.Int.Bytes`: big endian, with no leading zero. The number itself is fuel enough.
unfoldable pub be_bytes : ℕ → ℕ → List ℕ
be_bytes zero x = []
be_bytes (suc n) x = elim (x == 0) [ true ↦ [] | false ↦ be_bytes n (x / 256) ++ x % 256 ∷ [] ]

-- `v + 1` on a uint64.
abbrev pub next_view : ℕ → ℕ
next_view v = (v + 1) % 18446744073709551616

pub record EcdsaSignature : Type 0 where
  pub r : ℕ
  pub s : ℕ
  pub signer : ℕ

pub record Bls12Signature : Type 0 where
  pub signer : ℕ
  pub point : List ℕ

-- The implementations of `consensus.Signature`.
pub data Signature : Type 0 where
  ecdsa : EcdsaSignature → Signature
  bls12 : Bls12Signature → Signature

unfoldable pub signer : Signature → ℕ
signer (ecdsa s) = s.signer
signer (bls12 s) = s.signer

unfoldable pub ecdsa_bytes : EcdsaSignature → List ℕ
unfolding be_bytes
ecdsa_bytes s = be_bytes s.r s.r ++ be_bytes s.s s.s

unfoldable pub signature_bytes : Signature → List ℕ
unfolding ecdsa_bytes le_bytes
signature_bytes (ecdsa s) = ecdsa_bytes s
signature_bytes (bls12 s) = le_bytes 4 s.signer ++ s.point

-- The implementations of `consensus.ThresholdSignature`: a map of signatures by signer, or an
-- aggregated point with the bitfield of its participants.
pub data ThresholdSignature : Type 0 where
  ecdsa_set : Dict EcdsaSignature → ThresholdSignature
  aggregate : List ℕ → Bitfield → ThresholdSignature

-- The step of the sort in `ThresholdSignature.ToBytes`: before the first signer that is greater.
unfoldable pub insert_by_signer : EcdsaSignature → List EcdsaSignature → List EcdsaSignature
insert_by_signer s [] = s ∷ []
insert_by_signer s (t ∷ ts) =
    if ltb s.signer t.signer then s ∷ t ∷ ts else t ∷ insert_by_signer s ts

unfoldable pub sort_by_signer : Dict EcdsaSignature → List EcdsaSignature → List EcdsaSignature
unfolding insert_by_signer
sort_by_signer [] order = order
sort_by_signer ((_, s) ∷ sigs) order = sort_by_signer sigs (insert_by_signer s order)

abbrev pub concat_bytes : List EcdsaSignature → List ℕ
concat_bytes [] = []
concat_bytes (s ∷ order) = ecdsa_bytes s ++ concat_bytes order

unfoldable pub threshold_bytes : ThresholdSignature → List ℕ
unfolding sort_by_signer ecdsa_bytes
threshold_bytes (ecdsa_set sigs) = concat_bytes (sort_by_signer sigs [])
threshold_bytes (aggregate sig _) = sig

-- `Participants().ForEach`: the IDs in the order in which the callback sees them.
unfoldable pub participants : ThresholdSignature → List ℕ
unfolding for_each
participants (ecdsa_set sigs) = map (λ e. e.0) sigs
participants (aggregate _ bm) = for_each bm

pub record PartialCert : Type 0 where
  pub signature : Option Signature
  pub block_hash : ℕ

pub record QuorumCert : Type 0 where
  pub signature : Option ThresholdSignature
  pub view : ℕ
  pub hash : ℕ

abbrev pub optional_bytes : Option ThresholdSignature → List ℕ
optional_bytes none = []
optional_bytes (some sig) = threshold_bytes sig

unfoldable pub qc_bytes : QuorumCert → List ℕ
unfolding le_bytes threshold_bytes
qc_bytes qc = le_bytes 8 qc.view ++ (le_bytes 32 qc.hash ++ optional_bytes qc.signature)

abbrev pub bytes_equal : List ℕ → List ℕ → Bool
bytes_equal [] [] = true
bytes_equal (x ∷ xs) (y ∷ ys) = x == y && bytes_equal xs ys
bytes_equal _ _ = false

unfoldable pub signatures_equal : Option ThresholdSignature → Option ThresholdSignature → Bool
unfolding threshold_bytes
signatures_equal none none = true
signatures_equal (some s) (some t) = bytes_equal (threshold_bytes s) (threshold_bytes t)
signatures_equal _ _ = false

-- `QuorumCert.Equals`.
unfoldable pub equals : QuorumCert → QuorumCert → Bool
unfolding signatures_equal
equals qc other =
    qc.view == other.view
    && (qc.hash == other.hash && signatures_equal qc.signature other.signature)

-- `QuorumCert{}`.
abbrev pub zero_qc : QuorumCert
zero_qc = record { signature = none; view = 0; hash = 0 }

pub record TimeoutCert : Type 0 where
  pub signature : Option ThresholdSignature
  pub view : ℕ

-- The map of certificates is kept in the order in which a `range` over it runs.
pub record AggregateQc : Type 0 where
  pub qcs : Dict QuorumCert
  pub sig : Option ThresholdSignature
  pub view : ℕ

pub record SyncInfo : Type 0 where
  pub qc : Option QuorumCert
  pub tc : Option TimeoutCert
  pub agg_qc : Option AggregateQc

unfoldable pub new_sync_info : SyncInfo
new_sync_info = record { qc = none; tc = none; agg_qc = none }

unfoldable pub with_qc : SyncInfo → QuorumCert → SyncInfo
with_qc si qc = record si { qc = some qc }

unfoldable pub with_tc : SyncInfo → TimeoutCert → SyncInfo
with_tc si tc = record si { tc = some tc }

unfoldable pub with_agg_qc : SyncInfo → AggregateQc → SyncInfo
with_agg_qc si agg_qc = record si { agg_qc = some agg_qc }

pub record Block : Type 0 where
  pub hash : ℕ
  pub parent : ℕ
  pub proposer : ℕ
  pub cmd : List ℕ
  pub cert : QuorumCert
  pub view : ℕ

unfoldable pub block_bytes : Block → List ℕ
unfolding le_bytes qc_bytes
block_bytes b =
    le_bytes 32 b.parent
    ++ (le_bytes 4 b.proposer ++ (le_bytes 8 b.view ++ (b.cmd ++ qc_bytes b.cert)))

-- `NewBlock`, over the hash function that it calls.
unfoldable pub new_block : (List ℕ → ℕ) → ℕ → QuorumCert → List ℕ → ℕ → ℕ → Block
unfolding block_bytes
new_block sha256 parent cert cmd view proposer =
    let b =
      let unhashed : Block = record {
        hash = 0;
        parent = parent;
        proposer = proposer;
        cmd = cmd;
        cert = cert;
        view = view;
      } in
      unhashed in
    record b { hash = sha256 (block_bytes b) }

-- `GetGenesis`.
unfoldable pub genesis : (List ℕ → ℕ) → Block
unfolding new_block
genesis sha256 = new_block sha256 0 zero_qc [] 0 0

pub record ProposeMsg : Type 0 where
  pub id : ℕ
  pub block : Block
  pub aggregate_qc : Option AggregateQc

pub record VoteMsg : Type 0 where
  pub id : ℕ
  pub partial_cert : PartialCert
  pub deferred : Bool

pub record TimeoutMsg : Type 0 where
  pub id : ℕ
  pub view : ℕ
  pub view_signature : Option Signature
  pub msg_signature : Option Signature
  pub sync_info : SyncInfo

abbrev qc_hash_bytes : Option QuorumCert → List ℕ
qc_hash_bytes none = []
qc_hash_bytes (some qc) = le_bytes 32 qc.hash

-- `TimeoutMsg.Hash`.
unfoldable pub timeout_hash : (List ℕ → ℕ) → TimeoutMsg → ℕ
unfolding le_bytes
timeout_hash sha256 t =
    sha256 (le_bytes 8 t.view ++ (qc_hash_bytes t.sync_info.qc ++ le_bytes 4 t.id))

pub record NewViewMsg : Type 0 where
  pub id : ℕ
  pub sync_info : SyncInfo
