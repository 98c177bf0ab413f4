-- ===== src/Tests/Setup.antt =====
-- A hash function, a signature scheme, blocks and a configuration of four replicas for the tests.
use hotstuff_repbased_leader.Prelude.{
  ℕ, ◌+◌, ◌*◌, ◌%◌, Bool, false, Option, none, some, List, [], ◌∷◌, ◌==◌,
}
use hotstuff_repbased_leader.Types.{
  EcdsaSignature, Signature, ecdsa, bls12, ThresholdSignature, ecdsa_set, QuorumCert, Block,
  ProposeMsg, new_block, genesis,
}
use hotstuff_repbased_leader.Crypto.Base.{CryptoImpl}
use hotstuff_repbased_leader.Crypto.Ecdsa.{
  Outcome, signature_set, failed, create_threshold_signature, verify_threshold_signature,
}
use hotstuff_repbased_leader.BlockChain.{Chain, FetchOutcome, network_error}
use hotstuff_repbased_leader.BlockChain
use hotstuff_repbased_leader.CmdCache.{ClientCommand}
use hotstuff_repbased_leader.State.{Env, chained_hotstuff, honest}

abbrev pub digest : List ℕ → ℕ
digest [] = 7
digest (x ∷ xs) = (x + 31 * digest xs) % 65537

abbrev pub registered : Signature → ℕ → Bool
registered (ecdsa s) hash = s.r == hash
registered (bls12 s) hash = false

abbrev present : List (Option Signature) → List Signature
present [] = []
present (none ∷ ss) = present ss
present (some s ∷ ss) = s ∷ present ss

abbrev result_of : Outcome → Option ThresholdSignature
result_of (signature_set sigs) = some (ecdsa_set sigs)
result_of (failed errors) = none

abbrev verify_one : Option Signature → ℕ → Bool
verify_one none hash = false
verify_one (some s) hash = registered s hash

abbrev pub signed_by : ℕ → ℕ → EcdsaSignature
signed_by id hash = record { r = hash; s = 1; signer = id }

abbrev pub impl : CryptoImpl
impl = record {
  sign = λ hash. some (ecdsa (signed_by 1 hash));
  verify = verify_one;
  create_threshold_signature =
      λ sigs hash. result_of (create_threshold_signature registered 3 (present sigs) hash);
  create_threshold_signature_for_message_set = λ sigs hashes. none;
  verify_threshold_signature = λ sig hash. verify_threshold_signature registered 3 sig hash;
  verify_threshold_signature_for_message_set = λ sig hashes. false;
}

-- A batch is encoded as the list of its sequence numbers, all of one client.
abbrev pub marshal : List ClientCommand → Option (List ℕ)
marshal [] = some []
marshal (cmd ∷ cmds) = elim (marshal cmds) [
  | none ↦ none
  | some ns ↦ some (cmd.sequence_number ∷ ns)
]

abbrev pub command : ℕ → ClientCommand
command n = record { client_id = 5; sequence_number = n; payload = n ∷ [] }

abbrev pub unmarshal : List ℕ → Option (List ClientCommand)
unmarshal [] = some []
unmarshal (n ∷ ns) = elim (unmarshal ns) [ none ↦ none | some cmds ↦ some (command n ∷ cmds) ]

abbrev pub env : Env
env = record {
  id = 1;
  sha256 = digest;
  impl = impl;
  protocol = chained_hotstuff;
  proposer = honest;
  replicas = 1 ∷ 2 ∷ 3 ∷ 4 ∷ [];
  fetch = λ h. network_error;
  get_leader = λ r view. 2;
  wakes = λ r. [];
  marshal = marshal;
  unmarshal = unmarshal;
  fuel = 50;
}

abbrev pub root : Block
root = genesis digest

-- A certificate of the replicas 1, 2 and 3.
abbrev pub certify : Block → QuorumCert
certify b = record {
  signature = some (
      ecdsa_set ((1, signed_by 1 b.hash) ∷ (2, signed_by 2 b.hash) ∷ (3, signed_by 3 b.hash) ∷ []));
  view = b.view;
  hash = b.hash;
}

abbrev pub child : Block → ℕ → Block
child b view = new_block digest b.hash (certify b) (view ∷ []) view 2

abbrev pub b1 : Block
b1 = child root 1

abbrev pub b2 : Block
b2 = child b1 2

abbrev pub b3 : Block
b3 = child b2 3

abbrev pub b4 : Block
b4 = child b3 4

abbrev pub chain : Chain
chain = BlockChain.store b3 (BlockChain.store b2 (BlockChain.store b1 (BlockChain.new digest)))

abbrev pub proposal_of : Block → ProposeMsg
proposal_of b = record { id = 2; block = b; aggregate_qc = none }
