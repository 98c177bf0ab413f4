-- ===== src/CmdCache.antt =====
-- replica/cmdcache.go: the queue of client commands, which is also the acceptor, and the waiting
-- commands of replica/clientsrv.go. The encoding of batches (protobuf) is a parameter. The counter
-- of a client is 0 while its map has no entry.
pub mod Batches
use hotstuff_repbased_leader.Prelude.{
  ℕ, zero, suc, Bool, true, false, Option, none, some, List, [], ◌∷◌, ◌++◌, leb, ltb, if◌then◌else◌,
  Dict, lookup, insert, length,
}

-- `clientpb.Command`.
pub record ClientCommand : Type 0 where
  pub client_id : ℕ
  pub sequence_number : ℕ
  pub payload : List ℕ

pub record CmdCache : Type 0 where
  pub batch_size : ℕ
  pub serial_numbers : Dict ℕ
  pub cache : List ClientCommand

unfoldable pub new_cmd_cache : ℕ → CmdCache
new_cmd_cache batch_size = record { batch_size = batch_size; serial_numbers = []; cache = [] }

abbrev pub or_zero : Option ℕ → ℕ
or_zero none = 0
or_zero (some n) = n

-- `c.serialNumbers[id]`.
unfoldable pub serial_no : Dict ℕ → ℕ → ℕ
serial_no serials id = or_zero (lookup id serials)

unfoldable pub is_old : Dict ℕ → ClientCommand → Bool
unfolding serial_no
is_old serials cmd = leb cmd.sequence_number (serial_no serials cmd.client_id)

-- `addCommand`: the new state, and whether `Get` is notified.
unfoldable pub add_command : ClientCommand → CmdCache → CmdCache × Bool
unfolding is_old
add_command cmd c =
    if is_old c.serial_numbers cmd
    then (c, false)
    else let cache' = c.cache ++ cmd ∷ [] in
      (record c { cache = cache' }, leb c.batch_size (length cache'))

-- The loop that fills a batch: `n` commands are still wanted. It stops on an empty queue, and a
-- command that is too old does not count. The batch, and what stays in the queue.
unfoldable pub take_batch :
    Dict ℕ → ℕ → List ClientCommand → List ClientCommand × List ClientCommand
unfolding is_old
take_batch serials zero queue = ([], queue)
take_batch serials (suc n) [] = ([], [])
take_batch serials (suc n) (cmd ∷ queue) = elim (is_old serials cmd) [
  | true ↦ take_batch serials (suc n) queue
  | false ↦ let (batch, rest) = take_batch serials n queue in (cmd ∷ batch, rest)
]

abbrev pub add_all : List ClientCommand → CmdCache → CmdCache
add_all [] c = c
add_all (cmd ∷ cmds) c = add_all cmds (add_command cmd c).0

-- The body of `Get`: the test on the length, then the batch. `wait` is what the code does at the
-- test when the queue is too short, and after a batch with no command in it, when the queue is empty.
unfoldable pub attempt :
    (List ClientCommand → Option (List ℕ))
    → (CmdCache → CmdCache × Option (List ℕ))
    → CmdCache
    → CmdCache × Option (List ℕ)
unfolding take_batch
attempt marshal wait c = elim (leb (length c.cache) c.batch_size) [
  | true ↦ wait c
  | false ↦
      let (batch, rest) = take_batch c.serial_numbers c.batch_size c.cache in
      elim batch [
        | [] ↦ wait (record c { cache = rest })
        | cmd ∷ cmds ↦ (record c { cache = rest }, marshal (cmd ∷ cmds))
      ]
]

-- `Get`. Each entry of `wakes` is a signal on the channel, with the commands that arrive before
-- it; after the last one the context is done.
unfoldable pub get_batch :
    (List ClientCommand → Option (List ℕ))
    → List (List ClientCommand)
    → CmdCache
    → CmdCache × Option (List ℕ)
unfolding attempt add_command
get_batch marshal [] c = attempt marshal (λ c'. (c', none)) c
get_batch marshal (w ∷ ws) c = attempt marshal (λ c'. get_batch marshal ws (add_all w c')) c

-- The loop of `Accept`.
unfoldable pub none_old : Dict ℕ → List ClientCommand → Bool
unfolding is_old
none_old serials [] = true
none_old serials (cmd ∷ cmds) = if is_old serials cmd then false else none_old serials cmds

-- The loop of `Proposed`.
unfoldable pub raise_serials : List ClientCommand → Dict ℕ → Dict ℕ
raise_serials [] serials = serials
raise_serials (cmd ∷ cmds) serials = raise_serials cmds (
    if ltb (serial_no serials cmd.client_id) cmd.sequence_number
    then insert cmd.client_id cmd.sequence_number serials
    else serials)

module _ (unmarshal : List ℕ → Option (List ClientCommand)) where
  unfoldable pub accept : List ℕ → CmdCache → Bool
  unfolding none_old
  accept cmd c = elim (unmarshal cmd) [
    | none ↦ false
    | some batch ↦ none_old c.serial_numbers batch
  ]

  unfoldable pub proposed : List ℕ → CmdCache → CmdCache
  proposed cmd c = elim (unmarshal cmd) [
    | none ↦ c
    | some batch ↦ record c { serial_numbers = raise_serials batch c.serial_numbers }
  ]
