-- ===== src/Protostream.antt =====
-- internal/protostream/protostream.go: messages on a byte stream, each after its length. The
-- encoding of a message and of an `Any` are parameters. The destination is the bytes written so far
-- with the room that is left, the source the bytes still to come. Errors are kept as their kinds.
pub mod RoundTrip
use hotstuff_repbased_leader.Prelude.{
  ℕ, zero, suc, ◌⊎◌, inl, inr, ◌+◌, ◌-◌, ◌%◌, true, false, Option, none, some, List, [], ◌∷◌, ◌++◌,
  ltb, length,
}
use hotstuff_repbased_leader.Types.{le_bytes}
use hotstuff_repbased_leader.Hotstuffpb.Bytes.{le_value}

pub data StreamError : Type 0 where
  any_failed marshal_failed write_length_failed write_failed : StreamError
  read_length_failed too_long read_failed unmarshal_failed any_unmarshal_failed : StreamError

-- An `io.Writer` that takes `room` more bytes: a longer write is cut off and is an error.
pub record Dest : Type 0 where
  pub written : List ℕ
  pub room : ℕ

-- The first `n` bytes.
unfoldable pub take : ℕ → List ℕ → List ℕ
take zero bs = []
take (suc n) [] = []
take (suc n) (b ∷ bs) = b ∷ take n bs

unfoldable pub write_bytes : List ℕ → Dest → Dest × Option StreamError
unfolding take
write_bytes bs dest = elim (ltb dest.room (length bs)) [
  | true ↦ (record { written = dest.written ++ take dest.room bs; room = 0 }, some write_failed)
  | false ↦ (record { written = dest.written ++ bs; room = dest.room - length bs }, none)
]

-- `io.ReadFull` into `n` bytes: what was read, or none if the stream ends before; and what is left.
unfoldable pub read_full : ℕ → List ℕ → Option (List ℕ) × List ℕ
read_full zero src = (some [], src)
read_full (suc n) [] = (none, [])
read_full (suc n) (b ∷ src) =
    let (got, rest) = read_full n src in (elim got [ none ↦ none | some bs ↦ some (b ∷ bs) ], rest)

module _ (Message : Type 0) (marshal : Message → Option (List ℕ)) where
  -- `Write` after `Marshal`: the length as a uint32, then the bytes.
  unfoldable pub write_frame : List ℕ → Dest → Dest × Option StreamError
  write_frame buf dest =
      let (dest', failed) = write_bytes (le_bytes 4 (length buf % 4294967296)) dest in
      elim failed [ some _ ↦ (dest', some write_length_failed) | none ↦ write_bytes buf dest' ]

  unfoldable pub write : Message → Dest → Dest × Option StreamError
  write msg dest = elim (marshal msg) [
    | none ↦ (dest, some marshal_failed)
    | some buf ↦ write_frame buf dest
  ]

module _ (Message : Type 0) (unmarshal : List ℕ → Option Message) where
  -- `Read` after the length.
  unfoldable pub read_message : ℕ → List ℕ → (Message ⊎ StreamError) × List ℕ
  unfolding read_full
  read_message n src = elim (ltb 2147483648 n) [
    | true ↦ (inr too_long, src)
    | false ↦
        let (got, rest) = read_full n src in
        elim got [
          | none ↦ (inr read_failed, rest)
          | some buf ↦ elim (unmarshal buf) [
            | none ↦ (inr unmarshal_failed, rest)
            | some msg ↦ (inl msg, rest)
          ]
        ]
  ]

  unfoldable pub read : List ℕ → (Message ⊎ StreamError) × List ℕ
  read src =
      let (got, rest) = read_full 4 src in
      elim got [
        | none ↦ (inr read_length_failed, rest)
        | some bytes ↦ read_message (le_value 4 bytes) rest
      ]

-- Messages wrapped in an `Any`.
module _ (Message Any : Type 0) where
  unfoldable pub write_any :
      (Message → Option Any) → (Any → Option (List ℕ)) → Message → Dest → Dest × Option StreamError
  unfolding write
  write_any new marshal msg dest = elim (new msg) [
    | none ↦ (dest, some any_failed)
    | some any ↦ write Any marshal any dest
  ]

  unfoldable pub read_any :
      (List ℕ → Option Any) → (Any → Option Message) → List ℕ → (Message ⊎ StreamError) × List ℕ
  unfolding read
  read_any unmarshal unmarshal_new src =
      let (got, rest) = read Any unmarshal src in
      elim got [
        | inr failed ↦ (inr failed, rest)
        | inl any ↦ elim (unmarshal_new any) [
          | none ↦ (inr any_unmarshal_failed, rest)
          | some msg ↦ (inl msg, rest)
        ]
      ]
