-- ===== src/Protostream/RoundTrip.antt =====
-- Reading back what was written, in internal/protostream/protostream.go, and reading what was cut
-- off or is too long.
use mathlib.Core.List.{append-nil, append_assoc}
use hotstuff_repbased_leader.Prelude.{
  ℕ, zero, suc, ◌+◌, ◌-◌, ◌%◌, ◌/◌, ◌≤◌, ◌<◌, ◌≡◌, ◌⊎◌, inl, inr, refl, ap, ◌∙◌, Option, none, some,
  List, [], ◌∷◌, ◌++◌, length, length-append, arith,
}
use hotstuff_repbased_leader.Types.{le_bytes}
use hotstuff_repbased_leader.Hotstuffpb.Bytes.{le_value, le_value-le_bytes}
use hotstuff_repbased_leader.Protostream.{
  Dest, read_length_failed, too_long, read_failed, write_bytes, write_frame, write, read_full,
  read_message, read,
}

read_full-append : (bs rest : List ℕ) → read_full (length bs) (bs ++ rest) ≡ (some bs, rest)
unfolding read_full
read_full-append [] rest = refl
read_full-append (b ∷ bs) rest = ground (arith, read_full-append bs rest)

read_full_short : (n : ℕ) (src : List ℕ) → length src < n → read_full n src ≡ (none, [])
unfolding read_full
read_full_short zero src h = elim h [ ]
read_full_short (suc n) [] h = refl
read_full_short (suc n) (b ∷ src) h = ground (arith, read_full_short n src)

-- What `Write` puts on the stream for a message of these bytes.
abbrev pub frame : List ℕ → List ℕ
frame buf = le_bytes 4 (length buf % 4294967296) ++ buf

module _ (Message : Type 0) (marshal : Message → Option (List ℕ)) where
  write_bytes_fits :
      (bs : List ℕ) (dest : Dest)
      → length bs ≤ dest.room
      → write_bytes bs dest
        ≡ (record { written = dest.written ++ bs; room = dest.room - length bs }, none)
  unfolding write_bytes
  write_bytes_fits bs dest h = ground arith

  length-le_bytes : (n x : ℕ) → length (le_bytes n x) ≡ n
  unfolding le_bytes
  length-le_bytes zero x = refl
  length-le_bytes (suc n) x = omega (arith, length-le_bytes n (x / 256))

  two_writes :
      (front back : List ℕ) (dest : Dest)
      → length back + length front ≤ dest.room
      → ((write_bytes front dest).1 ≡ none)
        × (write_bytes back (write_bytes front dest).0 ≡ (
          record {
            written = dest.written ++ (front ++ back);
            room = dest.room - length front - length back;
          },
          none,
        ))
  unfolding write_bytes
  two_writes front back dest h = ground (arith, append_assoc dest.written front back)

  pub write_lem :
      (msg : Message) (buf : List ℕ) (dest : Dest)
      → marshal msg ≡ some buf
      → length buf + 4 ≤ dest.room
      → (room : ℕ) × (write Message marshal msg dest
          ≡ (record { written = dest.written ++ frame buf; room = room }, none))
  unfolding write write_frame le_bytes
  write_lem msg buf dest coded fits = (
    dest.room - 4 - length buf,
    ground (arith, two_writes (le_bytes 4 (length buf % 4294967296)) buf dest fits),
  )

module _ (Message : Type 0) (unmarshal : List ℕ → Option Message) where
  read_step :
      (bytes src rest : List ℕ)
      → read_full 4 src ≡ (some bytes, rest)
      → read Message unmarshal src ≡ read_message Message unmarshal (le_value 4 bytes) rest
  unfolding read
  read_step bytes src rest h = ground arith

  pub read-frame :
      (buf rest : List ℕ)
      → length buf < 4294967296
      → read Message unmarshal (frame buf ++ rest)
        ≡ read_message Message unmarshal (length buf) (buf ++ rest)
  unfolding le_bytes
  read-frame buf rest h =
      let n = length buf % 4294967296 in
      read_step (le_bytes 4 n) (frame buf ++ rest) (buf ++ rest)
        (read_full-append (le_bytes 4 n) (buf ++ rest))
      ∙ ap (λ k. read_message Message unmarshal k (buf ++ rest))
          (le_value-le_bytes 4 n [] (omega arith) ∙ omega arith)

  read_whole :
      (buf rest : List ℕ) {msg : Message}
      → length buf ≤ 2147483648
      → unmarshal buf ≡ some msg
      → read_message Message unmarshal (length buf) (buf ++ rest) ≡ (inl msg, rest)
  unfolding read_message
  read_whole buf rest small decoded = ground (arith, read_full-append buf rest)

  -- A message that `Write` has put on the stream comes back from `Read`, which leaves what follows
  -- it, if its encoding can be decoded and has at most 2 GiB, and the stream has room for it.
  pub read-write :
      (marshal : Message → Option (List ℕ)) (msg : Message) (buf rest : List ℕ) (room : ℕ)
      → marshal msg ≡ some buf
      → unmarshal buf ≡ some msg
      → length buf ≤ 2147483648
      → length buf + 4 ≤ room
      → let (dest, failed) = write Message marshal msg (record { written = []; room = room }) in
        (failed ≡ none) × (read Message unmarshal (dest.written ++ rest) ≡ (inl msg, rest))
  read-write marshal msg buf rest room coded decoded small fits =
      let (room', written) =
        write_lem Message marshal msg buf (record { written = []; room = room }) coded fits in
      rw written (refl, read-frame buf rest (omega arith) ∙ read_whole buf rest small decoded)

  split_frame :
      (buf tail back : List ℕ) (a b c d : ℕ)
      → a ∷ b ∷ c ∷ d ∷ (tail ++ back) ≡ frame buf
      → (a ∷ b ∷ c ∷ d ∷ [] ≡ le_bytes 4 (length buf % 4294967296)) × (tail ++ back ≡ buf)
  unfolding le_bytes
  split_frame buf tail back a b c d cut = (cc, cc)

  read-length :
      (buf tail : List ℕ) (a b c d : ℕ)
      → length buf ≤ 2147483648
      → a ∷ b ∷ c ∷ d ∷ [] ≡ le_bytes 4 (length buf % 4294967296)
      → read Message unmarshal (a ∷ b ∷ c ∷ d ∷ tail)
        ≡ read_message Message unmarshal (length buf) tail
  read-length buf tail a b c d small same =
      let n = length buf % 4294967296 in
      read_step (a ∷ b ∷ c ∷ d ∷ []) (a ∷ b ∷ c ∷ d ∷ tail) tail
        (read_full-append (a ∷ b ∷ c ∷ d ∷ []) tail)
      ∙ ap (λ k. read_message Message unmarshal k tail)
          (ap (le_value 4) same
            ∙ rw append-nil at (le_value-le_bytes 4 n [] (omega arith))
            ∙ omega arith)

  read_message_short :
      (n : ℕ) (src : List ℕ)
      → n ≤ 2147483648
      → length src < n
      → read_message Message unmarshal n src ≡ (inr read_failed, [])
  unfolding read_message
  read_message_short n src small short = ground (arith, read_full_short n src)

  read_short :
      (src : List ℕ) → length src < 4 → read Message unmarshal src ≡ (inr read_length_failed, [])
  unfolding read
  read_short src short = ground (arith, read_full_short 4 src short)

  -- A stream that ends before the end of a message gives an error and no message, and nothing is
  -- left on it.
  pub read_truncated :
      (buf front back : List ℕ)
      → length buf ≤ 2147483648
      → front ++ back ≡ frame buf
      → 0 < length back
      → (read Message unmarshal front ≡ (inr read_length_failed, []))
        ⊎ (read Message unmarshal front ≡ (inr read_failed, []))
  read_truncated buf [] back small cut missing = inl (read_short _ (omega arith))
  read_truncated buf (a ∷ []) back small cut missing = inl (read_short _ (omega arith))
  read_truncated buf (a ∷ b ∷ []) back small cut missing = inl (read_short _ (omega arith))
  read_truncated buf (a ∷ b ∷ c ∷ []) back small cut missing = inl (read_short _ (omega arith))
  read_truncated buf (a ∷ b ∷ c ∷ d ∷ tail) back small cut missing =
      let (same, parts) = split_frame buf tail back a b c d cut in
      inr (
        read-length buf tail a b c d small same
        ∙ read_message_short (length buf) tail small
            (omega (arith, length-append tail back, ap length parts)))

  too_much :
      (n : ℕ) (src : List ℕ)
      → 2147483648 < n
      → read_message Message unmarshal n src ≡ (inr too_long, src)
  unfolding read_message
  too_much n src large = ground arith

  -- `Write` does not look at the length: a message of more than 2 GiB and less than 4 GiB is written
  -- without an error, and what is written is refused by `Read`, which then takes its bytes for the
  -- next message.
  pub read_too_long :
      (marshal : Message → Option (List ℕ)) (msg : Message) (buf rest : List ℕ) (room : ℕ)
      → marshal msg ≡ some buf
      → 2147483648 < length buf
      → length buf < 4294967296
      → length buf + 4 ≤ room
      → let (dest, failed) = write Message marshal msg (record { written = []; room = room }) in
        (failed ≡ none)
        × (read Message unmarshal (dest.written ++ rest) ≡ (inr too_long, buf ++ rest))
  read_too_long marshal msg buf rest room coded large fits space =
      let (room', written) =
        write_lem Message marshal msg buf (record { written = []; room = room }) coded space in
      rw written (refl, read-frame buf rest fits ∙ too_much (length buf) (buf ++ rest) large)
