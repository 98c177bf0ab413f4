-- ===== src/CmdCache/Batches.antt =====
-- What the command queue (replica/cmdcache.go) proposes and accepts.
use mathlib.Core.Path.{subst}
use hotstuff_repbased_leader.Prelude.{
  ℕ, zero, suc, ◌+◌, ◌≡◌, ◌≤◌, ◌<◌, refl, true, false, none, some, Option, List, [], ◌∷◌, arith,
  ltb, leb, Option-cases, Bool-cases, inl, inr, List-cases, length, length-append, Dict, insert,
  lookup-insert, if◌then◌else◌,
}
use hotstuff_repbased_leader.CmdCache.{
  ClientCommand, CmdCache, serial_no, is_old, add_command, add_all, take_batch, attempt, get_batch,
  none_old, raise_serials, accept, proposed,
}

-- The commands that are not too old.
abbrev pub fresh : Dict ℕ → List ClientCommand → List ClientCommand
fresh serials [] = []
fresh serials (cmd ∷ cmds) =
    if is_old serials cmd then fresh serials cmds else cmd ∷ fresh serials cmds

abbrev pub take {ℓ} : {A : Type ℓ} → ℕ → List A → List A
take zero xs = []
take (suc n) [] = []
take (suc n) (x ∷ xs) = x ∷ take n xs

abbrev pub drop {ℓ} : {A : Type ℓ} → ℕ → List A → List A
drop zero xs = xs
drop (suc n) [] = []
drop (suc n) (x ∷ xs) = drop n xs

-- A batch of at most `n` commands holds the first `n` commands of the queue that are not too old,
-- in their order, and what stays in the queue has all the later ones.
pub take_batch_lem :
    (serials : Dict ℕ) (n : ℕ) (queue : List ClientCommand)
    → let (batch, rest) = take_batch serials n queue in
      (batch ≡ take n (fresh serials queue)) × (fresh serials rest ≡ drop n (fresh serials queue))
unfolding take_batch
take_batch_lem serials zero queue = (refl, refl)
take_batch_lem serials (suc n) [] = (refl, refl)
take_batch_lem serials (suc n) (cmd ∷ queue) =
    ground (arith, take_batch_lem serials n queue, take_batch_lem serials (suc n) queue)

length-take_batch :
    (serials : Dict ℕ) (n : ℕ) (queue : List ClientCommand)
    → length (take_batch serials n queue).0 ≤ n
unfolding take_batch
length-take_batch serials zero queue = omega arith
length-take_batch serials (suc n) [] = omega arith
length-take_batch serials (suc n) (cmd ∷ queue) =
    ground (arith, length-take_batch serials n queue, length-take_batch serials (suc n) queue)

take_batch-none_old :
    (serials : Dict ℕ) (n : ℕ) (queue : List ClientCommand)
    → none_old serials (take_batch serials n queue).0 ≡ true
unfolding take_batch none_old
take_batch-none_old serials zero queue = refl
take_batch-none_old serials (suc n) [] = refl
take_batch-none_old serials (suc n) (cmd ∷ queue) =
    ground (arith, take_batch-none_old serials n queue, take_batch-none_old serials (suc n) queue)

add_all_same :
    (cmds : List ClientCommand) (c : CmdCache)
    → ((add_all cmds c).serial_numbers ≡ c.serial_numbers)
      × ((add_all cmds c).batch_size ≡ c.batch_size)
unfolding add_command
add_all_same [] c = (refl, refl)
add_all_same (cmd ∷ cmds) c = ground (arith, add_all_same cmds (add_command cmd c).0)

-- A batch that is proposed: encoded, not empty, within the size, and with no command too old.
pub record Batch (marshal : List ClientCommand → Option (List ℕ)) (c : CmdCache) (cmd : List ℕ)
    : Type 0 where
  pub batch : List ClientCommand
  pub encoded : marshal batch ≡ some cmd
  pub nonempty : 0 < length batch
  pub within : length batch ≤ c.batch_size
  pub new : none_old c.serial_numbers batch ≡ true

module _ (marshal : List ClientCommand → Option (List ℕ)) where
  Batch-same :
      (c d : CmdCache) {cmd : List ℕ}
      → c.serial_numbers ≡ d.serial_numbers
      → c.batch_size ≡ d.batch_size
      → Batch marshal d cmd
      → Batch marshal c cmd
  Batch-same c d p q b = record {
    batch = b.batch;
    encoded = b.encoded;
    nonempty = b.nonempty;
    within = rw q b.within;
    new = rw p b.new;
  }

  attempt-Batch :
      (wait : CmdCache → CmdCache × Option (List ℕ)) (c : CmdCache) (cmd : List ℕ)
      → ((d : CmdCache)
          → d.serial_numbers ≡ c.serial_numbers
          → d.batch_size ≡ c.batch_size
          → (wait d).1 ≡ some cmd
          → Batch marshal c cmd)
      → (attempt marshal wait c).1 ≡ some cmd
      → Batch marshal c cmd
  unfolding attempt
  attempt-Batch wait c cmd later h =
      let (batch, rest) = take_batch c.serial_numbers c.batch_size c.cache in
      elim (Bool-cases (leb (length c.cache) c.batch_size)) [
        | inl short ↦ later c refl refl (ground arith)
        | inr long ↦ elim (List-cases batch) [
          | inl none_left ↦ later (record c { cache = rest }) refl refl (ground arith)
          | inr (x, xs, taken) ↦ record {
            batch = x ∷ xs;
            encoded = ground arith;
            nonempty = omega arith;
            within =
                subst (λ (b : List ClientCommand). length b ≤ c.batch_size) taken
                  (length-take_batch c.serial_numbers c.batch_size c.cache);
            new =
                subst (λ (b : List ClientCommand). none_old c.serial_numbers b ≡ true) taken
                  (take_batch-none_old c.serial_numbers c.batch_size c.cache);
          }
        ]
      ]

  -- Every command that `Get` returns encodes a batch that is not empty, holds at most the batch size
  -- and no command that is too old.
  pub get_batch-Batch :
      (wakes : List (List ClientCommand)) (c : CmdCache) (cmd : List ℕ)
      → (get_batch marshal wakes c).1 ≡ some cmd
      → Batch marshal c cmd
  unfolding get_batch
  get_batch-Batch [] c cmd h = attempt-Batch (λ c'. (c', none)) c cmd (λ d p q e. ground arith) h
  get_batch-Batch (w ∷ ws) c cmd h =
      attempt-Batch (λ c'. get_batch marshal ws (add_all w c')) c cmd
        (λ d p q e.
          let (s, b) = add_all_same w d in
          Batch-same c (add_all w d) (ground arith) (ground arith)
            (get_batch-Batch ws (add_all w d) cmd e))
        h

  -- `addCommand` notifies `Get` when the queue reaches the batch size, and `Get` then finds the queue
  -- still too short: it goes on waiting, and gives up if the view ends.
  pub notified_too_early :
      (cmd : ClientCommand) (c : CmdCache)
      → is_old c.serial_numbers cmd ≡ false
      → length c.cache + 1 ≡ c.batch_size
      → ((add_command cmd c).1 ≡ true)
        × (get_batch marshal [] (add_command cmd c).0 ≡ ((add_command cmd c).0, none))
  unfolding add_command get_batch
  notified_too_early cmd c young exact = (
    ground (arith, length-append c.cache (cmd ∷ [])),
    ground (arith, length-append c.cache (cmd ∷ [])),
  )

-- One round of the loop of `Proposed`.
raise_serial-le :
    (cmd : ClientCommand) (serials : Dict ℕ) (id : ℕ)
    → serial_no serials id
      ≤ serial_no
          (if ltb (serial_no serials cmd.client_id) cmd.sequence_number
            then insert cmd.client_id cmd.sequence_number serials
            else serials)
          id
unfolding serial_no
raise_serial-le cmd serials id =
    ground (arith, lookup-insert cmd.client_id id cmd.sequence_number serials)

raise_serial_self :
    (cmd : ClientCommand) (serials : Dict ℕ)
    → cmd.sequence_number
      ≤ serial_no
          (if ltb (serial_no serials cmd.client_id) cmd.sequence_number
            then insert cmd.client_id cmd.sequence_number serials
            else serials)
          cmd.client_id
unfolding serial_no
raise_serial_self cmd serials =
    ground (arith, lookup-insert cmd.client_id cmd.client_id cmd.sequence_number serials)

raise_serials-le :
    (cmds : List ClientCommand) (serials : Dict ℕ) (id : ℕ)
    → serial_no serials id ≤ serial_no (raise_serials cmds serials) id
unfolding raise_serials
raise_serials-le [] serials id = omega arith
raise_serials-le (cmd ∷ cmds) serials id =
    let raised =
      if ltb (serial_no serials cmd.client_id) cmd.sequence_number
      then insert cmd.client_id cmd.sequence_number serials
      else serials in
    omega (arith, raise_serial-le cmd serials id, raise_serials-le cmds raised id)

raise_serials_first :
    (cmd : ClientCommand) (cmds : List ClientCommand) (serials : Dict ℕ)
    → cmd.sequence_number ≤ serial_no (raise_serials (cmd ∷ cmds) serials) cmd.client_id
unfolding raise_serials
raise_serials_first cmd cmds serials =
    let raised =
      if ltb (serial_no serials cmd.client_id) cmd.sequence_number
      then insert cmd.client_id cmd.sequence_number serials
      else serials in
    omega (arith, raise_serial_self cmd serials, raise_serials-le cmds raised cmd.client_id)

module _ (unmarshal : List ℕ → Option (List ClientCommand)) (cmd : List ℕ) (c : CmdCache) where
  -- After `Proposed` a batch is not accepted again, if it is not empty.
  pub accept-proposed :
      (first : ClientCommand) (others : List ClientCommand)
      → unmarshal cmd ≡ some (first ∷ others)
      → accept unmarshal cmd (proposed unmarshal cmd c) ≡ false
  unfolding accept proposed none_old is_old
  accept-proposed first others e = ground (arith, raise_serials_first first others c.serial_numbers)

  -- `Proposed` lowers the counter of no client, so what was too old stays too old.
  pub serial_no-proposed :
      (id : ℕ)
      → serial_no c.serial_numbers id ≤ serial_no (proposed unmarshal cmd c).serial_numbers id
  unfolding proposed
  serial_no-proposed id = elim (Option-cases (unmarshal cmd)) [
    | inl malformed ↦ rw (malformed, proposed) (omega arith)
    | inr (batch, decoded) ↦ rw (decoded, proposed) (raise_serials-le batch c.serial_numbers id)
  ]
