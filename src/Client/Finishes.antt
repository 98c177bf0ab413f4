-- ===== src/Client/Finishes.antt =====
-- What the client of client/client.go has done at any time, and when it finishes.
use hotstuff_repbased_leader.Prelude.{
  ℕ, zero, suc, ◌+◌, ◌≡◌, ◌≤◌, ◌<◌, inl, inr, refl, ap, sym, ◌∙◌, true, List, [], ◌∷◌, ◌++◌, arith,
  length, length-append, All, eq_of_==, Bool-cases, leb, leb→le,
}
use hotstuff_repbased_leader.CmdCache.{ClientCommand}
use hotstuff_repbased_leader.Client.{
  ReadResult, ReadError, no_error, eof, read_failed, Sender, at_loop, reading, pushing, ctx_ended,
  finished, failed_with_error, Handler, selecting, getting, returned, Client, max_uint64, new,
  Action, run, at_end,
}
use hotstuff_repbased_leader.Client.Windows.{held, offered, command, commands, window}
use hotstuff_repbased_leader.Client.Flow.{Flow}
use hotstuff_repbased_leader.Client.Runs.{run-Flow, run-num, new-Flow}

length-held : (h : Handler) → length (held h) ≤ 1
length-held selecting = omega arith
length-held (getting _) = omega arith
length-held returned = omega arith

length-offered : (s : Sender) → length (offered s) ≤ 1
length-offered at_loop = omega arith
length-offered reading = omega arith
length-offered (pushing _) = omega arith
length-offered ctx_ended = omega arith
length-offered finished = omega arith
length-offered failed_with_error = omega arith

length_zero : (bytes : List ℕ) → length bytes ≡ 0 → bytes ≡ []
length_zero [] h = refl
length_zero (x ∷ xs) h = absurd (omega (arith, h))

no_bytes :
    (e : ReadError) (bytes : List ℕ)
    → at_end (record { bytes = bytes; error = e }) ≡ true
    → bytes ≡ []
no_bytes no_error bytes h = absurd (ground arith)
no_bytes read_failed bytes h = absurd (ground arith)
no_bytes eof bytes h = length_zero bytes (eq_of_== (length bytes) 0 h)

module _ (input : ℕ → ReadResult) (id : ℕ) where
  -- The commands that came after the first `a`, the latest first.
  abbrev late : ℕ → ℕ → List ClientCommand
  late a zero = []
  late a (suc k) = command input id (a + k) ∷ late a k

  length-late : (a k : ℕ) → length (late a k) ≡ k
  length-late a zero = refl
  length-late a (suc k) = ap suc (length-late a k)

  length-window : (a k : ℕ) → length (window input id a k) ≡ k
  length-window a zero = refl
  length-window a (suc k) = ap suc (length-window (suc a) k)

  length-commands : (a : ℕ) → length (commands input id a) ≡ a
  length-commands zero = refl
  length-commands (suc a) = ap suc (length-commands a)

  commands-late : (a k s : ℕ) → s ≡ a + k → commands input id s ≡ late a k ++ commands input id a
  commands-late a zero s h = ap (commands input id) (omega (arith, h))
  commands-late a (suc k) zero h = absurd (omega (arith, h))
  commands-late a (suc k) (suc s) h =
      let same : s ≡ a + k = omega (arith, h) in rw (commands-late a k s same, same) refl

  module _ (m : ℕ) where
    -- The commands that are answered are the first ones sent, in their order; at most
    -- the channel's size and two more wait for an answer.
    pub record Progress (c : Client) : Type 0 where
      pub unanswered : List ClientCommand
      pub in_order : c.sent ≡ unanswered ++ c.answered
      pub few : length unanswered ≤ m + 2
      pub highest : c.highest_committed ≡ suc (length c.answered)
      pub counts : c.executed + c.failed ≤ length c.answered

    Flow-few : (c : Client) (f : Flow input id m c) → f.unsettled ≤ m + 2
    Flow-few c f = omega (
      arith,
      length-held c.handler,
      length-offered c.sender,
      f.buffered,
      length-window f.answers f.unsettled,
      ap length f.flight,
      length-append (held c.handler) (c.pending_cmds ++ offered c.sender),
      length-append c.pending_cmds (offered c.sender),
    )

    Flow-split :
        (c : Client) (f : Flow input id m c) → c.sent ≡ late f.answers f.unsettled ++ c.answered
    Flow-split c f =
        f.sent_lem
        ∙ commands-late f.answers f.unsettled f.total f.total_lem
        ∙ ap (λ cmds. late f.answers f.unsettled ++ cmds) (sym f.answered_lem)

    Flow-Progress : (c : Client) → Flow input id m c → Progress c
    Flow-Progress c f = record {
      unanswered = late f.answers f.unsettled;
      in_order = Flow-split c f;
      few = omega (arith, length-late f.answers f.unsettled, Flow-few c f);
      highest = omega (arith, f.highest, ap length f.answered_lem, length-commands f.answers);
      counts = omega (arith, f.counts, ap length f.answered_lem, length-commands f.answers);
    }

    -- In any interleaving that is not so long that the numbers wrap around, the answered commands
    -- are the first ones sent, in the order in which they were sent; at most two more than the
    -- channel holds wait for an answer; `highestCommitted` counts the answers, failed ones too; and
    -- no command is counted twice.
    pub run-Progress :
        (actions : List Action)
        → length actions + 3 < max_uint64
        → Progress (run input actions (new id m))
    unfolding new
    run-Progress actions short =
        Flow-Progress (run input actions (new id m))
          (run-Flow input id m actions (new id m) (omega (arith, short)) (new-Flow input id m))

  module _ (dry : (n : ℕ) → at_end (input n) ≡ true → at_end (input (suc n)) ≡ true) where
    still_dry : (l n : ℕ) → at_end (input l) ≡ true → l ≤ n → at_end (input n) ≡ true
    still_dry l zero end le = ap (λ i. at_end (input i)) (omega (arith, le)) ∙ end
    still_dry l (suc n) end le = elim (Bool-cases (leb l n)) [
      | inl before ↦ dry n (still_dry l n end (leb→le l n before))
      | inr now ↦ ap (λ i. at_end (input i)) (ground arith) ∙ end
    ]

    late_empty :
        (l a k : ℕ) → at_end (input l) ≡ true → l ≤ a → All (λ cmd. cmd.payload ≡ []) (late a k)
    late_empty l a zero end le = tt
    late_empty l a (suc k) end le =
        let read = input (a + k) in
        let ended = still_dry l (a + k) end (omega (arith, le)) in
        (no_bytes read.error read.bytes ended, late_empty l a k end le)

    Flow-done :
        (m : ℕ) (c : Client) (f : Flow input id m c)
        → c.sender ≡ finished
        → c.num < max_uint64
        → All (λ cmd. cmd.payload ≡ []) (late f.answers f.unsettled)
    Flow-done m c f is_done small =
        let reached : c.last_command ≤ c.highest_committed = elim f.done [
          | inl not_done ↦ absurd (not_done is_done)
          | inr reached ↦ reached
        ] in
        elim f.last [
          | inl unset ↦
              absurd (omega (arith, unset, reached, f.highest, f.total_lem, f.num_lem, small))
          | inr (l, below, same, end) ↦
              late_empty l f.answers f.unsettled end (omega (arith, same, reached, f.highest))
        ]

-- If the reader stays at its end once it has reached it, then in any interleaving that is not so long
-- that the numbers wrap around, a client that finishes has an answer for each command with bytes of
-- the input: what is still unanswered then are the latest commands sent, and they are empty.
pub run-finished :
    (input : ℕ → ReadResult) (id m : ℕ) (actions : List Action)
    → ((n : ℕ) → at_end (input n) ≡ true → at_end (input (suc n)) ≡ true)
    → length actions + 3 < max_uint64
    → (run input actions (new id m)).sender ≡ finished
    → (unanswered : List ClientCommand) × ((run input actions (new id m)).sent
        ≡ unanswered ++ (run input actions (new id m)).answered)
      × All (λ cmd. cmd.payload ≡ []) unanswered
unfolding new
run-finished input id m actions dry short is_done =
    let c = run input actions (new id m) in
    let f = run-Flow input id m actions (new id m) (omega (arith, short)) (new-Flow input id m) in
    let small = run-num input actions (new id m) in
    (
      late input id f.answers f.unsettled,
      Flow-split input id m c f,
      Flow-done input id dry m c f is_done (omega (arith, short, small)),
    )
