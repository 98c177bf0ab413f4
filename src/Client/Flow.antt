-- ===== src/Client/Flow.antt =====
-- What holds of the client of client/client.go at any time, and the stretches that only hand on
-- commands.
use mathlib.Core.List.{append-nil}
use hotstuff_repbased_leader.Prelude.{
  ℕ, suc, ◌+◌, ◌≡◌, ◌≤◌, ◌<◌, ◌⊎◌, inl, inr, refl, ap, sym, ◌∙◌, ◌≢◌, leb, if◌then◌else◌, Bool, ltb,
  ltb→lt, true, false, List, [], ◌∷◌, ◌++◌, arith, length, length-append, Bool-cases,
}
use hotstuff_repbased_leader.Client.{
  PendingCmd, ReadResult, Sender, at_loop, reading, pushing, finished, failed_with_error,
  check_done, Handler, selecting, getting, returned, begin, push, hand_over, receive, Wait,
  may_send, wait_canceled, wait_failed, ctx_ended, Client, max_uint64, at_end,
}
use hotstuff_repbased_leader.Client.Windows.{held, offered, in_flight, commands, window}

module _ (input : ℕ → ReadResult) (id : ℕ) where
  -- The command number `l + 1` was made by the first read at the end of the input, if any was.
  abbrev pub Last : ℕ → ℕ → Type 0
  Last last total =
      (last ≡ max_uint64) ⊎ ((l : ℕ) × (l < total) × (last ≡ suc l) × (at_end (input l) ≡ true))

  module _ (m : ℕ) where
    pub record Flow (c : Client) : Type 0 where
      pub answers : ℕ
      pub unsettled : ℕ
      pub total : ℕ
      pub total_lem : total ≡ answers + unsettled
      pub same_id : c.id ≡ id
      pub same_size : c.max_concurrent ≡ m
      pub sent_lem : c.sent ≡ commands input id total
      pub answered_lem : c.answered ≡ commands input id answers
      pub flight : in_flight c ≡ window input id answers unsettled
      pub buffered : length c.pending_cmds ≤ m
      pub num_lem : c.num ≡ suc total
      pub highest : c.highest_committed ≡ suc answers
      pub counts : c.executed + c.failed ≤ answers
      pub last : Last c.last_command total
      pub reads_lem : (c.sender ≡ failed_with_error) ⊎ (c.reads ≡ total)
      pub done : (c.sender ≢ finished) ⊎ (c.last_command ≤ c.highest_committed)

    -- The goroutines hand on what is in flight.
    pub hand_on :
        (c : Client) (f : Flow c) (h : Handler) (ps : List PendingCmd) (s : Sender) (n : ℕ)
        → held h ++ (ps ++ offered s) ≡ in_flight c
        → length ps ≤ m
        → (s ≡ failed_with_error) ⊎ (n ≡ f.total)
        → (s ≢ finished) ⊎ (c.last_command ≤ c.highest_committed)
        → Flow (record c { handler = h; pending_cmds = ps; sender = s; reads = n })
    hand_on c f h ps s n same size reads done = record {
      answers = f.answers;
      unsettled = f.unsettled;
      total = f.total;
      total_lem = f.total_lem;
      same_id = f.same_id;
      same_size = f.same_size;
      sent_lem = f.sent_lem;
      answered_lem = f.answered_lem;
      flight = same ∙ f.flight;
      buffered = size;
      num_lem = f.num_lem;
      highest = f.highest;
      counts = f.counts;
      last = f.last;
      reads_lem = reads;
      done = done;
    }

    -- Only the sender moves, and holds no command before or after.
    moves :
        (c : Client) (f : Flow c) (s : Sender)
        → offered c.sender ≡ []
        → offered s ≡ []
        → (s ≡ failed_with_error) ⊎ (c.reads ≡ f.total)
        → (s ≢ finished) ⊎ (c.last_command ≤ c.highest_committed)
        → Flow (record c { sender = s })
    moves c f s before after reads done =
        hand_on c f c.handler c.pending_cmds s c.reads
          (ap (λ ps. held c.handler ++ (c.pending_cmds ++ ps)) (after ∙ sym before)) f.buffered
          reads done

    -- A sender that has not failed has made a command of every read.
    pub all_made : (c : Client) (f : Flow c) → c.sender ≢ failed_with_error → c.reads ≡ f.total
    all_made c f alive = elim f.reads_lem [ inl dead ↦ absurd (alive dead) | inr made ↦ made ]

    check_done-Flow : (c : Client) → Flow c → c.sender ≡ at_loop → Flow (check_done c)
    check_done-Flow c f at =
        let is_done = leb c.last_command c.highest_committed in
        moves c f (if is_done then finished else reading) (ap offered at) (ground arith)
          (inr (all_made c f (ground arith))) (ground arith)

    pub begin-Flow :
        (ctx_err : Bool) (wait : Wait) (c : Client)
        → Flow c
        → c.sender ≡ at_loop
        → Flow (begin ctx_err wait c)
    unfolding begin
    begin-Flow true wait c f at =
        moves c f ctx_ended (ap offered at) refl (inr (all_made c f (ground arith))) (ground arith)
    begin-Flow false may_send c f at = check_done-Flow c f at
    begin-Flow false wait_canceled c f at = check_done-Flow c f at
    begin-Flow false wait_failed c f at =
        moves c f failed_with_error (ap offered at) refl (inl refl) (ground arith)

    enqueues :
        (p : PendingCmd) (c : Client)
        → Flow c
        → c.sender ≡ pushing p
        → length c.pending_cmds < c.max_concurrent
        → Flow (record c { pending_cmds = c.pending_cmds ++ (p ∷ []); sender = at_loop })
    enqueues p c f at room =
        hand_on c f c.handler (c.pending_cmds ++ (p ∷ [])) at_loop c.reads
          (ap (λ ps. held c.handler ++ ps)
            (append-nil (c.pending_cmds ++ (p ∷ []))
              ∙ ap (λ s. c.pending_cmds ++ offered s) (sym at)))
          (omega (arith, length-append c.pending_cmds (p ∷ []), f.same_size))
          (inr (all_made c f (ground arith))) (inl (ground arith))

    hands_over :
        (p : PendingCmd) (c : Client) (ps : List PendingCmd) (h : Handler)
        → c.pending_cmds ≡ ps
        → c.handler ≡ h
        → Flow c
        → c.sender ≡ pushing p
        → Flow (hand_over p c ps h)
    hands_over p c (_ ∷ _) h few free f at = f
    hands_over p c [] (getting _) few free f at = f
    hands_over p c [] returned few free f at = f
    hands_over p c [] selecting few free f at =
        hand_on c f (getting p) c.pending_cmds at_loop c.reads (rw (few, free, at) refl) f.buffered
          (inr (all_made c f (ground arith))) (inl (ground arith))

    pub push-Flow : (p : PendingCmd) (c : Client) → Flow c → c.sender ≡ pushing p → Flow (push p c)
    unfolding push
    push-Flow p c f at = elim (Bool-cases (ltb (length c.pending_cmds) c.max_concurrent)) [
      | inl room ↦ rw (room, push) (enqueues p c f at (ltb→lt _ _ room))
      | inr full ↦ rw (full, push) (hands_over p c c.pending_cmds c.handler refl refl f at)
    ]

    pub receive-Flow :
        (ps : List PendingCmd) (c : Client)
        → c.pending_cmds ≡ ps
        → Flow c
        → c.handler ≡ selecting
        → Flow (receive ps c)
    unfolding receive
    receive-Flow [] c waits f at = f
    receive-Flow (p ∷ ps) c waits f at =
        hand_on c f (getting p) ps c.sender c.reads (rw (waits, at) refl)
          (omega (arith, f.buffered, ap length waits)) f.reads_lem f.done
