-- ===== src/Client/Answers.antt =====
-- The client of client/client.go sends a command, and gets an answer.
use mathlib.Core.List.{append-nil, append_assoc}
use hotstuff_repbased_leader.Prelude.{
  ℕ, suc, ◌+◌, ◌≡◌, ◌≤◌, ◌<◌, inl, inr, refl, ap, sym, ◌∙◌, ◌%◌, if◌then◌else◌, Bool, ◌&&◌, ltb,
  true, [], ◌∷◌, ◌++◌, arith, Bool-cases,
}
use hotstuff_repbased_leader.Client.{
  PendingCmd, ReadResult, reading, failed_with_error, selecting, getting, send, get, ReadError,
  no_error, eof, read_failed, Reply, replied, canceled, call_failed, new_command, send_data, Client,
  max_uint64, at_end,
}
use hotstuff_repbased_leader.Client.Windows.{
  held, offered, in_flight, command, pending_cmd, window-suc, pending_lem, window-first,
}
use hotstuff_repbased_leader.Client.Flow.{Flow, Last, hand_on, all_made}

both_true : (a b : Bool) → (a && b) ≡ true → a ≡ true
both_true a b h = ground arith

module _ (input : ℕ → ReadResult) (id m : ℕ) where
  answers-Flow :
      (cmd : PendingCmd) (c : Client) (executed failed : ℕ) (f : Flow input id m c)
      → executed + failed ≤ suc f.answers
      → c.handler ≡ getting cmd
      → Flow input id m (record c {
        executed = executed;
        failed = failed;
        highest_committed =
            if ltb c.highest_committed cmd.sequence_number
            then cmd.sequence_number
            else c.highest_committed;
        handler = selecting;
        answered = cmd.promise ∷ c.answered;
      })
  answers-Flow cmd c executed failed f counted at =
      let held_first = ap (λ h. held h ++ (c.pending_cmds ++ offered c.sender)) (sym at) in
      let (k, one_more, first, rest) =
        window-first input id f.unsettled f.answers cmd (c.pending_cmds ++ offered c.sender)
          (held_first ∙ f.flight) in
      let numbered = ap (λ p. p.sequence_number) first in
      record {
        answers = suc f.answers;
        unsettled = k;
        total = f.total;
        total_lem = omega (arith, f.total_lem);
        same_id = f.same_id;
        same_size = f.same_size;
        sent_lem = f.sent_lem;
        answered_lem = rw (first, f.answered_lem) refl;
        flight = rest;
        buffered = f.buffered;
        num_lem = f.num_lem;
        highest = ground (arith, f.highest, numbered);
        counts = counted;
        last = f.last;
        reads_lem = f.reads_lem;
        done = ground (arith, f.done);
      }

  pub get-Flow :
      (reply : Reply) (cmd : PendingCmd) (c : Client)
      → Flow input id m c
      → c.handler ≡ getting cmd
      → Flow input id m (get reply cmd c)
  unfolding get
  get-Flow replied cmd c f at =
      answers-Flow cmd c (suc c.executed) c.failed f (omega (arith, f.counts)) at
  get-Flow canceled cmd c f at =
      answers-Flow cmd c c.executed c.failed f (omega (arith, f.counts)) at
  get-Flow call_failed cmd c f at =
      answers-Flow cmd c c.executed (suc c.failed) f (omega (arith, f.counts)) at

  Last-suc :
      (c : Client) (f : Flow input id m c)
      → c.reads ≡ f.total
      → Last input id
          (if at_end (input c.reads) && ltb c.num c.last_command then c.num else c.last_command)
          (suc f.total)
  Last-suc c f made = elim (Bool-cases (at_end (input c.reads) && ltb c.num c.last_command)) [
    | inl now ↦ inr (
      f.total,
      omega arith,
      rw now f.num_lem,
      ap (λ n. at_end (input n)) (sym made) ∙ both_true _ _ now,
    )
    | inr not_now ↦ rw not_now (elim f.last [
      | inl unset ↦ inl unset
      | inr (l, below, same, end) ↦ inr (l, omega arith, same, end)
    ])
  ]

  send_data-Flow :
      (c : Client) (f : Flow input id m c)
      → f.total + 2 < max_uint64
      → c.sender ≡ reading
      → Flow input id m (send_data (input c.reads) c)
  unfolding send_data
  send_data-Flow c f small at =
      let made = all_made input id m c f (ground arith) in
      let cmd_lem : new_command (input c.reads) c ≡ command input id f.total =
        rw (f.same_id, f.num_lem, made) refl in
      let numbered : (c.num + 1) % 18446744073709551616 ≡ suc (suc f.total) =
        omega (arith, f.num_lem, small) in
      let new_lem = pending_lem _ _ _ _ numbered cmd_lem in
      let before : in_flight c ≡ held c.handler ++ c.pending_cmds =
        rw at (ap (λ ps. held c.handler ++ ps) (append-nil c.pending_cmds)) in
      record {
        answers = f.answers;
        unsettled = suc f.unsettled;
        total = suc f.total;
        total_lem = omega (arith, f.total_lem);
        same_id = f.same_id;
        same_size = f.same_size;
        sent_lem = rw (cmd_lem, f.sent_lem) refl;
        answered_lem = f.answered_lem;
        flight =
            ap (λ p. held c.handler ++ (c.pending_cmds ++ (p ∷ []))) new_lem
            ∙ sym (append_assoc (held c.handler) c.pending_cmds (pending_cmd input id f.total ∷ []))
            ∙ ap (λ ps. ps ++ (pending_cmd input id f.total ∷ [])) (sym before ∙ f.flight)
            ∙ window-suc input id f.answers f.unsettled f.total f.total_lem;
        buffered = f.buffered;
        num_lem = omega (arith, f.num_lem, small);
        highest = f.highest;
        counts = f.counts;
        last = Last-suc c f made;
        reads_lem = inr (ap suc made);
        done = inl (ground arith);
      }

  pub send-Flow :
      (e : ReadError) (c : Client) (f : Flow input id m c)
      → f.total + 2 < max_uint64
      → c.sender ≡ reading
      → Flow input id m (send e (input c.reads) c)
  unfolding send
  send-Flow read_failed c f small at =
      hand_on input id m c f c.handler c.pending_cmds failed_with_error (suc c.reads)
        (ap (λ s. held c.handler ++ (c.pending_cmds ++ offered s)) (sym at)) f.buffered (inl refl)
        (inl (ground arith))
  send-Flow no_error c f small at = send_data-Flow c f small at
  send-Flow eof c f small at = send_data-Flow c f small at
