-- ===== src/Tests/Sending.antt =====
-- Runs of the client's two goroutines.
use hotstuff_repbased_leader.Prelude.{
  ℕ, zero, suc, ◌≡◌, refl, true, false, List, [], ◌∷◌, ◌++◌, arith, All,
}
use hotstuff_repbased_leader.CmdCache.{ClientCommand}
use hotstuff_repbased_leader.Client
use hotstuff_repbased_leader.Client.{
  ReadResult, no_error, eof, Wait, may_send, Reply, replied, call_failed, Action, begins, sends,
  pushes, receives, gets, Sender, finished, at_end, run,
}
use hotstuff_repbased_leader.Client.Finishes.{run-finished}

-- One byte, and then the end.
abbrev one_byte : ℕ → ReadResult
one_byte zero = record { bytes = 7 ∷ []; error = no_error }
one_byte (suc n) = record { bytes = []; error = eof }

one_byte-dry : (n : ℕ) → at_end (one_byte n) ≡ true → at_end (one_byte (suc n)) ≡ true
one_byte-dry zero h = refl
one_byte-dry (suc n) h = refl

abbrev round : List Action
round = begins false may_send ∷ sends ∷ pushes ∷ []

-- The second command is empty, and waits in the channel when the first one is answered.
abbrev to_the_end : Reply → List Action
to_the_end reply = round ++ (round ++ (receives ∷ gets reply ∷ begins false may_send ∷ []))

-- The client finishes though the only command with data has failed.
finishes_failed : (run one_byte (to_the_end call_failed) (Client.new 5 2)).sender ≡ finished
unfolding run Client.act Client.new Client.begin Client.send Client.send_data Client.push
    Client.receive Client.get
finishes_failed = refl

run-finished_example :
    (unanswered : List ClientCommand) × ((run one_byte (to_the_end replied) (Client.new 5 2)).sent
      ≡ unanswered ++ (run one_byte (to_the_end replied) (Client.new 5 2)).answered)
    × All (λ cmd. cmd.payload ≡ []) unanswered
unfolding run Client.act Client.new Client.begin Client.send Client.send_data Client.push
    Client.receive Client.get
run-finished_example =
    run-finished one_byte 5 2 (to_the_end replied) one_byte-dry (omega arith) refl
