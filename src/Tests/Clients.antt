-- ===== src/Tests/Clients.antt =====
-- The command queue, the clients and the event loop.
use hotstuff_repbased_leader.Prelude.{ℕ, ◌≡◌, refl, false, List, [], ◌∷◌, lookup}
use hotstuff_repbased_leader.CmdCache.{
  ClientCommand, CmdCache, get_batch, accept, proposed, serial_no, is_old,
}
use hotstuff_repbased_leader.CmdCache.Batches.{Batch, get_batch-Batch, accept-proposed}
use hotstuff_repbased_leader.ClientSrv.{ClientSrv, exec}
use hotstuff_repbased_leader.EventLoop.{Event, EventLoop, process_event, delay_until, add_event}
use hotstuff_repbased_leader.EventLoop
use hotstuff_repbased_leader.EventLoop.Delays.{
  DelaysByValue, CallsKeep, process_event-sends_none, delay_until-DelaysByValue, new-DelaysByValue,
}
use hotstuff_repbased_leader.Tests.Setup.{marshal, unmarshal, command}

-- The first command is too old.
abbrev queue : List ClientCommand
queue = command 2 ∷ command 3 ∷ command 4 ∷ []

abbrev commands : CmdCache
commands = record { batch_size = 2; serial_numbers = (5, 2) ∷ []; cache = queue }

get_batch-Batch_example : Batch marshal commands (3 ∷ 4 ∷ [])
unfolding get_batch lookup is_old serial_no
get_batch-Batch_example = get_batch-Batch marshal [] commands (3 ∷ 4 ∷ []) refl

-- One command short of a batch.
abbrev almost_full : CmdCache
almost_full = record { batch_size = 2; serial_numbers = []; cache = command 3 ∷ [] }

accept-proposed_example :
    accept unmarshal (3 ∷ 4 ∷ []) (proposed unmarshal (3 ∷ 4 ∷ []) commands) ≡ false
accept-proposed_example =
    accept-proposed unmarshal (3 ∷ 4 ∷ []) commands (command 3) (command 4 ∷ []) refl

-- Three clients' calls wait.
abbrev server : ClientSrv
server = record {
  awaiting_cmds = ((5, 3), 10) ∷ ((5, 4), 11) ∷ ((6, 3), 12) ∷ [];
  cmd_cache = commands;
  hashed = [];
  replies = [];
  commit_events = [];
}

abbrev executed : ClientSrv
executed = exec unmarshal (3 ∷ 4 ∷ []) server

abbrev vote_event : Event
vote_event = record { event_type = 2; value = 7 }

abbrev propose_event : Event
propose_event = record { event_type = 1; value = 0 }

-- The handlers delay the vote that they get.
abbrev delay_votes : ℕ → Event → EventLoop → EventLoop
delay_votes f event el = delay_until propose_event event el

delay_votes-CallsKeep : CallsKeep delay_votes
unfolding delay_until
delay_votes-CallsKeep = record {
  keeps = λ f e el h. delay_until-DelaysByValue propose_event e el h;
  sends_none = λ f e el. refl;
}

abbrev delayed : EventLoop
delayed = delay_until propose_event vote_event (EventLoop.new 100)

process_event-sends_none_example :
    DelaysByValue (process_event delay_votes propose_event delayed)
    × ((process_event delay_votes propose_event delayed).spawned ≡ delayed.spawned)
process_event-sends_none_example =
    process_event-sends_none delay_votes delay_votes-CallsKeep propose_event delayed (
      delay_until-DelaysByValue propose_event vote_event (EventLoop.new 100)
        (new-DelaysByValue 100))
