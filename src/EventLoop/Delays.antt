-- ===== src/EventLoop/Delays.antt =====
-- What becomes of events that wait for another event (eventloop/eventloop.go).
use hotstuff_repbased_leader.Prelude.{
  ℕ, ◌≡◌, refl, Bool, true, false, none, List, [], ◌∷◌, arith, lookup, Bool-cases, Option-cases,
  inl, inr, ◌==◌, ◌∙◌,
}
use hotstuff_repbased_leader.EventLoop.{
  Event, Key, event_key, type_key, EventLoop, new, waiting, set_waiting, delay_until,
  dispatch_delayed_events, run_observers, run_handler, process_event, call_functions, ids_or_empty,
  func_type,
}

abbrev is_event_key : Key → Bool
is_event_key (event_key e) = true
is_event_key (type_key t) = false

abbrev KeyedByEvents : List (Key × List Event) → Type 0
KeyedByEvents [] = Unit
KeyedByEvents ((k, _) ∷ m) = (is_event_key k ≡ true) × KeyedByEvents m

-- Every delayed event is kept under the value of an event.
abbrev pub DelaysByValue : EventLoop → Type 0
DelaysByValue el = KeyedByEvents el.waiting_events

waiting-type_key :
    (t : ℕ) (m : List (Key × List Event)) → KeyedByEvents m → waiting (type_key t) m ≡ none
unfolding waiting
waiting-type_key t [] h = refl
waiting-type_key t ((event_key e, events) ∷ m) h = waiting-type_key t m h.1
waiting-type_key t ((type_key s, events) ∷ m) h = cc

pub new-DelaysByValue : (buffer_size : ℕ) → DelaysByValue (new buffer_size)
unfolding new
new-DelaysByValue buffer_size = tt

set_waiting-keyed :
    (e : Event) (events : List Event) (m : List (Key × List Event))
    → KeyedByEvents m
    → KeyedByEvents (set_waiting (event_key e) events m)
unfolding set_waiting
set_waiting-keyed e events [] h = (refl, tt)
set_waiting-keyed e events ((event_key k, old) ∷ m) h =
    ground (arith, set_waiting-keyed e events m h.1)
set_waiting-keyed e events ((type_key s, old) ∷ m) h = cc

pub delay_until-DelaysByValue :
    (event_type event : Event) (el : EventLoop)
    → DelaysByValue el
    → DelaysByValue (delay_until event_type event el)
unfolding delay_until
delay_until-DelaysByValue event_type event el h = set_waiting-keyed event_type _ el.waiting_events h

dispatch_same : (t : ℕ) (el : EventLoop) → DelaysByValue el → dispatch_delayed_events t el ≡ el
unfolding dispatch_delayed_events
dispatch_same t el h = rw (waiting-type_key t el.waiting_events h, dispatch_delayed_events)

-- What is assumed of the functions that are called with events: they may delay events and add
-- events, and start no sending of delayed events themselves.
pub record CallsKeep (call : ℕ → Event → EventLoop → EventLoop) : Type 0 where
  pub keeps : (f : ℕ) (e : Event) (el : EventLoop) → DelaysByValue el → DelaysByValue (call f e el)
  pub sends_none : (f : ℕ) (e : Event) (el : EventLoop) → (call f e el).spawned ≡ el.spawned

module _ (call : ℕ → Event → EventLoop → EventLoop) (good : CallsKeep call) where
  run_observers-keeps :
      (os : List ℕ) (event : Event) (el : EventLoop)
      → DelaysByValue el
      → DelaysByValue (run_observers call os event el)
        × ((run_observers call os event el).spawned ≡ el.spawned)
  unfolding run_observers
  run_observers-keeps [] event el h = (h, refl)
  run_observers-keeps (o ∷ os) event el h =
      let (k, s) = run_observers-keeps os event (call o event el) (good.keeps o event el h) in
      (k, ground (arith, good.sends_none o event el))

  run_handler-keeps :
      (event : Event) (el : EventLoop)
      → DelaysByValue el
      → DelaysByValue (run_handler call event el)
        × ((run_handler call event el).spawned ≡ el.spawned)
  unfolding run_handler
  run_handler-keeps event el h = elim (Option-cases (lookup event.event_type el.handlers)) [
    | inl unhandled ↦ rw (unhandled, run_handler) (h, refl)
    | inr (f, handled) ↦
        rw (handled, run_handler) (good.keeps f event el h, good.sends_none f event el)
  ]

  call_functions-keeps :
      (event : Event) (el : EventLoop)
      → DelaysByValue el
      → DelaysByValue (call_functions call event el)
        × ((call_functions call event el).spawned ≡ el.spawned)
  unfolding call_functions
  call_functions-keeps event el h =
      let os = ids_or_empty (lookup event.event_type el.observers) in
      let observed = run_observers call os event el in
      let (k, s) = run_observers-keeps os event el h in
      let (k', s') = run_handler-keeps event observed k in
      elim (Bool-cases (event.event_type == func_type)) [
        | inl is_func ↦
            rw is_func (good.keeps event.value event el h, good.sends_none event.value event el)
        | inr is_event ↦ rw is_event (k', s' ∙ s)
      ]

  -- No event that was delayed is ever sent again: `DelayUntil` files it under the value that it is
  -- given, and the look-up after an event asks for the type. Whatever event is processed, no delayed
  -- event is sent, and all are still filed under values.
  pub process_event-sends_none :
      (event : Event) (el : EventLoop)
      → DelaysByValue el
      → DelaysByValue (process_event call event el)
        × ((process_event call event el).spawned ≡ el.spawned)
  unfolding process_event
  process_event-sends_none event el h =
      let (k, s) = call_functions-keeps event el h in
      rw (dispatch_same event.event_type (call_functions call event el) k) (k, s)
