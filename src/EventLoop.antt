-- ===== src/EventLoop.antt =====
-- eventloop/eventloop.go: the queue of events, their handlers and observers, events that wait for
-- another, and tickers. An event is its dynamic type and a value; a goroutine's pending `AddEvent` is
-- kept in `spawned`.
pub mod Delays
use hotstuff_repbased_leader.Prelude.{
  ℕ, zero, suc, ◌+◌, Bool, true, false, ◌&&◌, Option, none, some, List, [], ◌∷◌, ◌++◌, ltb, ◌==◌,
  if◌then◌else◌, Dict, lookup, insert, delete, length,
}

pub record Event : Type 0 where
  pub event_type : ℕ
  pub value : ℕ

-- A key of `map[interface{}][]interface{}`: the value of an event, or a `reflect.Type`.
pub data Key : Type 0 where
  event_key : Event → Key
  type_key : ℕ → Key

abbrev pub key_eq : Key → Key → Bool
key_eq (event_key a) (event_key b) = a.event_type == b.event_type && a.value == b.value
key_eq (type_key s) (type_key t) = s == t
key_eq _ _ = false

pub record EventLoop : Type 0 where
  pub buffer_size : ℕ
  pub event_q : List Event
  pub waiting_events : List (Key × List Event)
  pub handlers : Dict ℕ
  pub observers : Dict (List ℕ)
  -- the running tickers: `true` once started
  pub tickers : Dict Bool
  pub ticker_id : ℕ
  pub spawned : List Event

unfoldable pub new : ℕ → EventLoop
new buffer_size = record {
  buffer_size = buffer_size;
  event_q = [];
  waiting_events = [];
  handlers = [];
  observers = [];
  tickers = [];
  ticker_id = 0;
  spawned = [];
}

unfoldable pub register_handler : ℕ → ℕ → EventLoop → EventLoop
register_handler type handler el = record el { handlers = insert type handler el.handlers }

abbrev pub ids_or_empty : Option (List ℕ) → List ℕ
ids_or_empty none = []
ids_or_empty (some ids) = ids

unfoldable pub register_observer : ℕ → ℕ → EventLoop → EventLoop
register_observer type observer el = record el {
  observers = insert type (ids_or_empty (lookup type el.observers) ++ observer ∷ []) el.observers;
}

-- `AddEvent`: `none` while the channel is full and the sender blocks.
unfoldable pub add_event : Event → EventLoop → Option EventLoop
add_event event el =
    if ltb (length el.event_q) el.buffer_size
    then some (record el { event_q = el.event_q ++ event ∷ [] })
    else none

unfoldable pub waiting : Key → List (Key × List Event) → Option (List Event)
waiting k [] = none
waiting k ((j, events) ∷ m) = if key_eq j k then some events else waiting k m

unfoldable pub set_waiting : Key → List Event → List (Key × List Event) → List (Key × List Event)
set_waiting k events [] = (k, events) ∷ []
set_waiting k events ((j, old) ∷ m) =
    if key_eq j k then (k, events) ∷ m else (j, old) ∷ set_waiting k events m

unfoldable pub delete_waiting : Key → List (Key × List Event) → List (Key × List Event)
delete_waiting k [] = []
delete_waiting k ((j, events) ∷ m) =
    let rest = delete_waiting k m in if key_eq j k then rest else (j, events) ∷ rest

abbrev events_or_empty : Option (List Event) → List Event
events_or_empty none = []
events_or_empty (some events) = events

-- `DelayUntil`: the key is the value that is passed, the zero value of the awaited type.
unfoldable pub delay_until : Event → Event → EventLoop → EventLoop
unfolding waiting set_waiting
delay_until event_type event el =
    let k = event_key event_type in
    record el {
      waiting_events =
          set_waiting k (events_or_empty (waiting k el.waiting_events) ++ event ∷ [])
            el.waiting_events;
    }

-- `dispatchDelayedEvents`: the key is the type.
unfoldable pub dispatch_delayed_events : ℕ → EventLoop → EventLoop
unfolding waiting delete_waiting
dispatch_delayed_events t el = elim (waiting (type_key t) el.waiting_events) [
  | none ↦ el
  | some events ↦ record el {
    spawned = el.spawned ++ events;
    waiting_events = delete_waiting (type_key t) el.waiting_events;
  }
]

-- The types of a function and of a start event of a ticker.
abbrev pub func_type : ℕ
func_type = 0

abbrev pub start_ticker_type : ℕ
start_ticker_type = 1

unfoldable pub start_ticker : ℕ → EventLoop → EventLoop
start_ticker id el = elim (lookup id el.tickers) [
  | none ↦ el
  | some _ ↦ record el { tickers = insert id true el.tickers }
]

-- What the function with an ID does when it is called with an event.
module _ (call : ℕ → Event → EventLoop → EventLoop) where
  unfoldable pub run_observers : List ℕ → Event → EventLoop → EventLoop
  run_observers [] event el = el
  run_observers (o ∷ os) event el = run_observers os event (call o event el)

  unfoldable pub run_handler : Event → EventLoop → EventLoop
  run_handler event el = elim (lookup event.event_type el.handlers) [
    | none ↦ el
    | some h ↦ call h event el
  ]

  -- `processEvent` without its deferred call: a function is called; for any other event the
  -- observers run, then the handler.
  unfoldable pub call_functions : Event → EventLoop → EventLoop
  call_functions event el =
      if event.event_type == func_type
      then call event.value event el
      else run_handler event
          (run_observers (ids_or_empty (lookup event.event_type el.observers)) event el)

  unfoldable pub process_event : Event → EventLoop → EventLoop
  process_event event el = dispatch_delayed_events event.event_type (call_functions event el)

  -- One round of `Run` on the event at the head of the queue.
  unfoldable pub run_next : EventLoop → EventLoop
  unfolding process_event start_ticker
  run_next el = elim el.event_q [
    | [] ↦ el
    | event ∷ rest ↦
        if event.event_type == start_ticker_type
        then start_ticker event.value (record el { event_q = rest })
        else process_event event (record el { event_q = rest })
  ]

  -- The end of `Run`: the events that are in the queue at that time.
  unfoldable pub drain : ℕ → EventLoop → EventLoop
  unfolding process_event
  drain zero el = el
  drain (suc n) el = drain n (elim el.event_q [
    | [] ↦ el
    | event ∷ rest ↦ process_event event (record el { event_q = rest })
  ])

  unfoldable pub cancel_run : EventLoop → EventLoop
  unfolding drain
  cancel_run el = drain (length el.event_q) el

-- `AddTicker` before the send of its start event; the ID is returned.
unfoldable pub add_ticker : EventLoop → EventLoop × ℕ
add_ticker el = (
  record el { tickers = insert el.ticker_id false el.tickers; ticker_id = el.ticker_id + 1 },
  el.ticker_id,
)

unfoldable pub remove_ticker : ℕ → EventLoop → EventLoop × Bool
remove_ticker id el = elim (lookup id el.tickers) [
  | none ↦ (el, false)
  | some _ ↦ (record el { tickers = delete id el.tickers }, true)
]
