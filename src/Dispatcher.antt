-- ===== src/Dispatcher.antt =====
-- include/event/Dispatcher.hpp and src/event/Dispatcher.cpp: a bounded inbound queue, and the thread
-- that routes its events to the bus. What other threads do to the shared state enters as arguments:
-- calls of `tryPush` and `stop` as lists of `Outside`, and what happens to the bus during a sleep
-- as a function. An event is owned by one queue at a time, so `Route` returns the changed event.
pub mod Route
pub mod Retry
pub mod Inbound
mod Tests
use event_stream_core.Prelude.{
  ℕ, zero, suc, Bool, true, false, not, ◌&&◌, ◌||◌, Option, none, some, List, [], ◌∷◌, ◌++◌, leb,
  ◌==◌, if◌then◌else◌, length,
}
use event_stream_core.Event.{
  EventPriority, medium, high, critical, low, Event, EventPtr, priority_code,
}
use event_stream_core.TopicTable.{Table, found_topic}
use event_stream_core.EventBusMulti.{
  QueueId, realtime, transactional, batch, EventBusMulti, push, pop_front,
}

abbrev pub inbound_capacity : ℕ
inbound_capacity = 65536

pub record Dispatcher : Type 0 where
  pub inbound_queue : List EventPtr
  pub running : Bool
  pub topic_table : Option Table  -- a null pointer before `setTopicTable`

abbrev pub new_dispatcher : Dispatcher
new_dispatcher = record { inbound_queue = []; running = false; topic_table = none }

abbrev pub set_topic_table : Table → Dispatcher → Dispatcher
set_topic_table t d = record d { topic_table = some t }

abbrev pub start : Dispatcher → Dispatcher
start d = record d { running = true }

abbrev pub stop : Dispatcher → Dispatcher
stop d = record d { running = false }

unfoldable pub try_push : EventPtr → Dispatcher → Dispatcher × Bool
try_push evt d =
    if leb inbound_capacity (length d.inbound_queue)
    then (d, false)
    else (record d { inbound_queue = d.inbound_queue ++ evt ∷ [] }, true)

abbrev is_empty : List EventPtr → Bool
is_empty [] = true
is_empty (e ∷ es) = false

-- The predicate of `wait_for`.
abbrev is_awake : Dispatcher → Bool
is_awake d = not (is_empty d.inbound_queue) || not d.running

-- `front` and `pop_front`, which the guards keep from an empty deque.
take_front : Option (EventPtr × List EventPtr) → Dispatcher → Dispatcher × Option EventPtr
take_front none d = (d, none)
take_front (some (event, rest)) d = (record d { inbound_queue = rest }, some event)

-- The state is the one in which `wait_for` returns, with its predicate's value there.
unfoldable pub try_pop : Dispatcher → Dispatcher × Option EventPtr
unfolding take_front
try_pop d =
    if not (is_awake d)
    then (d, none)
    else if not d.running && is_empty d.inbound_queue
    then (d, none)
    else take_front (pop_front d.inbound_queue) d

-- `topic_table_ && topic_table_->FoundTopic(topic, priority)`, with `priority` as it is left.
abbrev pub look_up : Option Table → Event → EventPriority → EventPriority
look_up none evt priority = priority
look_up (some table) evt priority = (found_topic evt.topic priority table).0

abbrev pub with_priority : EventPriority → Event → Event
with_priority p evt = record evt { header = record evt.header { priority = p } }

abbrev pub is_priority : EventPriority → EventPriority → Bool
is_priority p q = priority_code p == priority_code q

-- The ladder on the final priority.
unfoldable pub queue_for : EventPriority → QueueId
queue_for p =
    if is_priority p critical || is_priority p high
    then realtime
    else if is_priority p medium
    then transactional
    else batch

unfoldable pub route : Option Table → EventPtr → EventPtr × QueueId
unfolding queue_for
route table none = (none, transactional)
route table (some evt) =
    let priority = look_up table evt medium in
    let evt' =
      if leb (priority_code priority) (priority_code evt.header.priority)
      then with_priority priority evt
      else evt in
    (some evt', queue_for evt'.header.priority)

-- The retry loop, with `left` attempts left of the five; after each failed attempt the thread
-- sleeps, and `sleep k` is what the other threads do to the bus during the sleep after attempt `k`.
unfoldable pub push_attempts :
    (ℕ → EventBusMulti → EventBusMulti)
    → ℕ
    → ℕ
    → QueueId
    → EventPtr
    → EventBusMulti
    → EventBusMulti × Bool
push_attempts sleep zero retry q evt bus = (bus, false)
push_attempts sleep (suc left) retry q evt bus =
    let (bus', pushed) = push q evt bus in
    elim pushed [
      | true ↦ (bus', true)
      | false ↦ push_attempts sleep left (suc retry) q evt (sleep retry bus')
    ]

abbrev pub max_attempts : ℕ
max_attempts = 5

-- What one turn of the loop did: the event as it was taken, and as it was routed.
pub data Report : Type 0 where
  timed_out : Report
  sent dropped : QueueId → EventPtr → EventPtr → Report
  crashed : EventPtr → Report  -- the warning reads `event.value()->header.id` of a null event

abbrev pub report_of : QueueId → EventPtr → EventPtr → Bool → Report
report_of q taken routed true = sent q taken routed
report_of q taken (some evt) false = dropped q taken (some evt)
report_of q taken none false = crashed taken

pub record Turned : Type 0 where
  pub dispatcher : Dispatcher
  pub bus : EventBusMulti
  pub report : Report

pub deliver : (ℕ → EventBusMulti → EventBusMulti) → EventPtr → Dispatcher → EventBusMulti → Turned
deliver sleep taken d bus =
    let (routed, q) = route d.topic_table taken in
    let (bus', pushed) = push_attempts sleep max_attempts 0 q routed bus in
    record { dispatcher = d; bus = bus'; report = report_of q taken routed pushed }

-- `if (!event.has_value()) continue;`
pub deliver_popped :
    (ℕ → EventBusMulti → EventBusMulti) → EventBusMulti → Dispatcher × Option EventPtr → Turned
deliver_popped sleep bus (d, none) = record { dispatcher = d; bus = bus; report = timed_out }
deliver_popped sleep bus (d, some taken) = deliver sleep taken d bus

-- One turn of `DispatchLoop`, behind its test.
unfoldable pub dispatch_turn :
    (ℕ → EventBusMulti → EventBusMulti) → Dispatcher → EventBusMulti → Turned
unfolding deliver deliver_popped
dispatch_turn sleep d bus = deliver_popped sleep bus (try_pop d)
