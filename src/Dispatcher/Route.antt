-- ===== src/Dispatcher/Route.antt =====
-- Where `Route` sends an event, and at which priority.
use event_stream_core.Prelude.{◌≤◌, Option, none, some, ◌≡◌, refl, min, leb, if◌then◌else◌, arith}
use event_stream_core.Event.{EventPriority, low, medium, Event, priority_code}
use event_stream_core.TopicTable.{Table, find, found_topic}
use event_stream_core.EventBusMulti.{QueueId, realtime, transactional, batch}
use event_stream_core.Dispatcher.{with_priority, look_up, queue_for, route}

-- The highest priority that the table allows an event: its topic's, or MEDIUM.
abbrev pub allowed : Option Table → Event → EventPriority
allowed none evt = medium
allowed (some table) evt = elim (find evt.topic table) [ some p ↦ p | none ↦ medium ]

-- The queue of a priority.
abbrev pub Serves : QueueId → EventPriority → Type 0
Serves realtime p = 2 ≤ priority_code p
Serves transactional p = priority_code p ≡ 1
Serves batch p = priority_code p ≡ 0

abbrev lower : EventPriority → EventPriority → EventPriority
lower p q = if leb (priority_code q) (priority_code p) then q else p

lower_code :
    (p q : EventPriority) → priority_code (lower p q) ≡ min (priority_code p) (priority_code q)
lower_code p q = ground arith

queue_for-Serves : (p : EventPriority) → Serves (queue_for p) p
unfolding queue_for
queue_for-Serves low = refl
queue_for-Serves medium = refl
queue_for-Serves p = omega arith

look_up-allowed :
    (table : Option Table) (evt : Event) → look_up table evt medium ≡ allowed table evt
unfolding found_topic
look_up-allowed table evt = ground arith

route-lower :
    (table : Option Table) (evt : Event)
    → let p = lower evt.header.priority (allowed table evt) in
      route table (some evt) ≡ (some (with_priority p evt), queue_for p)
unfolding route
route-lower table evt = rw (look_up-allowed table evt) (ground arith)

-- An event is routed at the lower of its client's priority and the allowed one, to the queue of
-- that priority; nothing else of the event changes.
pub route_lem :
    (table : Option Table) (evt : Event)
    → (p : EventPriority) × (q : QueueId) × (route table (some evt)
        ≡ (some (with_priority p evt), q))
      × (priority_code p
          ≡ min (priority_code evt.header.priority) (priority_code (allowed table evt)))
      × Serves q p
route_lem table evt =
    let p = lower evt.header.priority (allowed table evt) in
    (
      p,
      queue_for p,
      route-lower table evt,
      lower_code evt.header.priority (allowed table evt),
      queue_for-Serves p,
    )
