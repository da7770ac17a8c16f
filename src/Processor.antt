-- ===== src/Processor.antt =====
-- `RealtimeProcessor` of include/eventprocessor/realtime_processor.hpp and
-- src/event_processor/realtime_processor.cpp. Its thread takes events from the bus, and stores each
-- itself or submits a task that does. What other threads do to the bus before the pop `k` of a turn
-- enters as `meanwhile k`. A task of the worker pool is the event that it stores.
pub mod Priority
pub mod Loop
mod Tests
use event_stream_core.Prelude.{
  ℕ, zero, suc, Bool, true, false, Option, none, some, List, [], ◌∷◌, ◌++◌, if◌then◌else◌, Result,
}
use event_stream_core.Event.{Event, EventPtr}
use event_stream_core.EventBusMulti.{QueueId, realtime, transactional, batch, EventBusMulti, pop}
use event_stream_core.Storage.{Device, StorageEngine, store_event}

-- The end of a chain of pops: the bus, and the event if there was one.
abbrev pub or_else :
    EventBusMulti × Option EventPtr
    → (EventBusMulti → EventBusMulti × Option EventPtr)
    → EventBusMulti × Option EventPtr
or_else (bus, some evt) next = (bus, some evt)
or_else (bus, none) next = next bus

-- REALTIME, then TRANSACTIONAL, then BATCH.
unfoldable pub pop_any :
    (ℕ → EventBusMulti → EventBusMulti) → EventBusMulti → EventBusMulti × Option EventPtr
pop_any meanwhile bus =
    or_else (pop realtime (meanwhile 0 bus)) (λ bus₁.
      or_else (pop transactional (meanwhile 1 bus₁)) (λ bus₂. pop batch (meanwhile 2 bus₂)))

pub record RealtimeProcessor : Type 0 where
  pub event_bus : EventBusMulti
  pub storage_engine : StorageEngine
  pub tasks : List Event  -- that were submitted
  pub is_running : Bool

abbrev pub new_processor : EventBusMulti → StorageEngine → RealtimeProcessor
new_processor bus storage = record {
  event_bus = bus;
  storage_engine = storage;
  tasks = [];
  is_running = false;
}

abbrev pub start : RealtimeProcessor → RealtimeProcessor
start s = record s { is_running = true }

abbrev pub stop : RealtimeProcessor → RealtimeProcessor
stop s = record s { is_running = false }

module _ (device : Device) (worker_pool : Bool) where
  -- The `try` block, behind the test for a null event. An exception of `storeEvent` is logged.
  abbrev pub handle_event : EventPtr → RealtimeProcessor → RealtimeProcessor
  handle_event none s = s
  handle_event (some evt) s =
      if worker_pool
      then record s { tasks = s.tasks ++ evt ∷ [] }
      else record s { storage_engine = (store_event device evt s.storage_engine).0 }

  abbrev pub handle_popped : RealtimeProcessor → EventBusMulti × Option EventPtr → RealtimeProcessor
  handle_popped s (bus, none) = record s { event_bus = bus }
  handle_popped s (bus, some evt) = handle_event evt (record s { event_bus = bus })

  -- One turn of the loop, behind its test.
  unfoldable pub process_turn :
      (ℕ → EventBusMulti → EventBusMulti) → RealtimeProcessor → RealtimeProcessor
  process_turn meanwhile s = handle_popped s (pop_any meanwhile s.event_bus)

  -- The loop, over its turns: the interference in each, and whether `stop` came by its end.
  unfoldable pub process_loop :
      List ((ℕ → EventBusMulti → EventBusMulti) × Bool) → RealtimeProcessor → RealtimeProcessor
  process_loop [] s = s
  process_loop ((meanwhile, stops) ∷ ts) s =
      let s' = process_turn meanwhile s in
      let rest = process_loop ts (if stops then stop s' else s') in if s.is_running then rest else s
