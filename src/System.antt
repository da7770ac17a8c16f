-- ===== src/System.antt =====
-- The threads that src/app/main.cpp starts, at work together: client threads that push, the thread of
-- `Dispatcher::DispatchLoop`, the thread of `RealtimeProcessor::processLoop` with its pool, and the
-- workers, which store. A `Move` is one stretch of one thread up to its next access to shared state;
-- a schedule is a list of them. The local variables that live across a move stand in `Routing` and
-- `Processing`.
pub mod Weights
pub mod Conserved
pub mod Accounts
pub mod Delivery
pub mod EndToEnd
pub mod Workers
pub mod Stopping
pub mod Stopped
mod Tests
use event_stream_core.Prelude.{
  ℕ, zero, suc, Bool, true, false, Option, none, some, List, [], ◌∷◌, ◌++◌, ltb, if◌then◌else◌,
  Result,
}
use event_stream_core.Event.{Event, EventPtr}
use event_stream_core.EventBusMulti.{
  QueueId, realtime, transactional, batch, EventBusMulti, new_bus, push, pop,
}
use event_stream_core.TopicTable.{Table}
use event_stream_core.Dispatcher.{
  Dispatcher, new_dispatcher, set_topic_table, start, stop, try_push, try_pop, route, max_attempts,
}
use event_stream_core.ThreadPool.{
  ThreadPool, Log, submitted, started, finished, dropped, Action, submits, takes_turn, stops,
  clears, new_pool, act,
}
use event_stream_core.Storage.{Device, StorageEngine, StorageError, store_event}

-- Where the dispatcher's thread is: before its test, before the pop, before a push with the failed
-- attempts, the queue and the routed event, behind the loop, or lost in the warning on a null event.
pub data Routing : Type 0 where
  at_test at_pop ended crashed : Routing
  at_push : ℕ → QueueId → EventPtr → Routing

-- Where the processor's thread is: before its test, before the pop of a queue, before the call of
-- `submit`, or behind the loop.
pub data Processing : Type 0 where
  at_loop done : Processing
  at_poll : QueueId → Processing
  at_submit : Event → Processing

pub record System : Type 0 where
  pub dispatcher : Dispatcher
  pub routing : Routing
  pub event_bus : EventBusMulti
  pub processor_running : Bool
  pub processing : Processing
  pub worker_pool : ThreadPool Event
  pub storage : StorageEngine

pub data Entry : Type 0 where
  accepted refused : Event → Entry  -- by `tryPush`
  sent : QueueId → EventPtr → Entry
  gave_up : EventPtr → Entry  -- behind the last attempt
  skipped : Entry  -- a null event, by the processor
  stored : Event → Result StorageError (Unit {0}) → Entry  -- a call of `storeEvent`, and its end
  discarded : Event → Entry  -- by the end of `ThreadPool::shutdown`

pub data Move : Type 0 where
  client_pushes : Event → Move
  dispatcher_moves dispatcher_stops : Move
  processor_moves processor_stops : Move
  worker_moves : ℕ → Move
  pool_stops pool_clears : Move

abbrev pub offered : Event → System → Dispatcher × Bool → System × List Entry
offered evt s (d, true) = (record s { dispatcher = d }, accepted evt ∷ [])
offered evt s (d, false) = (record s { dispatcher = d }, refused evt ∷ [])

abbrev pub taken : System → Dispatcher × Option EventPtr → System × List Entry
taken s (d, none) = (record s { dispatcher = d; routing = at_test }, [])
taken s (d, some evt) =
    let (evt', q) = route d.topic_table evt in
    (record s { dispatcher = d; routing = at_push 0 q evt' }, [])

-- The warning behind the loop reads the id of the event.
abbrev pub give_up : EventPtr → System → System × List Entry
give_up none s = (record s { routing = crashed }, gave_up none ∷ [])
give_up (some evt) s = (record s { routing = at_test }, gave_up (some evt) ∷ [])

abbrev pub attempted : ℕ → QueueId → EventPtr → System → EventBusMulti × Bool → System × List Entry
attempted retry q evt s (bus, true) =
    (record s { event_bus = bus; routing = at_test }, sent q evt ∷ [])
attempted retry q evt s (bus, false) =
    if ltb (suc retry) max_attempts
    then (record s { event_bus = bus; routing = at_push (suc retry) q evt }, [])
    else give_up evt (record s { event_bus = bus })

unfoldable pub dispatcher_step : Routing → System → System × List Entry
dispatcher_step at_test s =
    (record s { routing = if s.dispatcher.running then at_pop else ended }, [])
dispatcher_step at_pop s = taken s (try_pop s.dispatcher)
dispatcher_step (at_push retry q evt) s = attempted retry q evt s (push q evt s.event_bus)
dispatcher_step _ s = (s, [])

-- The queue that is polled when this one was empty.
abbrev pub poll_next : QueueId → Processing
poll_next realtime = at_poll transactional
poll_next transactional = at_poll batch
poll_next batch = at_loop

abbrev pub polled : QueueId → System → EventBusMulti × Option EventPtr → System × List Entry
polled q s (bus, none) = (record s { event_bus = bus; processing = poll_next q }, [])
polled q s (bus, some none) = (record s { event_bus = bus; processing = at_loop }, skipped ∷ [])
polled q s (bus, some (some evt)) = (record s { event_bus = bus; processing = at_submit evt }, [])

module _ (device : Device) where
  -- What the tasks of a stretch of the pool do: each stores its event, and logs an exception.
  abbrev pub run_tasks : List (Log Event) → StorageEngine → StorageEngine × List Entry
  run_tasks [] s = (s, [])
  run_tasks (finished evt ∷ log) s =
      let (s', result) = store_event device evt s in
      let (last, entries) = run_tasks log s' in (last, stored evt result ∷ entries)
  run_tasks (dropped evt ∷ log) s =
      let (last, entries) = run_tasks log s in (last, discarded evt ∷ entries)
  run_tasks (x ∷ log) s = run_tasks log s

  abbrev pub ran : System → ThreadPool Event × List (Log Event) → System × List Entry
  ran s (pool, log) =
      let (storage, entries) = run_tasks log s.storage in
      (record s { worker_pool = pool; storage = storage }, entries)

  unfoldable pub pool_step : Action Event → System → System × List Entry
  pool_step a s = ran s (act a s.worker_pool)

  unfoldable pub processor_step : Processing → System → System × List Entry
  processor_step at_loop s =
      (record s { processing = if s.processor_running then at_poll realtime else done }, [])
  processor_step (at_poll q) s = polled q s (pop q s.event_bus)
  processor_step (at_submit evt) s = pool_step (submits evt) (record s { processing = at_loop })
  processor_step done s = (s, [])

  unfoldable pub step : Move → System → System × List Entry
  step (client_pushes evt) s = offered evt s (try_push (some evt) s.dispatcher)
  step dispatcher_moves s = dispatcher_step s.routing s
  step dispatcher_stops s = (record s { dispatcher = stop s.dispatcher }, [])
  step processor_moves s = processor_step s.processing s
  step processor_stops s = (record s { processor_running = false }, [])
  step (worker_moves i) s = pool_step (takes_turn i) s
  step pool_stops s = pool_step stops s
  step pool_clears s = pool_step clears s

  unfoldable pub run : List Move → System → System × List Entry
  run [] s = (s, [])
  run (m ∷ ms) s =
      let (s', entries) = step m s in let (last, later) = run ms s' in (last, entries ++ later)

-- What `main` builds and starts, once the configuration, the topics and the file are there.
abbrev pub new_system : Table → StorageEngine → ℕ → System
new_system table storage pool_size = record {
  dispatcher = start (set_topic_table table new_dispatcher);
  routing = at_test;
  event_bus = new_bus;
  processor_running = true;
  processing = at_loop;
  worker_pool = new_pool pool_size;
  storage = storage;
}
