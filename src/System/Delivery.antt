-- ===== src/System/Delivery.antt =====
-- That the threads can bring every event from `tryPush` to the file.
use event_stream_core.Prelude.{ℕ, suc, ◌≡◌, refl, ap, ◌∙◌, some, List, [], ◌∷◌, ◌++◌}
use event_stream_core.Event.{Event, EventPtr}
use event_stream_core.EventBusMulti.{QueueId, realtime, transactional, batch, push, pop}
use event_stream_core.TopicTable.{Table}
use event_stream_core.Dispatcher.{try_push, try_pop, with_priority, route}
use event_stream_core.Dispatcher.Route.{route_lem}
use event_stream_core.ThreadPool.{turn_at, act}
use event_stream_core.Storage.{Device, StorageEngine, store_event}
use event_stream_core.Storage.Durable.{store_all}
use event_stream_core.System.{
  System, at_push, accepted, sent, stored, Move, client_pushes, dispatcher_moves, dispatcher_stops,
  processor_moves, processor_stops, worker_moves, pool_stops, pool_clears, dispatcher_step,
  pool_step, processor_step, step, run, new_system,
}

-- The polls of the processor up to the queue.
abbrev polls : QueueId → List Move
polls realtime = processor_moves ∷ []
polls transactional = processor_moves ∷ processor_moves ∷ []
polls batch = processor_moves ∷ processor_moves ∷ processor_moves ∷ []

-- The test, the polls and the submission by the processor, and a turn of the first worker.
abbrev onward : QueueId → List Move
onward q =
    dispatcher_moves
    ∷ processor_moves
    ∷ (polls q ++ processor_moves ∷ worker_moves 0 ∷ worker_moves 0 ∷ worker_moves 0 ∷ [])

-- A schedule for one event, which is routed to this queue.
abbrev pub carry : QueueId → Event → List Move
carry q evt = client_pushes evt ∷ dispatcher_moves ∷ dispatcher_moves ∷ onward q

module _ (device : Device) (table : Table) (n : ℕ) where
  -- All threads at their tests, and every queue empty.
  abbrev idle : StorageEngine → System
  idle storage = new_system table storage (suc n)

  abbrev popped : StorageEngine → EventPtr × QueueId → System
  popped storage (evt, q) = record (idle storage) { routing = at_push 0 q evt }

  onward-stored :
      (q : QueueId) (evt : Event) (storage : StorageEngine)
      → let (storage', result) = store_event device evt storage in
        run device (onward q) (popped storage (some evt, q))
        ≡ (idle storage', sent q (some evt) ∷ stored evt result ∷ [])
  unfolding run step dispatcher_step processor_step pool_step push pop act turn_at
  onward-stored realtime evt storage = refl
  onward-stored transactional evt storage = refl
  onward-stored batch evt storage = refl

  carry-popped :
      (q : QueueId) (evt : Event) (storage : StorageEngine)
      → let after = run device (onward q) (popped storage (route (some table) (some evt))) in
        run device (carry q evt) (idle storage) ≡ (after.0, accepted evt ∷ after.1)
  unfolding run step dispatcher_step try_push try_pop
  carry-popped q evt storage = refl

  carry-stored :
      (q : QueueId) (evt routed : Event) (storage : StorageEngine)
      → route (some table) (some evt) ≡ (some routed, q)
      → let (storage', result) = store_event device routed storage in
        run device (carry q evt) (idle storage)
        ≡ (idle storage', accepted evt ∷ sent q (some routed) ∷ stored routed result ∷ [])
  carry-stored q evt routed storage e =
      carry-popped q evt storage
      ∙ ap
          (λ r.
            let after = run device (onward q) (popped storage r) in
            (after.0, accepted evt ∷ after.1))
          e
      ∙ ap (λ r. (r.0, accepted evt ∷ r.1)) (onward-stored q routed storage)

abbrev pub IsRouted : Table → Event → Event → Type 0
IsRouted table evt routed = (q : QueueId) × (route (some table) (some evt) ≡ (some routed, q))

-- Event by event, as `Route` leaves them.
abbrev pub AreRouted : Table → List Event → List Event → Type 0
AreRouted table [] [] = Unit
AreRouted table (e ∷ es) (r ∷ rs) = IsRouted table e r × AreRouted table es rs
AreRouted table _ _ = ⊥

-- The calls of `tryPush` in a schedule.
abbrev pub pushes : List Move → List Event
pushes [] = []
pushes (client_pushes e ∷ ms) = e ∷ pushes ms
pushes (m ∷ ms) = pushes ms

pushes-append : (ms ns : List Move) → pushes (ms ++ ns) ≡ pushes ms ++ pushes ns
pushes-append [] ns = refl
pushes-append (client_pushes e ∷ ms) ns = ap (◌∷◌ e) (pushes-append ms ns)
pushes-append (dispatcher_moves ∷ ms) ns = pushes-append ms ns
pushes-append (dispatcher_stops ∷ ms) ns = pushes-append ms ns
pushes-append (processor_moves ∷ ms) ns = pushes-append ms ns
pushes-append (processor_stops ∷ ms) ns = pushes-append ms ns
pushes-append (worker_moves i ∷ ms) ns = pushes-append ms ns
pushes-append (pool_stops ∷ ms) ns = pushes-append ms ns
pushes-append (pool_clears ∷ ms) ns = pushes-append ms ns

pushes-carry : (q : QueueId) (evt : Event) → pushes (carry q evt) ≡ evt ∷ []
pushes-carry realtime evt = refl
pushes-carry transactional evt = refl
pushes-carry batch evt = refl

module _ (device : Device) where
  run-append :
      (ms ns : List Move) (s : System)
      → (run device (ms ++ ns) s).0 ≡ (run device ns (run device ms s).0).0
  unfolding run
  run-append [] ns s = refl
  run-append (m ∷ ms) ns s = run-append ms ns (step device m s).0

  -- For all events there is a schedule in which the clients push just these, in this order, and
  -- which takes the started system with at least one worker to the state in which every thread is
  -- at its test again, every queue is empty, and each event, as it was routed, was stored in turn.
  pub run-delivers :
      (table : Table) (n : ℕ) (es : List Event) (storage : StorageEngine)
      → (ms : List Move) × (routed : List Event) × (pushes ms ≡ es)
        × AreRouted table es routed
        × ((run device ms (new_system table storage (suc n))).0
            ≡ new_system table (store_all device routed storage).0 (suc n))
  unfolding run store_all
  run-delivers table n [] storage = ([], [], refl, tt, refl)
  run-delivers table n (e ∷ es) storage =
      let (p, q, is_route, _, _) = route_lem (some table) e in
      let evt = with_priority p e in
      let (ms, routed, same, are, done) =
        run-delivers table n es (store_event device evt storage).0 in
      (
        carry q e ++ ms,
        evt ∷ routed,
        pushes-append (carry q e) ms
            ∙ ap (λ l. l ++ pushes ms) (pushes-carry q e)
            ∙ ap (◌∷◌ e) same,
        ((q, is_route), are),
        run-append (carry q e) ms (new_system table storage (suc n))
            ∙ ap (λ r. (run device ms r.0).0) (carry-stored device table n q e evt storage is_route)
            ∙ done,
      )
