-- ===== src/Lifetime/Threads.antt =====
-- A thread that has ended stays at its end, whatever the others do.
use event_stream_core.Prelude.{◌≡◌, refl, ap, ◌∙◌, Bool, true, false, Option, none, some}
use event_stream_core.Event.{Event, EventPtr}
use event_stream_core.EventBusMulti.{QueueId, EventBusMulti, pop}
use event_stream_core.Dispatcher.{Dispatcher, try_push}
use event_stream_core.ThreadPool.{all_returned}
use event_stream_core.Storage.{Device}
use event_stream_core.System.{
  Routing, ended, Processing, at_loop, done, at_poll, at_submit, System, Move, client_pushes,
  dispatcher_moves, dispatcher_stops, processor_moves, processor_stops, worker_moves, pool_stops,
  pool_clears, offered, dispatcher_step, polled, pool_step, processor_step, step,
}
use event_stream_core.System.Stopped.{
  offered-SameStored, dispatcher_step-SameStored, processor_step-SameStored, step-SameStored,
}

offered-routing :
    (evt : Event) (s : System) (p : Dispatcher × Bool) → (offered evt s p).0.routing ≡ s.routing
offered-routing evt s (d, true) = refl
offered-routing evt s (d, false) = refl

polled-routing :
    (q : QueueId) (s : System) (p : EventBusMulti × Option EventPtr)
    → (polled q s p).0.routing ≡ s.routing
polled-routing q s (bus, none) = refl
polled-routing q s (bus, some none) = refl
polled-routing q s (bus, some (some evt)) = refl

dispatcher_step-ended :
    (pc : Routing) (s : System)
    → pc ≡ ended
    → s.routing ≡ ended
    → (dispatcher_step pc s).0.routing ≡ ended
unfolding dispatcher_step
dispatcher_step-ended ended s e at = at
dispatcher_step-ended pc s e at = absurd (cc)

module _ (device : Device) where
  processor_step-routing :
      (pc : Processing) (s : System) → (processor_step device pc s).0.routing ≡ s.routing
  unfolding processor_step pool_step
  processor_step-routing at_loop s = refl
  processor_step-routing (at_poll q) s = polled-routing q s (pop q s.event_bus)
  processor_step-routing (at_submit evt) s = refl
  processor_step-routing done s = refl

  pub step-ended : (m : Move) (s : System) → s.routing ≡ ended → (step device m s).0.routing ≡ ended
  unfolding step pool_step
  step-ended (client_pushes evt) s e = offered-routing evt s (try_push (some evt) s.dispatcher) ∙ e
  step-ended dispatcher_moves s e = dispatcher_step-ended s.routing s e e
  step-ended dispatcher_stops s e = e
  step-ended processor_moves s e = processor_step-routing s.processing s ∙ e
  step-ended processor_stops s e = e
  step-ended (worker_moves i) s e = e
  step-ended pool_stops s e = e
  step-ended pool_clears s e = e

  pub step-done :
      (m : Move) (s : System) → s.processing ≡ done → (step device m s).0.processing ≡ done
  unfolding step pool_step
  step-done (client_pushes evt) s e =
      (offered-SameStored evt s (try_push (some evt) s.dispatcher)).0 ∙ e
  step-done dispatcher_moves s e = (dispatcher_step-SameStored s.routing s).0 ∙ e
  step-done dispatcher_stops s e = e
  step-done processor_moves s e = (processor_step-SameStored device s.processing s e).0 ∙ e
  step-done processor_stops s e = e
  step-done (worker_moves i) s e = e
  step-done pool_stops s e = e
  step-done pool_clears s e = e

  pub step-returned :
      (m : Move) (s : System)
      → s.processing ≡ done
      → all_returned s.worker_pool.workers ≡ true
      → all_returned (step device m s).0.worker_pool.workers ≡ true
  step-returned m s e r = ap all_returned (step-SameStored device m s e r).1 ∙ r
