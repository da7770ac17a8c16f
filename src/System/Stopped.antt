-- ===== src/System/Stopped.antt =====
-- The system when its processor and its workers have ended, as `main` leaves it at its return.
use event_stream_core.Prelude.{
  ℕ, suc, ◌≡◌, refl, ap, Bool, true, false, Option, none, some, List, [], ◌∷◌, map, ltb, Bool-cases,
  inl, inr,
}
use event_stream_core.Event.{Event, EventPtr}
use event_stream_core.EventBusMulti.{QueueId, EventBusMulti, push}
use event_stream_core.Dispatcher.{Dispatcher, try_push, try_pop, max_attempts}
use event_stream_core.ThreadPool.{
  ThreadPool, dropped, Action, submits, takes_turn, stops, clears, clear_if, act, all_returned,
}
use event_stream_core.ThreadPool.Joined.{turn_at-returned}
use event_stream_core.Storage.{Device, StorageEngine}
use event_stream_core.System.{
  Routing, at_test, at_pop, at_push, ended, crashed, Processing, done, System, Move, client_pushes,
  dispatcher_moves, dispatcher_stops, processor_moves, processor_stops, worker_moves, pool_stops,
  pool_clears, offered, taken, give_up, attempted, dispatcher_step, pool_step, processor_step,
  run_tasks, step,
}

-- What stands still once the threads that store have ended.
abbrev pub SameStored : System → System → Type 0
SameStored s s' =
    (s'.processing ≡ s.processing)
    × (s'.worker_pool.workers ≡ s.worker_pool.workers)
    × (s'.storage ≡ s.storage)

pub offered-SameStored :
    (evt : Event) (s : System) (p : Dispatcher × Bool) → SameStored s (offered evt s p).0
offered-SameStored evt s (d, true) = (refl, refl, refl)
offered-SameStored evt s (d, false) = (refl, refl, refl)

taken-SameStored : (s : System) (p : Dispatcher × Option EventPtr) → SameStored s (taken s p).0
taken-SameStored s (d, none) = (refl, refl, refl)
taken-SameStored s (d, some evt) = (refl, refl, refl)

give_up-SameStored : (evt : EventPtr) (s : System) → SameStored s (give_up evt s).0
give_up-SameStored none s = (refl, refl, refl)
give_up-SameStored (some evt) s = (refl, refl, refl)

attempted-SameStored :
    (retry : ℕ) (q : QueueId) (evt : EventPtr) (s : System) (p : EventBusMulti × Bool)
    → SameStored s (attempted retry q evt s p).0
attempted-SameStored retry q evt s (bus, true) = (refl, refl, refl)
attempted-SameStored retry q evt s (bus, false) = elim (Bool-cases (ltb (suc retry) max_attempts)) [
  | inl more ↦ rw more (refl, refl, refl)
  | inr last ↦ rw last (give_up-SameStored evt (record s { event_bus = bus }))
]

pub dispatcher_step-SameStored : (pc : Routing) (s : System) → SameStored s (dispatcher_step pc s).0
unfolding dispatcher_step
dispatcher_step-SameStored at_test s = (refl, refl, refl)
dispatcher_step-SameStored at_pop s = taken-SameStored s (try_pop s.dispatcher)
dispatcher_step-SameStored (at_push retry q evt) s =
    attempted-SameStored retry q evt s (push q evt s.event_bus)
dispatcher_step-SameStored ended s = (refl, refl, refl)
dispatcher_step-SameStored crashed s = (refl, refl, refl)

module _ (device : Device) where
  run_tasks-dropped :
      (ts : List Event) (storage : StorageEngine)
      → (run_tasks device (map dropped ts) storage).0 ≡ storage
  run_tasks-dropped [] storage = refl
  run_tasks-dropped (t ∷ ts) storage = run_tasks-dropped ts storage

  clear_if-kept :
      (b : Bool) (p : ThreadPool Event) (storage : StorageEngine)
      → ((clear_if b p).0.workers ≡ p.workers)
        × ((run_tasks device (clear_if b p).1 storage).0 ≡ storage)
  clear_if-kept true p storage = (refl, run_tasks-dropped p.tasks storage)
  clear_if-kept false p storage = (refl, refl)

  act-kept :
      (a : Action Event) (p : ThreadPool Event) (storage : StorageEngine)
      → all_returned p.workers ≡ true
      → ((act a p).0.workers ≡ p.workers) × ((run_tasks device (act a p).1 storage).0 ≡ storage)
  unfolding act
  act-kept (submits t) p storage h = (refl, refl)
  act-kept (takes_turn i) p storage h =
      let e = turn_at-returned i p.tasks p.is_running p.workers h in
      (ap (λ t. t.1.0) e, ap (λ t. (run_tasks device t.1.1 storage).0) e)
  act-kept stops p storage h = (refl, refl)
  act-kept clears p storage h = clear_if-kept (all_returned p.workers) p storage

  pool_step-SameStored :
      (a : Action Event) (s : System)
      → all_returned s.worker_pool.workers ≡ true
      → SameStored s (pool_step device a s).0
  unfolding pool_step
  pool_step-SameStored a s h =
      let (workers, storage) = act-kept a s.worker_pool s.storage h in (refl, workers, storage)

  pub processor_step-SameStored :
      (pc : Processing) (s : System) → pc ≡ done → SameStored s (processor_step device pc s).0
  unfolding processor_step
  processor_step-SameStored done s h = (refl, refl, refl)
  processor_step-SameStored pc s h = absurd (cc)

  pub step-SameStored :
      (m : Move) (s : System)
      → s.processing ≡ done
      → all_returned s.worker_pool.workers ≡ true
      → SameStored s (step device m s).0
  unfolding step
  step-SameStored (client_pushes evt) s d h =
      offered-SameStored evt s (try_push (some evt) s.dispatcher)
  step-SameStored dispatcher_moves s d h = dispatcher_step-SameStored s.routing s
  step-SameStored dispatcher_stops s d h = (refl, refl, refl)
  step-SameStored processor_moves s d h = processor_step-SameStored s.processing s d
  step-SameStored processor_stops s d h = (refl, refl, refl)
  step-SameStored (worker_moves i) s d h = pool_step-SameStored (takes_turn i) s h
  step-SameStored pool_stops s d h = pool_step-SameStored stops s h
  step-SameStored pool_clears s d h = pool_step-SameStored clears s h
