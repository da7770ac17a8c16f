-- ===== src/System/Conserved.antt =====
-- Where an accepted event can be, in every interleaving of the threads.
use event_stream_core.Prelude.{
  ℕ, suc, ◌+◌, ◌≡◌, refl, ap, Bool, true, false, Option, none, some, List, [], ◌∷◌, ◌++◌,
  if◌then◌else◌, ltb, Bool-cases, inl, inr, arith,
}
use event_stream_core.Event.{EventPriority, Event, EventPtr}
use event_stream_core.EventBusMulti.{
  QueueId, realtime, transactional, batch, EventBusMulti, push, pop,
}
use event_stream_core.Dispatcher.{Dispatcher, try_push, try_pop, with_priority, max_attempts}
use event_stream_core.ThreadPool.{
  Log, submitted, started, finished, dropped, Action, submits, takes_turn, stops, clears, act,
}
use event_stream_core.Storage.{Device, StorageEngine, store_event}
use event_stream_core.System.{
  Routing, at_test, at_pop, at_push, ended, crashed, Processing, at_loop, done, at_poll, at_submit,
  System, Entry, accepted, gave_up, stored, discarded, Move, client_pushes, dispatcher_moves,
  dispatcher_stops, processor_moves, processor_stops, worker_moves, pool_stops, pool_clears,
  offered, taken, give_up, attempted, dispatcher_step, polled, run_tasks, pool_step, processor_step,
  step, run,
}
use event_stream_core.System.Weights.{
  weigh_ptr, weigh_ptrs, weigh_bus, weigh_pool, weigh_if, weigh_popped, weigh_out, weigh_bus-push,
  weigh_bus-pop, weigh-try_push, weigh-try_pop, weigh-route, weigh_pool-act, weigh_action,
  weigh_in-act,
}

module _ (w : Event → ℕ) where
  abbrev weigh_routing : Routing → ℕ
  weigh_routing (at_push retry q evt) = weigh_ptr w evt
  weigh_routing _ = 0

  abbrev weigh_processing : Processing → ℕ
  weigh_processing (at_submit evt) = w evt
  weigh_processing _ = 0

  -- All that is under way: in the inbound queue, in the hands of the dispatcher, on the bus, in the
  -- hands of the processor, and in the pool, queued or with a worker.
  abbrev pub under_way : System → ℕ
  under_way s =
      weigh_ptrs w s.dispatcher.inbound_queue
      + weigh_routing s.routing
      + weigh_bus w s.event_bus
      + weigh_processing s.processing
      + weigh_pool w s.worker_pool

  -- What `tryPush` accepted.
  abbrev pub arrived : List Entry → ℕ
  arrived [] = 0
  arrived (accepted e ∷ l) = w e + arrived l
  arrived (x ∷ l) = arrived l

  -- What left: in a call of `storeEvent`, whether it returned or threw, given up behind the last
  -- attempt, or discarded with the pool.
  abbrev pub left : List Entry → ℕ
  left [] = 0
  left (stored e r ∷ l) = w e + left l
  left (gave_up e ∷ l) = weigh_ptr w e + left l
  left (discarded e ∷ l) = w e + left l
  left (x ∷ l) = left l

  arrived-append : (l m : List Entry) → arrived (l ++ m) ≡ arrived l + arrived m
  arrived-append [] m = omega arith
  arrived-append (accepted e ∷ l) m = omega (arith, arrived-append l m)
  arrived-append (x ∷ l) m = arrived-append l m

  left-append : (l m : List Entry) → left (l ++ m) ≡ left l + left m
  left-append [] m = omega arith
  left-append (stored e r ∷ l) m = omega (arith, left-append l m)
  left-append (gave_up e ∷ l) m = omega (arith, left-append l m)
  left-append (discarded e ∷ l) m = omega (arith, left-append l m)
  left-append (x ∷ l) m = left-append l m

  abbrev Conserves : System → System × List Entry → Type 0
  Conserves s (s', l) = under_way s + arrived l ≡ under_way s' + left l

  offered-Conserves :
      (evt : Event) (s : System) (p : Dispatcher × Bool)
      → weigh_ptrs w p.0.inbound_queue
        ≡ weigh_ptrs w s.dispatcher.inbound_queue + weigh_if w p.1 (some evt)
      → Conserves s (offered evt s p)
  offered-Conserves evt s (d, true) h = omega arith
  offered-Conserves evt s (d, false) h = omega arith

  weigh_routing-test : (b : Bool) → weigh_routing (if b then at_pop else ended) ≡ 0
  weigh_routing-test true = refl
  weigh_routing-test false = refl

  weigh_processing-test : (b : Bool) → weigh_processing (if b then at_poll realtime else done) ≡ 0
  weigh_processing-test true = refl
  weigh_processing-test false = refl

  give_up-Conserves :
      (evt : EventPtr) (s : System)
      → weigh_ptrs w s.dispatcher.inbound_queue
          + weigh_ptr w evt
          + weigh_bus w s.event_bus
          + weigh_processing s.processing
          + weigh_pool w s.worker_pool
          + arrived (give_up evt s).1
        ≡ under_way (give_up evt s).0 + left (give_up evt s).1
  give_up-Conserves none s = omega arith
  give_up-Conserves (some evt) s = omega arith

  attempted-Conserves :
      (retry : ℕ) (q : QueueId) (evt : EventPtr) (s : System) (p : EventBusMulti × Bool)
      → weigh_routing s.routing ≡ weigh_ptr w evt
      → weigh_bus w p.0 ≡ weigh_bus w s.event_bus + weigh_if w p.1 evt
      → Conserves s (attempted retry q evt s p)
  attempted-Conserves retry q evt s (bus, true) at h = omega arith
  attempted-Conserves retry q evt s (bus, false) at h =
      elim (Bool-cases (ltb (suc retry) max_attempts)) [
        | inl more ↦ rw more (omega arith)
        | inr last ↦ rw last (omega (arith, give_up-Conserves evt (record s { event_bus = bus })))
      ]

  polled-Conserves :
      (q : QueueId) (s : System) (p : EventBusMulti × Option EventPtr)
      → weigh_processing s.processing ≡ 0
      → weigh_bus w s.event_bus ≡ weigh_bus w p.0 + weigh_popped w p.1
      → Conserves s (polled q s p)
  polled-Conserves realtime s (bus, none) at h = omega arith
  polled-Conserves transactional s (bus, none) at h = omega arith
  polled-Conserves batch s (bus, none) at h = omega arith
  polled-Conserves q s (bus, some none) at h = omega arith
  polled-Conserves q s (bus, some (some evt)) at h = omega arith

  module _ (h : (p : EventPriority) (e : Event) → w (with_priority p e) ≡ w e) where
    taken-Conserves :
        (s : System) (p : Dispatcher × Option EventPtr)
        → weigh_routing s.routing ≡ 0
        → weigh_ptrs w s.dispatcher.inbound_queue
          ≡ weigh_ptrs w p.0.inbound_queue + weigh_popped w p.1
        → Conserves s (taken s p)
    taken-Conserves s (d, none) at e = omega arith
    taken-Conserves s (d, some evt) at e = omega (arith, weigh-route w h d.topic_table evt)

    dispatcher_step-Conserves :
        (pc : Routing) (s : System) → s.routing ≡ pc → Conserves s (dispatcher_step pc s)
    unfolding dispatcher_step
    dispatcher_step-Conserves at_test s at =
        omega (arith, ap weigh_routing at, weigh_routing-test s.dispatcher.running)
    dispatcher_step-Conserves at_pop s at =
        taken-Conserves s (try_pop s.dispatcher) (ap weigh_routing at)
          (weigh-try_pop w s.dispatcher)
    dispatcher_step-Conserves (at_push retry q evt) s at =
        attempted-Conserves retry q evt s (push q evt s.event_bus) (ap weigh_routing at)
          (weigh_bus-push w q evt s.event_bus)
    dispatcher_step-Conserves ended s at = refl
    dispatcher_step-Conserves crashed s at = refl

    module _ (device : Device) where
      run_tasks-left :
          (log : List (Log Event)) (storage : StorageEngine)
          → (left (run_tasks device log storage).1 ≡ weigh_out w log)
            × (arrived (run_tasks device log storage).1 ≡ 0)
      run_tasks-left [] storage = (refl, refl)
      run_tasks-left (submitted e ∷ log) storage = run_tasks-left log storage
      run_tasks-left (started e ∷ log) storage = run_tasks-left log storage
      run_tasks-left (finished e ∷ log) storage =
          omega (arith, run_tasks-left log (store_event device e storage).0)
      run_tasks-left (dropped e ∷ log) storage = omega (arith, run_tasks-left log storage)

      pool_step-Conserves :
          (a : Action Event) (s : System)
          → let (s', l) = pool_step device a s in
            under_way s + weigh_action w a + arrived l ≡ under_way s' + left l
      unfolding pool_step
      pool_step-Conserves a s = omega (
        arith,
        weigh_pool-act w a s.worker_pool,
        weigh_in-act w a s.worker_pool,
        run_tasks-left (act a s.worker_pool).1 s.storage,
      )

      processor_step-Conserves :
          (pc : Processing) (s : System)
          → s.processing ≡ pc
          → Conserves s (processor_step device pc s)
      unfolding processor_step
      processor_step-Conserves at_loop s at =
          omega (arith, ap weigh_processing at, weigh_processing-test s.processor_running)
      processor_step-Conserves (at_poll q) s at =
          polled-Conserves q s (pop q s.event_bus) (ap weigh_processing at)
            (weigh_bus-pop w q s.event_bus)
      processor_step-Conserves (at_submit evt) s at = omega (
        arith,
        ap weigh_processing at,
        pool_step-Conserves (submits evt) (record s { processing = at_loop }),
      )
      processor_step-Conserves done s at = refl

      step-Conserves : (m : Move) (s : System) → Conserves s (step device m s)
      unfolding step
      step-Conserves (client_pushes evt) s =
          offered-Conserves evt s (try_push (some evt) s.dispatcher)
            (weigh-try_push w (some evt) s.dispatcher)
      step-Conserves dispatcher_moves s = dispatcher_step-Conserves s.routing s refl
      step-Conserves dispatcher_stops s = omega arith
      step-Conserves processor_moves s = processor_step-Conserves s.processing s refl
      step-Conserves processor_stops s = omega arith
      step-Conserves (worker_moves i) s = omega (arith, pool_step-Conserves (takes_turn i) s)
      step-Conserves pool_stops s = omega (arith, pool_step-Conserves stops s)
      step-Conserves pool_clears s = omega (arith, pool_step-Conserves clears s)

      -- For any weight of events that does not look at the priority: what was under way and what
      -- `tryPush` accepted since weighs what is under way now and what left.
      pub run-Conserves :
          (ms : List Move) (s : System)
          → under_way s + arrived (run device ms s).1
            ≡ under_way (run device ms s).0 + left (run device ms s).1
      unfolding run
      run-Conserves [] s = refl
      run-Conserves (m ∷ ms) s =
          let (s', l) = step device m s in
          omega (
            arith,
            step-Conserves m s,
            run-Conserves ms s',
            arrived-append l (run device ms s').1,
            left-append l (run device ms s').1,
          )
