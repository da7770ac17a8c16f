-- ===== src/System/Accounts.antt =====
-- What became of every accepted event, in every interleaving of the threads.
use event_stream_core.Prelude.{
  ℕ, ◌+◌, ◌≡◌, refl, ap, sym, ◌∙◌, subst, Bool, suc, true, false, Bool-cases, inl, inr, ltb, Option,
  none, some, List, [], ◌∷◌, ◌++◌, Result, arith,
}
use event_stream_core.Event.{EventPriority, Event, EventPtr}
use event_stream_core.EventBusMulti.{QueueId, EventBusMulti, push, pop}
use event_stream_core.Dispatcher.{Dispatcher, try_push, try_pop, with_priority, max_attempts}
use event_stream_core.ThreadPool.{
  Log as PoolLog, submitted, started, finished, dropped, Action, submits, takes_turn, stops, clears,
  act,
}
use event_stream_core.Storage.{Device, StorageEngine, StorageError, store_event}
use event_stream_core.Storage.Durable.{store_all, store_all-Log, Log}
use event_stream_core.System.{
  Routing, at_test, at_pop, at_push, ended, crashed, Processing, at_loop, done, at_poll, at_submit,
  System, Entry, gave_up, stored, discarded, Move, client_pushes, dispatcher_moves,
  dispatcher_stops, processor_moves, processor_stops, worker_moves, pool_stops, pool_clears,
  offered, taken, give_up, attempted, dispatcher_step, polled, run_tasks, pool_step, processor_step,
  step, run,
}
use event_stream_core.System.Weights.{weigh, weigh_ptrs, weigh-append}
use event_stream_core.System.Conserved.{under_way, arrived, left, run-Conserves}

-- The calls of `storeEvent`, and how each ended.
abbrev pub attempts : List Entry → List Event
attempts [] = []
attempts (stored e r ∷ l) = e ∷ attempts l
attempts (x ∷ l) = attempts l

abbrev pub results : List Entry → List (Result StorageError (Unit {0}))
results [] = []
results (stored e r ∷ l) = r ∷ results l
results (x ∷ l) = results l

-- The events that the dispatcher gave up, and those that `shutdown` cleared.
abbrev pub abandoned : List Entry → List EventPtr
abandoned [] = []
abandoned (gave_up e ∷ l) = e ∷ abandoned l
abandoned (x ∷ l) = abandoned l

abbrev pub cleared : List Entry → List Event
cleared [] = []
cleared (discarded e ∷ l) = e ∷ cleared l
cleared (x ∷ l) = cleared l

left-parts :
    (w : Event → ℕ) (l : List Entry)
    → left w l ≡ weigh w (attempts l) + weigh_ptrs w (abandoned l) + weigh w (cleared l)
left-parts w [] = refl
left-parts w (stored e r ∷ l) = omega (arith, left-parts w l)
left-parts w (gave_up e ∷ l) = omega (arith, left-parts w l)
left-parts w (discarded e ∷ l) = omega (arith, left-parts w l)
left-parts w (x ∷ l) = left-parts w l

attempts-append : (l m : List Entry) → attempts (l ++ m) ≡ attempts l ++ attempts m
attempts-append [] m = refl
attempts-append (stored e r ∷ l) m = ap (◌∷◌ e) (attempts-append l m)
attempts-append (x ∷ l) m = attempts-append l m

results-append : (l m : List Entry) → results (l ++ m) ≡ results l ++ results m
results-append [] m = refl
results-append (stored e r ∷ l) m = ap (◌∷◌ r) (results-append l m)
results-append (x ∷ l) m = results-append l m

module _ (device : Device) where
  -- The calls of `storeEvent` are made one after the other on the storage, and nothing else is.
  abbrev Stores : StorageEngine → StorageEngine → List Entry → Type 0
  Stores s s' l = store_all device (attempts l) s ≡ (s', results l)

  store_all-then :
      (es fs : List Event) (s : StorageEngine)
      → let (mid, rs) = store_all device es s in
        let (last, rs') = store_all device fs mid in
        store_all device (es ++ fs) s ≡ (last, rs ++ rs')
  unfolding store_all
  store_all-then [] fs s = refl
  store_all-then (e ∷ es) fs s =
      let (s', r) = store_event device e s in ap (λ p. (p.0, r ∷ p.1)) (store_all-then es fs s')

  Stores-append :
      (s mid last : StorageEngine) (l m : List Entry)
      → Stores s mid l
      → Stores mid last m
      → Stores s last (l ++ m)
  Stores-append s mid last l m first then_rest =
      ap (λ es. store_all device es s) (attempts-append l m)
      ∙ store_all-then (attempts l) (attempts m) s
      ∙ ap
          (λ p.
            ((store_all device (attempts m) p.0).0, p.1 ++ (store_all device (attempts m) p.0).1))
          first
      ∙ ap (λ p. (p.0, results l ++ p.1)) then_rest
      ∙ ap (λ rs. (last, rs)) (sym (results-append l m))

  run_tasks-Stores :
      (log : List (PoolLog Event)) (s : StorageEngine)
      → Stores s (run_tasks device log s).0 (run_tasks device log s).1
  unfolding store_all
  run_tasks-Stores [] s = refl
  run_tasks-Stores (submitted e ∷ log) s = run_tasks-Stores log s
  run_tasks-Stores (started e ∷ log) s = run_tasks-Stores log s
  run_tasks-Stores (dropped e ∷ log) s = run_tasks-Stores log s
  run_tasks-Stores (finished e ∷ log) s =
      let (s', r) = store_event device e s in ap (λ p. (p.0, r ∷ p.1)) (run_tasks-Stores log s')

  abbrev StepStores : System → System × List Entry → Type 0
  StepStores s (s', l) = Stores s.storage s'.storage l

  offered-StepStores :
      (evt : Event) (s : System) (p : Dispatcher × Bool) → StepStores s (offered evt s p)
  unfolding store_all
  offered-StepStores evt s (d, true) = refl
  offered-StepStores evt s (d, false) = refl

  taken-StepStores : (s : System) (p : Dispatcher × Option EventPtr) → StepStores s (taken s p)
  unfolding store_all
  taken-StepStores s (d, none) = refl
  taken-StepStores s (d, some evt) = refl

  give_up-StepStores : (evt : EventPtr) (s : System) → StepStores s (give_up evt s)
  unfolding store_all
  give_up-StepStores none s = refl
  give_up-StepStores (some evt) s = refl

  attempted-StepStores :
      (retry : ℕ) (q : QueueId) (evt : EventPtr) (s : System) (p : EventBusMulti × Bool)
      → StepStores s (attempted retry q evt s p)
  unfolding store_all
  attempted-StepStores retry q evt s (bus, true) = refl
  attempted-StepStores retry q evt s (bus, false) =
      elim (Bool-cases (ltb (suc retry) max_attempts)) [
        | inl more ↦ rw more refl
        | inr last ↦ rw last (give_up-StepStores evt (record s { event_bus = bus }))
      ]

  polled-StepStores :
      (q : QueueId) (s : System) (p : EventBusMulti × Option EventPtr) → StepStores s (polled q s p)
  unfolding store_all
  polled-StepStores q s (bus, none) = refl
  polled-StepStores q s (bus, some none) = refl
  polled-StepStores q s (bus, some (some evt)) = refl

  pool_step-StepStores : (a : Action Event) (s : System) → StepStores s (pool_step device a s)
  unfolding pool_step
  pool_step-StepStores a s = run_tasks-Stores (act a s.worker_pool).1 s.storage

  dispatcher_step-StepStores : (pc : Routing) (s : System) → StepStores s (dispatcher_step pc s)
  unfolding dispatcher_step store_all
  dispatcher_step-StepStores at_test s = refl
  dispatcher_step-StepStores at_pop s = taken-StepStores s (try_pop s.dispatcher)
  dispatcher_step-StepStores (at_push retry q evt) s =
      attempted-StepStores retry q evt s (push q evt s.event_bus)
  dispatcher_step-StepStores ended s = refl
  dispatcher_step-StepStores crashed s = refl

  processor_step-StepStores :
      (pc : Processing) (s : System) → StepStores s (processor_step device pc s)
  unfolding processor_step store_all
  processor_step-StepStores at_loop s = refl
  processor_step-StepStores (at_poll q) s = polled-StepStores q s (pop q s.event_bus)
  processor_step-StepStores (at_submit evt) s =
      pool_step-StepStores (submits evt) (record s { processing = at_loop })
  processor_step-StepStores done s = refl

  step-StepStores : (m : Move) (s : System) → StepStores s (step device m s)
  unfolding step store_all
  step-StepStores (client_pushes evt) s =
      offered-StepStores evt s (try_push (some evt) s.dispatcher)
  step-StepStores dispatcher_moves s = dispatcher_step-StepStores s.routing s
  step-StepStores dispatcher_stops s = refl
  step-StepStores processor_moves s = processor_step-StepStores s.processing s
  step-StepStores processor_stops s = refl
  step-StepStores (worker_moves i) s = pool_step-StepStores (takes_turn i) s
  step-StepStores pool_stops s = pool_step-StepStores stops s
  step-StepStores pool_clears s = pool_step-StepStores clears s

  run-StepStores : (ms : List Move) (s : System) → StepStores s (run device ms s)
  unfolding run store_all
  run-StepStores [] s = refl
  run-StepStores (m ∷ ms) s =
      let (s', l) = step device m s in
      Stores-append s.storage s'.storage (run device ms s').0.storage l (run device ms s').1
        (step-StepStores m s) (run-StepStores ms s')

  run-Log :
      (ms : List Move) (s : System)
      → s.storage.good ≡ true
      → let (s', l) = run device ms s in Log (attempts l) s.storage s'.storage (results l)
  run-Log ms s good =
      let l = (run device ms s).1 in
      subst (λ p. Log (attempts l) s.storage p.0 p.1) (run-StepStores ms s)
        (store_all-Log device (attempts l) s.storage good)

  -- For any weight of events that does not look at the priority, such as the number of events with
  -- some id, and every schedule of the threads, from a storage whose stream is good on: what was
  -- under way and what `tryPush` accepted since weighs what is under way now and what had one of four
  -- ends. It was stored, and its record lies whole in the file; or its call of `storeEvent` threw,
  -- which comes after all calls that returned; or the dispatcher gave it up behind the last attempt;
  -- or it was cleared with the queue of the pool.
  pub run-Accounts :
      (w : Event → ℕ) (ms : List Move) (s : System)
      → ((p : EventPriority) (e : Event) → w (with_priority p e) ≡ w e)
      → s.storage.good ≡ true
      → let (s', l) = run device ms s in
        (log : Log (attempts l) s.storage s'.storage (results l)) × (under_way w s + arrived w l
          ≡ under_way w s'
            + weigh w log.stored
            + weigh w log.refused
            + weigh_ptrs w (abandoned l)
            + weigh w (cleared l))
  run-Accounts w ms s h good =
      let l = (run device ms s).1 in
      let log = run-Log ms s good in
      (
        log,
        omega (
          arith,
          run-Conserves w h device ms s,
          left-parts w l,
          ap (weigh w) log.splits,
          weigh-append w log.stored log.refused,
        ),
      )
