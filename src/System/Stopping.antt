-- ===== src/System/Stopping.antt =====
-- The end of the program: the threads once their flags are down.
use event_stream_core.Prelude.{
  ℕ, ◌+◌, ◌-◌, ◌≤◌, ◌<◌, ◌≡◌, ◌⊎◌, refl, ◌∙◌, Bool, true, false, Option, none, some, List, [], ◌∷◌,
  length, arith, inl, inr,
}
use event_stream_core.Event.{Event, EventPtr}
use event_stream_core.EventBusMulti.{
  QueueId, realtime, transactional, batch, EventBusMulti, push, pop,
}
use event_stream_core.Dispatcher.{Dispatcher, try_push, try_pop}
use event_stream_core.ThreadPool.{all_returned}
use event_stream_core.Storage.{Device}
use event_stream_core.System.{
  Routing, at_test, at_pop, at_push, ended, crashed, Processing, at_loop, done, at_poll, at_submit,
  System, Move, client_pushes, dispatcher_moves, dispatcher_stops, processor_moves, processor_stops,
  worker_moves, pool_stops, pool_clears, offered, taken, attempted, dispatcher_step, polled,
  pool_step, processor_step, step, run,
}
use event_stream_core.System.Workers.{worker_turns, run-returned}

-- How many more moves the processor's thread makes once its flag is down.
abbrev processor_rank : Processing → ℕ
processor_rank done = 0
processor_rank at_loop = 1
processor_rank (at_submit evt) = 2
processor_rank (at_poll batch) = 3
processor_rank (at_poll transactional) = 4
processor_rank (at_poll realtime) = 5

-- The same for the dispatcher's thread, with the attempts that are left.
abbrev dispatcher_rank : Routing → ℕ
dispatcher_rank ended = 0
dispatcher_rank crashed = 0
dispatcher_rank at_test = 1
dispatcher_rank (at_push retry q evt) = 2 + (4 - retry)
dispatcher_rank at_pop = 7

abbrev pub processor_turns : List Move → ℕ
processor_turns [] = 0
processor_turns (processor_moves ∷ ms) = 1 + processor_turns ms
processor_turns (m ∷ ms) = processor_turns ms

abbrev pub dispatcher_turns : List Move → ℕ
dispatcher_turns [] = 0
dispatcher_turns (dispatcher_moves ∷ ms) = 1 + dispatcher_turns ms
dispatcher_turns (m ∷ ms) = dispatcher_turns ms

-- Both flags of the loops are down.
abbrev IsStopping : System → Type 0
IsStopping s = (s.dispatcher.running ≡ false) × (s.processor_running ≡ false)

-- What a move does to the ranks, and that it raises no flag.
record Descends (m : Move) (s s' : System) : Type 0 where
  dispatcher_down : s'.dispatcher.running ≡ false
  processor_down : s'.processor_running ≡ false
  dispatcher_less :
      dispatcher_rank s'.routing ≤ dispatcher_rank s.routing - dispatcher_turns (m ∷ [])
  processor_less :
      processor_rank s'.processing ≤ processor_rank s.processing - processor_turns (m ∷ [])

try_push-running : (evt : EventPtr) (d : Dispatcher) → (try_push evt d).0.running ≡ d.running
unfolding try_push
try_push-running evt d = ground arith

try_pop-running : (d : Dispatcher) → (try_pop d).0.running ≡ d.running
unfolding try_pop
try_pop-running d = ground arith

offered-Descends :
    (evt : Event) (s : System) (p : Dispatcher × Bool)
    → IsStopping s
    → p.0.running ≡ false
    → Descends (client_pushes evt) s (offered evt s p).0
offered-Descends evt s (d, true) h e = ground arith
offered-Descends evt s (d, false) h e = ground arith

taken-Descends :
    (s : System) (p : Dispatcher × Option EventPtr)
    → IsStopping s
    → s.routing ≡ at_pop
    → p.0.running ≡ false
    → Descends dispatcher_moves s (taken s p).0
taken-Descends s (d, none) h at e = ground arith
taken-Descends s (d, some evt) h at e = ground arith

attempted-Descends :
    (retry : ℕ) (q : QueueId) (evt : EventPtr) (s : System) (p : EventBusMulti × Bool)
    → IsStopping s
    → s.routing ≡ at_push retry q evt
    → Descends dispatcher_moves s (attempted retry q evt s p).0
attempted-Descends retry q evt s (bus, true) h at = ground arith
attempted-Descends retry q none s (bus, false) h at = ground arith
attempted-Descends retry q (some evt) s (bus, false) h at = ground arith

dispatcher_step-Descends :
    (pc : Routing) (s : System)
    → IsStopping s
    → s.routing ≡ pc
    → Descends dispatcher_moves s (dispatcher_step pc s).0
unfolding dispatcher_step
dispatcher_step-Descends at_test s h at = ground arith
dispatcher_step-Descends at_pop s h at =
    taken-Descends s (try_pop s.dispatcher) h at (try_pop-running s.dispatcher ∙ h.0)
dispatcher_step-Descends (at_push retry q evt) s h at =
    attempted-Descends retry q evt s (push q evt s.event_bus) h at
dispatcher_step-Descends ended s h at = ground arith
dispatcher_step-Descends crashed s h at = ground arith

polled-Descends :
    (q : QueueId) (s : System) (p : EventBusMulti × Option EventPtr)
    → IsStopping s
    → s.processing ≡ at_poll q
    → Descends processor_moves s (polled q s p).0
polled-Descends realtime s (bus, none) h at = ground arith
polled-Descends transactional s (bus, none) h at = ground arith
polled-Descends batch s (bus, none) h at = ground arith
polled-Descends realtime s (bus, some none) h at = ground arith
polled-Descends transactional s (bus, some none) h at = ground arith
polled-Descends batch s (bus, some none) h at = ground arith
polled-Descends realtime s (bus, some (some evt)) h at = ground arith
polled-Descends transactional s (bus, some (some evt)) h at = ground arith
polled-Descends batch s (bus, some (some evt)) h at = ground arith

dispatcher_turns-cons :
    (m : Move) (ms : List Move)
    → dispatcher_turns (m ∷ ms) ≡ dispatcher_turns (m ∷ []) + dispatcher_turns ms
dispatcher_turns-cons dispatcher_moves ms = omega arith
dispatcher_turns-cons (client_pushes e) ms = omega arith
dispatcher_turns-cons m ms = omega arith

processor_turns-cons :
    (m : Move) (ms : List Move)
    → processor_turns (m ∷ ms) ≡ processor_turns (m ∷ []) + processor_turns ms
processor_turns-cons processor_moves ms = omega arith
processor_turns-cons (client_pushes e) ms = omega arith
processor_turns-cons m ms = omega arith

dispatcher_rank_bound : (pc : Routing) → dispatcher_rank pc ≤ 7
dispatcher_rank_bound at_test = omega arith
dispatcher_rank_bound at_pop = omega arith
dispatcher_rank_bound ended = omega arith
dispatcher_rank_bound crashed = omega arith
dispatcher_rank_bound (at_push retry q evt) = omega arith

processor_rank_bound : (pc : Processing) → processor_rank pc ≤ 5
processor_rank_bound at_loop = omega arith
processor_rank_bound done = omega arith
processor_rank_bound (at_poll realtime) = omega arith
processor_rank_bound (at_poll transactional) = omega arith
processor_rank_bound (at_poll batch) = omega arith
processor_rank_bound (at_submit evt) = omega arith

-- Behind the loop, or lost in the warning on a null event. No move puts one into a queue; a system
-- to start from may hold one.
abbrev pub IsOut : Routing → Type 0
IsOut pc = (pc ≡ ended) ⊎ (pc ≡ crashed)

rank-IsOut : (pc : Routing) → dispatcher_rank pc ≤ 0 → IsOut pc
rank-IsOut ended h = inl refl
rank-IsOut crashed h = inr refl
rank-IsOut at_test h = absurd (omega arith)
rank-IsOut at_pop h = absurd (omega arith)
rank-IsOut (at_push retry q evt) h = absurd (omega arith)

rank-done : (pc : Processing) → processor_rank pc ≤ 0 → pc ≡ done
rank-done done h = refl
rank-done at_loop h = absurd (omega arith)
rank-done (at_poll realtime) h = absurd (omega arith)
rank-done (at_poll transactional) h = absurd (omega arith)
rank-done (at_poll batch) h = absurd (omega arith)
rank-done (at_submit evt) h = absurd (omega arith)

module _ (device : Device) where
  processor_step-Descends :
      (pc : Processing) (s : System)
      → IsStopping s
      → s.processing ≡ pc
      → Descends processor_moves s (processor_step device pc s).0
  unfolding processor_step pool_step
  processor_step-Descends at_loop s h at = ground arith
  processor_step-Descends (at_poll q) s h at = polled-Descends q s (pop q s.event_bus) h at
  processor_step-Descends (at_submit evt) s h at = ground arith
  processor_step-Descends done s h at = ground arith

  step-Descends : (m : Move) (s : System) → IsStopping s → Descends m s (step device m s).0
  unfolding step pool_step
  step-Descends (client_pushes evt) s h =
      offered-Descends evt s (try_push (some evt) s.dispatcher) h
        (try_push-running (some evt) s.dispatcher ∙ h.0)
  step-Descends dispatcher_moves s h = dispatcher_step-Descends s.routing s h refl
  step-Descends dispatcher_stops s h = ground arith
  step-Descends processor_moves s h = processor_step-Descends s.processing s h refl
  step-Descends processor_stops s h = ground arith
  step-Descends (worker_moves i) s h = ground arith
  step-Descends pool_stops s h = ground arith
  step-Descends pool_clears s h = ground arith

  run-ranks :
      (ms : List Move) (s : System)
      → IsStopping s
      → let s' = (run device ms s).0 in
        (dispatcher_rank s'.routing ≤ dispatcher_rank s.routing - dispatcher_turns ms)
        × (processor_rank s'.processing ≤ processor_rank s.processing - processor_turns ms)
  unfolding run
  run-ranks [] s h = omega arith
  run-ranks (m ∷ ms) s h =
      let d = step-Descends m s h in
      omega (
        arith,
        d.dispatcher_less,
        d.processor_less,
        dispatcher_turns-cons m ms,
        processor_turns-cons m ms,
        run-ranks ms (step device m s).0 (d.dispatcher_down, d.processor_down),
      )

  -- Once the three flags are down, every schedule that gives the dispatcher seven moves, the
  -- processor five and each worker three ends all of these threads, whatever clients push meanwhile
  -- and however much is queued; the dispatcher's is behind its loop, or was lost in the warning on a
  -- null event.
  pub run-ended :
      (ms : List Move) (s : System)
      → s.dispatcher.running ≡ false
      → s.processor_running ≡ false
      → s.worker_pool.is_running ≡ false
      → 7 ≤ dispatcher_turns ms
      → 5 ≤ processor_turns ms
      → ((i : ℕ) → i < length s.worker_pool.workers → 3 ≤ worker_turns i ms)
      → let s' = (run device ms s).0 in
        IsOut s'.routing × (s'.processing ≡ done) × (all_returned s'.worker_pool.workers ≡ true)
  run-ended ms s d p w dt pt wt =
      let ranks = run-ranks ms s (d, p) in
      (
        rank-IsOut (run device ms s).0.routing
            (omega (arith, ranks, dispatcher_rank_bound s.routing)),
        rank-done (run device ms s).0.processing
            (omega (arith, ranks, processor_rank_bound s.processing)),
        run-returned device ms s w wt,
      )
