-- ===== src/System/Weights.antt =====
-- How much a list of events weighs, and what operations on the parts do to the weight of their
-- contents. The weight `w` of an event is any function; the count of some events is one.
use event_stream_core.Prelude.{
  ℕ, zero, suc, ◌+◌, ◌≡◌, refl, Bool, true, false, Option, none, some, List, [], ◌∷◌, ◌++◌, map,
  arith,
}
use event_stream_core.Event.{EventPriority, medium, Event, EventPtr}
use event_stream_core.EventBusMulti.{
  QueueId, realtime, transactional, batch, EventBusMulti, push, pop,
}
use event_stream_core.TopicTable.{Table}
use event_stream_core.Dispatcher.{Dispatcher, try_push, try_pop, with_priority, look_up, route}
use event_stream_core.ThreadPool.{
  Worker, testing, waiting, returned, working, ThreadPool, Log, submitted, finished, dropped,
  Action, submits, takes_turn, stops, clears, worker_turn, turn_at, clear_if, all_returned, act,
}

module _ (w : Event → ℕ) where
  abbrev pub weigh : List Event → ℕ
  weigh [] = 0
  weigh (e ∷ es) = w e + weigh es

  -- A null pointer weighs nothing.
  abbrev pub weigh_ptr : EventPtr → ℕ
  weigh_ptr none = 0
  weigh_ptr (some e) = w e

  abbrev pub weigh_ptrs : List EventPtr → ℕ
  weigh_ptrs [] = 0
  weigh_ptrs (e ∷ es) = weigh_ptr e + weigh_ptrs es

  abbrev pub weigh_bus : EventBusMulti → ℕ
  weigh_bus bus =
      weigh_ptrs bus.realtime_bus.dq
      + weigh_ptrs bus.transactional_bus.dq
      + weigh_ptrs bus.batch_bus.dq

  abbrev pub weigh_workers : List (Worker Event) → ℕ
  weigh_workers [] = 0
  weigh_workers (working e ∷ ws) = w e + weigh_workers ws
  weigh_workers (x ∷ ws) = weigh_workers ws

  abbrev pub weigh_pool : ThreadPool Event → ℕ
  weigh_pool p = weigh p.tasks + weigh_workers p.workers

  pub weigh-append : (xs ys : List Event) → weigh (xs ++ ys) ≡ weigh xs + weigh ys
  weigh-append [] ys = omega arith
  weigh-append (x ∷ xs) ys = omega (arith, weigh-append xs ys)

  pub weigh_ptrs-append :
      (xs ys : List EventPtr) → weigh_ptrs (xs ++ ys) ≡ weigh_ptrs xs + weigh_ptrs ys
  weigh_ptrs-append [] ys = omega arith
  weigh_ptrs-append (x ∷ xs) ys = omega (arith, weigh_ptrs-append xs ys)

  abbrev pub weigh_if : Bool → EventPtr → ℕ
  weigh_if true e = weigh_ptr e
  weigh_if false e = 0

  pub weigh_bus-push :
      (q : QueueId) (e : EventPtr) (bus : EventBusMulti)
      → weigh_bus (push q e bus).0 ≡ weigh_bus bus + weigh_if (push q e bus).1 e
  unfolding push
  weigh_bus-push realtime e bus = ground (arith, weigh_ptrs-append bus.realtime_bus.dq (e ∷ []))
  weigh_bus-push transactional e bus =
      ground (arith, weigh_ptrs-append bus.transactional_bus.dq (e ∷ []))
  weigh_bus-push batch e bus = ground (arith, weigh_ptrs-append bus.batch_bus.dq (e ∷ []))

  abbrev pub weigh_popped : Option EventPtr → ℕ
  weigh_popped none = 0
  weigh_popped (some e) = weigh_ptr e

  pub weigh_bus-pop :
      (q : QueueId) (bus : EventBusMulti)
      → weigh_bus bus ≡ weigh_bus (pop q bus).0 + weigh_popped (pop q bus).1
  unfolding pop
  weigh_bus-pop realtime bus = ground arith
  weigh_bus-pop transactional bus = ground arith
  weigh_bus-pop batch bus = ground arith

  pub weigh-try_push :
      (e : EventPtr) (d : Dispatcher)
      → weigh_ptrs (try_push e d).0.inbound_queue
        ≡ weigh_ptrs d.inbound_queue + weigh_if (try_push e d).1 e
  unfolding try_push
  weigh-try_push e d = ground (arith, weigh_ptrs-append d.inbound_queue (e ∷ []))

  pub weigh-try_pop :
      (d : Dispatcher)
      → weigh_ptrs d.inbound_queue
        ≡ weigh_ptrs (try_pop d).0.inbound_queue + weigh_popped (try_pop d).1
  unfolding try_pop
  weigh-try_pop d = ground arith

  pub weigh-route :
      ((p : EventPriority) (e : Event) → w (with_priority p e) ≡ w e)
      → (table : Option Table) (e : EventPtr) → weigh_ptr (route table e).0 ≡ weigh_ptr e
  unfolding route
  weigh-route h table none = refl
  weigh-route h table (some e) = ground (arith, h (look_up table e medium) e)

  -- What a stretch of the pool takes in, and what it is done with.
  abbrev pub weigh_in : List (Log Event) → ℕ
  weigh_in [] = 0
  weigh_in (submitted e ∷ l) = w e + weigh_in l
  weigh_in (x ∷ l) = weigh_in l

  abbrev pub weigh_out : List (Log Event) → ℕ
  weigh_out [] = 0
  weigh_out (finished e ∷ l) = w e + weigh_out l
  weigh_out (dropped e ∷ l) = w e + weigh_out l
  weigh_out (x ∷ l) = weigh_out l

  abbrev KeepsWeight : ℕ → ℕ → List (Log Event) → Type 0
  KeepsWeight before after log = before + weigh_in log ≡ after + weigh_out log

  worker_turn-KeepsWeight :
      (tasks : List Event) (r : Bool) (x : Worker Event)
      → let (tasks', (x', log)) = worker_turn tasks r x in
        KeepsWeight
          (weigh tasks + weigh_workers (x ∷ []))
          (weigh tasks' + weigh_workers (x' ∷ []))
          log
  worker_turn-KeepsWeight tasks r testing = ground arith
  worker_turn-KeepsWeight (t ∷ ts) r waiting = omega arith
  worker_turn-KeepsWeight [] true waiting = refl
  worker_turn-KeepsWeight [] false waiting = refl
  worker_turn-KeepsWeight tasks r (working t) = omega arith
  worker_turn-KeepsWeight tasks r returned = refl

  weigh_workers-cons :
      (x : Worker Event) (ws : List (Worker Event))
      → weigh_workers (x ∷ ws) ≡ weigh_workers (x ∷ []) + weigh_workers ws
  weigh_workers-cons testing ws = omega arith
  weigh_workers-cons waiting ws = omega arith
  weigh_workers-cons returned ws = omega arith
  weigh_workers-cons (working t) ws = omega arith

  turn_at-KeepsWeight :
      (i : ℕ) (tasks : List Event) (r : Bool) (ws : List (Worker Event))
      → let (tasks', (ws', log)) = turn_at i tasks r ws in
        KeepsWeight (weigh tasks + weigh_workers ws) (weigh tasks' + weigh_workers ws') log
  unfolding turn_at
  turn_at-KeepsWeight i tasks r [] = refl
  turn_at-KeepsWeight zero tasks r (x ∷ ws) = omega (
    arith,
    worker_turn-KeepsWeight tasks r x,
    weigh_workers-cons x ws,
    weigh_workers-cons (worker_turn tasks r x).1.0 ws,
  )
  turn_at-KeepsWeight (suc i) tasks r (x ∷ ws) = omega (
    arith,
    turn_at-KeepsWeight i tasks r ws,
    weigh_workers-cons x ws,
    weigh_workers-cons x (turn_at i tasks r ws).1.0,
  )

  weigh_in-dropped : (ts : List Event) → weigh_in (map dropped ts) ≡ 0
  weigh_in-dropped [] = refl
  weigh_in-dropped (t ∷ ts) = weigh_in-dropped ts

  weigh_out-dropped : (ts : List Event) → weigh_out (map dropped ts) ≡ weigh ts
  weigh_out-dropped [] = refl
  weigh_out-dropped (t ∷ ts) = omega (arith, weigh_out-dropped ts)

  clear_if-KeepsWeight :
      (b : Bool) (p : ThreadPool Event)
      → KeepsWeight (weigh_pool p) (weigh_pool (clear_if b p).0) (clear_if b p).1
  clear_if-KeepsWeight true p = omega (arith, weigh_in-dropped p.tasks, weigh_out-dropped p.tasks)
  clear_if-KeepsWeight false p = refl

  pub weigh_pool-act :
      (a : Action Event) (p : ThreadPool Event)
      → weigh_pool p + weigh_in (act a p).1 ≡ weigh_pool (act a p).0 + weigh_out (act a p).1
  unfolding act
  weigh_pool-act (submits t) p = omega (arith, weigh-append p.tasks (t ∷ []))
  weigh_pool-act (takes_turn i) p = turn_at-KeepsWeight i p.tasks p.is_running p.workers
  weigh_pool-act stops p = refl
  weigh_pool-act clears p = clear_if-KeepsWeight (all_returned p.workers) p

  worker_turn-in :
      (tasks : List Event) (r : Bool) (x : Worker Event) → weigh_in (worker_turn tasks r x).1.1 ≡ 0
  worker_turn-in tasks r testing = refl
  worker_turn-in (t ∷ ts) r waiting = refl
  worker_turn-in [] true waiting = refl
  worker_turn-in [] false waiting = refl
  worker_turn-in tasks r (working t) = refl
  worker_turn-in tasks r returned = refl

  turn_at-in :
      (i : ℕ) (tasks : List Event) (r : Bool) (ws : List (Worker Event))
      → weigh_in (turn_at i tasks r ws).1.1 ≡ 0
  unfolding turn_at
  turn_at-in i tasks r [] = refl
  turn_at-in zero tasks r (x ∷ ws) = worker_turn-in tasks r x
  turn_at-in (suc i) tasks r (x ∷ ws) = turn_at-in i tasks r ws

  clear_if-in : (b : Bool) (p : ThreadPool Event) → weigh_in (clear_if b p).1 ≡ 0
  clear_if-in true p = weigh_in-dropped p.tasks
  clear_if-in false p = refl

  -- The task that an action submits.
  abbrev pub weigh_action : Action Event → ℕ
  weigh_action (submits t) = w t
  weigh_action a = 0

  pub weigh_in-act :
      (a : Action Event) (p : ThreadPool Event) → weigh_in (act a p).1 ≡ weigh_action a
  unfolding act
  weigh_in-act (submits t) p = omega arith
  weigh_in-act (takes_turn i) p = turn_at-in i p.tasks p.is_running p.workers
  weigh_in-act stops p = refl
  weigh_in-act clears p = clear_if-in (all_returned p.workers) p
