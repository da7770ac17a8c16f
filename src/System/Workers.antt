-- ===== src/System/Workers.antt =====
-- The pool of the system is a pool of `ThreadPool`: its part in a schedule is a schedule of its own.
use event_stream_core.Prelude.{
  ℕ, suc, ◌+◌, ◌≤◌, ◌<◌, ◌≡◌, refl, ap, sym, ◌∙◌, Bool, true, false, Option, none, some, List, [],
  ◌∷◌, ◌++◌, length, arith, ltb, Bool-cases, inl, inr,
}
use event_stream_core.Event.{Event, EventPtr}
use event_stream_core.EventBusMulti.{QueueId, EventBusMulti, push, pop}
use event_stream_core.Dispatcher.{Dispatcher, try_push, try_pop, max_attempts}
use event_stream_core.ThreadPool.{
  ThreadPool, Action, submits, takes_turn, stops, clears, act, act_all, all_returned,
}
use event_stream_core.ThreadPool.Shutdown.{one_if_same, turns_of, act_all-returned}
use event_stream_core.Storage.{Device}
use event_stream_core.System.{
  Routing, at_test, at_pop, at_push, ended, crashed, Processing, at_loop, done, at_poll, at_submit,
  System, Move, client_pushes, dispatcher_moves, dispatcher_stops, processor_moves, processor_stops,
  worker_moves, pool_stops, pool_clears, offered, taken, give_up, attempted, dispatcher_step,
  polled, pool_step, processor_step, step, run,
}

-- What a move does to the pool.
abbrev submission : Processing → List (Action Event)
submission (at_submit evt) = submits evt ∷ []
submission _ = []

abbrev pub pool_part : Move → System → List (Action Event)
pool_part processor_moves s = submission s.processing
pool_part (worker_moves i) s = takes_turn i ∷ []
pool_part pool_stops s = stops ∷ []
pool_part pool_clears s = clears ∷ []
pool_part _ s = []

abbrev pub worker_turns : ℕ → List Move → ℕ
worker_turns i [] = 0
worker_turns i (worker_moves j ∷ ms) = one_if_same i j + worker_turns i ms
worker_turns i (m ∷ ms) = worker_turns i ms

abbrev SamePool : System → List (Action Event) → System → Type 0
SamePool s actions s' = s'.worker_pool ≡ (act_all actions s.worker_pool).0

offered-pool :
    (evt : Event) (s : System) (p : Dispatcher × Bool)
    → (offered evt s p).0.worker_pool ≡ s.worker_pool
offered-pool evt s (d, true) = refl
offered-pool evt s (d, false) = refl

taken-pool :
    (s : System) (p : Dispatcher × Option EventPtr) → (taken s p).0.worker_pool ≡ s.worker_pool
taken-pool s (d, none) = refl
taken-pool s (d, some evt) = refl

give_up-pool : (evt : EventPtr) (s : System) → (give_up evt s).0.worker_pool ≡ s.worker_pool
give_up-pool none s = refl
give_up-pool (some evt) s = refl

attempted-pool :
    (retry : ℕ) (q : QueueId) (evt : EventPtr) (s : System) (p : EventBusMulti × Bool)
    → (attempted retry q evt s p).0.worker_pool ≡ s.worker_pool
attempted-pool retry q evt s (bus, true) = refl
attempted-pool retry q evt s (bus, false) = elim (Bool-cases (ltb (suc retry) max_attempts)) [
  | inl more ↦ rw more refl
  | inr last ↦ rw last (give_up-pool evt (record s { event_bus = bus }))
]

dispatcher_step-pool :
    (pc : Routing) (s : System) → (dispatcher_step pc s).0.worker_pool ≡ s.worker_pool
unfolding dispatcher_step
dispatcher_step-pool at_test s = refl
dispatcher_step-pool at_pop s = taken-pool s (try_pop s.dispatcher)
dispatcher_step-pool (at_push retry q evt) s = attempted-pool retry q evt s (push q evt s.event_bus)
dispatcher_step-pool ended s = refl
dispatcher_step-pool crashed s = refl

polled-pool :
    (q : QueueId) (s : System) (p : EventBusMulti × Option EventPtr)
    → (polled q s p).0.worker_pool ≡ s.worker_pool
polled-pool q s (bus, none) = refl
polled-pool q s (bus, some none) = refl
polled-pool q s (bus, some (some evt)) = refl

act_all-append :
    (xs ys : List (Action Event)) (p : ThreadPool Event)
    → (act_all (xs ++ ys) p).0 ≡ (act_all ys (act_all xs p).0).0
unfolding act_all
act_all-append [] ys p = refl
act_all-append (x ∷ xs) ys p = act_all-append xs ys (act x p).0

turns_of-append :
    (i : ℕ) (xs ys : List (Action Event)) → turns_of i (xs ++ ys) ≡ turns_of i xs + turns_of i ys
turns_of-append i [] ys = omega arith
turns_of-append i (submits t ∷ xs) ys = turns_of-append i xs ys
turns_of-append i (takes_turn j ∷ xs) ys = omega (arith, turns_of-append i xs ys)
turns_of-append i (stops ∷ xs) ys = turns_of-append i xs ys
turns_of-append i (clears ∷ xs) ys = turns_of-append i xs ys

turns_of-submission : (i : ℕ) (pc : Processing) → turns_of i (submission pc) ≡ 0
turns_of-submission i at_loop = refl
turns_of-submission i (at_poll q) = refl
turns_of-submission i (at_submit evt) = refl
turns_of-submission i done = refl

module _ (device : Device) where
  unfoldable pub pool_schedule : List Move → System → List (Action Event)
  pool_schedule [] s = []
  pool_schedule (m ∷ ms) s = pool_part m s ++ pool_schedule ms (step device m s).0

  processor_step-pool :
      (pc : Processing) (s : System) → SamePool s (submission pc) (processor_step device pc s).0
  unfolding processor_step pool_step act_all
  processor_step-pool at_loop s = refl
  processor_step-pool (at_poll q) s = polled-pool q s (pop q s.event_bus)
  processor_step-pool (at_submit evt) s = refl
  processor_step-pool done s = refl

  pub step-pool : (m : Move) (s : System) → SamePool s (pool_part m s) (step device m s).0
  unfolding step pool_step act_all
  step-pool (client_pushes evt) s = offered-pool evt s (try_push (some evt) s.dispatcher)
  step-pool dispatcher_moves s = dispatcher_step-pool s.routing s
  step-pool dispatcher_stops s = refl
  step-pool processor_moves s = processor_step-pool s.processing s
  step-pool processor_stops s = refl
  step-pool (worker_moves i) s = refl
  step-pool pool_stops s = refl
  step-pool pool_clears s = refl

  -- In every schedule the pool goes through a schedule of its own, so what is proved of the pool
  -- holds in the system.
  pub run-pool :
      (ms : List Move) (s : System)
      → (run device ms s).0.worker_pool ≡ (act_all (pool_schedule ms s) s.worker_pool).0
  unfolding run pool_schedule act_all
  run-pool [] s = refl
  run-pool (m ∷ ms) s =
      run-pool ms (step device m s).0
      ∙ ap (λ p. (act_all (pool_schedule ms (step device m s).0) p).0) (step-pool m s)
      ∙ sym (act_all-append (pool_part m s) (pool_schedule ms (step device m s).0) s.worker_pool)

  turns_of-pool_schedule :
      (i : ℕ) (ms : List Move) (s : System) → turns_of i (pool_schedule ms s) ≡ worker_turns i ms
  unfolding pool_schedule
  turns_of-pool_schedule i [] s = refl
  turns_of-pool_schedule i (processor_moves ∷ ms) s = omega (
    arith,
    turns_of-append i (submission s.processing)
        (pool_schedule ms (step device processor_moves s).0),
    turns_of-submission i s.processing,
    turns_of-pool_schedule i ms (step device processor_moves s).0,
  )
  turns_of-pool_schedule i (worker_moves j ∷ ms) s =
      omega (arith, turns_of-pool_schedule i ms (step device (worker_moves j) s).0)
  turns_of-pool_schedule i (client_pushes e ∷ ms) s =
      turns_of-pool_schedule i ms (step device (client_pushes e) s).0
  turns_of-pool_schedule i (dispatcher_moves ∷ ms) s =
      turns_of-pool_schedule i ms (step device dispatcher_moves s).0
  turns_of-pool_schedule i (dispatcher_stops ∷ ms) s =
      turns_of-pool_schedule i ms (step device dispatcher_stops s).0
  turns_of-pool_schedule i (processor_stops ∷ ms) s =
      turns_of-pool_schedule i ms (step device processor_stops s).0
  turns_of-pool_schedule i (pool_stops ∷ ms) s =
      turns_of-pool_schedule i ms (step device pool_stops s).0
  turns_of-pool_schedule i (pool_clears ∷ ms) s =
      turns_of-pool_schedule i ms (step device pool_clears s).0

  -- Once the flag of the pool is down, three turns of each worker end them all.
  pub run-returned :
      (ms : List Move) (s : System)
      → s.worker_pool.is_running ≡ false
      → ((i : ℕ) → i < length s.worker_pool.workers → 3 ≤ worker_turns i ms)
      → all_returned (run device ms s).0.worker_pool.workers ≡ true
  run-returned ms s down turns =
      ap (λ p. all_returned p.workers) (run-pool ms s)
      ∙ act_all-returned (pool_schedule ms s) s.worker_pool down
          (λ i l. omega (arith, turns i l, turns_of-pool_schedule i ms s))
