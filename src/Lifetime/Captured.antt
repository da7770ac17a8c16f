-- ===== src/Lifetime/Captured.antt =====
-- The `this` that a task holds: the processor is destroyed before the pool that runs its tasks.
use event_stream_core.Prelude.{
  ℕ, ◌≡◌, refl, sym, ap, subst, ◌∙◌, true, false, List, [], ◌∷◌, All, inl, inr,
}
use event_stream_core.Event.{Event}
use event_stream_core.ThreadPool.{turn_at, act, act_all, all_returned}
use event_stream_core.Storage.{Device}
use event_stream_core.System.{
  done, System, Move, client_pushes, dispatcher_moves, dispatcher_stops, processor_moves,
  processor_stops, worker_moves, pool_stops, pool_clears, pool_step, step,
}
use event_stream_core.System.Workers.{pool_part, step-pool}
use event_stream_core.Lifetime.{
  Stage, joining_processor, joining_workers, Object, storage_engine, worker_pool, captured_this,
  Program, is_alive, touched_at, after, Step, dispatcher_thread, processor_thread, worker_thread,
  client_thread, server_thread_starts, server_thread_ends, leaves_loop, server_joined,
  processor_joined, workers_joined, dispatcher_joined, Reach, here, next, started_program,
}
use event_stream_core.Lifetime.Threads.{step-done}
use event_stream_core.Lifetime.Joined.{Lives}
use event_stream_core.Lifetime.Alive.{Reach-Lives}
use event_stream_core.Lifetime.Idle.{
  waits_at, turn_at-working, is_captured, Free, touched_at-Free, dispatcher-Free, processor-Free,
  IsIdle, clear_if-IsIdle, takes_turn-IsIdle,
}

module _ (device : Device) where
  part-IsIdle :
      (m : Move) (s : System)
      → s.processing ≡ done
      → IsIdle s.worker_pool
      → IsIdle (act_all (pool_part m s) s.worker_pool).0
  unfolding act_all act
  part-IsIdle (client_pushes evt) s d idle = idle
  part-IsIdle dispatcher_moves s d idle = idle
  part-IsIdle dispatcher_stops s d idle = idle
  part-IsIdle processor_moves s d idle =
      subst
        (λ pc.
          IsIdle
            (act_all (pool_part processor_moves (record s { processing = pc })) s.worker_pool).0)
        (sym d) idle
  part-IsIdle processor_stops s d idle = idle
  part-IsIdle (worker_moves i) s d (t, w) =
      takes_turn-IsIdle i s.worker_pool.tasks s.worker_pool t w
  part-IsIdle pool_stops s d idle = idle
  part-IsIdle pool_clears s d idle =
      clear_if-IsIdle (all_returned s.worker_pool.workers) s.worker_pool idle

  step-IsIdle :
      (m : Move) (s : System)
      → s.processing ≡ done
      → IsIdle s.worker_pool
      → IsIdle (step device m s).0.worker_pool
  step-IsIdle m s d idle =
      subst (λ p. IsIdle p) (sym (step-pool device m s)) (part-IsIdle m s d idle)

  -- The processor's thread has ended, and the pool has nothing to do.
  abbrev IsQuiet : Program → Type 0
  IsQuiet p = (p.system.processing ≡ done) × IsIdle p.system.worker_pool

  after-IsQuiet : (m : Move) (p : Program) → IsQuiet p → IsQuiet (after device m p)
  after-IsQuiet m p (d, idle) = (step-done device m p.system d, step-IsIdle m p.system d idle)

  Step-IsQuiet : {p q : Program} {os : List Object} → Step device p os q → IsQuiet p → IsQuiet q
  Step-IsQuiet {p} dispatcher_thread h = after-IsQuiet dispatcher_moves p h
  Step-IsQuiet {p} processor_thread h = after-IsQuiet processor_moves p h
  Step-IsQuiet {p} (worker_thread i) h = after-IsQuiet (worker_moves i) p h
  Step-IsQuiet {p} (client_thread evt some) h = after-IsQuiet (client_pushes evt) p h
  Step-IsQuiet (server_thread_starts some) h = h
  Step-IsQuiet (server_thread_ends some) h = h
  Step-IsQuiet (leaves_loop at) h = h
  Step-IsQuiet {p} (server_joined at none_left) h = after-IsQuiet processor_stops p h
  Step-IsQuiet {p} (processor_joined at d) h = after-IsQuiet pool_stops p h
  Step-IsQuiet {p} (workers_joined at r) h =
      after-IsQuiet dispatcher_stops (after device pool_clears p) (after-IsQuiet pool_clears p h)
  Step-IsQuiet (dispatcher_joined at e) h = h

  Reach-IsQuiet : {p q : Program} → IsQuiet p → Reach device p q → IsQuiet q
  Reach-IsQuiet h here = h
  Reach-IsQuiet h (next r st) = Step-IsQuiet st (Reach-IsQuiet h r)

  Reach-trans : {p q r : Program} → Reach device p q → Reach device q r → Reach device p r
  Reach-trans a here = a
  Reach-trans a (next b st) = next (Reach-trans a b) st

  Step-Free : {p q : Program} {os : List Object} → Step device p os q → IsQuiet p → Free os
  Step-Free {p} dispatcher_thread h = dispatcher-Free p.system.routing
  Step-Free {p} processor_thread h = processor-Free p.system.processing
  Step-Free {p} (worker_thread i) (d, (t, w)) = touched_at-Free i p.system.worker_pool.workers w
  Step-Free (client_thread evt some) h = (refl, (refl, tt))
  Step-Free (server_thread_starts some) h = (refl, tt)
  Step-Free (server_thread_ends some) h = (refl, tt)
  Step-Free (leaves_loop at) h = tt
  Step-Free (server_joined at none_left) h = tt
  Step-Free (processor_joined at d) h = tt
  Step-Free (workers_joined at r) h = tt
  Step-Free (dispatcher_joined at e) h = tt

  alive_if_free :
      (stage : Stage) (o : Object) → Lives stage o → is_captured o ≡ false → is_alive stage o ≡ true
  alive_if_free stage o (inl alive) f = alive
  alive_if_free stage o (inr e) f = absurd (cc)

  alive_each :
      (stage : Stage) (os : List Object)
      → All (Lives stage) os
      → Free os
      → All (λ o. is_alive stage o ≡ true) os
  alive_each stage [] l f = tt
  alive_each stage (o ∷ os) (l, ls) (f, fs) = (alive_if_free stage o l f, alive_each stage os ls fs)

  -- When the processor's thread has ended and the pool has no task, queued or running, no thread
  -- touches a destroyed object any more, also not through the `this` of a task.
  pub Reach-alive :
      {s : System} {p q r : Program} {os : List Object}
      → Reach device (started_program s) p
      → p.system.processing ≡ done
      → IsIdle p.system.worker_pool
      → Reach device p q
      → Step device q os r
      → All (λ o. is_alive q.stage o ≡ true) os
  Reach-alive {q = q} {os = os} a d idle b st =
      alive_each q.stage os (Reach-Lives device (Reach-trans a b) st)
        (Step-Free st (Reach-IsQuiet (d, idle) b))

  -- When the destructor of the processor has joined its thread while a task is queued and a worker is
  -- in its wait, the program can go on so that the worker takes the task and reads the `this` of the
  -- processor, which is destroyed then.
  pub captured-dangles :
      (p : Program) (i : ℕ) (t : Event) (ts : List Event)
      → p.stage ≡ joining_processor
      → p.system.processing ≡ done
      → p.system.worker_pool.tasks ≡ t ∷ ts
      → waits_at i p.system.worker_pool.workers ≡ true
      → (q r : Program) × Reach device p q
        × Step device q (captured_this ∷ storage_engine ∷ worker_pool ∷ []) r
        × (is_alive q.stage captured_this ≡ false)
  unfolding step pool_step act
  captured-dangles p i t ts at d queued waits =
      let q₁ = record (after device pool_stops p) { stage = joining_workers } in
      let q₂ = after device (worker_moves i) q₁ in
      let q₃ = after device (worker_moves i) q₂ in
      let e : touched_at i q₂.system.worker_pool.workers
          ≡ captured_this ∷ storage_engine ∷ worker_pool ∷ [] =
        ap (λ l. touched_at i (turn_at i l false p.system.worker_pool.workers).1.0) queued
        ∙ turn_at-working i p.system.worker_pool.workers t ts false waits in
      (
        q₂,
        q₃,
        next (next here (processor_joined at d)) (worker_thread i),
        subst (λ os. Step device q₂ os q₃) e (worker_thread i),
        refl,
      )
