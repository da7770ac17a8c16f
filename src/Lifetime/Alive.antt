-- ===== src/Lifetime/Alive.antt =====
-- No thread touches an object of `main` behind its destructor, but for the `this` in a task.
use event_stream_core.Prelude.{◌+◌, ◌-◌, subst, List, All}
use event_stream_core.Storage.{Device}
use event_stream_core.System.{
  System, Move, client_pushes, dispatcher_moves, dispatcher_stops, processor_moves, worker_moves,
  pool_stops, pool_clears, step,
}
use event_stream_core.Lifetime.{
  Stage, serving, joining_server, joining_processor, joining_workers, joining_dispatcher,
  returned_zero, Object, Program, after, Step, dispatcher_thread, processor_thread, worker_thread,
  client_thread, server_thread_starts, server_thread_ends, leaves_loop, server_joined,
  processor_joined, workers_joined, dispatcher_joined, Reach, here, next, started_program,
}
use event_stream_core.Lifetime.Threads.{step-ended, step-done, step-returned}
use event_stream_core.Lifetime.Joined.{
  Joined, Lives, threads-Joined, dispatcher-Lives, processor-Lives, worker-Lives, server-Lives,
}

module _ (device : Device) where
  after-Joined :
      (stage : Stage) (m : Move) (p : Program) → Joined stage p → Joined stage (after device m p)
  after-Joined serving m p j = tt
  after-Joined joining_server m p j = tt
  after-Joined joining_processor m p j = j
  after-Joined joining_workers m p (t, d) = (t, step-done device m p.system d)
  after-Joined joining_dispatcher m p (t, d, r) =
      (t, step-done device m p.system d, step-returned device m p.system d r)
  after-Joined returned_zero m p (t, d, r, e) = (
    t,
    step-done device m p.system d,
    step-returned device m p.system d r,
    step-ended device m p.system e,
  )

  Step-Joined :
      {p q : Program} {os : List Object} → Step device p os q → Joined p.stage p → Joined q.stage q
  Step-Joined {p} dispatcher_thread j = after-Joined p.stage dispatcher_moves p j
  Step-Joined {p} processor_thread j = after-Joined p.stage processor_moves p j
  Step-Joined {p} (worker_thread i) j = after-Joined p.stage (worker_moves i) p j
  Step-Joined {p} (client_thread evt some) j = after-Joined p.stage (client_pushes evt) p j
  Step-Joined {p} (server_thread_starts some) j =
      threads-Joined p.stage p (p.server_threads + 1) some j
  Step-Joined {p} (server_thread_ends some) j =
      threads-Joined p.stage p (p.server_threads - 1) some j
  Step-Joined (leaves_loop at) j = tt
  Step-Joined (server_joined at none_left) j = none_left
  Step-Joined {p} (processor_joined at d) j =
      (subst (λ s. Joined s p) at j, step-done device pool_stops p.system d)
  Step-Joined {p} (workers_joined at r) j =
      let (t, d) = subst (λ s. Joined s p) at j in
      let cleared = (step device pool_clears p.system).0 in
      let d' = step-done device pool_clears p.system d in
      let r' = step-returned device pool_clears p.system d r in
      (
        t,
        step-done device dispatcher_stops cleared d',
        step-returned device dispatcher_stops cleared d' r',
      )
  Step-Joined {p} (dispatcher_joined at e) j =
      let (t, d, r) = subst (λ s. Joined s p) at j in (t, d, r, e)

  pub Reach-Joined : {p q : Program} → Joined p.stage p → Reach device p q → Joined q.stage q
  Reach-Joined j here = j
  Reach-Joined j (next r s) = Step-Joined s (Reach-Joined j r)

  Step-Lives :
      {p q : Program} {os : List Object}
      → Step device p os q
      → Joined p.stage p
      → All (Lives p.stage) os
  Step-Lives {p} dispatcher_thread j = dispatcher-Lives p.stage p j
  Step-Lives {p} processor_thread j = processor-Lives p.stage p j
  Step-Lives {p} (worker_thread i) j = worker-Lives p.stage i p j
  Step-Lives {p} (client_thread evt some) j =
      let (server, target) = server-Lives p.stage p some j in (server, (target, tt))
  Step-Lives {p} (server_thread_starts some) j = ((server-Lives p.stage p some j).0, tt)
  Step-Lives {p} (server_thread_ends some) j = ((server-Lives p.stage p some j).0, tt)
  Step-Lives (leaves_loop at) j = tt
  Step-Lives (server_joined at none_left) j = tt
  Step-Lives (processor_joined at d) j = tt
  Step-Lives (workers_joined at r) j = tt
  Step-Lives (dispatcher_joined at e) j = tt

  -- From what `main` starts to its return, whatever the threads do, no thread touches an object whose
  -- destructor has returned, but for a worker that reads the `this` of its task.
  pub Reach-Lives :
      {s : System} {p q : Program} {os : List Object}
      → Reach device (started_program s) p
      → Step device p os q
      → All (Lives p.stage) os
  Reach-Lives r st = Step-Lives st (Reach-Joined tt r)
