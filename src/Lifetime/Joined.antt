-- ===== src/Lifetime/Joined.antt =====
-- Which threads have ended at a stage of `main`, and that the others touch no dead object there.
use event_stream_core.Prelude.{
  ℕ, zero, suc, ◌<◌, ◌≡◌, ◌⊎◌, refl, sym, subst, true, List, [], ◌∷◌, All, arith, inl, inr,
}
use event_stream_core.Event.{Event}
use event_stream_core.ThreadPool.{Worker, testing, waiting, working, returned, all_returned}
use event_stream_core.System.{
  Routing, at_test, at_pop, at_push, ended, crashed, Processing, at_loop, done, at_poll, at_submit,
}
use event_stream_core.Lifetime.{
  Stage, serving, joining_server, joining_processor, joining_workers, joining_dispatcher,
  returned_zero, Object, event_bus, dispatcher, topic_table, storage_engine, worker_pool, processor,
  tcp_server, captured_this, Program, is_alive, touched_by_dispatcher, touched_by_processor,
  touched_at,
}

-- Which threads have ended when `main` is there.
abbrev pub Joined : Stage → Program → Type 0
Joined serving p = Unit
Joined joining_server p = Unit
Joined joining_processor p = p.server_threads ≡ 0
Joined joining_workers p = (p.server_threads ≡ 0) × (p.system.processing ≡ done)
Joined joining_dispatcher p =
    (p.server_threads ≡ 0)
    × (p.system.processing ≡ done)
    × (all_returned p.system.worker_pool.workers ≡ true)
Joined returned_zero p =
    (p.server_threads ≡ 0)
    × (p.system.processing ≡ done)
    × (all_returned p.system.worker_pool.workers ≡ true)
    × (p.system.routing ≡ ended)

pub threads-Joined :
    (stage : Stage) (p : Program) (n : ℕ)
    → 0 < p.server_threads
    → Joined stage p
    → Joined stage (record p { server_threads = n })
threads-Joined serving p n some j = tt
threads-Joined joining_server p n some j = tt
threads-Joined joining_processor p n some j = absurd (omega (arith, some, j))
threads-Joined joining_workers p n some j = absurd (omega (arith, some, j.0))
threads-Joined joining_dispatcher p n some j = absurd (omega (arith, some, j.0))
threads-Joined returned_zero p n some j = absurd (omega (arith, some, j.0))

abbrev pub Lives : Stage → Object → Type 0
Lives stage o = (is_alive stage o ≡ true) ⊎ (o ≡ captured_this)

touched_by_dispatcher-Lives :
    (stage : Stage) (pc : Routing)
    → is_alive stage dispatcher ≡ true
    → is_alive stage topic_table ≡ true
    → is_alive stage event_bus ≡ true
    → All (Lives stage) (touched_by_dispatcher pc)
touched_by_dispatcher-Lives stage at_test d t b = (inl d, tt)
touched_by_dispatcher-Lives stage at_pop d t b = (inl d, (inl t, tt))
touched_by_dispatcher-Lives stage (at_push retry q evt) d t b = (inl d, (inl b, tt))
touched_by_dispatcher-Lives stage ended d t b = tt
touched_by_dispatcher-Lives stage crashed d t b = tt

pub dispatcher-Lives :
    (stage : Stage) (p : Program)
    → Joined stage p
    → All (Lives stage) (touched_by_dispatcher p.system.routing)
dispatcher-Lives serving p j = touched_by_dispatcher-Lives serving p.system.routing refl refl refl
dispatcher-Lives joining_server p j =
    touched_by_dispatcher-Lives joining_server p.system.routing refl refl refl
dispatcher-Lives joining_processor p j =
    touched_by_dispatcher-Lives joining_processor p.system.routing refl refl refl
dispatcher-Lives joining_workers p j =
    touched_by_dispatcher-Lives joining_workers p.system.routing refl refl refl
dispatcher-Lives joining_dispatcher p j =
    touched_by_dispatcher-Lives joining_dispatcher p.system.routing refl refl refl
dispatcher-Lives returned_zero p (t, d, r, e) =
    subst (λ pc. All (Lives returned_zero) (touched_by_dispatcher pc)) (sym e) tt

touched_by_processor-Lives :
    (stage : Stage) (pc : Processing)
    → is_alive stage processor ≡ true
    → is_alive stage event_bus ≡ true
    → is_alive stage worker_pool ≡ true
    → All (Lives stage) (touched_by_processor pc)
touched_by_processor-Lives stage at_loop d b w = (inl d, tt)
touched_by_processor-Lives stage (at_poll q) d b w = (inl d, (inl b, tt))
touched_by_processor-Lives stage (at_submit evt) d b w = (inl d, (inl w, tt))
touched_by_processor-Lives stage done d b w = tt

processor_done :
    (stage : Stage) (pc : Processing) → pc ≡ done → All (Lives stage) (touched_by_processor pc)
processor_done stage pc e = subst (λ x. All (Lives stage) (touched_by_processor x)) (sym e) tt

pub processor-Lives :
    (stage : Stage) (p : Program)
    → Joined stage p
    → All (Lives stage) (touched_by_processor p.system.processing)
processor-Lives serving p j = touched_by_processor-Lives serving p.system.processing refl refl refl
processor-Lives joining_server p j =
    touched_by_processor-Lives joining_server p.system.processing refl refl refl
processor-Lives joining_processor p j =
    touched_by_processor-Lives joining_processor p.system.processing refl refl refl
processor-Lives joining_workers p j = processor_done joining_workers p.system.processing j.1
processor-Lives joining_dispatcher p j = processor_done joining_dispatcher p.system.processing j.1
processor-Lives returned_zero p j = processor_done returned_zero p.system.processing j.1

touched_at-Lives :
    (stage : Stage) (i : ℕ) (ws : List (Worker Event))
    → is_alive stage worker_pool ≡ true
    → is_alive stage storage_engine ≡ true
    → All (Lives stage) (touched_at i ws)
touched_at-Lives stage i [] w s = tt
touched_at-Lives stage zero (testing ∷ ws) w s = (inl w, tt)
touched_at-Lives stage zero (waiting ∷ ws) w s = (inl w, tt)
touched_at-Lives stage zero (working evt ∷ ws) w s = (inr refl, (inl s, (inl w, tt)))
touched_at-Lives stage zero (returned ∷ ws) w s = tt
touched_at-Lives stage (suc i) (x ∷ ws) w s = touched_at-Lives stage i ws w s

worker_returned :
    (stage : Stage) (i : ℕ) (ws : List (Worker Event))
    → all_returned ws ≡ true
    → All (Lives stage) (touched_at i ws)
worker_returned stage i [] r = tt
worker_returned stage zero (returned ∷ ws) r = tt
worker_returned stage (suc i) (returned ∷ ws) r = worker_returned stage i ws r
worker_returned stage i (testing ∷ ws) r = absurd (cc)
worker_returned stage i (waiting ∷ ws) r = absurd (cc)
worker_returned stage i (working evt ∷ ws) r = absurd (cc)

pub worker-Lives :
    (stage : Stage) (i : ℕ) (p : Program)
    → Joined stage p
    → All (Lives stage) (touched_at i p.system.worker_pool.workers)
worker-Lives serving i p j = touched_at-Lives serving i p.system.worker_pool.workers refl refl
worker-Lives joining_server i p j =
    touched_at-Lives joining_server i p.system.worker_pool.workers refl refl
worker-Lives joining_processor i p j =
    touched_at-Lives joining_processor i p.system.worker_pool.workers refl refl
worker-Lives joining_workers i p j =
    touched_at-Lives joining_workers i p.system.worker_pool.workers refl refl
worker-Lives joining_dispatcher i p j =
    worker_returned joining_dispatcher i p.system.worker_pool.workers j.2
worker-Lives returned_zero i p j = worker_returned returned_zero i p.system.worker_pool.workers j.2

pub server-Lives :
    (stage : Stage) (p : Program)
    → 0 < p.server_threads
    → Joined stage p
    → Lives stage tcp_server × Lives stage dispatcher
server-Lives serving p some j = (inl refl, inl refl)
server-Lives joining_server p some j = (inl refl, inl refl)
server-Lives joining_processor p some j = absurd (omega (arith, some, j))
server-Lives joining_workers p some j = absurd (omega (arith, some, j.0))
server-Lives joining_dispatcher p some j = absurd (omega (arith, some, j.0))
server-Lives returned_zero p some j = absurd (omega (arith, some, j.0))
