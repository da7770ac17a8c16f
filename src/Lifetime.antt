-- ===== src/Lifetime.antt =====
-- The end of `main` (src/app/main.cpp): its local objects are destroyed in the reverse order of their
-- construction, each by a destructor that takes a flag down and joins threads, while the other threads
-- of `System` go on. A step says which objects its thread touches.
pub mod Threads
pub mod Joined
pub mod Alive
pub mod Idle
pub mod Captured
mod Tests
use event_stream_core.Prelude.{
  ℕ, zero, suc, ◌+◌, ◌-◌, ◌<◌, ◌≡◌, Bool, true, false, List, [], ◌∷◌, ◌++◌,
}
use event_stream_core.Event.{Event, EventPtr}
use event_stream_core.EventBusMulti.{QueueId}
use event_stream_core.ThreadPool.{Worker, testing, waiting, working, returned, all_returned}
use event_stream_core.Storage.{Device}
use event_stream_core.System.{
  Routing, at_test, at_pop, at_push, ended, crashed, Processing, at_loop, done, at_poll, at_submit,
  System, Move, client_pushes, dispatcher_moves, dispatcher_stops, processor_moves, processor_stops,
  worker_moves, pool_stops, pool_clears, step,
}

-- Where the thread of `main` is: in its loop, or in the joins of a destructor.
pub data Stage : Type 0 where
  serving : Stage
  joining_server : Stage  -- `~TcpIngestServer`
  joining_processor : Stage  -- `~RealtimeProcessor`
  joining_workers : Stage  -- `~ThreadPool`
  joining_dispatcher : Stage  -- `~Dispatcher`, behind `~StorageEngine`
  returned_zero : Stage

-- The local objects of `main`. A task holds the `this` of the processor that submitted it.
pub data Object : Type 0 where
  event_bus dispatcher topic_table storage_engine worker_pool processor tcp_server : Object
  captured_this : Object

pub record Program : Type 0 where
  pub system : System
  pub stage : Stage
  pub server_threads : ℕ  -- the one that accepts, and those of the clients

-- An object lives until its destructor has returned.
abbrev pub is_alive : Stage → Object → Bool
is_alive serving o = true
is_alive joining_server o = true
is_alive joining_processor tcp_server = false
is_alive joining_processor o = true
is_alive joining_workers tcp_server = false
is_alive joining_workers processor = false
is_alive joining_workers captured_this = false
is_alive joining_workers o = true
is_alive joining_dispatcher event_bus = true
is_alive joining_dispatcher dispatcher = true
is_alive joining_dispatcher topic_table = true
is_alive joining_dispatcher o = false
is_alive returned_zero o = false

abbrev pub touched_by_dispatcher : Routing → List Object
touched_by_dispatcher at_test = dispatcher ∷ []
touched_by_dispatcher at_pop = dispatcher ∷ topic_table ∷ []
touched_by_dispatcher (at_push retry q evt) = dispatcher ∷ event_bus ∷ []
touched_by_dispatcher ended = []
touched_by_dispatcher crashed = []

abbrev pub touched_by_processor : Processing → List Object
touched_by_processor at_loop = processor ∷ []
touched_by_processor (at_poll q) = processor ∷ event_bus ∷ []
touched_by_processor (at_submit evt) = processor ∷ worker_pool ∷ []
touched_by_processor done = []

-- A task reads `this->storageEngine` and stores.
abbrev pub touched_by_worker : Worker Event → List Object
touched_by_worker testing = worker_pool ∷ []
touched_by_worker waiting = worker_pool ∷ []
touched_by_worker (working evt) = captured_this ∷ storage_engine ∷ worker_pool ∷ []
touched_by_worker returned = []

abbrev pub touched_at : ℕ → List (Worker Event) → List Object
touched_at i [] = []
touched_at zero (w ∷ ws) = touched_by_worker w
touched_at (suc i) (w ∷ ws) = touched_at i ws

-- `this` of the server, and the dispatcher.
abbrev pub touched_by_client : List Object
touched_by_client = tcp_server ∷ dispatcher ∷ []

module _ (device : Device) where
  abbrev pub after : Move → Program → Program
  after m p = record p { system = (step device m p.system).0 }

  pub data Step (p : Program) : List Object → Program → Type 0 where
    dispatcher_thread : Step p (touched_by_dispatcher p.system.routing) (after dispatcher_moves p)
    processor_thread : Step p (touched_by_processor p.system.processing) (after processor_moves p)
    worker_thread :
        (i : ℕ) → Step p (touched_at i p.system.worker_pool.workers) (after (worker_moves i) p)
    client_thread :
        (evt : Event)
        → 0 < p.server_threads
        → Step p touched_by_client (after (client_pushes evt) p)
    server_thread_starts :
        0 < p.server_threads
        → Step p (tcp_server ∷ []) (record p { server_threads = p.server_threads + 1 })
    server_thread_ends :
        0 < p.server_threads
        → Step p (tcp_server ∷ []) (record p { server_threads = p.server_threads - 1 })
    -- `g_running` is false.
    leaves_loop : p.stage ≡ serving → Step p [] (record p { stage = joining_server })
    server_joined :
        p.stage ≡ joining_server
        → p.server_threads ≡ 0
        → Step p [] (record (after processor_stops p) { stage = joining_processor })
    processor_joined :
        p.stage ≡ joining_processor
        → p.system.processing ≡ done
        → Step p [] (record (after pool_stops p) { stage = joining_workers })
    workers_joined :
        p.stage ≡ joining_workers
        → all_returned p.system.worker_pool.workers ≡ true
        → Step p [] (record p {
          system = (step device dispatcher_stops (step device pool_clears p.system).0).0;
          stage = joining_dispatcher;
        })
    dispatcher_joined :
        p.stage ≡ joining_dispatcher
        → p.system.routing ≡ ended
        → Step p [] (record p { stage = returned_zero })

  -- The programs that `p` can come to, with what was touched on the way.
  pub data Reach (p : Program) : Program → Type 0 where
    here : Reach p p
    next : {q r : Program} {os : List Object} → Reach p q → Step q os r → Reach p r

-- What `main` starts.
abbrev pub started_program : System → Program
started_program s = record { system = s; stage = serving; server_threads = 1 }
