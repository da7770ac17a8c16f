-- ===== src/ThreadPool.antt =====
-- `ThreadPool` of include/utils/thread_pool.hpp and src/utils/thread_pool.cpp: workers that take tasks
-- from one queue. The threads are interleaved: an `Action` is one stretch that a thread runs alone,
-- under the mutex or on the atomic flag, and a schedule is a list of them. A worker that waits on
-- the condition takes a turn only when it is awake; `Waits` models what wakes it.
pub mod Fifo
pub mod Shutdown
pub mod Joined
pub mod Waits
mod Tests
use event_stream_core.Prelude.{
  ℕ, zero, suc, Bool, true, false, List, [], ◌∷◌, ◌++◌, if◌then◌else◌, length, map,
}

-- Where a worker's thread is: before the test of its loop, in the wait, in a task, or at its end.
pub data Worker (A : Type 0) : Type 0 where
  testing waiting returned : Worker A
  working : A → Worker A

pub record ThreadPool (A : Type 0) : Type 0 where
  pub workers : List (Worker A)
  pub tasks : List A
  pub is_running : Bool

pub data Log (A : Type 0) : Type 0 where
  submitted started finished dropped : A → Log A

pub data Action (A : Type 0) : Type 0 where
  submits : A → Action A
  takes_turn : ℕ → Action A  -- the worker with this index
  stops clears : Action A  -- the start of `shutdown`, and its end behind the joins

module _ {A : Type 0} where
  abbrev pub idle_workers : ℕ → List (Worker A)
  idle_workers zero = []
  idle_workers (suc n) = testing ∷ idle_workers n

  abbrev pub new_pool : ℕ → ThreadPool A
  new_pool num_threads = record {
    workers = idle_workers num_threads;
    tasks = [];
    is_running = true;
  }

  abbrev pub submit : A → ThreadPool A → ThreadPool A
  submit task p = record p { tasks = p.tasks ++ task ∷ [] }

  abbrev pub get_pending_tasks : ThreadPool A → ℕ
  get_pending_tasks p = length p.tasks

  -- One stretch of a worker: the queue, the worker and what it did. Where the wait has nothing to
  -- wait for, the worker goes on waiting.
  abbrev pub worker_turn : List A → Bool → Worker A → List A × (Worker A × List (Log A))
  worker_turn tasks is_running testing = (tasks, (if is_running then waiting else returned, []))
  worker_turn (task ∷ tasks) is_running waiting = (tasks, (working task, started task ∷ []))
  worker_turn [] true waiting = ([], (waiting, []))
  worker_turn [] false waiting = ([], (returned, []))
  worker_turn tasks is_running (working task) = (tasks, (testing, finished task ∷ []))
  worker_turn tasks is_running returned = (tasks, (returned, []))

  unfoldable pub turn_at :
      ℕ → List A → Bool → List (Worker A) → List A × (List (Worker A) × List (Log A))
  turn_at i tasks is_running [] = (tasks, ([], []))
  turn_at zero tasks is_running (w ∷ ws) =
      let (tasks', (w', log)) = worker_turn tasks is_running w in (tasks', (w' ∷ ws, log))
  turn_at (suc i) tasks is_running (w ∷ ws) =
      let (tasks', (ws', log)) = turn_at i tasks is_running ws in (tasks', (w ∷ ws', log))

  -- All workers can be joined.
  abbrev pub all_returned : List (Worker A) → Bool
  all_returned [] = true
  all_returned (returned ∷ ws) = all_returned ws
  all_returned (w ∷ ws) = false

  -- The end of `shutdown`. Before all workers have returned, the thread is still in a join.
  abbrev pub clear_if : Bool → ThreadPool A → ThreadPool A × List (Log A)
  clear_if true p = (record p { tasks = [] }, map dropped p.tasks)
  clear_if false p = (p, [])

  unfoldable pub act : Action A → ThreadPool A → ThreadPool A × List (Log A)
  act (submits task) p = (submit task p, submitted task ∷ [])
  act (takes_turn i) p =
      let (tasks', (ws', log)) = turn_at i p.tasks p.is_running p.workers in
      (record p { tasks = tasks'; workers = ws' }, log)
  act stops p = (record p { is_running = false }, [])
  act clears p = clear_if (all_returned p.workers) p

  unfoldable pub act_all : List (Action A) → ThreadPool A → ThreadPool A × List (Log A)
  act_all [] p = (p, [])
  act_all (a ∷ rest) p =
      let (p', log) = act a p in let (last, logs) = act_all rest p' in (last, log ++ logs)
