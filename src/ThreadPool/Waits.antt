-- ===== src/ThreadPool/Waits.antt =====
-- The threads of `ThreadPool` (src/utils/thread_pool.cpp) with the mutex and the condition variable:
-- each acquisition of the mutex, each evaluation of the predicate, the block and the wake-up is a
-- step of its own, and a thread that cannot go on stays where it is. `notify_one` of `submit` wakes
-- a worker at most, and a worker may wake by itself: both are `wakes`.
pub mod Holders
pub mod Exclusive
pub mod View
pub mod Refines
pub mod Lost
pub mod Awake
pub mod Draining
pub mod Joins
mod Tests
use event_stream_core.Prelude.{
  ℕ, zero, suc, Bool, true, false, ◌&&◌, not, List, [], ◌∷◌, ◌++◌, if◌then◌else◌, map,
}
use event_stream_core.ThreadPool.{Log, submitted, started, finished, dropped}

-- Where a worker's thread is: before the test of its loop, at the mutex, before the predicate of the
-- wait, between the predicate and the block, blocked, behind the wait, in a task, at its end, or in a
-- `front` of an empty queue. In `checking`, `falling_asleep` and `passed` it holds the mutex.
pub data Phase (A : Type 0) : Type 0 where
  at_flag locking checking falling_asleep blocked passed over broken : Phase A
  in_task : A → Phase A

-- Where the thread in `shutdown` is.
pub data Caller : Type 0 where
  outside notifying joining : Caller

pub record Threads (A : Type 0) : Type 0 where
  pub phases : List (Phase A)
  pub tasks : List A
  pub is_running : Bool
  pub locked : Bool
  pub caller : Caller

pub data Scheduled (A : Type 0) : Type 0 where
  worker_goes : ℕ → Scheduled A
  wakes : ℕ → Scheduled A
  client_submits : A → Scheduled A
  caller_goes : Scheduled A

module _ {A : Type 0} where
  abbrev pub fresh_phases : ℕ → List (Phase A)
  fresh_phases zero = []
  fresh_phases (suc n) = at_flag ∷ fresh_phases n

  abbrev pub new_threads : ℕ → Threads A
  new_threads num_threads = record {
    phases = fresh_phases num_threads;
    tasks = [];
    is_running = true;
    locked = false;
    caller = outside;
  }

  -- One step of a worker: the queue, the mutex, where the worker is and what it did.
  abbrev pub phase_turn : List A → Bool → Bool → Phase A → List A × Bool × Phase A × List (Log A)
  phase_turn tasks is_running locked at_flag =
      (tasks, locked, if is_running then locking else over, [])
  phase_turn tasks is_running true locking = (tasks, true, locking, [])
  phase_turn tasks is_running false locking = (tasks, true, checking, [])
  phase_turn [] true locked checking = ([], locked, falling_asleep, [])
  phase_turn [] false locked checking = ([], locked, passed, [])
  phase_turn (t ∷ ts) is_running locked checking = (t ∷ ts, locked, passed, [])
  phase_turn tasks is_running locked falling_asleep = (tasks, false, blocked, [])
  phase_turn tasks is_running locked blocked = (tasks, locked, blocked, [])
  phase_turn [] true locked passed = ([], locked, broken, [])
  phase_turn [] false locked passed = ([], false, over, [])
  phase_turn (t ∷ ts) is_running locked passed = (ts, false, in_task t, started t ∷ [])
  phase_turn tasks is_running locked over = (tasks, locked, over, [])
  phase_turn tasks is_running locked broken = (tasks, locked, broken, [])
  phase_turn tasks is_running locked (in_task t) = (tasks, locked, at_flag, finished t ∷ [])

  unfoldable pub phase_at :
      ℕ → List A → Bool → Bool → List (Phase A) → List A × Bool × List (Phase A) × List (Log A)
  phase_at i tasks is_running locked [] = (tasks, locked, [], [])
  phase_at zero tasks is_running locked (w ∷ ws) =
      let (tasks', locked', w', log) = phase_turn tasks is_running locked w in
      (tasks', locked', w' ∷ ws, log)
  phase_at (suc i) tasks is_running locked (w ∷ ws) =
      let (tasks', locked', ws', log) = phase_at i tasks is_running locked ws in
      (tasks', locked', w ∷ ws', log)

  -- A thread that wakes needs the mutex before it evaluates the predicate again.
  abbrev pub wake : Phase A → Phase A
  wake blocked = locking
  wake w = w

  unfoldable pub wake_at : ℕ → List (Phase A) → List (Phase A)
  wake_at i [] = []
  wake_at zero (w ∷ ws) = wake w ∷ ws
  wake_at (suc i) (w ∷ ws) = w ∷ wake_at i ws

  abbrev pub all_over : List (Phase A) → Bool
  all_over [] = true
  all_over (over ∷ ws) = all_over ws
  all_over (w ∷ ws) = false

  -- The end of `shutdown`, behind the joins and with the mutex.
  abbrev pub clear : Bool → Threads A → Threads A × List (Log A)
  clear true p = (record p { tasks = []; caller = outside }, map dropped p.tasks)
  clear false p = (p, [])

  abbrev pub shutdown_turn : Caller → Threads A → Threads A × List (Log A)
  shutdown_turn outside p = (record p { is_running = false; caller = notifying }, [])
  shutdown_turn notifying p = (record p { phases = map wake p.phases; caller = joining }, [])
  shutdown_turn joining p = clear (all_over p.phases && not p.locked) p

  -- `submit` waits for the mutex.
  abbrev pub submit_if : Bool → A → Threads A → Threads A × List (Log A)
  submit_if true task p = (record p { tasks = p.tasks ++ task ∷ [] }, submitted task ∷ [])
  submit_if false task p = (p, [])

  unfoldable pub schedule : Scheduled A → Threads A → Threads A × List (Log A)
  schedule (worker_goes i) p =
      let (tasks', locked', phases', log) = phase_at i p.tasks p.is_running p.locked p.phases in
      (record p { tasks = tasks'; locked = locked'; phases = phases' }, log)
  schedule (wakes i) p = (record p { phases = wake_at i p.phases }, [])
  schedule (client_submits task) p = submit_if (not p.locked) task p
  schedule caller_goes p = shutdown_turn p.caller p

  unfoldable pub schedule_all : List (Scheduled A) → Threads A → Threads A × List (Log A)
  schedule_all [] p = (p, [])
  schedule_all (x ∷ xs) p =
      let (p', log) = schedule x p in let (last, logs) = schedule_all xs p' in (last, log ++ logs)
