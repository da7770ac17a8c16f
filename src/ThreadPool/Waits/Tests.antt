-- ===== src/ThreadPool/Waits/Tests.antt =====
-- One worker that reaches its block, and a `shutdown` that comes before.
use event_stream_core.Prelude.{
  ℕ, zero, suc, All, flatten, ◌++◌, arith, ◌≡◌, ◌+◌, refl, true, List, [], ◌∷◌,
}
use event_stream_core.ThreadPool.{submitted, started, finished, act_all}
use event_stream_core.ThreadPool.Waits.{
  falling_asleep, outside, Threads, Scheduled, worker_goes, wakes, client_submits, caller_goes,
  new_threads, phase_at, wake_at, all_over, schedule, schedule_all,
}
use event_stream_core.ThreadPool.Waits.View.{view, stretches}
use event_stream_core.ThreadPool.Waits.Holders.{total, in_wait, behind, fault, one_if}
use event_stream_core.ThreadPool.Waits.Exclusive.{schedule_all-exclusive}
use event_stream_core.ThreadPool.Waits.Refines.{schedule_all-Refines}
use event_stream_core.ThreadPool.Waits.Joins.{IsRound, schedule_all-joins}
use event_stream_core.ThreadPool.Waits.Lost.{IsStuck, schedule_all-lost}

-- Worker 0 gets to its block.
abbrev to_block : List (Scheduled ℕ)
to_block = worker_goes 0 ∷ worker_goes 0 ∷ worker_goes 0 ∷ []

abbrev before_block : Threads ℕ
before_block = record {
  phases = falling_asleep ∷ [];
  tasks = [];
  is_running = true;
  locked = true;
  caller = outside;
}

before_block_reached : schedule_all to_block (new_threads 1) ≡ (before_block, [])
unfolding schedule_all schedule phase_at
before_block_reached = refl

-- Two workers wait for the mutex, one sleeps, is woken by a task and runs it.
abbrev one_task : List (Scheduled ℕ)
one_task =
    worker_goes 0
    ∷ worker_goes 1
    ∷ worker_goes 0
    ∷ worker_goes 1
    ∷ client_submits 6
    ∷ worker_goes 0
    ∷ worker_goes 0
    ∷ client_submits 7
    ∷ wakes 0
    ∷ worker_goes 0
    ∷ worker_goes 0
    ∷ worker_goes 0
    ∷ worker_goes 1
    ∷ worker_goes 0
    ∷ []

one_task_log : (schedule_all one_task (new_threads 2)).1 ≡ submitted 7 ∷ started 7 ∷ finished 7 ∷ []
unfolding schedule_all schedule phase_at wake_at
one_task_log = refl

schedule_all-exclusive_example :
    let p = (schedule_all one_task (new_threads 2)).0 in
    (total in_wait p.phases + total behind p.phases ≡ one_if p.locked) × (total fault p.phases ≡ 0)
schedule_all-exclusive_example = schedule_all-exclusive 2 one_task

schedule_all-Refines_example :
    act_all (stretches one_task (new_threads 2)) (view (new_threads 2))
    ≡ (view (schedule_all one_task (new_threads 2)).0, (schedule_all one_task (new_threads 2)).1)
schedule_all-Refines_example = schedule_all-Refines one_task (new_threads 2)

schedule_all-lost_example :
    IsStuck 0
      (schedule_all
        (caller_goes ∷ caller_goes ∷ worker_goes 0 ∷ worker_goes 0 ∷ caller_goes ∷ [])
        before_block).0
schedule_all-lost_example =
    schedule_all-lost 0 (worker_goes 0 ∷ caller_goes ∷ []) before_block refl refl refl

-- Both workers wait for the mutex, a task is queued, and `shutdown` gets to its joins.
abbrev to_joins : List (Scheduled ℕ)
to_joins = worker_goes 0 ∷ worker_goes 1 ∷ client_submits 6 ∷ caller_goes ∷ caller_goes ∷ []

-- A turn of each worker, with a submission between.
abbrev round : List (Scheduled ℕ)
round = worker_goes 1 ∷ client_submits 9 ∷ worker_goes 0 ∷ []

abbrev many : ℕ → List (List (Scheduled ℕ))
many zero = []
many (suc n) = round ∷ many n

many_full : (n : ℕ) → All (IsRound 2) (many n)
many_full zero = tt
many_full (suc n) = ((refl, (refl, tt)), many_full n)

schedule_all-joins_example :
    all_over (schedule_all (to_joins ++ flatten (many 12)) (new_threads 2)).0.phases ≡ true
unfolding schedule_all schedule phase_at
schedule_all-joins_example =
    schedule_all-joins 2 to_joins (many 12) refl refl (many_full 12) (omega arith)
