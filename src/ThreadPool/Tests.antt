-- ===== src/ThreadPool/Tests.antt =====
-- A pool of two workers with numbers for tasks.
use event_stream_core.Prelude.{ℕ, ◌≡◌, refl, List, [], ◌∷◌, ◌++◌}
use event_stream_core.ThreadPool.{
  ThreadPool, submitted, started, finished, dropped, Action, submits, takes_turn, stops, clears,
  new_pool, turn_at, act, act_all,
}
use event_stream_core.ThreadPool.Fifo.{submissions, departures, act_all-fifo}

abbrev pool : ThreadPool ℕ
pool = new_pool 2

-- Three tasks, two workers that start one each, and a shutdown that drops the third.
abbrev schedule : List (Action ℕ)
schedule =
    submits 7
    ∷ submits 8
    ∷ submits 9
    ∷ takes_turn 1
    ∷ takes_turn 0
    ∷ takes_turn 1
    ∷ takes_turn 0
    ∷ stops
    ∷ takes_turn 0
    ∷ takes_turn 0
    ∷ clears
    ∷ takes_turn 1
    ∷ takes_turn 1
    ∷ clears
    ∷ []

schedule_log :
    (act_all schedule pool).1
    ≡ submitted 7
      ∷ submitted 8
      ∷ submitted 9
      ∷ started 7
      ∷ started 8
      ∷ finished 8
      ∷ finished 7
      ∷ dropped 9
      ∷ []
unfolding act_all act turn_at
schedule_log = refl

act_all-fifo_example :
    submissions (act_all schedule pool).1
    ≡ departures (act_all schedule pool).1 ++ (act_all schedule pool).0.tasks
act_all-fifo_example = act_all-fifo schedule pool
