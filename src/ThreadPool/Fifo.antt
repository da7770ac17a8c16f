-- ===== src/ThreadPool/Fifo.antt =====
-- Tasks and their order, in every schedule.
use event_stream_core.Prelude.{
  ℕ, zero, suc, ◌≡◌, refl, ap, Bool, true, false, List, [], ◌∷◌, ◌++◌, map, append-nil,
  balance_trans,
}
use event_stream_core.ThreadPool.{
  Worker, testing, waiting, returned, working, ThreadPool, Log, submitted, started, finished,
  dropped, Action, submits, takes_turn, stops, clears, worker_turn, turn_at, clear_if, all_returned,
  act, act_all,
}

module _ {A : Type 0} where
  abbrev pub submissions : List (Log A) → List A
  submissions [] = []
  submissions (submitted t ∷ l) = t ∷ submissions l
  submissions (x ∷ l) = submissions l

  -- The tasks that left the queue, to be run or to be dropped by `shutdown`.
  abbrev pub departures : List (Log A) → List A
  departures [] = []
  departures (started t ∷ l) = t ∷ departures l
  departures (dropped t ∷ l) = t ∷ departures l
  departures (x ∷ l) = departures l

  submissions-append : (l m : List (Log A)) → submissions (l ++ m) ≡ submissions l ++ submissions m
  submissions-append [] m = refl
  submissions-append (submitted t ∷ l) m = ap (◌∷◌ t) (submissions-append l m)
  submissions-append (started t ∷ l) m = submissions-append l m
  submissions-append (finished t ∷ l) m = submissions-append l m
  submissions-append (dropped t ∷ l) m = submissions-append l m

  departures-append : (l m : List (Log A)) → departures (l ++ m) ≡ departures l ++ departures m
  departures-append [] m = refl
  departures-append (submitted t ∷ l) m = departures-append l m
  departures-append (started t ∷ l) m = ap (◌∷◌ t) (departures-append l m)
  departures-append (finished t ∷ l) m = departures-append l m
  departures-append (dropped t ∷ l) m = ap (◌∷◌ t) (departures-append l m)

  abbrev Balanced : List A → List A → List (Log A) → Type 0
  Balanced before after log = before ++ submissions log ≡ departures log ++ after

  worker_turn-Balanced :
      (tasks : List A) (r : Bool) (w : Worker A)
      → Balanced tasks (worker_turn tasks r w).0 (worker_turn tasks r w).1.1
  worker_turn-Balanced tasks r testing = append-nil tasks
  worker_turn-Balanced (t ∷ ts) r waiting = append-nil (t ∷ ts)
  worker_turn-Balanced [] true waiting = refl
  worker_turn-Balanced [] false waiting = refl
  worker_turn-Balanced tasks r (working t) = append-nil tasks
  worker_turn-Balanced tasks r returned = append-nil tasks

  turn_at-Balanced :
      (i : ℕ) (tasks : List A) (r : Bool) (ws : List (Worker A))
      → Balanced tasks (turn_at i tasks r ws).0 (turn_at i tasks r ws).1.1
  unfolding turn_at
  turn_at-Balanced i tasks r [] = append-nil tasks
  turn_at-Balanced zero tasks r (w ∷ ws) = worker_turn-Balanced tasks r w
  turn_at-Balanced (suc i) tasks r (w ∷ ws) = turn_at-Balanced i tasks r ws

  clear-Balanced : (tasks : List A) → Balanced tasks [] (map dropped tasks)
  clear-Balanced [] = refl
  clear-Balanced (t ∷ ts) = ap (◌∷◌ t) (clear-Balanced ts)

  clear_if-Balanced :
      (b : Bool) (p : ThreadPool A) → Balanced p.tasks (clear_if b p).0.tasks (clear_if b p).1
  clear_if-Balanced true p = clear-Balanced p.tasks
  clear_if-Balanced false p = append-nil p.tasks

  act-Balanced : (a : Action A) (p : ThreadPool A) → Balanced p.tasks (act a p).0.tasks (act a p).1
  unfolding act
  act-Balanced (submits t) p = refl
  act-Balanced (takes_turn i) p = turn_at-Balanced i p.tasks p.is_running p.workers
  act-Balanced stops p = append-nil p.tasks
  act-Balanced clears p = clear_if-Balanced (all_returned p.workers) p

  -- In every schedule of any number of workers, the tasks leave the queue in the order in which
  -- they were submitted, each once: what was queued and what was submitted since is what was
  -- started, or dropped at the end of `shutdown`, and what is still queued.
  pub act_all-fifo :
      (rest : List (Action A)) (p : ThreadPool A)
      → p.tasks ++ submissions (act_all rest p).1
        ≡ departures (act_all rest p).1 ++ (act_all rest p).0.tasks
  unfolding act_all
  act_all-fifo [] p = append-nil p.tasks
  act_all-fifo (a ∷ rest) p =
      let p' = (act a p).0 in
      let log = (act a p).1 in
      let logs = (act_all rest p').1 in
      rw (submissions-append log logs, departures-append log logs)
        (balance_trans _ _ _ (submissions log) (departures log) (submissions logs) (departures logs)
          (act-Balanced a p) (act_all-fifo rest p'))
