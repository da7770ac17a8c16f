-- ===== src/ThreadPool/Waits/View.antt =====
-- What the stretches of ThreadPool see of the threads: the view of a state, and the stretch that a
-- step is; one step of a worker.
use event_stream_core.Prelude.{
  ℕ, zero, suc, ◌≡◌, refl, ap, ◌∙◌, Bool, true, false, ◌&&◌, not, List, [], ◌∷◌, ◌++◌,
  if◌then◌else◌, map,
}
use event_stream_core.ThreadPool.{
  Worker, testing, waiting, working, returned, ThreadPool, Log, Action, submits, takes_turn, stops,
  clears, worker_turn, turn_at,
}
use event_stream_core.ThreadPool.Waits.{
  Phase, at_flag, locking, checking, falling_asleep, blocked, passed, over, broken, in_task, Caller,
  outside, notifying, joining, Threads, Scheduled, worker_goes, wakes, client_submits, caller_goes,
  phase_turn, phase_at, all_over, schedule,
}

module _ {A : Type 0} where
  abbrev pub view_phase : Phase A → Worker A
  view_phase at_flag = testing
  view_phase (in_task t) = working t
  view_phase over = returned
  view_phase _ = waiting

  abbrev pub view : Threads A → ThreadPool A
  view p = record { workers = map view_phase p.phases; tasks = p.tasks; is_running = p.is_running }

  -- The steps that show: the test of the flag, what follows the wait, and the end of a task.
  abbrev pub is_visible : Phase A → Bool
  is_visible at_flag = true
  is_visible passed = true
  is_visible (in_task t) = true
  is_visible _ = false

  abbrev pub visible_at : ℕ → List (Phase A) → Bool
  visible_at i [] = false
  visible_at zero (w ∷ ws) = is_visible w
  visible_at (suc i) (w ∷ ws) = visible_at i ws

  abbrev pub shutdown_stretch : Caller → Threads A → List (Action A)
  shutdown_stretch outside p = stops ∷ []
  shutdown_stretch notifying p = []
  shutdown_stretch joining p = if all_over p.phases && not p.locked then clears ∷ [] else []

  -- The stretches of the pool, one or none, that a step is.
  abbrev pub stretch : Scheduled A → Threads A → List (Action A)
  stretch (worker_goes i) p = if visible_at i p.phases then takes_turn i ∷ [] else []
  stretch (wakes i) p = []
  stretch (client_submits task) p = if not p.locked then submits task ∷ [] else []
  stretch caller_goes p = shutdown_stretch p.caller p

  unfoldable pub stretches : List (Scheduled A) → Threads A → List (Action A)
  stretches [] p = []
  stretches (x ∷ xs) p = stretch x p ++ stretches xs (schedule x p).0

  abbrev pub turn_if :
      Bool → ℕ → List A → Bool → List (Worker A) → List A × (List (Worker A) × List (Log A))
  turn_if true i tasks is_running ws = turn_at i tasks is_running ws
  turn_if false i tasks is_running ws = (tasks, (ws, []))

  abbrev seen_turn : List A × Bool × Phase A × List (Log A) → List A × (Worker A × List (Log A))
  seen_turn (tasks, locked, w, log) = (tasks, (view_phase w, log))

  abbrev pub seen :
      List A × Bool × List (Phase A) × List (Log A) → List A × (List (Worker A) × List (Log A))
  seen (tasks, locked, ws, log) = (tasks, (map view_phase ws, log))

  abbrev put_front :
      Worker A
      → List A × (List (Worker A) × List (Log A))
      → List A × (List (Worker A) × List (Log A))
  put_front w (tasks, (ws, log)) = (tasks, (w ∷ ws, log))

  abbrev alone :
      List (Worker A)
      → List A × (Worker A × List (Log A))
      → List A × (List (Worker A) × List (Log A))
  alone ws (tasks, (w, log)) = (tasks, (w ∷ ws, log))

  abbrev worker_turn_if : Bool → List A → Bool → Worker A → List A × (Worker A × List (Log A))
  worker_turn_if true tasks is_running w = worker_turn tasks is_running w
  worker_turn_if false tasks is_running w = (tasks, (w, []))

  -- One worker.
  phase_turn-seen :
      (w : Phase A) (tasks : List A) (is_running locked : Bool)
      → worker_turn_if (is_visible w) tasks is_running (view_phase w)
        ≡ seen_turn (phase_turn tasks is_running locked w)
  phase_turn-seen at_flag tasks true locked = refl
  phase_turn-seen at_flag tasks false locked = refl
  phase_turn-seen locking tasks is_running true = refl
  phase_turn-seen locking tasks is_running false = refl
  phase_turn-seen checking [] true locked = refl
  phase_turn-seen checking [] false locked = refl
  phase_turn-seen checking (t ∷ ts) is_running locked = refl
  phase_turn-seen falling_asleep tasks is_running locked = refl
  phase_turn-seen blocked tasks is_running locked = refl
  phase_turn-seen passed [] true locked = refl
  phase_turn-seen passed [] false locked = refl
  phase_turn-seen passed (t ∷ ts) is_running locked = refl
  phase_turn-seen over tasks is_running locked = refl
  phase_turn-seen broken tasks is_running locked = refl
  phase_turn-seen (in_task t) tasks is_running locked = refl

  turn_if-front :
      (b : Bool) (tasks : List A) (is_running : Bool) (w : Worker A) (ws : List (Worker A))
      → turn_if b zero tasks is_running (w ∷ ws) ≡ alone ws (worker_turn_if b tasks is_running w)
  unfolding turn_at
  turn_if-front true tasks is_running w ws = refl
  turn_if-front false tasks is_running w ws = refl

  turn_if-suc :
      (b : Bool) (i : ℕ) (tasks : List A) (is_running : Bool) (w : Worker A) (ws : List (Worker A))
      → turn_if b (suc i) tasks is_running (w ∷ ws) ≡ put_front w (turn_if b i tasks is_running ws)
  unfolding turn_at
  turn_if-suc true i tasks is_running w ws = refl
  turn_if-suc false i tasks is_running w ws = refl

  pub phase_at-seen :
      (i : ℕ) (ws : List (Phase A)) (tasks : List A) (is_running locked : Bool)
      → turn_if (visible_at i ws) i tasks is_running (map view_phase ws)
        ≡ seen (phase_at i tasks is_running locked ws)
  unfolding phase_at
  phase_at-seen i [] tasks is_running locked = refl
  phase_at-seen zero (w ∷ ws) tasks is_running locked =
      turn_if-front (is_visible w) tasks is_running (view_phase w) (map view_phase ws)
      ∙ ap (alone (map view_phase ws)) (phase_turn-seen w tasks is_running locked)
  phase_at-seen (suc i) (w ∷ ws) tasks is_running locked =
      turn_if-suc (visible_at i ws) i tasks is_running (view_phase w) (map view_phase ws)
      ∙ ap (put_front (view_phase w)) (phase_at-seen i ws tasks is_running locked)
