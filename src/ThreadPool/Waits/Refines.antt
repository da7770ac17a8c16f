-- ===== src/ThreadPool/Waits/Refines.antt =====
-- The threads with mutex and condition variable do what the stretches of ThreadPool do.
use event_stream_core.Prelude.{
  ℕ, zero, suc, ◌≡◌, refl, sym, ap, ◌∙◌, Bool, true, false, ◌&&◌, not, List, [], ◌∷◌, ◌++◌,
  if◌then◌else◌, map, append-nil, append_assoc,
}
use event_stream_core.ThreadPool.{
  ThreadPool, Log, Action, submits, takes_turn, dropped, clears, turn_at, all_returned, act,
  act_all,
}
use event_stream_core.ThreadPool.Waits.{
  Phase, at_flag, locking, checking, falling_asleep, blocked, passed, over, broken, in_task, Caller,
  outside, notifying, joining, Threads, Scheduled, worker_goes, wakes, client_submits, caller_goes,
  wake, wake_at, all_over, clear, shutdown_turn, submit_if, schedule, schedule_all,
}
use event_stream_core.ThreadPool.Waits.View.{
  view_phase, view, visible_at, shutdown_stretch, stretch, stretches, turn_if, phase_at-seen,
}

module _ {A : Type 0} where
  act_all-turn_if :
      (b : Bool) (i : ℕ) (p : ThreadPool A)
      → act_all (if b then takes_turn i ∷ [] else []) p ≡ (
          let (tasks', (ws', log)) = turn_if b i p.tasks p.is_running p.workers in
          (record p { tasks = tasks'; workers = ws' }, log))
  unfolding act_all act
  act_all-turn_if true i p =
      let (tasks', (ws', log)) = turn_at i p.tasks p.is_running p.workers in
      ap (λ l. (record p { tasks = tasks'; workers = ws' }, l)) (append-nil log)
  act_all-turn_if false i p = refl

  view_phase-wake : (w : Phase A) → view_phase (wake w) ≡ view_phase w
  view_phase-wake at_flag = refl
  view_phase-wake locking = refl
  view_phase-wake checking = refl
  view_phase-wake falling_asleep = refl
  view_phase-wake blocked = refl
  view_phase-wake passed = refl
  view_phase-wake over = refl
  view_phase-wake broken = refl
  view_phase-wake (in_task t) = refl

  map-wake_at : (i : ℕ) (ws : List (Phase A)) → map view_phase (wake_at i ws) ≡ map view_phase ws
  unfolding wake_at
  map-wake_at i [] = refl
  map-wake_at zero (w ∷ ws) = ap (λ v. v ∷ map view_phase ws) (view_phase-wake w)
  map-wake_at (suc i) (w ∷ ws) = ap (◌∷◌ (view_phase w)) (map-wake_at i ws)

  map-wake : (ws : List (Phase A)) → map view_phase (map wake ws) ≡ map view_phase ws
  map-wake [] = refl
  map-wake (w ∷ ws) = rw (view_phase-wake w, map-wake ws) refl

  all_over_lem : (ws : List (Phase A)) → all_returned (map view_phase ws) ≡ all_over ws
  all_over_lem [] = refl
  all_over_lem (at_flag ∷ ws) = refl
  all_over_lem (locking ∷ ws) = refl
  all_over_lem (checking ∷ ws) = refl
  all_over_lem (falling_asleep ∷ ws) = refl
  all_over_lem (blocked ∷ ws) = refl
  all_over_lem (passed ∷ ws) = refl
  all_over_lem (over ∷ ws) = all_over_lem ws
  all_over_lem (broken ∷ ws) = refl
  all_over_lem (in_task t ∷ ws) = refl

  seen_all : Threads A × List (Log A) → ThreadPool A × List (Log A)
  seen_all (p, log) = (view p, log)

  submit_if-seen :
      (b : Bool) (task : A) (p : Threads A)
      → act_all (if b then submits task ∷ [] else []) (view p) ≡ seen_all (submit_if b task p)
  unfolding act_all act seen_all
  submit_if-seen true task p = refl
  submit_if-seen false task p = refl

  clear-seen :
      (over_now free : Bool) (p : Threads A)
      → all_over p.phases ≡ over_now
      → act_all (if over_now && free then clears ∷ [] else []) (view p)
        ≡ seen_all (clear (over_now && free) p)
  unfolding act_all act seen_all
  clear-seen false free p e = refl
  clear-seen true false p e = refl
  clear-seen true true p e = rw (all_over_lem p.phases, e, append-nil (map dropped p.tasks)) refl

  shutdown_turn-seen :
      (c : Caller) (p : Threads A)
      → act_all (shutdown_stretch c p) (view p) ≡ seen_all (shutdown_turn c p)
  unfolding act_all act seen_all
  shutdown_turn-seen outside p = refl
  shutdown_turn-seen notifying p =
      ap (λ ws. (record (view p) { workers = ws }, [])) (sym (map-wake p.phases))
  shutdown_turn-seen joining p = clear-seen (all_over p.phases) (not p.locked) p refl

  schedule-seen :
      (x : Scheduled A) (p : Threads A) → act_all (stretch x p) (view p) ≡ seen_all (schedule x p)
  unfolding act_all schedule seen_all
  schedule-seen (worker_goes i) p =
      act_all-turn_if (visible_at i p.phases) i (view p)
      ∙ ap (λ q. (record (view p) { tasks = q.0; workers = q.1.0 }, q.1.1))
          (phase_at-seen i p.phases p.tasks p.is_running p.locked)
  schedule-seen (wakes i) p =
      ap (λ ws. (record (view p) { workers = ws }, [])) (sym (map-wake_at i p.phases))
  schedule-seen (client_submits task) p = submit_if-seen (not p.locked) task p
  schedule-seen caller_goes p = shutdown_turn-seen p.caller p

  act_all-append :
      (xs ys : List (Action A)) (p : ThreadPool A)
      → act_all (xs ++ ys) p
        ≡ (let (p', log) = act_all xs p in let (last, logs) = act_all ys p' in (last, log ++ logs))
  unfolding act_all
  act_all-append [] ys p = refl
  act_all-append (x ∷ xs) ys p =
      let (p', log) = act x p in
      let (p'', logs) = act_all xs p' in
      let (last, more) = act_all ys p'' in
      ap (λ q. (q.0, log ++ q.1)) (act_all-append xs ys p')
      ∙ ap (λ l. (last, l)) (sym (append_assoc log logs more))

  -- The threads with the mutex and the condition variable refine the stretches that each run alone: a
  -- schedule of theirs does what its visible steps do as stretches, with the same queue, flag,
  -- workers and log.
  pub schedule_all-Refines :
      (xs : List (Scheduled A)) (p : Threads A)
      → act_all (stretches xs p) (view p) ≡ (view (schedule_all xs p).0, (schedule_all xs p).1)
  unfolding schedule_all stretches act_all seen_all
  schedule_all-Refines [] p = refl
  schedule_all-Refines (x ∷ xs) p =
      let (p', log) = schedule x p in
      act_all-append (stretch x p) (stretches xs p') (view p)
      ∙ ap (λ q. let (last, logs) = act_all (stretches xs p') q.0 in (last, q.1 ++ logs))
          (schedule-seen x p)
      ∙ ap (λ q. (q.0, log ++ q.1)) (schedule_all-Refines xs p')
