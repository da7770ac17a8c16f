-- ===== src/ThreadPool/Waits/Lost.antt =====
-- `shutdown` notifies without the mutex, and a worker between its predicate and its block misses it.
use event_stream_core.Prelude.{
  ℕ, zero, suc, subst, ◌≡◌, refl, sym, ap, Bool, true, false, ◌&&◌, not, List, [], ◌∷◌, map,
}
use event_stream_core.ThreadPool.Waits.{
  Phase, at_flag, locking, checking, falling_asleep, blocked, passed, over, broken, in_task,
  outside, joining, Threads, Scheduled, worker_goes, wakes, client_submits, caller_goes, phase_turn,
  phase_at, wake, wake_at, all_over, clear, shutdown_turn, submit_if, schedule, schedule_all,
}

-- Two indices are the same.
abbrev pub is_index : ℕ → ℕ → Bool
is_index zero zero = true
is_index zero (suc j) = false
is_index (suc i) zero = false
is_index (suc i) (suc j) = is_index i j

pub and_split : (a b : Bool) → a && b ≡ true → (a ≡ true) × (b ≡ true)
and_split true b e = (refl, e)
and_split false b e = (e, cc)

module _ {A : Type 0} where
  abbrev pub is_blocked : Phase A → Bool
  is_blocked blocked = true
  is_blocked _ = false

  abbrev pub is_falling_asleep : Phase A → Bool
  is_falling_asleep falling_asleep = true
  is_falling_asleep _ = false

  abbrev pub holds_at : (Phase A → Bool) → ℕ → List (Phase A) → Bool
  holds_at f i [] = false
  holds_at f zero (w ∷ ws) = f w
  holds_at f (suc i) (w ∷ ws) = holds_at f i ws

  abbrev pub wakes_index : ℕ → Scheduled A → Bool
  wakes_index i (wakes j) = is_index i j
  wakes_index i _ = false

  -- Nothing wakes this worker: no `notify_one`, and not the worker itself.
  abbrev pub not_woken : ℕ → List (Scheduled A) → Bool
  not_woken i [] = true
  not_woken i (x ∷ xs) = not (wakes_index i x) && not_woken i xs

  phase_turn-blocked :
      (w : Phase A) (tasks : List A) (is_running locked : Bool)
      → is_blocked w ≡ true
      → is_blocked (phase_turn tasks is_running locked w).2 ≡ true
  phase_turn-blocked at_flag tasks is_running locked e = cc
  phase_turn-blocked locking tasks is_running locked e = cc
  phase_turn-blocked checking tasks is_running locked e = cc
  phase_turn-blocked falling_asleep tasks is_running locked e = cc
  phase_turn-blocked blocked tasks is_running locked e = refl
  phase_turn-blocked passed tasks is_running locked e = cc
  phase_turn-blocked over tasks is_running locked e = cc
  phase_turn-blocked broken tasks is_running locked e = cc
  phase_turn-blocked (in_task t) tasks is_running locked e = cc

  phase_at-blocked :
      (i j : ℕ) (ws : List (Phase A)) (tasks : List A) (is_running locked : Bool)
      → holds_at is_blocked i ws ≡ true
      → holds_at is_blocked i (phase_at j tasks is_running locked ws).2 ≡ true
  unfolding phase_at
  phase_at-blocked i j [] tasks is_running locked e = e
  phase_at-blocked zero zero (w ∷ ws) tasks is_running locked e =
      phase_turn-blocked w tasks is_running locked e
  phase_at-blocked zero (suc j) (w ∷ ws) tasks is_running locked e = e
  phase_at-blocked (suc i) zero (w ∷ ws) tasks is_running locked e = e
  phase_at-blocked (suc i) (suc j) (w ∷ ws) tasks is_running locked e =
      phase_at-blocked i j ws tasks is_running locked e

  wake_at-blocked :
      (i j : ℕ) (ws : List (Phase A))
      → not (is_index i j) ≡ true
      → holds_at is_blocked i ws ≡ true
      → holds_at is_blocked i (wake_at j ws) ≡ true
  unfolding wake_at
  wake_at-blocked i j [] other e = e
  wake_at-blocked zero zero (w ∷ ws) other e = cc
  wake_at-blocked zero (suc j) (w ∷ ws) other e = e
  wake_at-blocked (suc i) zero (w ∷ ws) other e = e
  wake_at-blocked (suc i) (suc j) (w ∷ ws) other e = wake_at-blocked i j ws other e

  all_over-blocked :
      (i : ℕ) (ws : List (Phase A)) → holds_at is_blocked i ws ≡ true → all_over ws ≡ false
  all_over-blocked i [] e = sym e
  all_over-blocked zero (over ∷ ws) e = cc
  all_over-blocked (suc i) (over ∷ ws) e = all_over-blocked i ws e
  all_over-blocked i (at_flag ∷ ws) e = refl
  all_over-blocked i (locking ∷ ws) e = refl
  all_over-blocked i (checking ∷ ws) e = refl
  all_over-blocked i (falling_asleep ∷ ws) e = refl
  all_over-blocked i (blocked ∷ ws) e = refl
  all_over-blocked i (passed ∷ ws) e = refl
  all_over-blocked i (broken ∷ ws) e = refl
  all_over-blocked i (in_task t ∷ ws) e = refl

  -- A worker is blocked, and the thread in `shutdown` waits for it.
  pub IsStuck : ℕ → Threads A → Type 0
  IsStuck i p = (holds_at is_blocked i p.phases ≡ true) × (p.caller ≡ joining)

  submit_if-IsStuck :
      (i : ℕ) (b : Bool) (task : A) (p : Threads A) → IsStuck i p → IsStuck i (submit_if b task p).0
  unfolding IsStuck
  submit_if-IsStuck i true task p stuck = stuck
  submit_if-IsStuck i false task p stuck = stuck

  clear-IsStuck :
      (i : ℕ) (b : Bool) (p : Threads A) → b ≡ false → IsStuck i p → IsStuck i (clear b p).0
  clear-IsStuck i true p e stuck = cc
  clear-IsStuck i false p e stuck = stuck

  joining-IsStuck : (i : ℕ) (p : Threads A) → IsStuck i p → IsStuck i (shutdown_turn p.caller p).0
  unfolding IsStuck
  joining-IsStuck i p (asleep, at) =
      subst (λ c. IsStuck i (shutdown_turn c p).0) (sym at)
        (clear-IsStuck i (all_over p.phases && not p.locked) p
          (ap (λ b. b && not p.locked) (all_over-blocked i p.phases asleep)) (asleep, at))

  schedule-IsStuck :
      (i : ℕ) (x : Scheduled A) (p : Threads A)
      → not (wakes_index i x) ≡ true
      → IsStuck i p
      → IsStuck i (schedule x p).0
  unfolding schedule IsStuck
  schedule-IsStuck i (worker_goes j) p other (asleep, at) =
      (phase_at-blocked i j p.phases p.tasks p.is_running p.locked asleep, at)
  schedule-IsStuck i (wakes j) p other (asleep, at) =
      (wake_at-blocked i j p.phases other asleep, at)
  schedule-IsStuck i (client_submits task) p other stuck =
      submit_if-IsStuck i (not p.locked) task p stuck
  schedule-IsStuck i caller_goes p other stuck = joining-IsStuck i p stuck

  schedule_all-IsStuck :
      (i : ℕ) (xs : List (Scheduled A)) (p : Threads A)
      → not_woken i xs ≡ true
      → IsStuck i p
      → IsStuck i (schedule_all xs p).0
  unfolding schedule_all
  schedule_all-IsStuck i [] p quiet stuck = stuck
  schedule_all-IsStuck i (x ∷ xs) p quiet stuck =
      let (other, rest) = and_split (not (wakes_index i x)) (not_woken i xs) quiet in
      schedule_all-IsStuck i xs (schedule x p).0 rest (schedule-IsStuck i x p other stuck)

  fall_asleep :
      (w : Phase A) (tasks : List A) (is_running locked : Bool)
      → is_falling_asleep w ≡ true
      → is_blocked (phase_turn tasks is_running locked (wake w)).2 ≡ true
  fall_asleep at_flag tasks is_running locked e = cc
  fall_asleep locking tasks is_running locked e = cc
  fall_asleep checking tasks is_running locked e = cc
  fall_asleep falling_asleep tasks is_running locked e = refl
  fall_asleep blocked tasks is_running locked e = cc
  fall_asleep passed tasks is_running locked e = cc
  fall_asleep over tasks is_running locked e = cc
  fall_asleep broken tasks is_running locked e = cc
  fall_asleep (in_task t) tasks is_running locked e = cc

  fall_asleep_at :
      (i : ℕ) (ws : List (Phase A)) (tasks : List A) (is_running locked : Bool)
      → holds_at is_falling_asleep i ws ≡ true
      → holds_at is_blocked i (phase_at i tasks is_running locked (map wake ws)).2 ≡ true
  unfolding phase_at
  fall_asleep_at i [] tasks is_running locked e = cc
  fall_asleep_at zero (w ∷ ws) tasks is_running locked e = fall_asleep w tasks is_running locked e
  fall_asleep_at (suc i) (w ∷ ws) tasks is_running locked e =
      fall_asleep_at i ws tasks is_running locked e

  -- When `shutdown` stores the flag and notifies while a worker is between its predicate and its
  -- block, then the worker blocks behind the notification. It stays blocked, and `shutdown` in the
  -- join, in every schedule in which no later `notify_one` reaches the worker and it does not wake
  -- by itself.
  pub schedule_all-lost :
      (i : ℕ) (xs : List (Scheduled A)) (p : Threads A)
      → p.caller ≡ outside
      → holds_at is_falling_asleep i p.phases ≡ true
      → not_woken i xs ≡ true
      → IsStuck i (schedule_all (caller_goes ∷ caller_goes ∷ worker_goes i ∷ xs) p).0
  unfolding schedule_all schedule IsStuck
  schedule_all-lost i xs p out falling quiet = rw (out) (
      schedule_all-IsStuck i xs
        (record p {
          is_running = false;
          caller = joining;
          phases = (phase_at i p.tasks false p.locked (map wake p.phases)).2;
          tasks = (phase_at i p.tasks false p.locked (map wake p.phases)).0;
          locked = (phase_at i p.tasks false p.locked (map wake p.phases)).1;
        })
        quiet (fall_asleep_at i p.phases p.tasks false p.locked falling, refl))
