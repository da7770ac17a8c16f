-- ===== src/ThreadPool/Waits/Exclusive.antt =====
-- The mutex: one worker at most is between its acquisition and its release, and so the queue is not
-- empty where a worker takes its front.
use event_stream_core.Prelude.{
  ℕ, zero, suc, ◌+◌, ◌≡◌, refl, sym, ap, Bool, true, false, ◌&&◌, not, List, [], ◌∷◌, ◌++◌, map,
  arith,
}
use event_stream_core.ThreadPool.Waits.{
  Phase, at_flag, locking, checking, falling_asleep, blocked, passed, over, broken, in_task, Caller,
  outside, notifying, joining, Threads, Scheduled, worker_goes, wakes, client_submits, caller_goes,
  fresh_phases, new_threads, wake, wake_at, all_over, clear, shutdown_turn, submit_if, schedule,
  schedule_all,
}
use event_stream_core.ThreadPool.Waits.Holders.{
  in_wait, behind, fault, total, one_if, one_if_le, room, IsExclusive, phase_at-IsExclusive,
}

and_not : (a b : Bool) → a && not b ≡ true → b ≡ false
and_not true false e = refl
and_not true true e = sym e
and_not false b e = cc

module _ {A : Type 0} where
  pub IsSafe : Threads A → Type 0
  IsSafe p =
      IsExclusive p.tasks p.is_running p.locked (total in_wait p.phases) (total behind p.phases)
        (total fault p.phases)

  pub safe-holder :
      (p : Threads A) → IsSafe p → total in_wait p.phases + total behind p.phases ≡ one_if p.locked
  unfolding IsSafe
  safe-holder p safe = safe.0

  pub safe-fault : (p : Threads A) → IsSafe p → total fault p.phases ≡ 0
  unfolding IsSafe
  safe-fault p safe = safe.2

  wake-same : (f : Phase A → ℕ) (w : Phase A) → f locking ≡ f blocked → f (wake w) ≡ f w
  wake-same f at_flag e = refl
  wake-same f locking e = refl
  wake-same f checking e = refl
  wake-same f falling_asleep e = refl
  wake-same f blocked e = e
  wake-same f passed e = refl
  wake-same f over e = refl
  wake-same f broken e = refl
  wake-same f (in_task t) e = refl

  total-wake_at :
      (f : Phase A → ℕ) (i : ℕ) (ws : List (Phase A))
      → f locking ≡ f blocked
      → total f (wake_at i ws) ≡ total f ws
  unfolding wake_at
  total-wake_at f i [] e = refl
  total-wake_at f zero (w ∷ ws) e = omega (arith, wake-same f w e)
  total-wake_at f (suc i) (w ∷ ws) e = omega (arith, total-wake_at f i ws e)

  total-wake :
      (f : Phase A → ℕ) (ws : List (Phase A))
      → f locking ≡ f blocked
      → total f (map wake ws) ≡ total f ws
  total-wake f [] e = refl
  total-wake f (w ∷ ws) e = omega (arith, wake-same f w e, total-wake f ws e)

  total-fresh : (f : Phase A → ℕ) (n : ℕ) → f at_flag ≡ 0 → total f (fresh_phases n) ≡ 0
  total-fresh f zero e = refl
  total-fresh f (suc n) e = omega (arith, e, total-fresh f n e)

  room-free : (tasks : List A) (task : A) (b : Bool) → room (tasks ++ task ∷ []) b ≡ 1
  room-free [] task b = refl
  room-free (t ∷ ts) task b = refl

  room-stopped : (tasks : List A) → room tasks false ≡ 1
  room-stopped [] = refl
  room-stopped (t ∷ ts) = refl

  submit_if-IsSafe :
      (b : Bool) (task : A) (p : Threads A) → IsSafe p → IsSafe (submit_if b task p).0
  unfolding IsSafe
  submit_if-IsSafe true task p (one, few, sound) =
      (one, omega (arith, one, one_if_le p.locked, room-free p.tasks task p.is_running), sound)
  submit_if-IsSafe false task p safe = safe

  clear-IsSafe :
      (b : Bool) (p : Threads A) → (b ≡ true → p.locked ≡ false) → IsSafe p → IsSafe (clear b p).0
  unfolding IsSafe
  clear-IsSafe true p free (one, few, sound) =
      (one, omega (arith, one, ap one_if (free refl)), sound)
  clear-IsSafe false p free safe = safe

  shutdown_turn-IsSafe : (c : Caller) (p : Threads A) → IsSafe p → IsSafe (shutdown_turn c p).0
  unfolding IsSafe
  shutdown_turn-IsSafe outside p (one, few, sound) =
      (one, omega (arith, one, one_if_le p.locked, room-stopped p.tasks), sound)
  shutdown_turn-IsSafe notifying p (one, few, sound) =
      let same = total-wake in_wait p.phases refl in
      let same' = total-wake behind p.phases refl in
      (
        omega (arith, one, same, same'),
        omega (arith, few, same'),
        omega (arith, sound, total-wake fault p.phases refl),
      )
  shutdown_turn-IsSafe joining p safe =
      clear-IsSafe (all_over p.phases && not p.locked) p (and_not (all_over p.phases) p.locked) safe

  pub schedule-IsSafe : (x : Scheduled A) (p : Threads A) → IsSafe p → IsSafe (schedule x p).0
  unfolding schedule IsSafe
  schedule-IsSafe (worker_goes i) p (one, few, sound) =
      let (one', few', sound') =
        phase_at-IsExclusive i p.phases 0 0 0 p.tasks p.is_running p.locked
          (omega (arith, one), omega (arith, few), omega (arith, sound)) in
      (omega (arith, one'), omega (arith, few'), omega (arith, sound'))
  schedule-IsSafe (wakes i) p (one, few, sound) =
      let same = total-wake_at in_wait i p.phases refl in
      let same' = total-wake_at behind i p.phases refl in
      (
        omega (arith, one, same, same'),
        omega (arith, few, same'),
        omega (arith, sound, total-wake_at fault i p.phases refl),
      )
  schedule-IsSafe (client_submits task) p safe = submit_if-IsSafe (not p.locked) task p safe
  schedule-IsSafe caller_goes p safe = shutdown_turn-IsSafe p.caller p safe

  pub schedule_all-IsSafe :
      (xs : List (Scheduled A)) (p : Threads A) → IsSafe p → IsSafe (schedule_all xs p).0
  unfolding schedule_all
  schedule_all-IsSafe [] p safe = safe
  schedule_all-IsSafe (x ∷ xs) p safe =
      schedule_all-IsSafe xs (schedule x p).0 (schedule-IsSafe x p safe)

  pub reached-IsSafe :
      (n : ℕ) (xs : List (Scheduled A)) → IsSafe (schedule_all xs (new_threads n)).0
  unfolding IsSafe
  reached-IsSafe n xs =
      let waits = total-fresh in_wait n refl in
      let passes = total-fresh behind n refl in
      let start : IsSafe (new_threads n) =
        (omega (arith, waits, passes), omega (arith, passes), total-fresh fault n refl) in
      schedule_all-IsSafe xs (new_threads n) start

  -- In every schedule of a new pool, at most one worker is in a section that the mutex guards, it is
  -- locked exactly then, and no worker takes the front of an empty queue.
  pub schedule_all-exclusive :
      (n : ℕ) (xs : List (Scheduled A))
      → let p = (schedule_all xs (new_threads n)).0 in
        (total in_wait p.phases + total behind p.phases ≡ one_if p.locked)
        × (total fault p.phases ≡ 0)
  schedule_all-exclusive n xs =
      let p = (schedule_all xs (new_threads n)).0 in
      let safe = reached-IsSafe n xs in (safe-holder p safe, safe-fault p safe)
