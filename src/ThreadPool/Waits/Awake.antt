-- ===== src/ThreadPool/Waits/Awake.antt =====
-- One step of the workers once the flag is down and none is blocked: what is left to do gets less, or
-- nothing changes.
use event_stream_core.Prelude.{
  ℕ, zero, suc, ◌<◌, ◌≡◌, refl, ap, ap₂, Bool, true, false, ◌&&◌, List, [], ◌∷◌, map, length, ◌⊎◌,
  inl, inr, arith,
}
use event_stream_core.ThreadPool.{Log}
use event_stream_core.ThreadPool.Waits.{
  Phase, at_flag, locking, checking, falling_asleep, blocked, passed, over, broken, in_task,
  phase_turn, phase_at, wake, wake_at,
}
use event_stream_core.ThreadPool.Waits.Holders.{total, fault}

module _ {A : Type 0} where
  -- Steps that a worker has before it, once the flag is down.
  abbrev pub rank : Phase A → ℕ
  rank over = 0
  rank at_flag = 1
  rank (in_task t) = 2
  rank passed = 3
  rank checking = 4
  rank locking = 5
  rank _ = 6

  -- A worker that is blocked or about to block.
  abbrev pub asleep : Phase A → ℕ
  asleep falling_asleep = 1
  asleep blocked = 1
  asleep _ = 0

  -- Its next step leaves everything as it is.
  abbrev pub still : Bool → Phase A → Bool
  still locked over = true
  still locked locking = locked
  still locked _ = false

  abbrev pub all_still : Bool → List (Phase A) → Bool
  all_still locked [] = true
  all_still locked (w ∷ ws) = still locked w && all_still locked ws

  abbrev pub still_at : ℕ → Bool → List (Phase A) → Bool
  still_at i locked [] = true
  still_at zero locked (w ∷ ws) = still locked w
  still_at (suc i) locked (w ∷ ws) = still_at i locked ws

  -- One step of a worker that is awake and sound, with the flag down.
  Steps : Bool → Phase A → List A × Bool × Phase A × List (Log A) → Type 0
  Steps locked w (tasks, locked', w', log) =
      (asleep w' ≡ 0)
      × ((rank w' < rank w) ⊎ ((w' ≡ w) × (locked' ≡ locked) × (still locked w ≡ true)))

  phase_turn-Steps :
      (w : Phase A) (tasks : List A) (locked : Bool)
      → asleep w ≡ 0
      → fault w ≡ 0
      → Steps locked w (phase_turn tasks false locked w)
  unfolding Steps
  phase_turn-Steps at_flag tasks locked a f = (refl, inl (omega arith))
  phase_turn-Steps locking tasks true a f = (refl, inr (refl, refl, refl))
  phase_turn-Steps locking tasks false a f = (refl, inl (omega arith))
  phase_turn-Steps checking [] locked a f = (refl, inl (omega arith))
  phase_turn-Steps checking (t ∷ ts) locked a f = (refl, inl (omega arith))
  phase_turn-Steps falling_asleep tasks locked a f = absurd (omega (arith, a))
  phase_turn-Steps blocked tasks locked a f = absurd (omega (arith, a))
  phase_turn-Steps passed [] locked a f = (refl, inl (omega arith))
  phase_turn-Steps passed (t ∷ ts) locked a f = (refl, inl (omega arith))
  phase_turn-Steps over tasks locked a f = (refl, inr (refl, refl, refl))
  phase_turn-Steps broken tasks locked a f = absurd (omega (arith, f))
  phase_turn-Steps (in_task t) tasks locked a f = (refl, inl (omega arith))

  -- The same for the worker with an index.
  unfoldable pub StepsAt :
      ℕ → Bool → List (Phase A) → List A × Bool × List (Phase A) × List (Log A) → Type 0
  StepsAt i locked ws (tasks, locked', ws', log) =
      (total asleep ws' ≡ 0)
      × (length ws' ≡ length ws)
      × ((total rank ws' < total rank ws)
          ⊎ ((ws' ≡ ws) × (locked' ≡ locked) × (still_at i locked ws ≡ true)))

  pub phase_at-StepsAt :
      (i : ℕ) (ws : List (Phase A)) (tasks : List A) (locked : Bool)
      → total asleep ws ≡ 0
      → total fault ws ≡ 0
      → StepsAt i locked ws (phase_at i tasks false locked ws)
  unfolding phase_at StepsAt Steps
  phase_at-StepsAt i [] tasks locked a f = (refl, refl, inr (refl, refl, refl))
  phase_at-StepsAt zero (w ∷ ws) tasks locked a f =
      let (awake, moved) = phase_turn-Steps w tasks locked (omega (arith, a)) (omega (arith, f)) in
      (
        omega (arith, awake, a),
        refl,
        elim moved [
          | inl down ↦ inl (omega (arith, down))
          | inr (same, free, quiet) ↦ inr (ap (λ v. v ∷ ws) same, free, quiet)
        ],
      )
  phase_at-StepsAt (suc i) (w ∷ ws) tasks locked a f =
      let (awake, size, moved) =
        phase_at-StepsAt i ws tasks locked (omega (arith, a)) (omega (arith, f)) in
      (
        omega (arith, awake, a),
        ap suc size,
        elim moved [
          | inl down ↦ inl (omega (arith, down))
          | inr (same, free, quiet) ↦ inr (ap (◌∷◌ w) same, free, quiet)
        ],
      )

  wake_awake : (w : Phase A) → asleep w ≡ 0 → wake w ≡ w
  wake_awake at_flag a = refl
  wake_awake locking a = refl
  wake_awake checking a = refl
  wake_awake falling_asleep a = refl
  wake_awake blocked a = absurd (omega (arith, a))
  wake_awake passed a = refl
  wake_awake over a = refl
  wake_awake broken a = refl
  wake_awake (in_task t) a = refl

  pub wake_at-awake : (i : ℕ) (ws : List (Phase A)) → total asleep ws ≡ 0 → wake_at i ws ≡ ws
  unfolding wake_at
  wake_at-awake i [] a = refl
  wake_at-awake zero (w ∷ ws) a = ap (λ v. v ∷ ws) (wake_awake w (omega (arith, a)))
  wake_at-awake (suc i) (w ∷ ws) a = ap (◌∷◌ w) (wake_at-awake i ws (omega (arith, a)))

  pub map-wake-awake : (ws : List (Phase A)) → total asleep ws ≡ 0 → map wake ws ≡ ws
  map-wake-awake [] a = refl
  map-wake-awake (w ∷ ws) a =
      ap₂ ◌∷◌ (wake_awake w (omega (arith, a))) (map-wake-awake ws (omega (arith, a)))
