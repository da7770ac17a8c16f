-- ===== src/ThreadPool/Waits/Draining.antt =====
-- A schedule of all threads once the flag is down and no worker is blocked.
use event_stream_core.Prelude.{
  ℕ, zero, suc, ◌<◌, ◌≡◌, refl, sym, ap, ap₂, subst, ◌∙◌, Bool, true, false, ◌&&◌, ◌||◌, not, List,
  [], ◌∷◌, length, ◌⊎◌, inl, inr, arith, Bool-cases,
}
use event_stream_core.ThreadPool.Waits.{
  Caller, outside, notifying, joining, Threads, Scheduled, worker_goes, wakes, client_submits,
  caller_goes, phase_at, all_over, clear, shutdown_turn, submit_if, schedule, schedule_all,
}
use event_stream_core.ThreadPool.Waits.Holders.{total}
use event_stream_core.ThreadPool.Waits.Exclusive.{IsSafe, safe-fault, schedule-IsSafe}
use event_stream_core.ThreadPool.Waits.Lost.{is_index}
use event_stream_core.ThreadPool.Waits.Awake.{
  rank, asleep, still_at, StepsAt, phase_at-StepsAt, wake_at-awake, map-wake-awake,
}

is_index→eq : (i j : ℕ) → is_index i j ≡ true → i ≡ j
is_index→eq zero zero e = refl
is_index→eq zero (suc j) e = cc
is_index→eq (suc i) zero e = cc
is_index→eq (suc i) (suc j) e = ap suc (is_index→eq i j e)

module _ {A : Type 0} where
  unfoldable pub IsDraining : Threads A → Type 0
  IsDraining p = (p.is_running ≡ false) × (total asleep p.phases ≡ 0) × IsSafe p

  abbrev pub goes : ℕ → Scheduled A → Bool
  goes i (worker_goes j) = is_index i j
  goes i _ = false

  -- Every worker that took its turn had nothing to do, and nothing has changed.
  unfoldable pub IsIdle : (ℕ → Bool) → Threads A → Threads A → Type 0
  IsIdle took_turn p q =
      (q.phases ≡ p.phases)
      × (q.locked ≡ p.locked)
      × ((i : ℕ) → took_turn i ≡ true → still_at i p.locked p.phases ≡ true)

  unfoldable pub Moves : (ℕ → Bool) → Threads A → Threads A → Type 0
  Moves took_turn p q =
      (q.is_running ≡ false)
      × (total asleep q.phases ≡ 0)
      × (length q.phases ≡ length p.phases)
      × ((total rank q.phases < total rank p.phases) ⊎ IsIdle took_turn p q)

  -- A step that changes neither the workers nor the mutex.
  stays :
      (p q : Threads A)
      → q.is_running ≡ false
      → q.phases ≡ p.phases
      → q.locked ≡ p.locked
      → total asleep p.phases ≡ 0
      → Moves (λ _. false) p q
  unfolding Moves IsIdle
  stays p q down same free a =
      (down, ap (total asleep) same ∙ a, ap (λ ws. length ws) same, inr (same, free, λ i e. cc))

  submit_if-Moves :
      (b : Bool) (task : A) (p : Threads A)
      → IsDraining p
      → Moves (λ _. false) p (submit_if b task p).0
  unfolding IsDraining
  submit_if-Moves true task p (down, a, safe) = stays p (submit_if true task p).0 down refl refl a
  submit_if-Moves false task p (down, a, safe) = stays p p down refl refl a

  clear-Moves : (b : Bool) (p : Threads A) → IsDraining p → Moves (λ _. false) p (clear b p).0
  unfolding IsDraining
  clear-Moves true p (down, a, safe) = stays p (clear true p).0 down refl refl a
  clear-Moves false p (down, a, safe) = stays p p down refl refl a

  shutdown_turn-Moves :
      (c : Caller) (p : Threads A) → IsDraining p → Moves (λ _. false) p (shutdown_turn c p).0
  unfolding IsDraining
  shutdown_turn-Moves outside p (down, a, safe) =
      stays p (shutdown_turn outside p).0 refl refl refl a
  shutdown_turn-Moves notifying p (down, a, safe) =
      stays p (shutdown_turn notifying p).0 down (map-wake-awake p.phases a) refl a
  shutdown_turn-Moves joining p draining =
      clear-Moves (all_over p.phases && not p.locked) p draining

  schedule-Moves :
      (x : Scheduled A) (p : Threads A) → IsDraining p → Moves (λ i. goes i x) p (schedule x p).0
  unfolding schedule IsDraining Moves IsIdle StepsAt
  schedule-Moves (worker_goes j) p (down, a, safe) =
      let (awake, size, moved) =
        subst (λ b. StepsAt j p.locked p.phases (phase_at j p.tasks b p.locked p.phases)) (sym down)
          (phase_at-StepsAt j p.phases p.tasks p.locked a (safe-fault p safe)) in
      (
        down,
        awake,
        size,
        elim moved [
          | inl fewer ↦ inl fewer
          | inr (same, free, quiet) ↦ inr (
            same,
            free,
            λ i e. subst (λ k. still_at k p.locked p.phases ≡ true) (sym (is_index→eq i j e)) quiet,
          )
        ],
      )
  schedule-Moves (wakes j) p (down, a, safe) =
      stays p (schedule (wakes j) p).0 down (wake_at-awake j p.phases a) refl a
  schedule-Moves (client_submits task) p draining = submit_if-Moves (not p.locked) task p draining
  schedule-Moves caller_goes p draining = shutdown_turn-Moves p.caller p draining

  Moves-trans :
      (f g : ℕ → Bool) (p q r : Threads A) → Moves f p q → Moves g q r → Moves (λ i. f i || g i) p r
  unfolding Moves IsIdle
  Moves-trans f g p q r (_, _, size, first) (down, awake, size', second) = (
    down,
    awake,
    size' ∙ size,
    elim first [
      | inl fewer ↦ elim second [
        | inl fewer' ↦ inl (omega (arith, fewer, fewer'))
        | inr (same', _, _) ↦ inl (omega (arith, fewer, ap (total rank) same'))
      ]
      | inr (same, free, quiet) ↦ elim second [
        | inl fewer' ↦ inl (omega (arith, fewer', ap (total rank) same))
        | inr (same', free', quiet') ↦ inr (
          same' ∙ same,
          free' ∙ free,
          λ i e. elim (Bool-cases (f i)) [
            | inl h ↦ quiet i h
            | inr h ↦
                ap₂ (λ b ws. still_at i b ws) (sym free) (sym same)
                ∙ quiet' i (sym (ap (λ b. b || g i) h) ∙ e)
          ],
        )
      ]
    ],
  )

  abbrev pub occurs : ℕ → List (Scheduled A) → Bool
  occurs i [] = false
  occurs i (x ∷ xs) = goes i x || occurs i xs

  pub schedule_all-Moves :
      (xs : List (Scheduled A)) (p : Threads A)
      → IsDraining p
      → Moves (λ i. occurs i xs) p (schedule_all xs p).0
  unfolding schedule_all IsDraining Moves
  schedule_all-Moves [] p (down, a, safe) = stays p p down refl refl a
  schedule_all-Moves (x ∷ xs) p (down, a, safe) =
      let p' = (schedule x p).0 in
      let first = schedule-Moves x p (down, a, safe) in
      Moves-trans (λ i. goes i x) (λ i. occurs i xs) p p' (schedule_all xs p').0 first
        (schedule_all-Moves xs p' (first.0, first.1, schedule-IsSafe x p safe))
