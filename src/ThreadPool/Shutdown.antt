-- ===== src/ThreadPool/Shutdown.antt =====
-- What `shutdown` brings about.
use event_stream_core.Prelude.{
  ℕ, zero, suc, ◌+◌, ◌-◌, ◌≤◌, ◌<◌, ◌≡◌, refl, ap, sym, ◌∙◌, Bool, true, false, List, [], ◌∷◌,
  length, arith, subst,
}
use event_stream_core.ThreadPool.{
  Worker, testing, waiting, returned, working, ThreadPool, Action, submits, takes_turn, stops,
  clears, worker_turn, turn_at, clear_if, all_returned, act, act_all,
}

abbrev pub one_if_same : ℕ → ℕ → ℕ
one_if_same zero zero = 1
one_if_same zero (suc j) = 0
one_if_same (suc i) zero = 0
one_if_same (suc i) (suc j) = one_if_same i j

module _ {A : Type 0} where
  -- How many more turns a worker takes once the flag is down.
  abbrev rank : Worker A → ℕ
  rank returned = 0
  rank testing = 1
  rank (working t) = 2
  rank waiting = 3

  abbrev rank_at : ℕ → List (Worker A) → ℕ
  rank_at i [] = 0
  rank_at zero (w ∷ ws) = rank w
  rank_at (suc i) (w ∷ ws) = rank_at i ws

  -- The turns of one worker in a schedule.
  abbrev pub turns_of : ℕ → List (Action A) → ℕ
  turns_of i [] = 0
  turns_of i (takes_turn j ∷ rest) = one_if_same i j + turns_of i rest
  turns_of i (a ∷ rest) = turns_of i rest

  rank-turn : (tasks : List A) (w : Worker A) → rank (worker_turn tasks false w).1.0 ≤ rank w - 1
  rank-turn tasks testing = omega arith
  rank-turn [] waiting = omega arith
  rank-turn (t ∷ ts) waiting = omega arith
  rank-turn tasks (working t) = omega arith
  rank-turn tasks returned = omega arith

  rank_at-turn :
      (i j : ℕ) (tasks : List A) (ws : List (Worker A))
      → rank_at i (turn_at j tasks false ws).1.0 ≤ rank_at i ws - one_if_same i j
  unfolding turn_at
  rank_at-turn i j tasks [] = omega arith
  rank_at-turn zero zero tasks (w ∷ ws) = rank-turn tasks w
  rank_at-turn zero (suc j) tasks (w ∷ ws) = omega arith
  rank_at-turn (suc i) zero tasks (w ∷ ws) = omega arith
  rank_at-turn (suc i) (suc j) tasks (w ∷ ws) = rank_at-turn i j tasks ws

  clear_if-same :
      (b : Bool) (p : ThreadPool A)
      → ◌≡◌ {A = List (Worker A) × Bool}
          ((clear_if b p).0.workers, (clear_if b p).0.is_running)
          (p.workers, p.is_running)
  clear_if-same true p = refl
  clear_if-same false p = refl

  act-running :
      (a : Action A) (p : ThreadPool A) → p.is_running ≡ false → (act a p).0.is_running ≡ false
  unfolding act
  act-running (submits t) p h = h
  act-running (takes_turn i) p h = h
  act-running stops p h = refl
  act-running clears p h = ap (λ q. q.1) (clear_if-same (all_returned p.workers) p) ∙ h

  rank_at-act :
      (i : ℕ) (a : Action A) (p : ThreadPool A)
      → p.is_running ≡ false
      → rank_at i (act a p).0.workers ≤ rank_at i p.workers - turns_of i (a ∷ [])
  unfolding act
  rank_at-act i (submits t) p h = omega arith
  rank_at-act i (takes_turn j) p h =
      subst
        (λ b.
          rank_at i (turn_at j p.tasks b p.workers).1.0
          ≤ rank_at i p.workers - (one_if_same i j + 0))
        (sym h) (omega (arith, rank_at-turn i j p.tasks p.workers))
  rank_at-act i stops p h = omega arith
  rank_at-act i clears p h =
      omega (arith, ap (λ q. rank_at i q.0) (clear_if-same (all_returned p.workers) p))

  turns_of-cons :
      (i : ℕ) (a : Action A) (rest : List (Action A))
      → turns_of i (a ∷ rest) ≡ turns_of i (a ∷ []) + turns_of i rest
  turns_of-cons i (submits t) rest = omega arith
  turns_of-cons i (takes_turn j) rest = omega arith
  turns_of-cons i stops rest = omega arith
  turns_of-cons i clears rest = omega arith

  rank_at-act_all :
      (i : ℕ) (rest : List (Action A)) (p : ThreadPool A)
      → p.is_running ≡ false
      → rank_at i (act_all rest p).0.workers ≤ rank_at i p.workers - turns_of i rest
  unfolding act_all
  rank_at-act_all i [] p h = omega arith
  rank_at-act_all i (a ∷ rest) p h = omega (
    arith,
    rank_at-act i a p h,
    rank_at-act_all i rest (act a p).0 (act-running a p h),
    turns_of-cons i a rest,
  )

  rank_bound : (i : ℕ) (ws : List (Worker A)) → rank_at i ws ≤ 3
  rank_bound i [] = omega arith
  rank_bound zero (returned ∷ ws) = omega arith
  rank_bound zero (testing ∷ ws) = omega arith
  rank_bound zero (working t ∷ ws) = omega arith
  rank_bound zero (waiting ∷ ws) = omega arith
  rank_bound (suc i) (w ∷ ws) = rank_bound i ws

  rank_zero :
      (ws : List (Worker A)) → ((i : ℕ) → i < length ws → rank_at i ws ≡ 0) → all_returned ws ≡ true
  rank_zero [] h = refl
  rank_zero (returned ∷ ws) h = rank_zero ws (λ i l. h (suc i) (omega arith))
  rank_zero (testing ∷ ws) h = absurd (omega (arith, h 0 (omega arith)))
  rank_zero (working t ∷ ws) h = absurd (omega (arith, h 0 (omega arith)))
  rank_zero (waiting ∷ ws) h = absurd (omega (arith, h 0 (omega arith)))

  length-turn_at :
      (j : ℕ) (tasks : List A) (r : Bool) (ws : List (Worker A))
      → length (turn_at j tasks r ws).1.0 ≡ length ws
  unfolding turn_at
  length-turn_at j tasks r [] = refl
  length-turn_at zero tasks r (w ∷ ws) = refl
  length-turn_at (suc j) tasks r (w ∷ ws) = ap (λ n. suc n) (length-turn_at j tasks r ws)

  length-act : (a : Action A) (p : ThreadPool A) → length (act a p).0.workers ≡ length p.workers
  unfolding act
  length-act (submits t) p = refl
  length-act (takes_turn j) p = length-turn_at j p.tasks p.is_running p.workers
  length-act stops p = refl
  length-act clears p = ap (λ q. length q.0) (clear_if-same (all_returned p.workers) p)

  length-act_all :
      (rest : List (Action A)) (p : ThreadPool A)
      → length (act_all rest p).0.workers ≡ length p.workers
  unfolding act_all
  length-act_all [] p = refl
  length-act_all (a ∷ rest) p = length-act_all rest (act a p).0 ∙ length-act a p

  -- Once the flag is down, a schedule in which every worker gets three turns ends all of them,
  -- whatever is submitted meanwhile and however much is queued.
  pub act_all-returned :
      (schedule : List (Action A)) (p : ThreadPool A)
      → p.is_running ≡ false
      → ((i : ℕ) → i < length p.workers → 3 ≤ turns_of i schedule)
      → all_returned (act_all schedule p).0.workers ≡ true
  act_all-returned schedule p h turns = rank_zero (act_all schedule p).0.workers (λ i l. omega (
    arith,
    rank_at-act_all i schedule p h,
    rank_bound i p.workers,
    turns i (omega (arith, length-act_all schedule p)),
  ))
