-- ===== src/ThreadPool/Waits/Joins.antt =====
-- A `shutdown` whose notification no worker missed returns from its joins.
use event_stream_core.Prelude.{
  ℕ, zero, suc, ◌+◌, ◌*◌, ◌≤◌, ◌<◌, ◌≡◌, refl, sym, ap, subst, ◌∙◌, Bool, true, false, List, [],
  ◌∷◌, ◌++◌, All, flatten, length, ◌⊎◌, inl, inr, arith, Bool-cases, ◌==◌, ==_iff,
}
use event_stream_core.ThreadPool.Waits.{
  Phase, at_flag, locking, checking, falling_asleep, blocked, passed, over, broken, in_task,
  Threads, Scheduled, new_threads, all_over, schedule, schedule_all,
}
use event_stream_core.ThreadPool.Waits.Holders.{total, in_wait, behind, one_if}
use event_stream_core.ThreadPool.Waits.Exclusive.{safe-holder, schedule_all-IsSafe, reached-IsSafe}
use event_stream_core.ThreadPool.Waits.Lost.{and_split}
use event_stream_core.ThreadPool.Waits.Awake.{rank, asleep, still, all_still, still_at}
use event_stream_core.ThreadPool.Waits.Draining.{
  IsDraining, IsIdle, Moves, occurs, schedule_all-Moves,
}

-- What is left of the bound after a round.
one_fewer :
    (before now rounds : ℕ) → before ≤ suc rounds → (now < before) ⊎ (now ≡ 0) → now ≤ rounds
one_fewer before now rounds h moved = elim moved [
  | inl fewer ↦ omega (arith, h, fewer)
  | inr none_left ↦ omega (arith, none_left)
]

module _ {A : Type 0} where
  still-rank : (w : Phase A) → still false w ≡ true → rank w ≡ 0
  still-rank at_flag e = cc
  still-rank locking e = cc
  still-rank checking e = cc
  still-rank falling_asleep e = cc
  still-rank blocked e = cc
  still-rank passed e = cc
  still-rank over e = refl
  still-rank broken e = cc
  still-rank (in_task t) e = cc

  still-holder : (w : Phase A) → still true w ≡ true → in_wait w + behind w ≡ 0
  still-holder at_flag e = cc
  still-holder locking e = refl
  still-holder checking e = cc
  still-holder falling_asleep e = cc
  still-holder blocked e = cc
  still-holder passed e = cc
  still-holder over e = refl
  still-holder broken e = cc
  still-holder (in_task t) e = cc

  all_still-rank : (ws : List (Phase A)) → all_still false ws ≡ true → total rank ws ≡ 0
  all_still-rank [] e = refl
  all_still-rank (w ∷ ws) e =
      let (now, later) = and_split (still false w) (all_still false ws) e in
      omega (arith, still-rank w now, all_still-rank ws later)

  all_still-holder :
      (ws : List (Phase A)) → all_still true ws ≡ true → total in_wait ws + total behind ws ≡ 0
  all_still-holder [] e = refl
  all_still-holder (w ∷ ws) e =
      let (now, later) = and_split (still true w) (all_still true ws) e in
      omega (arith, still-holder w now, all_still-holder ws later)

  -- With a mutex that is locked exactly if a worker holds it, all are still only at the end.
  still-over :
      (locked : Bool) (ws : List (Phase A))
      → all_still locked ws ≡ true
      → total in_wait ws + total behind ws ≡ one_if locked
      → total rank ws ≡ 0
  still-over true ws e held = absurd (omega (arith, held, all_still-holder ws e))
  still-over false ws e held = all_still-rank ws e

  still_at-all :
      (locked : Bool) (ws : List (Phase A))
      → ((i : ℕ) → i < length ws → still_at i locked ws ≡ true)
      → all_still locked ws ≡ true
  still_at-all locked [] h = refl
  still_at-all locked (w ∷ ws) h =
      rw (h 0 (omega arith), still_at-all locked ws (λ i l. h (suc i) (omega (arith, l)))) refl

  -- Each of the first `n` workers takes a turn.
  abbrev pub IsRound : ℕ → List (Scheduled A) → Type 0
  IsRound zero xs = Unit
  IsRound (suc n) xs = (occurs n xs ≡ true) × IsRound n xs

  IsRound-occurs :
      (n : ℕ) (xs : List (Scheduled A)) (i : ℕ) → IsRound n xs → i < n → occurs i xs ≡ true
  IsRound-occurs zero xs i h l = absurd (omega (arith, l))
  IsRound-occurs (suc n) xs i h l = elim (Bool-cases (i == n)) [
    | inl e ↦ subst (λ k. occurs k xs ≡ true) (sym ((==_iff i n).0 e)) h.0
    | inr e ↦ IsRound-occurs n xs i h.1 (ground (arith, l, e))
  ]

  -- A round brings the workers nearer to their end, unless they are there.
  round-nearer :
      (xs : List (Scheduled A)) (p : Threads A)
      → IsDraining p
      → IsRound (length p.phases) xs
      → (total rank (schedule_all xs p).0.phases < total rank p.phases)
        ⊎ (total rank (schedule_all xs p).0.phases ≡ 0)
  unfolding IsDraining Moves IsIdle
  round-nearer xs p (down, a, safe) round = elim (schedule_all-Moves xs p (down, a, safe)).3 [
    | inl fewer ↦ inl fewer
    | inr (same, free, quiet) ↦ inr (
        ap (total rank) same
        ∙ still-over p.locked p.phases
            (still_at-all p.locked p.phases
              (λ i l. quiet i (IsRound-occurs (length p.phases) xs i round l)))
            (safe-holder p safe))
  ]

  rank_le : (w : Phase A) → rank w ≤ 6
  rank_le at_flag = omega arith
  rank_le locking = omega arith
  rank_le checking = omega arith
  rank_le falling_asleep = omega arith
  rank_le blocked = omega arith
  rank_le passed = omega arith
  rank_le over = omega arith
  rank_le broken = omega arith
  rank_le (in_task t) = omega arith

  rank_bound : (ws : List (Phase A)) → total rank ws ≤ 6 * length ws
  rank_bound [] = omega arith
  rank_bound (w ∷ ws) = omega (arith, rank_le w, rank_bound ws)

  rank-over : (ws : List (Phase A)) → total rank ws ≡ 0 → all_over ws ≡ true
  rank-over [] e = refl
  rank-over (over ∷ ws) e = rank-over ws (omega (arith, e))
  rank-over (at_flag ∷ ws) e = absurd (omega (arith, e))
  rank-over (locking ∷ ws) e = absurd (omega (arith, e))
  rank-over (checking ∷ ws) e = absurd (omega (arith, e))
  rank-over (falling_asleep ∷ ws) e = absurd (omega (arith, e))
  rank-over (blocked ∷ ws) e = absurd (omega (arith, e))
  rank-over (passed ∷ ws) e = absurd (omega (arith, e))
  rank-over (broken ∷ ws) e = absurd (omega (arith, e))
  rank-over (in_task t ∷ ws) e = absurd (omega (arith, e))

  schedule_all-append :
      (xs ys : List (Scheduled A)) (p : Threads A)
      → (schedule_all (xs ++ ys) p).0 ≡ (schedule_all ys (schedule_all xs p).0).0
  unfolding schedule_all
  schedule_all-append [] ys p = refl
  schedule_all-append (x ∷ xs) ys p = schedule_all-append xs ys (schedule x p).0

  rounds-rank :
      (rounds : List (List (Scheduled A))) (p : Threads A)
      → IsDraining p
      → All (IsRound (length p.phases)) rounds
      → total rank p.phases ≤ length rounds
      → total rank (schedule_all (flatten rounds) p).0.phases ≡ 0
  unfolding schedule_all IsDraining Moves
  rounds-rank [] p draining full enough = omega (arith, enough)
  rounds-rank (xs ∷ rounds) p (down, a, safe) full enough =
      let q = (schedule_all xs p).0 in
      let moved = schedule_all-Moves xs p (down, a, safe) in
      ap (λ r. total rank r.phases) (schedule_all-append xs (flatten rounds) p)
      ∙ rounds-rank rounds q (moved.0, moved.1, schedule_all-IsSafe xs p safe)
          (subst (λ n. All (IsRound n) rounds) (sym moved.2) full.1)
          (one_fewer (total rank p.phases) (total rank q.phases) (length rounds) enough
            (round-nearer xs p (down, a, safe) full.0))

  -- The flag of a new pool is down after some schedule, and no worker is blocked or between its
  -- predicate and its block. Then, whatever else is submitted, woken or called meanwhile, six rounds
  -- for each worker, in each of which every worker gets a turn, end all workers, so that the joins of
  -- `shutdown` return.
  pub schedule_all-joins :
      (n : ℕ) (before : List (Scheduled A)) (rounds : List (List (Scheduled A)))
      → (schedule_all before (new_threads n)).0.is_running ≡ false
      → total asleep (schedule_all before (new_threads n)).0.phases ≡ 0
      → All (IsRound (length (schedule_all before (new_threads n)).0.phases)) rounds
      → 6 * length (schedule_all before (new_threads n)).0.phases ≤ length rounds
      → all_over (schedule_all (before ++ flatten rounds) (new_threads n)).0.phases ≡ true
  unfolding IsDraining
  schedule_all-joins n before rounds down a full enough =
      let p = (schedule_all before (new_threads n)).0 in
      ap (λ r. all_over r.phases) (schedule_all-append before (flatten rounds) (new_threads n))
      ∙ rank-over (schedule_all (flatten rounds) p).0.phases (
          rounds-rank rounds p (down, a, reached-IsSafe n before) full
            (omega (arith, rank_bound p.phases, enough)))
