-- ===== src/ThreadPool/Waits/Holders.antt =====
-- How many workers hold the mutex: one step of the workers.
use event_stream_core.Prelude.{ℕ, zero, suc, ◌+◌, ◌≤◌, ◌≡◌, Bool, true, false, List, [], ◌∷◌, arith}
use event_stream_core.ThreadPool.{Log}
use event_stream_core.ThreadPool.Waits.{
  Phase, at_flag, locking, checking, falling_asleep, blocked, passed, over, broken, in_task,
  phase_turn, phase_at,
}

abbrev pub one_if : Bool → ℕ
one_if true = 1
one_if false = 0

pub one_if_le : (b : Bool) → one_if b ≤ 1
one_if_le true = omega arith
one_if_le false = omega arith

module _ {A : Type 0} where
  -- Workers that hold the mutex in the wait.
  abbrev pub in_wait : Phase A → ℕ
  in_wait checking = 1
  in_wait falling_asleep = 1
  in_wait _ = 0

  -- Workers that hold the mutex behind the wait.
  abbrev pub behind : Phase A → ℕ
  behind passed = 1
  behind _ = 0

  abbrev pub fault : Phase A → ℕ
  fault broken = 1
  fault _ = 0

  abbrev pub total : (Phase A → ℕ) → List (Phase A) → ℕ
  total f [] = 0
  total f (w ∷ ws) = f w + total f ws

  -- How many workers may be behind the wait.
  abbrev pub room : List A → Bool → ℕ
  room [] true = 0
  room _ _ = 1

  abbrev pub IsExclusive : List A → Bool → Bool → ℕ → ℕ → ℕ → Type 0
  IsExclusive tasks is_running locked waits passes faults =
      (waits + passes ≡ one_if locked) × (passes ≤ room tasks is_running) × (faults ≡ 0)

  abbrev Goal : ℕ → ℕ → ℕ → Bool → List A × Bool × Phase A × List (Log A) → Type 0
  Goal m n k is_running (tasks, locked, w, log) =
      IsExclusive tasks is_running locked (m + in_wait w) (n + behind w) (k + fault w)

  -- One worker, with `m` others in the wait, `n` behind it and `k` faults.
  phase_turn-IsExclusive :
      (m n k : ℕ) (w : Phase A) (tasks : List A) (is_running locked : Bool)
      → IsExclusive tasks is_running locked (m + in_wait w) (n + behind w) (k + fault w)
      → Goal m n k is_running (phase_turn tasks is_running locked w)
  phase_turn-IsExclusive m n k at_flag tasks true locked h = h
  phase_turn-IsExclusive m n k at_flag tasks false locked h = h
  phase_turn-IsExclusive m n k locking tasks is_running true h = h
  phase_turn-IsExclusive m n k locking tasks is_running false (one, few, sound) =
      (omega (arith, one), omega (arith, one, few), omega (arith, sound))
  phase_turn-IsExclusive m n k checking [] true locked h = h
  phase_turn-IsExclusive m n k checking [] false locked (one, few, sound) =
      (omega (arith, one), omega (arith, one, one_if_le locked), omega (arith, sound))
  phase_turn-IsExclusive m n k checking (t ∷ ts) is_running locked (one, few, sound) =
      (omega (arith, one), omega (arith, one, one_if_le locked), omega (arith, sound))
  phase_turn-IsExclusive m n k falling_asleep tasks is_running locked (one, few, sound) =
      (omega (arith, one, one_if_le locked), few, sound)
  phase_turn-IsExclusive m n k blocked tasks is_running locked h = h
  phase_turn-IsExclusive m n k passed [] true locked (one, few, sound) =
      (omega (arith, few), omega (arith, few), omega (arith, few))
  phase_turn-IsExclusive m n k passed [] false locked (one, few, sound) = (
    omega (arith, one, one_if_le locked),
    omega (arith, one, one_if_le locked),
    omega (arith, sound),
  )
  phase_turn-IsExclusive m n k passed (t ∷ ts) is_running locked (one, few, sound) = (
    omega (arith, one, one_if_le locked),
    omega (arith, one, one_if_le locked),
    omega (arith, sound),
  )
  phase_turn-IsExclusive m n k over tasks is_running locked h = h
  phase_turn-IsExclusive m n k broken tasks is_running locked h = h
  phase_turn-IsExclusive m n k (in_task t) tasks is_running locked h = h

  -- Where a list of workers stands.
  abbrev pub All : ℕ → ℕ → ℕ → Bool → List A × Bool × List (Phase A) × List (Log A) → Type 0
  All m n k is_running (tasks, locked, ws, log) =
      IsExclusive tasks is_running locked (m + total in_wait ws) (n + total behind ws)
        (k + total fault ws)

  pub phase_at-IsExclusive :
      (i : ℕ) (ws : List (Phase A)) (m n k : ℕ) (tasks : List A) (is_running locked : Bool)
      → All m n k is_running (tasks, locked, ws, [])
      → All m n k is_running (phase_at i tasks is_running locked ws)
  unfolding phase_at
  phase_at-IsExclusive i [] m n k tasks is_running locked h = h
  phase_at-IsExclusive zero (w ∷ ws) m n k tasks is_running locked (one, few, sound) =
      let (one', few', sound') =
        phase_turn-IsExclusive (m + total in_wait ws) (n + total behind ws) (k + total fault ws) w
          tasks is_running locked (omega (arith, one), omega (arith, few), omega (arith, sound)) in
      (omega (arith, one'), omega (arith, few'), omega (arith, sound'))
  phase_at-IsExclusive (suc i) (w ∷ ws) m n k tasks is_running locked (one, few, sound) =
      let (one', few', sound') =
        phase_at-IsExclusive i ws (m + in_wait w) (n + behind w) (k + fault w) tasks is_running
          locked (omega (arith, one), omega (arith, few), omega (arith, sound)) in
      (omega (arith, one'), omega (arith, few'), omega (arith, sound'))
