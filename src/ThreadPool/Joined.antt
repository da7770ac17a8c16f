-- ===== src/ThreadPool/Joined.antt =====
-- A worker's turn in a pool whose workers have all returned.
use event_stream_core.Prelude.{ℕ, zero, suc, ◌≡◌, refl, ap, Bool, true, List, [], ◌∷◌}
use event_stream_core.ThreadPool.{Worker, returned, turn_at, all_returned}

module _ {A : Type 0} where
  pub turn_at-returned :
      (i : ℕ) (tasks : List A) (r : Bool) (ws : List (Worker A))
      → all_returned ws ≡ true
      → turn_at i tasks r ws ≡ (tasks, (ws, []))
  unfolding turn_at
  turn_at-returned i tasks r [] h = refl
  turn_at-returned zero tasks r (returned ∷ ws) h = refl
  turn_at-returned (suc i) tasks r (returned ∷ ws) h =
      ap (λ t. (t.0, (returned ∷ t.1.0, t.1.1))) (turn_at-returned i tasks r ws h)
  turn_at-returned i tasks r (w ∷ ws) h = cc
