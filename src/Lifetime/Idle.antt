-- ===== src/Lifetime/Idle.antt =====
-- What the workers touch: the `this` of a task only while they run it, and tasks only come from the
-- queue.
use event_stream_core.Prelude.{
  ℕ, zero, suc, ◌≡◌, refl, Bool, true, false, List, [], ◌∷◌, All, if◌then◌else◌,
}
use event_stream_core.Event.{Event}
use event_stream_core.ThreadPool.{
  Worker, testing, waiting, working, returned, ThreadPool, clear_if, turn_at,
}
use event_stream_core.System.{
  Routing, at_test, at_pop, at_push, ended, crashed, Processing, at_loop, done, at_poll, at_submit,
}
use event_stream_core.Lifetime.{
  Object, storage_engine, worker_pool, captured_this, touched_by_dispatcher, touched_by_processor,
  touched_at,
}

-- The worker with this index is in the wait.
abbrev pub waits_at : ℕ → List (Worker Event) → Bool
waits_at i [] = false
waits_at zero (waiting ∷ ws) = true
waits_at zero (w ∷ ws) = false
waits_at (suc i) (w ∷ ws) = waits_at i ws

pub turn_at-working :
    (i : ℕ) (ws : List (Worker Event)) (t : Event) (ts : List Event) (is_running : Bool)
    → waits_at i ws ≡ true
    → touched_at i (turn_at i (t ∷ ts) is_running ws).1.0
      ≡ captured_this ∷ storage_engine ∷ worker_pool ∷ []
unfolding turn_at
turn_at-working i [] t ts b e = cc
turn_at-working zero (waiting ∷ ws) t ts b e = refl
turn_at-working zero (testing ∷ ws) t ts b e = cc
turn_at-working zero (working x ∷ ws) t ts b e = cc
turn_at-working zero (returned ∷ ws) t ts b e = cc
turn_at-working (suc i) (w ∷ ws) t ts b e = turn_at-working i ws t ts b e

-- No worker runs a task.
abbrev pub none_working : List (Worker Event) → Bool
none_working [] = true
none_working (working x ∷ ws) = false
none_working (w ∷ ws) = none_working ws

abbrev pub is_captured : Object → Bool
is_captured captured_this = true
is_captured o = false

abbrev pub Free : List Object → Type 0
Free os = All (λ o. is_captured o ≡ false) os

pub touched_at-Free :
    (i : ℕ) (ws : List (Worker Event)) → none_working ws ≡ true → Free (touched_at i ws)
touched_at-Free i [] e = tt
touched_at-Free zero (testing ∷ ws) e = (refl, tt)
touched_at-Free zero (waiting ∷ ws) e = (refl, tt)
touched_at-Free zero (returned ∷ ws) e = tt
touched_at-Free (suc i) (testing ∷ ws) e = touched_at-Free i ws e
touched_at-Free (suc i) (waiting ∷ ws) e = touched_at-Free i ws e
touched_at-Free (suc i) (returned ∷ ws) e = touched_at-Free i ws e
touched_at-Free i (working x ∷ ws) e = absurd (cc)

pub dispatcher-Free : (pc : Routing) → Free (touched_by_dispatcher pc)
dispatcher-Free at_test = (refl, tt)
dispatcher-Free at_pop = (refl, (refl, tt))
dispatcher-Free (at_push retry q evt) = (refl, (refl, tt))
dispatcher-Free ended = tt
dispatcher-Free crashed = tt

pub processor-Free : (pc : Processing) → Free (touched_by_processor pc)
processor-Free at_loop = (refl, tt)
processor-Free (at_poll q) = (refl, (refl, tt))
processor-Free (at_submit evt) = (refl, (refl, tt))
processor-Free done = tt

-- A pool with nothing to do.
abbrev pub IsIdle : ThreadPool Event → Type 0
IsIdle p = (p.tasks ≡ []) × (none_working p.workers ≡ true)

if-working :
    (b : Bool) (ws : List (Worker Event))
    → none_working ws ≡ true
    → none_working ((if b then waiting else returned) ∷ ws) ≡ true
if-working true ws e = e
if-working false ws e = e

turn_at-IsIdle :
    (i : ℕ) (ws : List (Worker Event)) (b : Bool)
    → none_working ws ≡ true
    → ((turn_at i [] b ws).0 ≡ []) × (none_working (turn_at i [] b ws).1.0 ≡ true)
unfolding turn_at
turn_at-IsIdle i [] b e = (refl, refl)
turn_at-IsIdle zero (testing ∷ ws) b e = (refl, if-working b ws e)
turn_at-IsIdle zero (waiting ∷ ws) true e = (refl, e)
turn_at-IsIdle zero (waiting ∷ ws) false e = (refl, e)
turn_at-IsIdle zero (returned ∷ ws) b e = (refl, e)
turn_at-IsIdle (suc i) (testing ∷ ws) b e = turn_at-IsIdle i ws b e
turn_at-IsIdle (suc i) (waiting ∷ ws) b e = turn_at-IsIdle i ws b e
turn_at-IsIdle (suc i) (returned ∷ ws) b e = turn_at-IsIdle i ws b e
turn_at-IsIdle i (working x ∷ ws) b e = absurd (cc)

pub clear_if-IsIdle : (b : Bool) (p : ThreadPool Event) → IsIdle p → IsIdle (clear_if b p).0
clear_if-IsIdle true p (t, w) = (refl, w)
clear_if-IsIdle false p idle = idle

pub takes_turn-IsIdle :
    (i : ℕ) (ts : List Event) (p : ThreadPool Event)
    → ts ≡ []
    → none_working p.workers ≡ true
    → ((turn_at i ts p.is_running p.workers).0 ≡ [])
      × (none_working (turn_at i ts p.is_running p.workers).1.0 ≡ true)
takes_turn-IsIdle i [] p t w = turn_at-IsIdle i p.workers p.is_running w
takes_turn-IsIdle i (t ∷ ts) p e w = absurd (cc)
