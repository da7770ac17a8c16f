-- ===== src/EventBusMulti.antt =====
-- include/event/EventBusMulti.hpp and src/event/EventBusMulti.cpp: three bounded queues.
-- Each operation holds the queue's mutex, so it is a function of the state that it finds.
-- `wait_for` with a predicate returns the predicate's value at the moment when the mutex is taken
-- back, after a push or at the end of the timeout: `pop` is a function of the state at that moment.
pub mod Queue
pub mod Fifo
mod Tests
use event_stream_core.Prelude.{
  ℕ, Bool, true, false, Option, none, some, List, [], ◌∷◌, ◌++◌, ltb, leb, if◌then◌else◌, length,
}
use event_stream_core.Event.{EventPtr}

pub data QueueId : Type 0 where
  realtime transactional batch : QueueId

-- `static_cast<int>(queueId)`
abbrev pub queue_code : QueueId → ℕ
queue_code realtime = 0
queue_code transactional = 1
queue_code batch = 2

pub record Q : Type 0 where
  pub dq : List EventPtr
  pub capacity : ℕ

pub record EventBusMulti : Type 0 where
  pub realtime_bus : Q
  pub transactional_bus : Q
  pub batch_bus : Q

-- The constructor.
abbrev pub new_bus : EventBusMulti
new_bus = record {
  realtime_bus = record { dq = []; capacity = 65536 };
  transactional_bus = record { dq = []; capacity = 131072 };
  batch_bus = record { dq = []; capacity = 32768 };
}

-- The pointer that `getQueue` returns is read by `get_queue` and written through by `set_queue`.
abbrev pub get_queue : QueueId → EventBusMulti → Q
get_queue realtime bus = bus.realtime_bus
get_queue transactional bus = bus.transactional_bus
get_queue batch bus = bus.batch_bus

abbrev pub set_queue : QueueId → Q → EventBusMulti → EventBusMulti
set_queue realtime queue bus = record bus { realtime_bus = queue }
set_queue transactional queue bus = record bus { transactional_bus = queue }
set_queue batch queue bus = record bus { batch_bus = queue }

unfoldable pub size : QueueId → EventBusMulti → ℕ
size q bus = length (get_queue q bus).dq

unfoldable pub push : QueueId → EventPtr → EventBusMulti → EventBusMulti × Bool
push q evt bus =
    let queue = get_queue q bus in
    if leb queue.capacity (length queue.dq)
    then (bus, false)
    else (set_queue q (record queue { dq = queue.dq ++ evt ∷ [] }) bus, true)

-- The front of a deque, and the deque without it.
abbrev pub pop_front {ℓ} : {A : Type ℓ} → List A → Option (A × List A)
pop_front [] = none
pop_front (x ∷ xs) = some (x, xs)

unfoldable pub pop : QueueId → EventBusMulti → EventBusMulti × Option EventPtr
pop q bus =
    let queue = get_queue q bus in
    elim (pop_front queue.dq) [
      | none ↦ (bus, none)
      | some (event, rest) ↦ (set_queue q (record queue { dq = rest }) bus, some event)
    ]
