-- ===== src/Dispatcher/Retry.antt =====
-- The five attempts to push an event, with other threads at work in between.
use event_stream_core.Prelude.{
  ℕ, zero, suc, ◌≤◌, ◌<◌, Bool, true, false, [], ◌∷◌, ◌++◌, ◌≡◌, refl, ◌⊎◌, inl, inr, length, arith,
  ◌∙◌,
}
use event_stream_core.Event.{EventPtr}
use event_stream_core.EventBusMulti.{QueueId, EventBusMulti, get_queue, set_queue, push}
use event_stream_core.Dispatcher.{push_attempts, max_attempts}

abbrev pub Sleep : Type 0
Sleep = ℕ → EventBusMulti → EventBusMulti

-- The bus after `k` sleeps, the first of them after attempt `retry`.
abbrev pub after_sleeps : Sleep → ℕ → ℕ → EventBusMulti → EventBusMulti
after_sleeps sleep retry zero bus = bus
after_sleeps sleep retry (suc k) bus = after_sleeps sleep (suc retry) k (sleep retry bus)

abbrev pub IsFull : QueueId → EventBusMulti → Type 0
IsFull q bus = (get_queue q bus).capacity ≤ length (get_queue q bus).dq

abbrev pub HasRoom : QueueId → EventBusMulti → Type 0
HasRoom q bus = length (get_queue q bus).dq < (get_queue q bus).capacity

-- The bus with the event at the end of queue `q`.
abbrev pub appended : QueueId → EventPtr → EventBusMulti → EventBusMulti
appended q evt bus =
    let queue = get_queue q bus in
    set_queue q (record { dq = queue.dq ++ evt ∷ []; capacity = queue.capacity }) bus

pub push_room :
    (q : QueueId) (evt : EventPtr) (bus : EventBusMulti)
    → HasRoom q bus
    → push q evt bus ≡ (appended q evt bus, true)
unfolding push
push_room q evt bus h = ground arith

pub push_full :
    (q : QueueId) (evt : EventPtr) (bus : EventBusMulti)
    → IsFull q bus
    → push q evt bus ≡ (bus, false)
unfolding push
push_full q evt bus h = ground arith

-- An outcome: pushed at the first attempt that finds room, or given up after all of them.
abbrev pub FirstRoomWins :
    Sleep → ℕ → ℕ → QueueId → EventPtr → EventBusMulti → EventBusMulti × Bool → Type 0
FirstRoomWins sleep left retry q evt bus outcome =
    ((k : ℕ) × (k < left)
      × ((j : ℕ) → j < k → IsFull q (after_sleeps sleep retry j bus))
      × HasRoom q (after_sleeps sleep retry k bus)
      × (outcome ≡ (appended q evt (after_sleeps sleep retry k bus), true)))
    ⊎ (((j : ℕ) → j < left → IsFull q (after_sleeps sleep retry j bus))
        × (outcome ≡ (after_sleeps sleep retry left bus, false)))

HasRoom-or-IsFull : (q : QueueId) (bus : EventBusMulti) → HasRoom q bus ⊎ IsFull q bus
HasRoom-or-IsFull q bus = grind arith

HasRoom-attempts :
    (sleep : Sleep) (left retry : ℕ) (q : QueueId) (evt : EventPtr) (bus : EventBusMulti)
    → HasRoom q bus
    → push_attempts sleep (suc left) retry q evt bus ≡ (appended q evt bus, true)
unfolding push_attempts
HasRoom-attempts sleep left retry q evt bus h = ground (arith, push_room q evt bus h)

IsFull-attempts :
    (sleep : Sleep) (left retry : ℕ) (q : QueueId) (evt : EventPtr) (bus : EventBusMulti)
    → IsFull q bus
    → push_attempts sleep (suc left) retry q evt bus
      ≡ push_attempts sleep left (suc retry) q evt (sleep retry bus)
unfolding push_attempts
IsFull-attempts sleep left retry q evt bus h = ground (arith, push_full q evt bus h)

IsFull-first :
    (sleep : Sleep) (n retry : ℕ) (q : QueueId) (bus : EventBusMulti)
    → IsFull q bus
    → ((j : ℕ) → j < n → IsFull q (after_sleeps sleep (suc retry) j (sleep retry bus)))
    → (j : ℕ) → j < suc n
    → IsFull q (after_sleeps sleep retry j bus)
IsFull-first sleep n retry q bus full later zero h = full
IsFull-first sleep n retry q bus full later (suc j) h = later j (omega arith)

attempts-FirstRoomWins :
    (sleep : Sleep) (left retry : ℕ) (q : QueueId) (evt : EventPtr) (bus : EventBusMulti)
    → FirstRoomWins sleep left retry q evt bus (push_attempts sleep left retry q evt bus)
unfolding push_attempts
attempts-FirstRoomWins sleep zero retry q evt bus = inr (λ j h. absurd (omega arith), refl)
attempts-FirstRoomWins sleep (suc left) retry q evt bus = elim (HasRoom-or-IsFull q bus) [
  | inl room ↦ inl (
    zero,
    omega arith,
    λ j h. absurd (omega arith),
    room,
    HasRoom-attempts sleep left retry q evt bus room,
  )
  | inr full ↦ elim (attempts-FirstRoomWins sleep left (suc retry) q evt (sleep retry bus)) [
    | inl (k, lt, before, room, e) ↦ inl (
      suc k,
      omega arith,
      IsFull-first sleep k retry q bus full before,
      room,
      IsFull-attempts sleep left retry q evt bus full ∙ e,
    )
    | inr (all, e) ↦ inr (
      IsFull-first sleep left retry q bus full all,
      IsFull-attempts sleep left retry q evt bus full ∙ e,
    )
  ]
]

-- Whatever other threads do to the bus during the sleeps, the event is appended, once, at the first
-- of the five attempts that finds room in its queue; the loop gives up only if the queue was full
-- at all five, and then it has changed nothing itself.
pub push_attempts-FirstRoomWins :
    (sleep : Sleep) (q : QueueId) (evt : EventPtr) (bus : EventBusMulti)
    → FirstRoomWins sleep 5 0 q evt bus (push_attempts sleep max_attempts 0 q evt bus)
push_attempts-FirstRoomWins sleep q evt bus = attempts-FirstRoomWins sleep 5 0 q evt bus
