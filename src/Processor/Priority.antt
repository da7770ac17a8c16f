-- ===== src/Processor/Priority.antt =====
-- Which event a turn takes when no other thread comes between its pops.
use event_stream_core.Prelude.{
  ℕ, Option, none, some, List, [], ◌∷◌, ◌++◌, ◌≤◌, length, ◌≡◌, refl, arith,
}
use event_stream_core.Event.{EventPtr}
use event_stream_core.EventBusMulti.{EventBusMulti, pop}
use event_stream_core.Processor.{pop_any}

-- What waits on the bus, in the order of the priorities, first in first out within one.
abbrev pub waiting : EventBusMulti → List EventPtr
waiting bus = bus.realtime_bus.dq ++ (bus.transactional_bus.dq ++ bus.batch_bus.dq)

abbrev pub undisturbed : ℕ → EventBusMulti → EventBusMulti
undisturbed k bus = bus

abbrev of_queues : List EventPtr → List EventPtr → List EventPtr → EventBusMulti → EventBusMulti
of_queues r t b bus = record {
  realtime_bus = record bus.realtime_bus { dq = r };
  transactional_bus = record bus.transactional_bus { dq = t };
  batch_bus = record bus.batch_bus { dq = b };
}

-- The bus with its capacities and no event.
abbrev pub emptied : EventBusMulti → EventBusMulti
emptied bus = of_queues [] [] [] bus

abbrev pub TakesFirst : EventBusMulti → EventBusMulti × Option EventPtr → Type 0
TakesFirst bus (after, none) = (waiting bus ≡ []) × (after ≡ emptied bus)
TakesFirst bus (after, some evt) =
    (waiting bus ≡ evt ∷ waiting after) × (emptied after ≡ emptied bus)

of_queues-TakesFirst :
    (r t b : List EventPtr) (bus : EventBusMulti)
    → TakesFirst (of_queues r t b bus) (pop_any undisturbed (of_queues r t b bus))
unfolding pop_any pop
of_queues-TakesFirst (e ∷ r) t b bus = (refl, refl)
of_queues-TakesFirst [] (e ∷ t) b bus = (refl, refl)
of_queues-TakesFirst [] [] (e ∷ b) bus = (refl, refl)
of_queues-TakesFirst [] [] [] bus = (refl, refl)

-- With no other thread between its pops, a turn takes the first event that waits, in the order of
-- the priorities, and leaves the others in theirs; it takes none only if no event waits.
pub pop_any-TakesFirst : (bus : EventBusMulti) → TakesFirst bus (pop_any undisturbed bus)
pop_any-TakesFirst bus =
    of_queues-TakesFirst bus.realtime_bus.dq bus.transactional_bus.dq bus.batch_bus.dq bus

of_queues-emptied :
    (r t b : List EventPtr) (bus : EventBusMulti)
    → length (r ++ (t ++ b)) ≤ 0
    → of_queues r t b bus ≡ emptied bus
of_queues-emptied [] [] [] bus h = refl
of_queues-emptied [] [] (e ∷ b) bus h = absurd (omega arith)
of_queues-emptied [] (e ∷ t) b bus h = absurd (omega arith)
of_queues-emptied (e ∷ r) t b bus h = absurd (omega arith)

pub emptied_bus : (bus : EventBusMulti) → length (waiting bus) ≤ 0 → bus ≡ emptied bus
emptied_bus bus h =
    of_queues-emptied bus.realtime_bus.dq bus.transactional_bus.dq bus.batch_bus.dq bus h
