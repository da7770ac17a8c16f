-- ===== src/EventBusMulti/Queue.antt =====
-- One operation on the bus: its result, and what it leaves alone.
use event_stream_core.Prelude.{◌≤◌, [], ◌∷◌, ◌≡◌, length, length-append, arith}
use event_stream_core.Event.{EventPtr}
use event_stream_core.EventBusMulti.{
  QueueId, realtime, transactional, batch, EventBusMulti, new_bus, push, pop,
}

-- Every queue is within its capacity, and the capacities are those of the constructor.
pub record IsWithin (bus : EventBusMulti) : Type 0 where
  pub realtime_cap : bus.realtime_bus.capacity ≡ 65536
  pub transactional_cap : bus.transactional_bus.capacity ≡ 131072
  pub batch_cap : bus.batch_bus.capacity ≡ 32768
  pub realtime_len : length bus.realtime_bus.dq ≤ bus.realtime_bus.capacity
  pub transactional_len : length bus.transactional_bus.dq ≤ bus.transactional_bus.capacity
  pub batch_len : length bus.batch_bus.dq ≤ bus.batch_bus.capacity

pub new_bus-IsWithin : IsWithin new_bus
new_bus-IsWithin = omega arith

pub push-IsWithin :
    (q : QueueId) (evt : EventPtr) {bus : EventBusMulti}
    → IsWithin bus
    → IsWithin (push q evt bus).0
unfolding push
push-IsWithin realtime evt {bus} v =
    ground (arith, length-append {0} bus.realtime_bus.dq (evt ∷ []))
push-IsWithin transactional evt {bus} v =
    ground (arith, length-append {0} bus.transactional_bus.dq (evt ∷ []))
push-IsWithin batch evt {bus} v = ground (arith, length-append {0} bus.batch_bus.dq (evt ∷ []))

pub pop-IsWithin : (q : QueueId) {bus : EventBusMulti} → IsWithin bus → IsWithin (pop q bus).0
unfolding pop
pop-IsWithin realtime v = ground arith
pop-IsWithin transactional v = ground arith
pop-IsWithin batch v = ground arith
