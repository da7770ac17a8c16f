-- ===== src/EventBus.antt =====
-- `EventBus` of include/event/EventBus.hpp and src/event/EventBus.cpp: callbacks that are called one
-- after the other. A callback is code of the client's: `effect` says which callbacks it subscribes
-- in a call, and whether it ends with an exception. Callbacks are told apart by a type of names.
pub mod Publish
mod Tests
use event_stream_core.Prelude.{Bool, true, false, List, [], ◌∷◌, ◌++◌, if◌then◌else◌}
use event_stream_core.Event.{Event}

pub record EventBus (A : Type 0) : Type 0 where
  pub subscribers : List A

-- How a call of a callback ended; the exception is swallowed.
pub data Call (A : Type 0) : Type 0 where
  returned threw : A → Call A

module _ {A : Type 0} where
  abbrev pub subscribe : A → EventBus A → EventBus A
  subscribe handler bus = record { subscribers = bus.subscribers ++ handler ∷ [] }

  unfoldable pub subscribe_all : List A → EventBus A → EventBus A
  subscribe_all [] bus = bus
  subscribe_all (h ∷ hs) bus = subscribe_all hs (subscribe h bus)

  -- The loop over the copy of the subscribers.
  unfoldable pub call_handlers :
      (A → Event → List A × Bool) → List A → Event → EventBus A → EventBus A × List (Call A)
  call_handlers effect [] event bus = (bus, [])
  call_handlers effect (handler ∷ handlers) event bus =
      let (added, throws) = effect handler event in
      let (last, calls) = call_handlers effect handlers event (subscribe_all added bus) in
      (last, (if throws then threw handler else returned handler) ∷ calls)

  abbrev pub publish_event :
      (A → Event → List A × Bool) → Event → EventBus A → EventBus A × List (Call A)
  publish_event effect event bus = call_handlers effect bus.subscribers event bus
