-- ===== src/EventBus/Tests.antt =====
-- A publication to callbacks named by numbers: each odd one throws, and 1 subscribes 5.
use event_stream_core.Prelude.{ℕ, ◌%◌, ◌==◌, ◌≡◌, refl, Bool, List, [], ◌∷◌, ◌++◌, if◌then◌else◌}
use event_stream_core.Event.{Event, tcp, low}
use event_stream_core.EventBus.{
  EventBus, returned, threw, subscribe_all, call_handlers, publish_event,
}
use event_stream_core.EventBus.Publish.{called, added_by, publish_event_lem}

abbrev an_event : Event
an_event = record {
  header = record {
    source_type = tcp;
    priority = low;
    id = 3;
    timestamp = 1;
    body_len = 0;
    topic_len = 0;
    crc32 = 0;
  };
  topic = [];
  body = [];
  metadata = [];
}

abbrev effect : ℕ → Event → List ℕ × Bool
effect n event = ((if n == 1 then 5 ∷ [] else []), n % 2 == 1)

abbrev bus : EventBus ℕ
bus = record { subscribers = 1 ∷ 2 ∷ [] }

publish_run :
    publish_event effect an_event bus
    ≡ (record { subscribers = 1 ∷ 2 ∷ 5 ∷ [] }, threw 1 ∷ returned 2 ∷ [])
unfolding call_handlers subscribe_all
publish_run = refl

publish_event_lem_example :
    (called (publish_event effect an_event bus).1 ≡ bus.subscribers)
    × ((publish_event effect an_event bus).0.subscribers
        ≡ bus.subscribers ++ added_by effect an_event bus.subscribers)
publish_event_lem_example = publish_event_lem effect an_event bus
