-- ===== src/Event/Factory.antt =====
-- `EventFactory` of include/event/EventFactory.hpp and src/event/EventFactory.cpp. The counter
-- `global_event_id` is passed in and returned; the reading of the system clock is an argument.
pub mod Ids
mod Tests
use event_stream_core.Prelude.{
  ℕ, ◌+◌, Option, none, some, List, [], ◌∷◌, length, Bytes, u16, u32, u64,
}
use event_stream_core.Event.{EventSourceType, EventPriority, EventHeader, Event}
use event_stream_core.Event.Crc32.{calculate_crc32}

-- The arguments of a call, with the clock's nanoseconds at that call.
pub record Request : Type 0 where
  pub now : ℕ
  pub source_type : EventSourceType
  pub priority : EventPriority
  pub payload : Bytes
  pub topic : Bytes
  pub metadata : List (Bytes × Bytes)

abbrev pub header_of : Request → ℕ → ℕ → EventHeader
header_of r counter crc = record {
  source_type = r.source_type;
  priority = r.priority;
  id = u32 counter;
  timestamp = u64 r.now;
  body_len = u32 (length r.payload);
  topic_len = u16 (length r.topic);
  crc32 = crc;
}

-- The event and the counter after `fetch_add`. `none` is a read outside the checksum's table.
abbrev built : Request → ℕ → Option ℕ → Option (Event × ℕ)
built r counter none = none
built r counter (some crc) = some (
  record {
    header = header_of r counter crc;
    topic = r.topic;
    body = r.payload;
    metadata = r.metadata;
  },
  u64 (counter + 1),
)

unfoldable pub create_event : Request → ℕ → Option (Event × ℕ)
create_event r counter = built r counter (calculate_crc32 r.payload)
