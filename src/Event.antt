-- ===== src/Event.antt =====
-- include/event/Event.hpp: the event, its header and its enumerations.
-- `std::string` and `std::vector<uint8_t>` are lists of bytes, the metadata map an association list.
pub mod Crc32
pub mod Factory
use event_stream_core.Prelude.{ℕ, Option, List, Bytes}

pub data EventSourceType : Type 0 where
  tcp udp file internal plugin python : EventSourceType

pub data EventPriority : Type 0 where
  low medium high critical : EventPriority

-- `static_cast` of an enumerator to its number.
abbrev pub source_code : EventSourceType → ℕ
source_code tcp = 0
source_code udp = 1
source_code file = 2
source_code internal = 3
source_code plugin = 4
source_code python = 5

abbrev pub priority_code : EventPriority → ℕ
priority_code low = 0
priority_code medium = 1
priority_code high = 2
priority_code critical = 3

pub record EventHeader : Type 0 where
  pub source_type : EventSourceType
  pub priority : EventPriority
  pub id : ℕ  -- uint32_t
  pub timestamp : ℕ  -- uint64_t
  pub body_len : ℕ  -- uint32_t
  pub topic_len : ℕ  -- uint16_t
  pub crc32 : ℕ  -- uint32_t

pub record Event : Type 0 where
  pub header : EventHeader
  pub topic : Bytes
  pub body : Bytes
  pub metadata : List (Bytes × Bytes)

-- `std::shared_ptr<Event>`; `none` is the null pointer.
abbrev pub EventPtr : Type 0
EventPtr = Option Event
