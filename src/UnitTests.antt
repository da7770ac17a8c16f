-- ===== src/UnitTests.antt =====
-- The tests of unittest. A test with expectations is true if it passes, and an exception that it does
-- not expect fails it; of a test without, what is left at its end. The files are a parameter. Of
-- `TcpingestTest.cpp` it is the frame that it builds, which it hands to nothing.
pub mod Texts
pub mod Passed
mod Tests
use event_stream_core.Prelude.{
  ℕ, ◌/◌, ◌%◌, Bool, true, false, ◌&&◌, Option, none, some, [], ◌∷◌, ◌++◌, ◌==◌, length, Bytes, eqb,
  Result, ok, err,
}
use event_stream_core.Event.{Event, EventSourceType, udp, tcp, medium}
use event_stream_core.Event.Factory.{Request, create_event}
use event_stream_core.Config.{ℤ, pos, negsuc, Load, AppConfiguration}
use event_stream_core.Config.Load.{Yaml, load_config}
use event_stream_core.Storage.{Device, StorageEngine, StorageError, open_storage, store_event}
use event_stream_core.EventBusMulti.{new_bus}
use event_stream_core.Processor.{RealtimeProcessor, new_processor, start, stop, process_loop}
use event_stream_core.Processor.Loop.{quiet_turns}
use event_stream_core.UnitTests.Texts.{
  config_yaml, non_existent_yaml, missing_field_yaml, invalid_type_yaml, invalid_value_yaml,
  temp_storage_bin, event_stream_core_name, version_1, localhost, topic1, test_topic,
}

abbrev pub is_int : ℤ → ℕ → Bool
is_int (pos n) m = n == m
is_int (negsuc n) m = false

module _ {Node : Type 0} (yaml : Yaml Node) (files : Bytes → Option (Load Node)) where
  abbrev pub expect_config : Load AppConfiguration → Bool
  expect_config (err e) = false
  expect_config (ok config) =
      eqb config.app_name event_stream_core_name
      && eqb config.version version_1
      && eqb config.ingestion.udp_config.host localhost
      && is_int config.ingestion.udp_config.port 9001

  -- `EXPECT_THROW(..., std::runtime_error)`: the exceptions of the YAML library derive from it too.
  abbrev pub expect_throw : Load AppConfiguration → Bool
  expect_throw (ok config) = false
  expect_throw (err e) = true

  unfoldable pub load_success : Bool
  load_success = expect_config (load_config yaml (files config_yaml))

  unfoldable pub throws_on : Bytes → Bool
  throws_on filepath = expect_throw (load_config yaml (files filepath))

  abbrev pub file_not_found : Bool
  file_not_found = throws_on non_existent_yaml

  abbrev pub missing_field : Bool
  missing_field = throws_on missing_field_yaml

  abbrev pub invalid_type : Bool
  invalid_type = throws_on invalid_type_yaml

  abbrev pub invalid_value : Bool
  invalid_value = throws_on invalid_value_yaml

abbrev pub is_udp : EventSourceType → Bool
is_udp udp = true
is_udp _ = false

abbrev pub creat_event_request : ℕ → Request
creat_event_request now = record {
  now = now;
  source_type = udp;
  priority = medium;
  payload = 1 ∷ 2 ∷ 3 ∷ [];
  topic = topic1;
  metadata =
      (b'k' ∷ b'e' ∷ b'y' ∷ b'1' ∷ [], b'v' ∷ b'a' ∷ b'l' ∷ b'u' ∷ b'e' ∷ b'1' ∷ [])
      ∷ (b'k' ∷ b'e' ∷ b'y' ∷ b'2' ∷ [], b'v' ∷ b'a' ∷ b'l' ∷ b'u' ∷ b'e' ∷ b'2' ∷ [])
      ∷ (
        b'r' ∷ b'o' ∷ b'u' ∷ b't' ∷ b'i' ∷ b'n' ∷ b'g' ∷ b'_' ∷ b'k' ∷ b'e' ∷ b'y' ∷ [],
        b'r' ∷ b'o' ∷ b'u' ∷ b't' ∷ b'e' ∷ b'1' ∷ [],
      )
      ∷ [];
}

abbrev pub expect_event : Option (Event × ℕ) → Bool
expect_event none = false
expect_event (some (event, counter)) =
    is_udp event.header.source_type && length event.body == 3 && eqb event.topic topic1

-- For what the clock and the counter of the events read at the call.
unfoldable pub creat_event : ℕ → ℕ → Bool
creat_event now counter = expect_event (create_event (creat_event_request now) counter)

abbrev pub store_event_request : ℕ → Request
store_event_request now = record {
  now = now;
  source_type = tcp;
  priority = medium;
  payload = 0x10 ∷ 0x20 ∷ 0x30 ∷ 0x40 ∷ [];
  topic = test_topic;
  metadata = (b'm' ∷ b'e' ∷ b't' ∷ b'a' ∷ b'1' ∷ [], b'd' ∷ b'a' ∷ b't' ∷ b'a' ∷ b'1' ∷ []) ∷ [];
}

module _ (device : Device) where
  abbrev pub stored : StorageEngine × Result StorageError (Unit {0}) → Option Bytes
  stored (s, ok _) = some s.contents
  stored (s, err e) = none

  abbrev pub store_created : StorageEngine → Option (Event × ℕ) → Option Bytes
  store_created s none = none
  store_created s (some (event, counter)) = stored (store_event device event s)

  abbrev pub store_opened : Result StorageError StorageEngine → Option (Event × ℕ) → Option Bytes
  store_opened (err e) created = none
  store_opened (ok s) created = store_created s created

  -- The file when the stream is closed, before the test removes it. Nothing is expected of it.
  unfoldable pub stores_event : (Bytes → Option Bytes) → ℕ → ℕ → Option Bytes
  stores_event contents now counter =
      store_opened (open_storage (contents temp_storage_bin))
        (create_event (store_event_request now) counter)

-- The frame of `parseValidframe`, which the test calls a valid one.
abbrev pub test_frame : Bytes
test_frame =
    length test_topic / 256 % 256
    ∷ length test_topic % 256
    ∷ (test_topic ++ 0xDE ∷ 0xAD ∷ 0xBE ∷ 0xEF ∷ [])

-- The tests of the processor, on a bus of their own and with a pool; the loop makes `n` turns
-- before `stop`. They expect nothing, and end with the processor as it is then.
abbrev pub init : StorageEngine → RealtimeProcessor
init storage_engine = new_processor new_bus storage_engine

unfoldable pub start_stop : Device → ℕ → StorageEngine → RealtimeProcessor
start_stop device n storage_engine =
    stop (process_loop device true (quiet_turns n) (start (init storage_engine)))

abbrev pub test_event_request : ℕ → Request
test_event_request now = record {
  now = now;
  source_type = tcp;
  priority = medium;
  payload = 0x10 ∷ 0x20 ∷ 0x30 ∷ [];
  topic = test_topic;
  metadata = (b'k' ∷ b'e' ∷ b'y' ∷ [], b'v' ∷ b'a' ∷ b'l' ∷ b'u' ∷ b'e' ∷ []) ∷ [];
}

-- The event is made between `start` and `stop`, and kept in a variable.
abbrev pub start_create_stop :
    Device → ℕ → StorageEngine → ℕ → ℕ → RealtimeProcessor × Option (Event × ℕ)
start_create_stop device n storage_engine now counter =
    (start_stop device n storage_engine, create_event (test_event_request now) counter)
