-- ===== src/Benchmark/Writes.antt =====
-- `StorageBenchmark` of src/benchmark/benchmark.cpp, without the figures of its result in floating
-- point. Its writers share the storage and the counters. A turn of a writer's loop is one step of the
-- model, in the order of the calls of `storeEvent`: what a turn does behind the call, to the counters
-- and the latencies, is guarded and reads nothing that another writer's turn writes.
use event_stream_core.Prelude.{
  ℕ, zero, suc, ◌+◌, ◌*◌, ◌-◌, Option, none, some, List, [], ◌∷◌, ◌++◌, Bytes, length, ltb, u32,
  if◌then◌else◌, Result, ok, err,
}
use event_stream_core.Event.{internal, EventHeader, Event}
use event_stream_core.Storage.{Device, StorageEngine, StorageError, store_event}

pub record StorageBenchmark : Type 0 where
  pub storage : StorageEngine
  pub writes_completed : ℕ
  pub writes_failed : ℕ
  pub write_latencies_ns : List ℕ

-- The number of the record that each writer comes to next.
abbrev pub Writers : Type 0
Writers = List ℕ

-- A turn of the loop of a writer, and what the clock, which does not go back, reads at its start, for
-- its event and at its end.
pub record Turn : Type 0 where
  pub writer : ℕ
  pub write_start : ℕ
  pub timestamp : ℕ
  pub write_end : ℕ

-- "storage_benchmark"
abbrev pub storage_topic : Bytes
storage_topic =
    b's' ∷ b't' ∷ b'o' ∷ b'r' ∷ b'a' ∷ b'g' ∷ b'e' ∷ b'_' ∷ b'b' ∷ b'e' ∷ b'n' ∷ b'c' ∷ b'h' ∷ b'm'
    ∷ b'a' ∷ b'r' ∷ b'k' ∷ []

-- "writer_"
abbrev pub writer_prefix : Bytes
writer_prefix = b'w' ∷ b'r' ∷ b'i' ∷ b't' ∷ b'e' ∷ b'r' ∷ b'_' ∷ []

-- "_record_"
abbrev pub record_infix : Bytes
record_infix = b'_' ∷ b'r' ∷ b'e' ∷ b'c' ∷ b'o' ∷ b'r' ∷ b'd' ∷ b'_' ∷ []

-- The constructor, and what `runWriteBenchmark` clears.
abbrev pub new_benchmark : StorageEngine → StorageBenchmark
new_benchmark storage = record {
  storage = storage;
  writes_completed = 0;
  writes_failed = 0;
  write_latencies_ns = [];
}

abbrev pub new_writers : ℕ → Writers
new_writers zero = []
new_writers (suc n) = zero ∷ new_writers n

-- The test and the step of the loop of writer `i`; `none` if the loop is over.
abbrev pub record_at : ℕ → Writers → ℕ → Option ℕ
record_at writes_per_writer [] i = none
record_at writes_per_writer (j ∷ js) zero = if ltb j writes_per_writer then some j else none
record_at writes_per_writer (j ∷ js) (suc i) = record_at writes_per_writer js i

abbrev pub advance : ℕ → Writers → ℕ → Writers
advance writes_per_writer [] i = []
advance writes_per_writer (j ∷ js) zero = (if ltb j writes_per_writer then suc j else j) ∷ js
advance writes_per_writer (j ∷ js) (suc i) = j ∷ advance writes_per_writer js i

abbrev pub note_latency : ℕ → StorageBenchmark → StorageBenchmark
note_latency latency b =
    if ltb (length b.write_latencies_ns) 100000
    then record b { write_latencies_ns = b.write_latencies_ns ++ latency ∷ [] }
    else b

-- `uninitialized` is what the header of an `Event` has before something is assigned to it.
module _ (device : Device) (to_string : ℕ → Bytes) (uninitialized : EventHeader) where
  abbrev pub event_of_record : ℕ → ℕ → ℕ → Event
  event_of_record i j timestamp = record {
    header = record uninitialized {
      id = u32 (i * 1000000 + j);
      source_type = internal;
      timestamp = timestamp;
    };
    topic = storage_topic;
    body = writer_prefix ++ to_string i ++ record_infix ++ to_string j;
    metadata = [];
  }

  -- The `try` block behind the call of `storeEvent`, or the `catch` block.
  abbrev pub count_write :
      ℕ → StorageBenchmark → StorageEngine × Result StorageError (Unit {0}) → StorageBenchmark
  count_write latency b (storage, ok _) = record (note_latency latency b) {
    storage = storage;
    writes_completed = suc b.writes_completed;
  }
  count_write latency b (storage, err e) = record b {
    storage = storage;
    writes_failed = suc b.writes_failed;
  }

  abbrev pub write_record : Turn → Option ℕ → StorageBenchmark → StorageBenchmark
  write_record t none b = b
  write_record t (some j) b =
      count_write (t.write_end - t.write_start) b
        (store_event device (event_of_record t.writer j t.timestamp) b.storage)

  unfoldable pub run_writers :
      ℕ → List Turn → Writers × StorageBenchmark → Writers × StorageBenchmark
  run_writers writes_per_writer [] s = s
  run_writers writes_per_writer (t ∷ ts) (writers, b) = run_writers writes_per_writer ts (
    advance writes_per_writer writers t.writer,
    write_record t (record_at writes_per_writer writers t.writer) b,
  )

  -- The writers of `runWriteBenchmark`, up to its joins.
  unfoldable pub run_write_benchmark :
      ℕ → ℕ → List Turn → StorageEngine → Writers × StorageBenchmark
  run_write_benchmark num_writers writes_per_writer ts storage =
      run_writers writes_per_writer ts (new_writers num_writers, new_benchmark storage)

  -- `result.total_events`
  abbrev pub total_events : StorageBenchmark → ℕ
  total_events b = b.writes_completed + b.writes_failed
