-- ===== src/Benchmark/Tests.antt =====
-- Two messages of one client, and a connection that breaks.
use event_stream_core.Prelude.{
  ℕ, zero, suc, map, ◌*◌, ◌<◌, ◌≤◌, List, Result, eqb, ◌≡◌, refl, true, false, none, some, [], ◌∷◌,
  ◌++◌, Bytes, length, ltb, if◌then◌else◌, take, drop, arith,
}
use event_stream_core.Server.{new_session, handle_client}
use event_stream_core.Server.Stream.{turns_of}
use event_stream_core.Benchmark.{
  Network, new_client, benchmark_topic, send_part, send_frame, send_messages, run_client,
}
use event_stream_core.Event.{EventHeader, tcp, low}
use event_stream_core.Storage.{StorageEngine, StorageError, store_event, write_all, le_bytes}
use event_stream_core.Storage.Durable.{Log}
use event_stream_core.Storage.Limited.{limited}
use event_stream_core.Benchmark.Writes.{
  StorageBenchmark, Turn, run_writers, run_write_benchmark, total_events,
}
use event_stream_core.Benchmark.Left.{turns_of_writer}
use event_stream_core.Benchmark.Numbered.{Key, numbers_of, records_of}
use event_stream_core.Benchmark.Written.{event_of_key, run_write_benchmark-Log}
use event_stream_core.Benchmark.Latencies.{of_sorted}
use event_stream_core.Benchmark.Options.{
  tcp_only, storage_only, all_benchmarks, help, default_options, parse_options, apply_option,
}
use event_stream_core.Benchmark.Rejected.{run_client-rejected}

abbrev digit : ℕ → Bytes
digit k = b'7' ∷ []

abbrev good_network : Network
good_network = record {
  socket = true;
  connect = true;
  send = λ _ b. some (length b);
  to_string = digit;
}

-- The third call of `send` takes a part of its bytes, and the later ones fail.
abbrev bad_network : Network
bad_network = record good_network {
  send = λ k b. if ltb k 2 then some (length b) else if ltb k 3 then some 1 else none;
}

abbrev wire_of_two : Bytes
wire_of_two = (run_client good_network 2 7 new_client).wire

bad_run : send_messages bad_network 2 7 0 new_client ≡ record {
  messages_sent = 0;
  errors = 2;
  calls = 4;
  wire = 0 ∷ 0 ∷ 0 ∷ 15 ∷ benchmark_topic ++ 0 ∷ [];
}
unfolding send_messages send_frame send_part
bad_run = refl

run_client-rejected_example :
    ((run_client good_network 2 7 new_client).messages_sent ≡ 2)
    × ((run_client good_network 2 7 new_client).errors ≡ 0)
    × (handle_client
          (λ k. k)
          (λ k. k)
          []
          (turns_of (take 21 wire_of_two ∷ drop 21 wire_of_two ∷ []))
          new_session
        ≡ new_session)
unfolding run_client send_messages send_frame send_part
run_client-rejected_example =
    run_client-rejected good_network (λ _ b. refl) 2 7
      (take 21 wire_of_two ∷ drop 21 wire_of_two ∷ []) (λ k. k) (λ k. k) [] refl refl
      (λ k. omega arith) ((λ e. cc), ((λ e. cc), tt)) refl

-- Two writers with two records each, on a disk with room for two records of 59 bytes: the first of
-- the third record's blocks that does not fit is refused, and so is everything behind it.
abbrev empty_file : StorageEngine
empty_file = record { contents = []; good = true }

abbrev blank : EventHeader
blank = record {
  source_type = tcp;
  priority = low;
  id = 0;
  timestamp = 0;
  body_len = 0;
  topic_len = 0;
  crc32 = 0;
}

abbrev turn_of : ℕ → Turn
turn_of i = record { writer = i; write_start = 10; timestamp = 11; write_end = 15 }

abbrev writer_turns : List Turn
writer_turns = turn_of 1 ∷ turn_of 0 ∷ turn_of 0 ∷ turn_of 0 ∷ turn_of 1 ∷ []

abbrev written : StorageBenchmark
written = (run_write_benchmark (limited 130) digit blank 2 2 writer_turns empty_file).1

written-counts :
    ◌≡◌ {A = ℕ × ℕ × List ℕ}
      (written.writes_completed, written.writes_failed, written.write_latencies_ns)
      (2, 2, 5 ∷ 5 ∷ [])
unfolding run_write_benchmark run_writers store_event write_all le_bytes
written-counts = refl

enough_turns : (i : ℕ) → i < 2 → 2 ≤ turns_of_writer i writer_turns
enough_turns zero h = omega arith
enough_turns (suc zero) h = omega arith
enough_turns (suc (suc i)) h = absurd (omega arith)

run_write_benchmark-Log_example :
    (keys : List Key) × ((i : ℕ) → numbers_of i keys ≡ records_of 2 2 i)
    × (rs : List (Result StorageError (Unit {0}))) × (log : Log
        (map (event_of_key (limited 130) digit blank) keys)
        empty_file
        written.storage
        rs)
    × (total_events (limited 130) digit blank written ≡ 2 * 2)
    × (written.writes_completed ≡ length log.stored)
    × (written.writes_failed ≡ length log.refused)
run_write_benchmark-Log_example =
    run_write_benchmark-Log (limited 130) digit blank 2 2 writer_turns empty_file refl enough_turns

-- The second option does not switch the storage on again, so nothing is measured.
tcp_then_storage :
    parse_options (tcp_only ∷ storage_only ∷ []) default_options
    ≡ some (record {
      run_eventbus = false;
      run_tcp = false;
      run_processor = false;
      run_storage = false;
    })
unfolding parse_options apply_option eqb
tcp_then_storage = refl

helped : parse_options (all_benchmarks ∷ help ∷ []) default_options ≡ none
unfolding parse_options apply_option eqb
helped = refl

of_two :
    of_sorted (4 ∷ 6 ∷ [])
    ≡ some (record { latency_p50_us = 6; latency_p99_us = 6; latency_max_us = 6 })
unfolding of_sorted
of_two = refl
