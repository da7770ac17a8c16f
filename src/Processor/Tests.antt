-- ===== src/Processor/Tests.antt =====
-- A run of the processor on a bus with one event in each of two queues.
use event_stream_core.Prelude.{
  ℕ, ◌≡◌, refl, ap, true, false, none, some, List, [], ◌∷◌, ◌++◌, arith,
}
use event_stream_core.Event.{Event, EventPtr, tcp, low}
use event_stream_core.EventBusMulti.{EventBusMulti, new_bus}
use event_stream_core.Storage.{Device}
use event_stream_core.Storage.Durable.{store_all}
use event_stream_core.Processor.{RealtimeProcessor, new_processor, start, process_loop}
use event_stream_core.Processor.Loop.{quiet_turns, process_loop-order}

-- A disk without limits.
abbrev unlimited : Device
unlimited = record {
  append = λ contents block. (contents ++ block, true);
  append_good = λ contents block h. refl;
  append_keeps = λ contents block. (block, refl);
}

abbrev event_of_id : ℕ → Event
event_of_id n = record {
  header = record {
    source_type = tcp;
    priority = low;
    id = n;
    timestamp = 1;
    body_len = 1;
    topic_len = 1;
    crc32 = 0;
  };
  topic = b'a' ∷ [];
  body = 7 ∷ [];
  metadata = [];
}

abbrev queued : List EventPtr → List EventPtr → EventBusMulti
queued r b = record new_bus {
  realtime_bus = record { dq = r; capacity = 65536 };
  batch_bus = record { dq = b; capacity = 32768 };
}

-- Event 1 in BATCH, and 2 and a null event in REALTIME.
abbrev bus : EventBusMulti
bus = queued (some (event_of_id 2) ∷ none ∷ []) (some (event_of_id 1) ∷ [])

abbrev fresh : RealtimeProcessor
fresh = start (new_processor bus (record { contents = []; good = true }))

process_loop-order_example :
    process_loop unlimited true (quiet_turns 3) fresh
    ≡ record fresh { event_bus = queued [] []; tasks = event_of_id 2 ∷ event_of_id 1 ∷ [] }
process_loop-order_example = process_loop-order unlimited true 3 fresh refl (omega arith)

process_loop_stores :
    (process_loop unlimited false (quiet_turns 3) fresh).storage_engine
    ≡ (store_all unlimited
        (event_of_id 2 ∷ event_of_id 1 ∷ [])
        (record { contents = []; good = true })).0
process_loop_stores =
    ap (λ s. s.storage_engine) (process_loop-order unlimited false 3 fresh refl (omega arith))
