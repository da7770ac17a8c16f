-- ===== src/System/Tests.antt =====
-- Runs of the threads.
use event_stream_core.Prelude.{
  ℕ, zero, suc, ◌+◌, ◌≤◌, ◌<◌, ◌≡◌, refl, true, false, some, List, [], ◌∷◌, ◌++◌, map, flatten,
  Bytes, length, arith, ok, err, ◌==◌, eqb, if◌then◌else◌,
}
use event_stream_core.Event.{Event, tcp, high, medium}
use event_stream_core.EventBusMulti.{realtime, push, pop}
use event_stream_core.TopicTable.{Table, found_topic}
use event_stream_core.Dispatcher.{try_push, try_pop, route}
use event_stream_core.ThreadPool.{working, act, turn_at, all_returned}
use event_stream_core.Storage.{
  Device, StorageEngine, cannot_write, store_event, write_all, le_bytes,
}
use event_stream_core.Storage.Durable.{record_of, Log}
use event_stream_core.Parser.{make_frame}
use event_stream_core.Server.{new_session, handle_client}
use event_stream_core.Server.Stream.{turns_of}
use event_stream_core.Server.Frames.{Message, wire}
use event_stream_core.System.{
  System, at_push, at_submit, done, accepted, sent, stored, discarded, Move, client_pushes,
  dispatcher_moves, processor_moves, worker_moves, pool_stops, pool_clears, dispatcher_step,
  pool_step, processor_step, step, run, new_system,
}
use event_stream_core.System.Weights.{weigh, weigh_ptrs}
use event_stream_core.System.Conserved.{under_way, arrived}
use event_stream_core.System.Accounts.{attempts, results, abandoned, cleared, run-Accounts}
use event_stream_core.Storage.Limited.{limited}
use event_stream_core.System.Delivery.{AreRouted, pushes}
use event_stream_core.System.EndToEnd.{end_to_end}
use event_stream_core.System.Workers.{worker_turns}
use event_stream_core.System.Stopping.{IsOut, run-ended}

abbrev unlimited : Device
unlimited = record {
  append = λ contents block. (contents ++ block, true);
  append_good = λ contents block h. refl;
  append_keeps = λ contents block. (block, refl);
}

abbrev event_of_id : ℕ → Event
event_of_id n = record {
  header = record {
    source_type = tcp;
    priority = high;
    id = n;
    timestamp = 1;
    body_len = 1;
    topic_len = 1;
    crc32 = 0;
  };
  topic = b'a' ∷ [];
  body = 7 ∷ [];
  metadata = [];
}

abbrev fresh : System
fresh = new_system ((b'a' ∷ [], high) ∷ []) (record { contents = []; good = true }) 1

-- The client pushes two events; the first gets to the file, and the second is still in the pool
-- when `shutdown` clears it.
abbrev schedule : List Move
schedule =
    client_pushes (event_of_id 4)
    ∷ dispatcher_moves
    ∷ client_pushes (event_of_id 5)
    ∷ dispatcher_moves
    ∷ dispatcher_moves
    ∷ worker_moves 0
    ∷ processor_moves
    ∷ processor_moves
    ∷ dispatcher_moves
    ∷ dispatcher_moves
    ∷ processor_moves
    ∷ worker_moves 0
    ∷ dispatcher_moves
    ∷ processor_moves
    ∷ processor_moves
    ∷ processor_moves
    ∷ pool_stops
    ∷ worker_moves 0
    ∷ worker_moves 0
    ∷ pool_clears
    ∷ []

schedule_log :
    (run unlimited schedule fresh).1
    ≡ accepted (event_of_id 4)
      ∷ accepted (event_of_id 5)
      ∷ sent realtime (some (event_of_id 4))
      ∷ sent realtime (some (event_of_id 5))
      ∷ stored (event_of_id 4) (ok tt)
      ∷ discarded (event_of_id 5)
      ∷ []
unfolding run step dispatcher_step processor_step pool_step try_push try_pop route found_topic push
    pop act turn_at store_event eqb write_all
schedule_log = refl

-- How many events have this id.
abbrev count_id : ℕ → Event → ℕ
count_id n e = if e.header.id == n then 1 else 0

-- Both events get to the storage, whose disk has room for the record of the first and a part of the
-- second.
abbrev storing : List Move
storing =
    client_pushes (event_of_id 4)
    ∷ client_pushes (event_of_id 5)
    ∷ dispatcher_moves
    ∷ dispatcher_moves
    ∷ dispatcher_moves
    ∷ dispatcher_moves
    ∷ dispatcher_moves
    ∷ dispatcher_moves
    ∷ processor_moves
    ∷ processor_moves
    ∷ processor_moves
    ∷ processor_moves
    ∷ processor_moves
    ∷ processor_moves
    ∷ worker_moves 0
    ∷ worker_moves 0
    ∷ worker_moves 0
    ∷ worker_moves 0
    ∷ worker_moves 0
    ∷ worker_moves 0
    ∷ []

storing_log :
    (run (limited 40) storing fresh).1
    ≡ accepted (event_of_id 4)
      ∷ accepted (event_of_id 5)
      ∷ sent realtime (some (event_of_id 4))
      ∷ sent realtime (some (event_of_id 5))
      ∷ stored (event_of_id 4) (ok tt)
      ∷ stored (event_of_id 5) (err cannot_write)
      ∷ []
unfolding run step dispatcher_step processor_step pool_step try_push try_pop route found_topic push
    pop act turn_at store_event eqb write_all le_bytes
storing_log = refl

run-Accounts_example :
    let (last, l) = run (limited 40) storing fresh in
    (log : Log (attempts l) fresh.storage last.storage (results l)) × (under_way (count_id 5) fresh
        + arrived (count_id 5) l
      ≡ under_way (count_id 5) last
        + weigh (count_id 5) log.stored
        + weigh (count_id 5) log.refused
        + weigh_ptrs (count_id 5) (abandoned l)
        + weigh (count_id 5) (cleared l))
run-Accounts_example = run-Accounts (limited 40) (count_id 5) storing fresh (λ p e. refl) refl

abbrev table : Table
table = (b'a' ∷ [], medium) ∷ []

abbrev empty_file : StorageEngine
empty_file = record { contents = []; good = true }

abbrev home : Bytes
home = b'h' ∷ []

abbrev hello : Message
hello = record { topic = b'a' ∷ []; payload = 1 ∷ 2 ∷ []; priority = 2 }

abbrev chunks : List Bytes
chunks = (0 ∷ 0 ∷ []) ∷ (0 ∷ 6 ∷ 2 ∷ 0 ∷ 1 ∷ b'a' ∷ 1 ∷ 2 ∷ []) ∷ []

chunks_flat : flatten chunks ≡ wire (hello ∷ [])
unfolding make_frame
chunks_flat = refl

end_to_end_example :
    (schedule : List Move) × (routed : List Event) × (map some (pushes schedule)
      ≡ (handle_client (λ k. k) (λ k. k) home (turns_of chunks) new_session).pushed)
    × AreRouted table (pushes schedule) routed
    × ((run unlimited schedule (new_system table empty_file 1)).0.storage.contents
        ≡ [] ++ flatten (map record_of routed))
end_to_end_example =
    end_to_end (λ k. k) (λ k. k) home unlimited table 0 empty_file (hello ∷ []) chunks
      (λ contents block. refl) refl
      (((λ e. cc), omega arith, omega arith, omega arith, omega arith), tt)
      ((λ e. cc), ((λ e. cc), tt)) chunks_flat

-- The flags are down while the dispatcher is at its third push, the processor has an event in its
-- hands, and a worker is at work.
abbrev stopping : System
stopping = record fresh {
  dispatcher = record fresh.dispatcher { running = false };
  routing = at_push 2 realtime (some (event_of_id 6));
  processor_running = false;
  processing = at_submit (event_of_id 7);
  worker_pool = record {
    workers = working (event_of_id 8) ∷ [];
    tasks = event_of_id 9 ∷ [];
    is_running = false;
  };
}

abbrev last_moves : List Move
last_moves =
    dispatcher_moves
    ∷ dispatcher_moves
    ∷ processor_moves
    ∷ dispatcher_moves
    ∷ dispatcher_moves
    ∷ processor_moves
    ∷ worker_moves 0
    ∷ worker_moves 0
    ∷ processor_moves
    ∷ dispatcher_moves
    ∷ client_pushes (event_of_id 3)
    ∷ dispatcher_moves
    ∷ dispatcher_moves
    ∷ processor_moves
    ∷ worker_moves 0
    ∷ processor_moves
    ∷ []

enough_moves : (i : ℕ) → i < length stopping.worker_pool.workers → 3 ≤ worker_turns i last_moves
enough_moves zero h = omega arith
enough_moves (suc i) h = absurd (omega arith)

run-ended_example :
    IsOut (run unlimited last_moves stopping).0.routing
    × ((run unlimited last_moves stopping).0.processing ≡ done)
    × (all_returned (run unlimited last_moves stopping).0.worker_pool.workers ≡ true)
run-ended_example =
    run-ended unlimited last_moves stopping refl refl refl (omega arith) (omega arith) enough_moves
