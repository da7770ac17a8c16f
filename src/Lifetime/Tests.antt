-- ===== src/Lifetime/Tests.antt =====
-- The end of the program with a task in the pool, and without.
use event_stream_core.Prelude.{◌≡◌, refl, true, false, List, [], ◌∷◌, ◌++◌, arith, eqb}
use event_stream_core.Event.{Event, tcp, high}
use event_stream_core.EventBusMulti.{push, pop}
use event_stream_core.TopicTable.{found_topic}
use event_stream_core.Dispatcher.{try_push, try_pop, route}
use event_stream_core.ThreadPool.{act, turn_at}
use event_stream_core.Storage.{Device}
use event_stream_core.System.{
  System, Move, client_pushes, dispatcher_moves, processor_moves, processor_stops, worker_moves,
  dispatcher_step, pool_step, processor_step, step, run, new_system,
}
use event_stream_core.Lifetime.{
  joining_processor, dispatcher, worker_pool, storage_engine, captured_this, Program, is_alive,
  Step, dispatcher_thread, processor_thread, worker_thread, client_thread, server_thread_ends,
  leaves_loop, server_joined, Reach, here, next, started_program,
}
use event_stream_core.Lifetime.Joined.{Lives}
use event_stream_core.Lifetime.Alive.{Reach-Lives}
use event_stream_core.Lifetime.Captured.{captured-dangles, Reach-alive}

abbrev unlimited : Device
unlimited = record {
  append = λ contents block. (contents ++ block, true);
  append_good = λ contents block h. refl;
  append_keeps = λ contents block. (block, refl);
}

abbrev hello : Event
hello = record {
  header = record {
    source_type = tcp;
    priority = high;
    id = 4;
    timestamp = 1;
    body_len = 1;
    topic_len = 1;
    crc32 = 0;
  };
  topic = b'a' ∷ [];
  body = 7 ∷ [];
  metadata = [];
}

abbrev fresh : System
fresh = new_system ((b'a' ∷ [], high) ∷ []) (record { contents = []; good = true }) 1

-- The event gets into the pool, and the worker to its wait.
abbrev to_pool : List Move
to_pool =
    client_pushes hello
    ∷ dispatcher_moves
    ∷ dispatcher_moves
    ∷ dispatcher_moves
    ∷ processor_moves
    ∷ processor_moves
    ∷ processor_moves
    ∷ worker_moves 0
    ∷ []

-- Then the program ends, up to the join of the processor's thread.
abbrev with_task : Program
with_task = record {
  system = (run unlimited (to_pool ++ processor_stops ∷ processor_moves ∷ []) fresh).0;
  stage = joining_processor;
  server_threads = 0;
}

with_task-reached : Reach unlimited (started_program fresh) with_task
unfolding run step dispatcher_step processor_step pool_step act turn_at try_push try_pop route
    found_topic eqb push pop
with_task-reached =
    next
      (next
        (next
          (next
            (next
              (next
                (next
                  (next
                    (next
                      (next (next (next here (client_thread hello (omega arith))) dispatcher_thread)
                        dispatcher_thread)
                      dispatcher_thread)
                    processor_thread)
                  processor_thread)
                processor_thread)
              (worker_thread 0))
            (leaves_loop refl))
          (server_thread_ends (omega arith)))
        (server_joined refl refl))
      processor_thread

captured-dangles_example :
    (q r : Program) × Reach unlimited with_task q
    × Step unlimited q (captured_this ∷ storage_engine ∷ worker_pool ∷ []) r
    × (is_alive q.stage captured_this ≡ false)
unfolding run step dispatcher_step processor_step pool_step act turn_at try_push try_pop route
    found_topic eqb push pop
captured-dangles_example = captured-dangles unlimited with_task 0 hello [] refl refl refl refl

Reach-Lives_example : Lives joining_processor dispatcher × Unit {0}
unfolding run step dispatcher_step processor_step pool_step act turn_at try_push try_pop route
    found_topic eqb push pop
Reach-Lives_example = Reach-Lives unlimited with_task-reached dispatcher_thread

-- Without an event.
abbrev without_task : Program
without_task = record {
  system = (run unlimited (worker_moves 0 ∷ processor_stops ∷ processor_moves ∷ []) fresh).0;
  stage = joining_processor;
  server_threads = 0;
}

without_task-reached : Reach unlimited (started_program fresh) without_task
unfolding run step processor_step pool_step act turn_at
without_task-reached =
    next
      (next
        (next (next (next here (worker_thread 0)) (leaves_loop refl))
          (server_thread_ends (omega arith)))
        (server_joined refl refl))
      processor_thread

Reach-alive_example : (is_alive joining_processor worker_pool ≡ true) × Unit {0}
unfolding run step processor_step pool_step act turn_at
Reach-alive_example =
    Reach-alive unlimited without_task-reached refl (refl, refl) here (worker_thread 0)
