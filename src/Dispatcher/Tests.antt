-- ===== src/Dispatcher/Tests.antt =====
-- Runs of the dispatcher, and its theorems at concrete inputs.
use event_stream_core.Prelude.{◌≡◌, ◌++◌, refl, min, false, none, some, List, [], ◌∷◌, eqb}
use event_stream_core.Event.{EventPriority, medium, high, critical, tcp, Event, priority_code}
use event_stream_core.TopicTable.{Table, found_topic}
use event_stream_core.EventBusMulti.{QueueId, realtime, transactional, EventBusMulti, new_bus, push}
use event_stream_core.Dispatcher.{
  new_dispatcher, start, with_priority, route, max_attempts, try_push, try_pop, dispatch_turn,
  push_attempts, crashed,
}
use event_stream_core.Dispatcher.Route.{allowed, Serves, route_lem}
use event_stream_core.Dispatcher.Retry.{Sleep, FirstRoomWins, push_attempts-FirstRoomWins}
use event_stream_core.Dispatcher.Inbound.{
  Turn, arrives, stops, outside_all, dispatch_loop, taken_all, dispatch_loop-fifo,
}

abbrev an_event : Event
an_event = record {
  header = record {
    source_type = tcp;
    priority = critical;
    id = 1;
    timestamp = 1;
    body_len = 0;
    topic_len = 1;
    crc32 = 0;
  };
  topic = b'a' ∷ [];
  body = [];
  metadata = [];
}

abbrev a_table : Table
a_table = (b'a' ∷ [], high) ∷ []

-- The client's CRITICAL is lowered to the table's HIGH; without an entry it would be MEDIUM.
route_listed : route (some a_table) (some an_event) ≡ (some (with_priority high an_event), realtime)
unfolding route found_topic eqb
route_listed = refl

route_unlisted :
    route (some []) (some an_event) ≡ (some (with_priority medium an_event), transactional)
unfolding route found_topic
route_unlisted = refl

route_lem_example :
    (p : EventPriority) × (q : QueueId) × (route (some a_table) (some an_event)
      ≡ (some (with_priority p an_event), q))
    × (priority_code p ≡ min 3 (priority_code (allowed (some a_table) an_event)))
    × Serves q p
route_lem_example = route_lem (some a_table) an_event

-- No other thread touches the bus.
abbrev alone : Sleep
alone k bus = bus

abbrev no_room : EventBusMulti
no_room = record new_bus { transactional_bus = record { dq = []; capacity = 0 } }

given_up : (push_attempts alone max_attempts 0 transactional none no_room).1 ≡ false
unfolding push_attempts push
given_up = refl

push_attempts-FirstRoomWins_example :
    FirstRoomWins alone 5 0 realtime
      (some an_event)
      new_bus
      (push_attempts alone max_attempts 0 realtime (some an_event) new_bus)
push_attempts-FirstRoomWins_example =
    push_attempts-FirstRoomWins alone realtime (some an_event) new_bus

-- A null event for a full queue ends in the read of its header.
null_crash :
    (dispatch_turn alone (record new_dispatcher { inbound_queue = none ∷ [] }) no_room).report
    ≡ crashed none
unfolding dispatch_turn try_pop route push_attempts push
null_crash = refl

abbrev turns : List Turn
turns =
    record { before = []; waiting = arrives (some an_event) ∷ []; sleep = alone }
    ∷ record { before = arrives none ∷ stops ∷ []; waiting = []; sleep = alone }
    ∷ []

-- The null event that is accepted before `stop` stays in the queue.
loop_leaves :
    (dispatch_loop turns (start new_dispatcher) new_bus).dispatcher.inbound_queue ≡ none ∷ []
unfolding dispatch_loop outside_all dispatch_turn try_push try_pop route push_attempts push
    found_topic
loop_leaves = refl

dispatch_loop-fifo_example :
    let run = dispatch_loop turns (start new_dispatcher) new_bus in
    [] ++ run.accepted ≡ taken_all run.reports ++ run.dispatcher.inbound_queue
dispatch_loop-fifo_example = dispatch_loop-fifo turns (start new_dispatcher) new_bus
