-- ===== src/EventBusMulti/Tests.antt =====
-- Runs of the bus, and its theorems at concrete histories.
use event_stream_core.Prelude.{false, none, List, [], ◌∷◌, ◌++◌, ◌≡◌, refl}
use event_stream_core.EventBusMulti.{
  realtime, batch, EventBusMulti, new_bus, get_queue, push, pop, size,
}
use event_stream_core.EventBusMulti.Queue.{IsWithin}
use event_stream_core.EventBusMulti.Fifo.{
  Call, pushes, pops, entered, left, perform, perform_all, perform_all-fifo, perform_all-IsWithin,
}

-- A bus whose realtime queue has room for one event.
abbrev tight_bus : EventBusMulti
tight_bus = record new_bus { realtime_bus = record { dq = []; capacity = 1 } }

abbrev history : List Call
history =
    pushes realtime none
    ∷ pushes realtime none
    ∷ pushes batch none
    ∷ pops realtime
    ∷ pops realtime
    ∷ []

second_refused : (push realtime none (push realtime none tight_bus).0).1 ≡ false
unfolding push
second_refused = refl

size_after : size batch (perform_all history tight_bus).0 ≡ 1
unfolding size perform_all perform push pop
size_after = refl

perform_all-fifo_example :
    [] ++ entered realtime (perform_all history tight_bus).1
    ≡ left realtime (perform_all history tight_bus).1
      ++ (get_queue realtime (perform_all history tight_bus).0).dq
perform_all-fifo_example = perform_all-fifo realtime history tight_bus

perform_all-IsWithin_example : IsWithin (perform_all history new_bus).0
perform_all-IsWithin_example = perform_all-IsWithin history
