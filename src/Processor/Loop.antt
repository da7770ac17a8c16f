-- ===== src/Processor/Loop.antt =====
-- The loop on a bus that no other thread touches: everything that waits is handled, in the order of
-- the priorities.
use event_stream_core.Prelude.{
  ℕ, zero, suc, ◌≤◌, Bool, true, false, Option, none, some, List, [], ◌∷◌, ◌++◌, ◌≡◌, refl, ap, ap₂,
  sym, ◌∙◌, arith, append-nil, append_assoc, length, if◌then◌else◌,
}
use event_stream_core.Event.{Event, EventPtr}
use event_stream_core.EventBusMulti.{EventBusMulti}
use event_stream_core.Storage.{Device}
use event_stream_core.Storage.Durable.{store_all}
use event_stream_core.Processor.{
  RealtimeProcessor, pop_any, handle_event, handle_popped, process_turn, process_loop,
}
use event_stream_core.Processor.Priority.{
  emptied_bus, waiting, emptied, undisturbed, TakesFirst, pop_any-TakesFirst,
}

-- The events among the pointers.
abbrev pub present : List EventPtr → List Event
present [] = []
present (none ∷ es) = present es
present (some evt ∷ es) = evt ∷ present es

-- `n` turns in which no other thread does anything.
abbrev pub quiet_turns : ℕ → List ((ℕ → EventBusMulti → EventBusMulti) × Bool)
quiet_turns zero = []
quiet_turns (suc n) = (undisturbed, false) ∷ quiet_turns n

module _ (device : Device) where
  -- Storing or submitting these events, one after the other.
  abbrev pub handled : Bool → List Event → RealtimeProcessor → RealtimeProcessor
  handled true evts s = record s { tasks = s.tasks ++ evts }
  handled false evts s = record s { storage_engine = (store_all device evts s.storage_engine).0 }

  handled-none : (pool : Bool) (s : RealtimeProcessor) → s ≡ handled pool [] s
  unfolding store_all
  handled-none true s = ap (λ ts. record s { tasks = ts }) (sym (append-nil s.tasks))
  handled-none false s = refl

  handled-some :
      (pool : Bool) (evt : EventPtr) (es : List EventPtr) (s : RealtimeProcessor)
      → handled pool (present es) (handle_event device pool evt s)
        ≡ handled pool (present (evt ∷ es)) s
  unfolding store_all
  handled-some pool none es s = refl
  handled-some true (some evt) es s =
      ap (λ ts. record s { tasks = ts }) (append_assoc s.tasks (evt ∷ []) (present es))
  handled-some false (some evt) es s = refl

  -- Handling an event reads no queue and stops nothing.
  handle_event-bus :
      (pool : Bool) (evt : EventPtr) (bus : EventBusMulti) (s : RealtimeProcessor)
      → handle_event device pool evt (record s { event_bus = bus })
        ≡ record (handle_event device pool evt s) { event_bus = bus }
  handle_event-bus pool none bus s = refl
  handle_event-bus true (some evt) bus s = refl
  handle_event-bus false (some evt) bus s = refl

  handle_event-running :
      (pool : Bool) (evt : EventPtr) (s : RealtimeProcessor)
      → (handle_event device pool evt s).is_running ≡ s.is_running
  handle_event-running pool none s = refl
  handle_event-running true (some evt) s = refl
  handle_event-running false (some evt) s = refl

  abbrev loop : Bool → ℕ → RealtimeProcessor → RealtimeProcessor
  loop pool n = process_loop device pool (quiet_turns n)

  loop-turn :
      (pool : Bool) (n : ℕ) (s : RealtimeProcessor)
      → s.is_running ≡ true
      → loop pool (suc n) s
        ≡ loop pool n (handle_popped device pool s (pop_any undisturbed s.event_bus))
  unfolding process_loop process_turn
  loop-turn pool n s h =
      ap
        (λ b.
          if b
          then loop pool n (handle_popped device pool s (pop_any undisturbed s.event_bus))
          else s)
        h

  abbrev Drains : Bool → ℕ → RealtimeProcessor → Type 0
  Drains pool n s =
      loop pool n s
      ≡ handled pool (present (waiting s.event_bus)) (record s { event_bus = emptied s.event_bus })

  abbrev DrainsIn : Bool → ℕ → Type 0
  DrainsIn pool n =
      (s : RealtimeProcessor)
      → s.is_running ≡ true
      → length (waiting s.event_bus) ≤ n
      → Drains pool n s

  popped-Drains :
      (pool : Bool) (n : ℕ)
      → DrainsIn pool n
      → (s : RealtimeProcessor) (popped : EventBusMulti × Option EventPtr)
      → TakesFirst s.event_bus popped
      → s.is_running ≡ true
      → length (waiting s.event_bus) ≤ suc n
      → loop pool n (handle_popped device pool s popped)
        ≡ handled pool
            (present (waiting s.event_bus))
            (record s { event_bus = emptied s.event_bus })
  popped-Drains pool n ih s (bus, none) (none_waits, same) running fits =
      ih (record s { event_bus = bus }) running (omega (arith, ap (λ b. length (waiting b)) same))
      ∙ ap₂ (λ w b. handled pool (present w) (record s { event_bus = b }))
          (ap waiting same ∙ sym none_waits) (ap emptied same)
  popped-Drains pool n ih s (bus, some evt) (first, same) running fits =
      let s' = handle_event device pool evt s in
      ap (loop pool n) (handle_event-bus pool evt bus s)
      ∙ ih (record s' { event_bus = bus }) (handle_event-running pool evt s ∙ running)
          (omega (arith, ap (λ es. length es) first))
      ∙ ap (λ b. handled pool (present (waiting bus)) (record s' { event_bus = b })) same
      ∙ ap (handled pool (present (waiting bus)))
          (sym (handle_event-bus pool evt (emptied s.event_bus) s))
      ∙ handled-some pool evt (waiting bus) (record s { event_bus = emptied s.event_bus })
      ∙ ap (λ w. handled pool (present w) (record s { event_bus = emptied s.event_bus }))
          (sym first)

  no_turn-DrainsIn : (pool : Bool) → DrainsIn pool 0
  unfolding process_loop
  no_turn-DrainsIn pool s running fits =
      handled-none pool s
      ∙ ap₂ (λ w b. handled pool (present w) (record s { event_bus = b }))
          (sym (ap waiting (emptied_bus s.event_bus fits))) (emptied_bus s.event_bus fits)

  turns-DrainsIn : (pool : Bool) (n : ℕ) → DrainsIn pool n
  turns-DrainsIn pool zero s running fits = no_turn-DrainsIn pool s running fits
  turns-DrainsIn pool (suc n) s running fits =
      loop-turn pool n s running
      ∙ popped-Drains pool n (turns-DrainsIn pool n) s (pop_any undisturbed s.event_bus)
          (pop_any-TakesFirst s.event_bus) running fits

  -- On a bus that no other thread touches, a running loop takes in as many turns as events wait
  -- each of them, first those of REALTIME, then of TRANSACTIONAL, then of BATCH, first in first out
  -- within a queue, and stores (or, with a pool, submits) those that are not null in this order;
  -- the bus is empty then, and further turns change nothing.
  pub process_loop-order :
      (pool : Bool) (n : ℕ) (s : RealtimeProcessor)
      → s.is_running ≡ true
      → length (waiting s.event_bus) ≤ n
      → process_loop device pool (quiet_turns n) s
        ≡ handled pool
            (present (waiting s.event_bus))
            (record s { event_bus = emptied s.event_bus })
  process_loop-order pool n s running fits = turns-DrainsIn pool n s running fits
