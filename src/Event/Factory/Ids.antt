-- ===== src/Event/Factory/Ids.antt =====
-- Events made one after the other, by any threads: `fetch_add` hands each call a counter of its own.
use event_stream_core.Prelude.{
  ℕ, zero, suc, ◌+◌, ◌%◌, ◌^◌, Option, none, some, List, [], ◌∷◌, ◌≡◌, ◌↔◌, refl, sym, ◌∙◌, ap,
  get_elem?, All, IsByte, u64, arith,
}
use event_stream_core.Event.{Event}
use event_stream_core.Event.Crc32.Reference.{crc32_of, calculate_crc32-crc32_of}
use event_stream_core.Event.Factory.{Request, header_of, create_event}

-- What a call makes of its request and of the counter that it gets.
abbrev pub event_of : Request → ℕ → Event
event_of r counter = record {
  header = header_of r counter (crc32_of r.payload);
  topic = r.topic;
  body = r.payload;
  metadata = r.metadata;
}

-- A call succeeds on every payload of bytes: the event holds what was passed in, its lengths and
-- the CRC-32 of the payload, and the counter goes up by one, modulo 2^64.
pub create_event_lem :
    (r : Request) (counter : ℕ)
    → All IsByte r.payload
    → create_event r counter ≡ some (event_of r counter, u64 (counter + 1))
unfolding create_event
create_event_lem r counter h = rw (calculate_crc32-crc32_of r.payload h)

-- The events of a sequence of calls.
abbrev after_first : Event → Option (List Event) → Option (List Event)
after_first evt none = none
after_first evt (some evts) = some (evt ∷ evts)

abbrev then_rest : (ℕ → Option (List Event)) → Option (Event × ℕ) → Option (List Event)
then_rest rest none = none
then_rest rest (some (evt, counter)) = after_first evt (rest counter)

unfoldable pub create_all : List Request → ℕ → Option (List Event)
create_all [] counter = some []
create_all (r ∷ rs) counter = then_rest (create_all rs) (create_event r counter)

abbrev ArePayloads : List Request → Type 0
ArePayloads = All (λ r. All IsByte r.payload)

abbrev events_of : List Request → ℕ → List Event
events_of [] counter = []
events_of (r ∷ rs) counter = event_of r counter ∷ events_of rs (u64 (counter + 1))

create_all-events_of :
    (rs : List Request) (counter : ℕ)
    → ArePayloads rs
    → create_all rs counter ≡ some (events_of rs counter)
unfolding create_all
create_all-events_of [] counter h = refl
create_all-events_of (r ∷ rs) counter h =
    ap (then_rest (create_all rs)) (create_event_lem r counter h.0)
    ∙ ap (after_first (event_of r counter)) (create_all-events_of rs (u64 (counter + 1)) h.1)

abbrev id_or_zero : Option Event → ℕ
id_or_zero none = 0
id_or_zero (some e) = e.header.id

plus_zero : (n : ℕ) → n ≡ n + 0
plus_zero n = omega arith

id_at :
    (rs : List Request) (counter i : ℕ) {e : Event}
    → get_elem? (events_of rs counter) i ≡ some e
    → e.header.id ≡ (counter + i) % 2 ^ 32
id_at [] counter i h = cc
id_at (r ∷ rs) counter zero h =
    ap (λ o. id_or_zero o) (sym h) ∙ ap (λ (t : ℕ). t % 2 ^ 32) (plus_zero counter)
id_at (r ∷ rs) counter (suc i) h = omega (arith, id_at rs (u64 (counter + 1)) i h)

-- Of the events of one run of the program, two have the same id exactly if the numbers of events
-- made before them agree modulo 2^32: ids are unique among any 2^32 events in a row, and repeat
-- after that, although the counter has 64 bits.
pub create_all-ids :
    (rs : List Request) (counter : ℕ) {evts : List Event}
    → All (λ r. All IsByte r.payload) rs
    → create_all rs counter ≡ some evts
    → (i j : ℕ) {e f : Event} → get_elem? evts i ≡ some e
    → get_elem? evts j ≡ some f
    → (e.header.id ≡ f.header.id) ↔ (i % 2 ^ 32 ≡ j % 2 ^ 32)
create_all-ids rs counter {evts} h made i j {e} {f} hi hj =
    let same : evts ≡ events_of rs counter = ground (arith, create_all-events_of rs counter h) in
    let ei : e.header.id ≡ (counter + i) % 2 ^ 32 = id_at rs counter i {e = e} (rw (← same) hi) in
    let ej : f.header.id ≡ (counter + j) % 2 ^ 32 = id_at rs counter j {e = f} (rw (← same) hj) in
    (λ p. omega arith, λ p. omega arith)
