-- ===== src/Event/Factory/Tests.antt =====
-- Two events in a row.
use event_stream_core.Prelude.{[], ◌∷◌, ◌≡◌, ◌↔◌, ◌%◌, ◌^◌, refl, some, List, arith}
use event_stream_core.Event.{Event, tcp, high, low}
use event_stream_core.Event.Crc32.{calculate_crc32, crc_bytes, crc32_table}
use event_stream_core.Event.Factory.{Request, create_event}
use event_stream_core.Event.Factory.Ids.{event_of, create_all, create_all-ids}

abbrev first_request : Request
first_request = record {
  now = 1700000000000000000;
  source_type = tcp;
  priority = high;
  payload = 1 ∷ 2 ∷ [];
  topic = b'a' ∷ [];
  metadata = [];
}

abbrev second_request : Request
second_request = record first_request { priority = low }

abbrev both_events : List Event
both_events = event_of first_request 4294967295 ∷ event_of second_request 4294967296 ∷ []

create_both : create_all (first_request ∷ second_request ∷ []) 4294967295 ≡ some both_events
unfolding create_all create_event calculate_crc32 crc_bytes crc32_table
create_both = refl

create_all-ids_example :
    ((event_of first_request 4294967295).header.id ≡ (event_of second_request 4294967296).header.id)
    ↔ (0 % 2 ^ 32 ≡ 1 % 2 ^ 32)
create_all-ids_example =
    create_all-ids (first_request ∷ second_request ∷ []) 4294967295 (omega arith) create_both 0 1
      refl refl
