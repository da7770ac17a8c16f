-- ===== src/Storage/Tests.antt =====
-- A device without limits, one that is full after some bytes, and the theorems on them.
use event_stream_core.Prelude.{
  ◌≡◌, refl, true, [], ◌∷◌, ◌++◌, map, some, length, Bytes, ok, err, arith,
}
use event_stream_core.Event.{Event, tcp, high}
use event_stream_core.Storage.{StorageEngine, cannot_write, store_event, write_all, le_bytes}
use event_stream_core.Storage.Durable.{record_of, Log, store_all, store_all-Log}
use event_stream_core.Storage.Decode.{stored_of, IsStorable, read_record, read_record-record_of}
use event_stream_core.Storage.Limited.{limited}
use event_stream_core.Storage.Recover.{read_records, store_all-recover}

abbrev one_event : Event
one_event = record {
  header = record {
    source_type = tcp;
    priority = high;
    id = 258;
    timestamp = 1;
    body_len = 2;
    topic_len = 1;
    crc32 = 0;
  };
  topic = b'a' ∷ [];
  body = 7 ∷ 8 ∷ [];
  metadata = [];
}

abbrev fresh : StorageEngine
fresh = record { contents = []; good = true }

abbrev one_record : Bytes
one_record =
    1 ∷ 0 ∷ 0 ∷ 0 ∷ 0 ∷ 0 ∷ 0 ∷ 0 ∷ 0 ∷ 2 ∷ 1 ∷ 0 ∷ 0 ∷ 1 ∷ 0 ∷ 0 ∷ 0 ∷ b'a' ∷ 2 ∷ 0 ∷ 0 ∷ 0 ∷ 0 ∷ 0
    ∷ 0 ∷ 0 ∷ 7 ∷ 8 ∷ []

store_one :
    store_event (limited 30) one_event fresh
    ≡ (record { contents = one_record; good = true }, ok tt)
unfolding store_event write_all le_bytes
store_one = refl

-- The second event does not fit.
store_two :
    (store_all (limited 30) (one_event ∷ one_event ∷ []) fresh).1 ≡ ok tt ∷ err cannot_write ∷ []
unfolding store_all store_event write_all le_bytes
store_two = refl

store_all-Log_example :
    Log
      (one_event ∷ one_event ∷ [])
      fresh
      (store_all (limited 30) (one_event ∷ one_event ∷ []) fresh).0
      (store_all (limited 30) (one_event ∷ one_event ∷ []) fresh).1
store_all-Log_example = store_all-Log (limited 30) (one_event ∷ one_event ∷ []) fresh refl

one_event-IsStorable : IsStorable one_event
one_event-IsStorable = omega arith

read_record-record_of_example :
    read_record (record_of one_event ++ 9 ∷ []) ≡ some (stored_of one_event, 9 ∷ [])
read_record-record_of_example = read_record-record_of one_event (9 ∷ []) one_event-IsStorable

store_all-recover_example :
    (log : Log
      (one_event ∷ one_event ∷ [])
      fresh
      (store_all (limited 30) (one_event ∷ one_event ∷ []) fresh).0
      (store_all (limited 30) (one_event ∷ one_event ∷ []) fresh).1)
    × (read_records
          (length log.stored)
          (store_all (limited 30) (one_event ∷ one_event ∷ []) fresh).0.contents
        ≡ some (map stored_of log.stored, log.part))
store_all-recover_example =
    store_all-recover (limited 30) (one_event ∷ one_event ∷ []) fresh refl refl
      (one_event-IsStorable, (one_event-IsStorable, tt))
