-- ===== src/Storage.antt =====
-- include/storage_engine/storage_engine.hpp and src/storage_engine/storage_engine.cpp: an append-only
-- binary file. The numbers are written as they lie in memory, least significant byte first (the
-- byte order of the platforms that the source is built for).
-- The stream is the C++ library's and the disk is the system's: `Device` is what they do with a
-- block of bytes. `retrieveEvent` is declared in the header and defined nowhere.
pub mod Decode
pub mod Durable
pub mod Recover
pub mod Limited
mod Tests
use event_stream_core.Prelude.{
  ℕ, zero, suc, ◌/◌, ◌%◌, ◌^◌, ◌≡◌, Bool, true, false, Option, none, some, take, List, [], ◌∷◌,
  ◌++◌, if◌then◌else◌, ltb, length, Bytes, u32, u64, Result, ok, err,
}
use event_stream_core.Event.{Event, source_code}

-- What `write` and `flush` do: the contents after a block was handed over, and whether the stream is
-- still good. The contents are those of the file with what the stream still holds back, which is
-- written at the latest by the `flush` at the end of a call of `storeEvent`.
pub record Device : Type 0 where
  pub append : Bytes → Bytes → Bytes × Bool
  -- A block that is accepted is at the end of the file, whole.
  pub append_good :
      (contents block : Bytes)
      → (append contents block).1 ≡ true
      → (append contents block).0 ≡ contents ++ block
  -- The file is open for appending: what was there stays, also when a block is cut short.
  pub append_keeps :
      (contents block : Bytes) → (part : Bytes) × ((append contents block).0 ≡ contents ++ part)

pub record StorageEngine : Type 0 where
  pub contents : Bytes
  pub good : Bool

pub data StorageError : Type 0 where
  cannot_open cannot_write : StorageError

-- The bytes of a number in memory.
unfoldable pub le_bytes : ℕ → ℕ → Bytes
le_bytes zero n = []
le_bytes (suc k) n = n % 256 ∷ le_bytes k (n / 256)

-- The blocks that `storeEvent` writes, in order.
abbrev pub blocks_of : Event → List Bytes
blocks_of event =
    let topic_len = u32 (length event.topic) in
    let payload_size = u64 (length event.body) in
    le_bytes 8 (u64 event.header.timestamp)
    ∷ (source_code event.header.source_type % 256 ∷ [])
    ∷ le_bytes 4 event.header.id
    ∷ le_bytes 4 topic_len
    ∷ ((if ltb 0 topic_len then take topic_len event.topic ∷ [] else [])
        ++ le_bytes 8 payload_size ∷ take payload_size event.body ∷ [])

module _ (device : Device) where
  open device use {append}

  -- `storageFile.write`: a stream that is not good writes nothing, and stays so.
  abbrev pub write : Bytes → StorageEngine → StorageEngine
  write block s =
      let (contents, good) = append s.contents block in
      if s.good then record { contents = contents; good = good } else s

  unfoldable pub write_all : List Bytes → StorageEngine → StorageEngine
  write_all [] s = s
  write_all (b ∷ bs) s = write_all bs (write b s)

  -- `flush` hands over what is left. The exception of `storeEvent` leaves the file as it is by then.
  unfoldable pub store_event :
      Event → StorageEngine → StorageEngine × Result StorageError (Unit {0})
  store_event event s =
      let s' = write [] (write_all (blocks_of event) s) in
      (s', if s'.good then ok tt else err cannot_write)

-- The constructor, on the contents of the file if it can be opened.
abbrev pub open_storage : Option Bytes → Result StorageError StorageEngine
open_storage none = err cannot_open
open_storage (some contents) = ok (record { contents = contents; good = true })
