-- ===== src/Storage/Decode.antt =====
-- The format of the file, read back. The source has no reader (`retrieveEvent` has no body), so the
-- reader here is the specification of the format.
use native.Mathlib.Nat.{pow-suc}
use event_stream_core.Prelude.{
  ℕ, zero, suc, ◌+◌, ◌*◌, ◌/◌, ◌%◌, ◌^◌, ◌<◌, ◌≡◌, refl, ap, ◌∙◌, Option, none, some, List, [], ◌∷◌,
  ◌++◌, ltb, leb, if◌then◌else◌, length, take, drop, flatten, Bytes, append-nil, append_assoc,
  take-length, take-append, drop-append, length-append, arith,
}
use event_stream_core.Event.{EventSourceType, Event, source_code}
use event_stream_core.Storage.{le_bytes}
use event_stream_core.Storage.Durable.{record_of}

-- What the file keeps of an event.
pub record Stored : Type 0 where
  pub timestamp : ℕ
  pub source : ℕ
  pub id : ℕ
  pub topic : Bytes
  pub payload : Bytes

abbrev pub stored_of : Event → Stored
stored_of e = record {
  timestamp = e.header.timestamp;
  source = source_code e.header.source_type;
  id = e.header.id;
  topic = e.topic;
  payload = e.body;
}

-- A reader takes a value from the front of the file, and returns the rest.
abbrev pub Reader : Type 0 → Type 0
Reader A = Bytes → Option (A × Bytes)

abbrev feed : {A B : Type 0} → Option (A × Bytes) → (A → Reader B) → Option (B × Bytes)
feed none f = none
feed (some (a, rest)) f = f a rest

infixl 5 ◌>>=◌
abbrev ◌>>=◌ : {A B : Type 0} → Reader A → (A → Reader B) → Reader B
◌>>=◌ m f bytes = feed (m bytes) f

abbrev return : {A : Type 0} → A → Reader A
return a bytes = some (a, bytes)

unfoldable pub read_bytes : ℕ → Reader Bytes
read_bytes n bytes = if leb n (length bytes) then some (take n bytes, drop n bytes) else none

abbrev pub le_value : Bytes → ℕ
le_value [] = 0
le_value (b ∷ bs) = b + 256 * le_value bs

unfoldable pub read_number : ℕ → Reader ℕ
read_number k = do bytes ← read_bytes k; return (le_value bytes)

unfoldable pub read_record : Reader Stored
read_record = do
  timestamp ← read_number 8
  source ← read_number 1
  id ← read_number 4
  topic_len ← read_number 4
  topic ← read_bytes topic_len
  payload_size ← read_number 8
  payload ← read_bytes payload_size
  return
      (record { timestamp = timestamp; source = source; id = id; topic = topic; payload = payload })

read_bytes-append :
    (xs rest : Bytes) {n : ℕ} → length xs ≡ n → read_bytes n (xs ++ rest) ≡ some (xs, rest)
unfolding read_bytes
read_bytes-append xs rest e = ground (
  arith,
  length-append {0} xs rest,
  ap (λ k. take k (xs ++ rest)) e,
  ap (λ k. drop k (xs ++ rest)) e,
  take-append {0} xs rest,
  drop-append {0} xs rest,
)

length-le_bytes : (k n : ℕ) → length (le_bytes k n) ≡ k
unfolding le_bytes
length-le_bytes zero n = refl
length-le_bytes (suc k) n = ap suc (length-le_bytes k (n / 256))

le_value-le_bytes : (k n : ℕ) → n < 256 ^ k → le_value (le_bytes k n) ≡ n
unfolding le_bytes
le_value-le_bytes zero n h = omega arith
le_value-le_bytes (suc k) n h =
    omega (arith, pow-suc 256 k, le_value-le_bytes k (n / 256) (omega (arith, pow-suc 256 k)))

read_number-append :
    (k n : ℕ) (rest : Bytes) → n < 256 ^ k → read_number k (le_bytes k n ++ rest) ≡ some (n, rest)
unfolding read_number
read_number-append k n rest h =
    ap (λ o. feed o (λ bytes. return (le_value bytes)))
      (read_bytes-append (le_bytes k n) rest (length-le_bytes k n))
    ∙ ap (λ v. some (v, rest)) (le_value-le_bytes k n h)

-- The sizes that the fields of the file can hold; every event of the program is within them, as
-- the timestamp and the id have 64 and 32 bits in the header.
pub record IsStorable (e : Event) : Type 0 where
  pub timestamp : e.header.timestamp < 2 ^ 64
  pub id : e.header.id < 2 ^ 32
  pub topic : length e.topic < 2 ^ 32
  pub body : length e.body < 2 ^ 64

-- The fields of an event's record, in order, and what follows.
abbrev layout : Event → Bytes → Bytes
layout e rest =
    le_bytes 8 e.header.timestamp
    ++ (source_code e.header.source_type
        ∷ (le_bytes 4 e.header.id
            ++ (le_bytes 4 (length e.topic)
                ++ (e.topic ++ (le_bytes 8 (length e.body) ++ (e.body ++ rest))))))

topic_block :
    (topic : Bytes) (rest : List Bytes)
    → flatten ((if ltb 0 (length topic) then take (length topic) topic ∷ [] else []) ++ rest)
      ≡ topic ++ flatten rest
topic_block [] rest = refl
topic_block (t ∷ ts) rest = ground (arith, take-length {0} (t ∷ ts))

source_code-lt : (s : EventSourceType) → source_code s < 256
source_code-lt s = ground arith

record_of-layout : (e : Event) (rest : Bytes) → IsStorable e → record_of e ++ rest ≡ layout e rest
record_of-layout e rest h =
    let ts : e.header.timestamp % 2 ^ 64 ≡ e.header.timestamp = omega (arith, h.timestamp) in
    let tl : length e.topic % 2 ^ 32 ≡ length e.topic = omega (arith, h.topic) in
    let bl : length e.body % 2 ^ 64 ≡ length e.body = omega (arith, h.body) in
    let source : source_code e.header.source_type % 256 ≡ source_code e.header.source_type =
      omega (arith, source_code-lt e.header.source_type) in
    rw (ts, tl, bl, source, topic_block e.topic _, take-length e.body)
      (simp (append_assoc, append-nil))

single : (n : ℕ) → n + 256 * 0 ≡ n
single n = omega arith

read_source : (n : ℕ) (rest : Bytes) → read_number 1 (n ∷ rest) ≡ some (n, rest)
unfolding read_number
read_source n rest =
    ap (λ o. feed o (λ bytes. return (le_value bytes))) (read_bytes-append (n ∷ []) rest refl)
    ∙ ap (λ v. some (v, rest)) (single n)

-- A record is read back whatever follows it: all that the file keeps of an event is there.
pub read_record-record_of :
    (e : Event) (rest : Bytes)
    → IsStorable e
    → read_record (record_of e ++ rest) ≡ some (stored_of e, rest)
unfolding read_record
read_record-record_of e rest h =
    ap read_record (record_of-layout e rest h)
    ∙ rw (
      read_number-append 8 e.header.timestamp _ h.timestamp,
      read_source (source_code e.header.source_type) _,
      read_number-append 4 e.header.id _ h.id,
      read_number-append 4 (length e.topic) _ h.topic,
      read_bytes-append e.topic _ refl,
      read_number-append 8 (length e.body) _ h.body,
      read_bytes-append e.body rest refl,
    )
