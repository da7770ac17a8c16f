-- ===== src/Parser.antt =====
-- include/ingest/tcp_parser.hpp and src/ingest/tcp_parser.cpp: one frame of the wire format,
-- [4 bytes frame_len][1 byte priority][2 bytes topic_len][topic][payload], lengths big-endian.
-- A read outside the vector is undefined in the source. Here it is the error `out_of_bounds`.
pub mod Guards
pub mod RoundTrip
mod Tests
use event_stream_core.Prelude.{
  ℕ, ◌+◌, ◌-◌, ◌*◌, ◌/◌, ◌%◌, ◌^◌, not, ◌&&◌, [], ◌∷◌, ◌++◌, Option, none, some, ltb, ◌==◌,
  if◌then◌else◌, length, get_elem?, take, drop, Bytes, Result, ok, err, ◌>>=◌, ◌>>◌, throw_if,
  or_throw,
}
use event_stream_core.Event.{EventPriority, low, medium, high, critical, priority_code}

pub data ParseError : Type 0 where
  body_too_small invalid_priority topic_too_long zero_topic : ParseError
  no_frame_length length_mismatch : ParseError
  out_of_bounds : ParseError

pub record ParsedResult : Type 0 where
  pub priority : EventPriority
  pub topic : Bytes
  pub payload : Bytes

abbrev Parse : Type 0 → Type 0
Parse A = Result ParseError A

-- `*data`, with `i` the offset of `data` in the vector.
unfoldable pub read_uint8_be : Bytes → ℕ → Parse ℕ
read_uint8_be bytes i = or_throw (get_elem? bytes i) out_of_bounds

-- `memcpy` of two bytes and `ntohs`.
unfoldable pub read_uint16_be : Bytes → ℕ → Parse ℕ
unfolding read_uint8_be
read_uint16_be bytes i = do
  hi ← read_uint8_be bytes i
  lo ← read_uint8_be bytes (i + 1)
  ok (hi * 256 + lo)

-- `memcpy` of four bytes and `ntohl`.
unfoldable pub read_uint32_be : Bytes → ℕ → Parse ℕ
unfolding read_uint8_be
read_uint32_be bytes i = do
  b₀ ← read_uint8_be bytes i
  b₁ ← read_uint8_be bytes (i + 1)
  b₂ ← read_uint8_be bytes (i + 2)
  b₃ ← read_uint8_be bytes (i + 3)
  ok (((b₀ * 256 + b₁) * 256 + b₂) * 256 + b₃)

-- `std::string(data + i, n)`
unfoldable pub read_string : Bytes → ℕ → ℕ → Parse Bytes
read_string bytes i n =
    if ltb (length bytes) (i + n) then err out_of_bounds else ok (take n (drop i bytes))

-- `static_cast<EventPriority>`, for the values that the guard above it lets through.
abbrev pub priority_of : ℕ → EventPriority
priority_of v = if v == 0 then low else if v == 1 then medium else if v == 2 then high else critical

unfoldable pub parse_frame : Bytes → Parse ParsedResult
unfolding read_uint8_be read_uint16_be read_string
parse_frame frame_body = do
  throw_if (ltb (length frame_body) 3) body_too_small
  priority_val ← read_uint8_be frame_body 0
  throw_if (ltb (priority_code critical) priority_val) invalid_priority
  topic_len ← read_uint16_be frame_body 1
  throw_if (ltb (length frame_body) (3 + topic_len)) topic_too_long
  throw_if (topic_len == 0) zero_topic
  topic ← read_string frame_body 3 topic_len
  ok (record {
    priority = priority_of priority_val;
    topic = topic;
    payload =
        if ltb (3 + topic_len) (length frame_body) then drop (3 + topic_len) frame_body else [];
  })

unfoldable pub parse_tcp_frame : Bytes → Parse ParsedResult
unfolding read_uint32_be parse_frame
parse_tcp_frame full_frame = do
  throw_if (ltb (length full_frame) 4) no_frame_length
  frame_len ← read_uint32_be full_frame 0
  throw_if (not (frame_len == length full_frame - 4)) length_mismatch
  parse_frame (drop 4 full_frame)

-- The client's side of the format, `make_frame` of test.py. `struct.pack` raises an exception on a
-- number outside the field's range, here `none`.
abbrev pub be16 : ℕ → Bytes
be16 n = n / 256 % 256 ∷ n % 256 ∷ []

abbrev pub be32 : ℕ → Bytes
be32 n = n / 2 ^ 24 % 256 ∷ n / 2 ^ 16 % 256 ∷ n / 256 % 256 ∷ n % 256 ∷ []

unfoldable pub make_frame : Bytes → Bytes → ℕ → Option Bytes
make_frame topic payload priority =
    if ltb (length topic) (2 ^ 16) && ltb (length body + 1) (2 ^ 32) && ltb priority 256
    then some (be32 (length body + 1) ++ priority ∷ body)
    else none
  where
    body : Bytes
    body = be16 (length topic) ++ topic ++ payload
