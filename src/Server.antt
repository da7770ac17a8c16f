-- ===== src/Server.antt =====
-- `TcpIngestServer::handleClient` of src/ingest/tcpingest_server.cpp: the thread of one connection.
-- The bytes that `recv` returns come from outside. So do the values of the clock and of the shared
-- event counter, which other threads move too: `clock k` and `counters k` are what the thread reads
-- for the event after its first `k`. The events that it hands to `tryPush` are listed in order.
pub mod Scan
pub mod Drain
pub mod Stream
pub mod Frames
pub mod Refused
pub mod Bounds
pub mod Inbound
mod Tests
use event_stream_core.Prelude.{
  ℕ, zero, suc, ◌+◌, ◌*◌, ◌^◌, Bool, true, false, Option, none, some, List, [], ◌∷◌, ◌++◌, ltb,
  ◌==◌, if◌then◌else◌, length, take, drop, Bytes, u32, ◌<<◌, Result, ok, err,
}
use Prim.Native.Nat.{bit_or}
use event_stream_core.Event.{EventPtr, Event, tcp}
use event_stream_core.Event.Factory.{Request, create_event}
use event_stream_core.Parser.{ParsedResult, ParseError, parse_tcp_frame}

abbrev pub max_buffer_size : ℕ
max_buffer_size = 10 * 1024 * 1024

-- What one turn of the inner loop finds at the front of the buffer.
pub data Found : Type 0 where
  incomplete too_large : Found
  empty_frame : Bytes → Found  -- and the buffer behind its four bytes
  framed : Bytes → Bytes → Found  -- the frame with its length, and the buffer behind it

abbrev pub frame_length : ℕ → ℕ → ℕ → ℕ → ℕ
frame_length b₀ b₁ b₂ b₃ = bit_or (bit_or (bit_or (b₀ << 24) (b₁ << 16)) (b₂ << 8)) b₃

-- The ladder on `frame_len`, with `4 + frame_len` in 32 bits.
abbrev pub find_frame : ℕ → Bytes → Found
find_frame frame_len buf =
    if frame_len == 0
    then empty_frame (drop 4 buf)
    else if ltb max_buffer_size frame_len
    then too_large
    else if ltb (length buf) (u32 (4 + frame_len))
    then incomplete
    else framed (take (u32 (4 + frame_len)) buf) (drop (u32 (4 + frame_len)) buf)

unfoldable pub scan : Bytes → Found
scan (b₀ ∷ b₁ ∷ b₂ ∷ b₃ ∷ rest) = find_frame (frame_length b₀ b₁ b₂ b₃) (b₀ ∷ b₁ ∷ b₂ ∷ b₃ ∷ rest)
scan _ = incomplete

-- The local state of the thread. `made` counts the events created, `is_open` is false once the
-- function has closed the socket and returned.
pub record Session : Type 0 where
  pub buf : Bytes
  pub made : ℕ
  pub pushed : List EventPtr
  pub is_open : Bool

abbrev pub new_session : Session
new_session = record { buf = []; made = 0; pushed = []; is_open = true }

-- `closeSocket(client_fd)` and the return, which destroys the buffer.
abbrev pub close : Session → Session
close s = record s { buf = []; is_open = false }

-- "client_address"
abbrev address_key : Bytes
address_key =
    b'c' ∷ b'l' ∷ b'i' ∷ b'e' ∷ b'n' ∷ b't' ∷ b'_' ∷ b'a' ∷ b'd' ∷ b'd' ∷ b'r' ∷ b'e' ∷ b's' ∷ b's'
    ∷ []

module _ (clock counters : ℕ → ℕ) (client_address : Bytes) where
  abbrev pub request_of : ℕ → ParsedResult → Request
  request_of k parsed = record {
    now = clock k;
    source_type = tcp;
    priority = parsed.priority;
    payload = parsed.payload;
    topic = parsed.topic;
    metadata = (address_key, client_address) ∷ [];
  }

  -- `tryPush`, whose result is not looked at.
  abbrev pub push_created : Session → Option (Event × ℕ) → Session
  push_created s none = s
  push_created s (some (evt, counter)) = record s {
    made = suc s.made;
    pushed = s.pushed ++ some evt ∷ [];
  }

  -- The `try` block; a frame that does not parse is logged and dropped.
  abbrev pub push_parsed : Session → Result ParseError ParsedResult → Session
  push_parsed s (ok parsed) =
      push_created s (create_event (request_of s.made parsed) (counters s.made))
  push_parsed s (err e) = s

  unfoldable pub take_frame : Bytes → Session → Session
  take_frame full_frame s = push_parsed s (parse_tcp_frame full_frame)

  -- One turn of the inner loop on what it found, and `go_on` for the further turns.
  abbrev pub turn_on : (Session → Session) → Session → Found → Session
  turn_on go_on s incomplete = s
  turn_on go_on s too_large = close s
  turn_on go_on s (empty_frame rest) = go_on (record s { buf = rest })
  turn_on go_on s (framed full_frame rest) = go_on (take_frame full_frame (record s { buf = rest }))

  -- The inner loop, for at most `fuel` turns.
  unfoldable pub drain : ℕ → Session → Session
  drain zero s = s
  drain (suc fuel) s = turn_on (drain fuel) s (scan s.buf)

  -- The body of the outer loop on the bytes received. Each turn of the inner loop takes at least
  -- four bytes from the buffer, so its length is enough fuel.
  unfoldable pub receive : Bytes → Session → Session
  receive chunk s = let buf = s.buf ++ chunk in drain (length buf) (record s { buf = buf })

  -- One turn of the outer loop: the value of `isRunning`, and the bytes that `recv` returned, none
  -- at the end of the connection or on an error.
  abbrev pub turn : Bool → Bytes → Session → Session
  turn false chunk s = close s
  turn true [] s = close s
  turn true (c ∷ cs) s = receive (c ∷ cs) s

  -- The outer loop over the turns; at their end the thread waits in `recv`.
  unfoldable pub handle_client : List (Bool × Bytes) → Session → Session
  handle_client [] s = s
  handle_client ((running, chunk) ∷ ts) s =
      if s.is_open then handle_client ts (turn running chunk s) else s
