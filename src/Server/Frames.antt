-- ===== src/Server/Frames.antt =====
-- A stream of well-formed frames, from the client's `make_frame` (test.py) to `tryPush`.
use event_stream_core.Prelude.{
  ℕ, zero, suc, ◌+◌, ◌^◌, ◌≤◌, ◌<◌, ◌≡◌, ◌≢◌, refl, ap, sym, ◌∙◌, true, List, [], ◌∷◌, ◌++◌, All,
  flatten, map, length, Option, none, some, Bytes, IsByte, arith, length-append, take-append,
  drop-append, append_assoc, append-nil, ap₂, subst,
}
use event_stream_core.Event.{EventPtr}
use event_stream_core.Event.Factory.Ids.{event_of, create_event_lem}
use event_stream_core.Parser.{ParsedResult, priority_of, be32, make_frame}
use event_stream_core.Parser.RoundTrip.{
  body_of, length-body_of, make_frame-body_of, parse_tcp_frame-make_frame,
}
use event_stream_core.Server.{
  Session, new_session, receive, handle_client, scan, find_frame, take_frame, framed,
  max_buffer_size, request_of, push_parsed, push_created, drain,
}
use event_stream_core.Server.Scan.{frame_length-be32}
use event_stream_core.Server.Drain.{drain-turn}
use event_stream_core.Server.Stream.{turns_of, handle_client-flatten}

find_frame-front :
    (head body more : Bytes)
    → length head ≡ 4
    → 0 < length body
    → length body ≤ max_buffer_size
    → find_frame (length body) ((head ++ body) ++ more) ≡ framed (head ++ body) more
find_frame-front head body more four some_bytes fits = ground (
  arith,
  length-append {0} head body,
  length-append {0} (head ++ body) more,
  take-append {0} (head ++ body) more,
  drop-append {0} (head ++ body) more,
)

pub scan-front :
    (body more : Bytes)
    → 0 < length body
    → length body ≤ max_buffer_size
    → scan ((be32 (length body) ++ body) ++ more) ≡ framed (be32 (length body) ++ body) more
unfolding scan
scan-front body more some_bytes fits =
    let n = length body in
    ap (λ k. find_frame k ((be32 n ++ body) ++ more)) (frame_length-be32 n (omega arith))
    ∙ find_frame-front (be32 n) body more refl some_bytes fits

-- What a client sends.
pub record Message : Type 0 where
  pub topic : Bytes
  pub payload : Bytes
  pub priority : ℕ

-- The frame has at most 10 MiB behind its length.
abbrev pub IsSendable : Message → Type 0
IsSendable m =
    (m.topic ≢ [])
    × (length m.topic < 2 ^ 16)
    × (m.priority ≤ 3)
    × All IsByte m.payload
    × (3 + (length m.topic + length m.payload) ≤ max_buffer_size)

abbrev or_nothing : Option Bytes → Bytes
or_nothing none = []
or_nothing (some frame) = frame

abbrev pub frame_of : Message → Bytes
frame_of m = or_nothing (make_frame m.topic m.payload m.priority)

abbrev pub wire : List Message → Bytes
wire ms = flatten (map frame_of ms)

abbrev pub parsed_of : Message → ParsedResult
parsed_of m = record { priority = priority_of m.priority; topic = m.topic; payload = m.payload }

frame_of-body_of :
    (m : Message)
    → IsSendable m
    → (make_frame m.topic m.payload m.priority ≡ some (frame_of m))
      × (frame_of m
          ≡ be32 (length (body_of m.topic m.payload m.priority))
            ++ body_of m.topic m.payload m.priority)
frame_of-body_of m (ne, short, p, bytes, fits) =
    let e =
      make_frame-body_of m.topic m.payload m.priority short
        (omega (arith, length-body_of m.topic m.payload m.priority)) (omega arith) in
    (e ∙ ap (λ o. some (or_nothing o)) (sym e), ap or_nothing e)

scan-frame_of :
    (m : Message) (more : Bytes)
    → IsSendable m
    → scan (frame_of m ++ more) ≡ framed (frame_of m) more
scan-frame_of m more (ne, short, p, bytes, fits) =
    let e = (frame_of-body_of m (ne, short, p, bytes, fits)).1 in
    let n = length-body_of m.topic m.payload m.priority in
    subst (λ f. scan (f ++ more) ≡ framed f more) (sym e)
      (scan-front (body_of m.topic m.payload m.priority) more (omega (arith, n)) (omega (arith, n)))

length-frame_of : (m : Message) → IsSendable m → 4 ≤ length (frame_of m)
length-frame_of m h = omega (arith, ap (λ b. length b) (frame_of-body_of m h).1)

module _ (clock counters : ℕ → ℕ) (client_address : Bytes) where
  -- The event of a message, `k` events having been made before it on this connection.
  abbrev pub event_at : ℕ → Message → EventPtr
  event_at k m =
      some (event_of (request_of clock counters client_address k (parsed_of m)) (counters k))

  abbrev pub events_from : ℕ → List Message → List EventPtr
  events_from k [] = []
  events_from k (m ∷ ms) = event_at k m ∷ events_from (suc k) ms

  abbrev pushing : List EventPtr → ℕ → Bytes → Session → Session
  pushing evts made rest s = record s { buf = rest; made = made; pushed = s.pushed ++ evts }

  take_frame-frame_of :
      (m : Message) (s : Session)
      → IsSendable m
      → take_frame clock counters client_address (frame_of m) s
        ≡ pushing (event_at s.made m ∷ []) (suc s.made) s.buf s
  unfolding take_frame
  take_frame-frame_of m s (ne, short, p, bytes, fits) =
      let made = (frame_of-body_of m (ne, short, p, bytes, fits)).0 in
      ap (push_parsed clock counters client_address s)
        (parse_tcp_frame-make_frame m.topic m.payload m.priority {frame = frame_of m} made p ne)
      ∙ ap (push_created clock counters client_address s) (
          create_event_lem (request_of clock counters client_address s.made (parsed_of m))
            (counters s.made) bytes)

  pushing-nothing : (s : Session) → record s { buf = [] } ≡ pushing [] (0 + s.made) [] s
  pushing-nothing s =
      ap₂ (λ k p. record s { buf = []; made = k; pushed = p }) (omega arith)
        (sym (append-nil s.pushed))

  pushing-pushing :
      (evt : EventPtr) (evts : List EventPtr) (n : ℕ) (rest : Bytes) (s : Session)
      → pushing evts (n + suc s.made) [] (pushing (evt ∷ []) (suc s.made) rest s)
        ≡ pushing (evt ∷ evts) (suc n + s.made) [] s
  pushing-pushing evt evts n rest s =
      ap₂ (λ k p. record s { buf = []; made = k; pushed = p }) (omega arith)
        (append_assoc s.pushed (evt ∷ []) evts)

  drain-wire :
      (n : ℕ) (ms : List Message) (s : Session)
      → All IsSendable ms
      → length (wire ms) ≤ n
      → drain clock counters client_address n (record s { buf = wire ms })
        ≡ pushing (events_from s.made ms) (length ms + s.made) [] s
  unfolding drain scan
  drain-wire zero [] s h k = pushing-nothing s
  drain-wire (suc n) [] s h k = pushing-nothing s
  drain-wire zero (m ∷ ms) s h k =
      absurd (omega (arith, length-frame_of m h.0, length-append {0} (frame_of m) (wire ms)))
  drain-wire (suc n) (m ∷ ms) s h k =
      drain-turn clock counters client_address n (record s { buf = wire (m ∷ ms) })
        (scan-frame_of m (wire ms) h.0)
      ∙ ap (drain clock counters client_address n)
          (take_frame-frame_of m (record s { buf = wire ms }) h.0)
      ∙ drain-wire n ms (pushing (event_at s.made m ∷ []) (suc s.made) (wire ms) s) h.1
          (omega (arith, length-frame_of m h.0, length-append {0} (frame_of m) (wire ms)))
      ∙ pushing-pushing (event_at s.made m) (events_from (suc s.made) ms) (length ms) (wire ms) s

  -- All the bytes at once.
  pub receive-wire :
      (ms : List Message)
      → All IsSendable ms
      → receive clock counters client_address (wire ms) new_session
        ≡ record { buf = []; made = length ms; pushed = events_from 0 ms; is_open = true }
  unfolding receive
  receive-wire ms h =
      drain-wire (length (wire ms)) ms new_session h (omega arith)
      ∙ ap (λ k. record { buf = []; made = k; pushed = events_from 0 ms; is_open = true })
          (omega arith)

  -- A client sends frames one after the other, each of at most 10 MiB behind its length, and `recv`
  -- cuts their bytes into chunks in any way, none empty. Then the thread has handed to the
  -- dispatcher exactly one event for each frame, in order, with the priority, topic and payload
  -- that were sent, and waits with an empty buffer on an open connection.
  pub handle_client-wire :
      (ms : List Message) (chunks : List Bytes)
      → All IsSendable ms
      → All (λ c. c ≢ []) chunks
      → flatten chunks ≡ wire ms
      → handle_client clock counters client_address (turns_of chunks) new_session
        ≡ record { buf = []; made = length ms; pushed = events_from 0 ms; is_open = true }
  handle_client-wire ms chunks h ne e =
      handle_client-flatten clock counters client_address chunks ne
      ∙ ap (λ b. receive clock counters client_address b new_session) e
      ∙ receive-wire ms h
