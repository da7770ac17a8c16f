-- ===== src/Parser/Tests.antt =====
-- Frames of the parser, and its theorems at concrete frames.
use event_stream_core.Prelude.{[], ◌∷◌, ◌≡◌, ◌≢◌, refl, some, Bytes, ok, err, arith}
use event_stream_core.Event.{high, priority_code}
use event_stream_core.Parser.{
  ParsedResult, out_of_bounds, zero_topic, invalid_priority, length_mismatch, parse_tcp_frame,
  make_frame,
}
use event_stream_core.Parser.Guards.{parse_tcp_frame-in_bounds}
use event_stream_core.Parser.RoundTrip.{parse_tcp_frame-make_frame, make_frame-parse_tcp_frame}

abbrev topic_bytes : Bytes
topic_bytes = b's' ∷ b'/' ∷ b'1' ∷ []

abbrev payload_bytes : Bytes
payload_bytes = 0xde ∷ 0xad ∷ []

-- Topic "s/1" at priority 2.
abbrev frame_bytes : Bytes
frame_bytes = 0 ∷ 0 ∷ 0 ∷ 8 ∷ 2 ∷ 0 ∷ 3 ∷ b's' ∷ b'/' ∷ b'1' ∷ 0xde ∷ 0xad ∷ []

abbrev parsed_bytes : ParsedResult
parsed_bytes = record { priority = high; topic = topic_bytes; payload = payload_bytes }

make_frame_run : make_frame topic_bytes payload_bytes 2 ≡ some frame_bytes
unfolding make_frame
make_frame_run = refl

parse_run : parse_tcp_frame frame_bytes ≡ ok parsed_bytes
unfolding parse_tcp_frame
parse_run = refl

parse_bad_priority : parse_tcp_frame (0 ∷ 0 ∷ 0 ∷ 4 ∷ 9 ∷ 0 ∷ 1 ∷ b'x' ∷ []) ≡ err invalid_priority
unfolding parse_tcp_frame
parse_bad_priority = refl

parse_zero_topic : parse_tcp_frame (0 ∷ 0 ∷ 0 ∷ 4 ∷ 1 ∷ 0 ∷ 0 ∷ b'x' ∷ []) ≡ err zero_topic
unfolding parse_tcp_frame
parse_zero_topic = refl

parse_mismatch : parse_tcp_frame (0 ∷ 0 ∷ 0 ∷ 9 ∷ 1 ∷ []) ≡ err length_mismatch
unfolding parse_tcp_frame
parse_mismatch = refl

parse_tcp_frame-in_bounds_example :
    parse_tcp_frame (0 ∷ 0 ∷ 0 ∷ 3 ∷ 1 ∷ 255 ∷ 255 ∷ []) ≢ err out_of_bounds
parse_tcp_frame-in_bounds_example = parse_tcp_frame-in_bounds (0 ∷ 0 ∷ 0 ∷ 3 ∷ 1 ∷ 255 ∷ 255 ∷ [])

parse_tcp_frame-make_frame_example : parse_tcp_frame frame_bytes ≡ ok parsed_bytes
parse_tcp_frame-make_frame_example =
    parse_tcp_frame-make_frame topic_bytes payload_bytes 2 make_frame_run (omega arith) (λ e. cc)

make_frame-parse_tcp_frame_example :
    (make_frame topic_bytes payload_bytes (priority_code high) ≡ some frame_bytes)
    × (topic_bytes ≢ [])
make_frame-parse_tcp_frame_example = make_frame-parse_tcp_frame frame_bytes (omega arith) parse_run
