-- ===== src/Server/Tests.antt =====
-- Runs of the connection thread.
use event_stream_core.Prelude.{
  ℕ, ◌+◌, ◌*◌, ◌<◌, ◌≡◌, ◌≢◌, refl, true, false, List, [], ◌∷◌, ◌++◌, take, Bytes, length, arith,
  All, flatten,
}
use event_stream_core.Parser.{make_frame, be32, parse_tcp_frame}
use event_stream_core.Server.{
  new_session, receive, handle_client, scan, incomplete, take_frame, max_buffer_size, drain,
}
use event_stream_core.Server.Stream.{turns_of, handle_client-flatten}
use event_stream_core.Server.Frames.{Message, IsSendable, wire, events_from, handle_client-wire}
use event_stream_core.Dispatcher.{new_dispatcher, inbound_capacity}
use event_stream_core.Server.Inbound.{try_push_all, try_push_all-wire}
use event_stream_core.Server.Bounds.{receive-IsSettled, handle_client-too_large}

abbrev noon : ℕ → ℕ
noon k = 1000 + k

abbrev counted : ℕ → ℕ
counted k = 7 + 2 * k

abbrev home : Bytes
home = b'h' ∷ b'o' ∷ b's' ∷ b't' ∷ []

abbrev hello : Message
hello = record { topic = b'a' ∷ []; payload = 1 ∷ 2 ∷ []; priority = 2 }

abbrev bye : Message
bye = record { topic = b'b' ∷ b'c' ∷ []; payload = []; priority = 0 }

-- The frames of `hello` and `bye`, cut within the first length and within the second frame.
abbrev chunks : List Bytes
chunks =
    (0 ∷ 0 ∷ [])
    ∷ (0 ∷ 6 ∷ 2 ∷ 0 ∷ 1 ∷ b'a' ∷ 1 ∷ 2 ∷ 0 ∷ 0 ∷ 0 ∷ [])
    ∷ (5 ∷ 0 ∷ 0 ∷ 2 ∷ b'b' ∷ b'c' ∷ [])
    ∷ []

chunks_flat : flatten chunks ≡ wire (hello ∷ bye ∷ [])
unfolding make_frame
chunks_flat = refl

both-IsSendable : All IsSendable (hello ∷ bye ∷ [])
both-IsSendable = (
  ((λ e. cc), omega arith, omega arith, omega arith, omega arith),
  (((λ e. cc), omega arith, omega arith, tt, omega arith), tt),
)

chunks_filled : All (λ c. c ≢ []) chunks
chunks_filled = ((λ e. cc), ((λ e. cc), ((λ e. cc), tt)))

-- A frame that does not parse is dropped, and the bytes of the next one stay.
drop_malformed :
    (receive noon counted home (0 ∷ 0 ∷ 0 ∷ 1 ∷ 9 ∷ 0 ∷ 0 ∷ 0 ∷ 0 ∷ 0 ∷ 0 ∷ []) new_session)
    ≡ record { buf = 0 ∷ 0 ∷ []; made = 0; pushed = []; is_open = true }
unfolding receive drain scan take_frame parse_tcp_frame
drop_malformed = refl

handle_client-wire_example :
    handle_client noon counted home (turns_of chunks) new_session ≡ record {
      buf = [];
      made = 2;
      pushed = events_from noon counted home 0 (hello ∷ bye ∷ []);
      is_open = true;
    }
handle_client-wire_example =
    handle_client-wire noon counted home (hello ∷ bye ∷ []) chunks both-IsSendable chunks_filled
      chunks_flat

handle_client-flatten_example :
    handle_client noon counted home (turns_of chunks) new_session
    ≡ receive noon counted home (flatten chunks) new_session
handle_client-flatten_example = handle_client-flatten noon counted home chunks chunks_filled

receive-IsSettled_example :
    (scan (receive noon counted home (0 ∷ 6 ∷ 2 ∷ []) new_session).buf ≡ incomplete)
    × (length (receive noon counted home (0 ∷ 6 ∷ 2 ∷ []) new_session).buf < 4 + max_buffer_size)
receive-IsSettled_example = receive-IsSettled noon counted home (0 ∷ 6 ∷ 2 ∷ []) new_session

-- `hello`, then the length 11 MiB.
abbrev large_chunks : List Bytes
large_chunks = (0 ∷ 0 ∷ 0 ∷ 6 ∷ 2 ∷ 0 ∷ 1 ∷ b'a' ∷ 1 ∷ 2 ∷ 0 ∷ 0xb0 ∷ 0 ∷ []) ∷ (0 ∷ 7 ∷ []) ∷ []

large_chunks_flat : flatten large_chunks ≡ wire (hello ∷ []) ++ (be32 0xb00000 ++ 7 ∷ [])
unfolding make_frame
large_chunks_flat = refl

handle_client-too_large_example :
    handle_client noon counted home (turns_of large_chunks) new_session ≡ record {
      buf = [];
      made = 1;
      pushed = events_from noon counted home 0 (hello ∷ []);
      is_open = false;
    }
handle_client-too_large_example =
    handle_client-too_large noon counted home (hello ∷ []) 0xb00000 (7 ∷ []) large_chunks
      (both-IsSendable.0, tt) (omega arith) (omega arith) ((λ e. cc), ((λ e. cc), tt))
      large_chunks_flat

try_push_all-wire_example :
    try_push_all
      (handle_client noon counted home (turns_of chunks) new_session).pushed
      new_dispatcher
    ≡ record new_dispatcher {
      inbound_queue = take inbound_capacity (events_from noon counted home 0 (hello ∷ bye ∷ []));
    }
try_push_all-wire_example =
    try_push_all-wire noon counted home (hello ∷ bye ∷ []) chunks new_dispatcher both-IsSendable
      chunks_filled chunks_flat (omega arith)
