-- ===== src/Server/Bounds.antt =====
-- The buffer after each turn, and a length that is too large.
use event_stream_core.Prelude.{
  ℕ, zero, suc, ◌+◌, ◌^◌, ◌≤◌, ◌<◌, ◌≡◌, ◌≢◌, refl, ap, ◌∙◌, true, false, List, [], ◌∷◌, ◌++◌, All,
  flatten, length, Bytes, arith, subst,
}
use event_stream_core.Parser.{be32}
use event_stream_core.Server.{
  Found, incomplete, too_large, empty_frame, framed, Session, new_session, close, scan,
  max_buffer_size, receive, handle_client, drain, turn_on,
}
use event_stream_core.Server.Scan.{IsShorter, scan-IsShorter, scan-incomplete, scan-too_large}
use event_stream_core.Server.Drain.{
  empty_buf, drain-turn, receive-extend, resume, take_frame-Leaves,
}
use event_stream_core.Server.Stream.{turns_of, handle_client-flatten}
use event_stream_core.Server.Frames.{Message, IsSendable, wire, events_from, receive-wire}

module _ (clock counters : ℕ → ℕ) (client_address : Bytes) where
  abbrev IsSettled : Session → Type 0
  IsSettled s = scan s.buf ≡ incomplete

  turn_on-IsSettled :
      (go : Session → Session) (s : Session) (f : Found)
      → scan s.buf ≡ f
      → ((t : Session) → length t.buf < length s.buf → IsSettled (go t))
      → IsSettled (turn_on clock counters client_address go s f)
  unfolding scan
  turn_on-IsSettled go s incomplete e h = e
  turn_on-IsSettled go s too_large e h = refl
  turn_on-IsSettled go s (empty_frame rest) e h =
      h _ (subst (λ f. IsShorter f s.buf) e (scan-IsShorter s.buf))
  turn_on-IsSettled go s (framed frame rest) e h =
      let short : length rest < length s.buf =
        subst (λ f. IsShorter f s.buf) e (scan-IsShorter s.buf) in
      let same =
        ap (λ b. length b)
          (take_frame-Leaves clock counters client_address frame (record s { buf = rest }) []).1 in
      h _ (omega arith)

  drain-IsSettled :
      (n : ℕ) (s : Session) → length s.buf ≤ n → IsSettled (drain clock counters client_address n s)
  unfolding drain scan
  drain-IsSettled zero s h = ap scan (empty_buf s.buf h)
  drain-IsSettled (suc n) s h =
      turn_on-IsSettled (drain clock counters client_address n) s (scan s.buf) refl
        (λ t l. drain-IsSettled n t (omega arith))

  -- After each turn of the outer loop, whatever the bytes, the buffer holds no whole frame and no
  -- length that is too large at its front, and it is shorter than 10 MiB and four bytes.
  pub receive-IsSettled :
      (chunk : Bytes) (s : Session)
      → (scan (receive clock counters client_address chunk s).buf ≡ incomplete)
        × (length (receive clock counters client_address chunk s).buf < 4 + max_buffer_size)
  unfolding receive
  receive-IsSettled chunk s =
      let settled =
        drain-IsSettled (length (s.buf ++ chunk)) (record s { buf = s.buf ++ chunk })
          (omega arith) in
      (settled, scan-incomplete _ settled)

  receive-too_large :
      (bad : Bytes) (s : Session)
      → scan bad ≡ too_large
      → receive clock counters client_address bad (record s { buf = [] }) ≡ close s
  unfolding receive scan
  receive-too_large [] s e = cc
  receive-too_large (b ∷ bs) s e =
      drain-turn clock counters client_address (length bs) (record s { buf = b ∷ bs }) e

  -- When the bytes go on, behind the frames of `handle_client-wire`, with a length of more than
  -- 10 MiB, then the thread closes the connection, whatever follows and however it is cut, after it
  -- has handed over the events of the frames before, all of them and no other.
  pub handle_client-too_large :
      (ms : List Message) (n : ℕ) (rest : Bytes) (chunks : List Bytes)
      → All IsSendable ms
      → max_buffer_size < n
      → n < 2 ^ 32
      → All (λ c. c ≢ []) chunks
      → flatten chunks ≡ wire ms ++ (be32 n ++ rest)
      → handle_client clock counters client_address (turns_of chunks) new_session ≡ record {
        buf = [];
        made = length ms;
        pushed = events_from clock counters client_address 0 ms;
        is_open = false;
      }
  handle_client-too_large ms n rest chunks h large fits ne e =
      handle_client-flatten clock counters client_address chunks ne
      ∙ ap (λ b. receive clock counters client_address b new_session) e
      ∙ receive-extend clock counters client_address (wire ms) (be32 n ++ rest) new_session refl
      ∙ ap (resume clock counters client_address (be32 n ++ rest))
          (receive-wire clock counters client_address ms h)
      ∙ receive-too_large (be32 n ++ rest)
          (record {
            buf = [];
            made = length ms;
            pushed = events_from clock counters client_address 0 ms;
            is_open = true;
          })
          (scan-too_large n rest large fits)
