-- ===== src/Server/Refused.antt =====
-- Frames with a priority that does not exist: the thread drops them one by one.
use event_stream_core.Prelude.{
  ℕ, zero, suc, ◌+◌, ◌≤◌, ◌<◌, ◌≡◌, ◌≢◌, refl, ap, ◌∙◌, List, [], ◌∷◌, ◌++◌, All, flatten, map,
  length, Bytes, arith, length-append, err,
}
use event_stream_core.Parser.{be32, parse_tcp_frame, invalid_priority}
use event_stream_core.Parser.Guards.{parse_frame-cons}
use event_stream_core.Parser.RoundTrip.{parse_tcp_frame-be32}
use event_stream_core.Server.{
  Session, new_session, receive, handle_client, scan, take_frame, framed, max_buffer_size,
  push_parsed, drain,
}
use event_stream_core.Server.Drain.{drain-turn}
use event_stream_core.Server.Frames.{scan-front}
use event_stream_core.Server.Stream.{turns_of, handle_client-flatten}

-- Behind the length there is a header, with a priority above CRITICAL.
abbrev pub IsRefused : Bytes → Type 0
IsRefused (p ∷ h ∷ l ∷ rest) = (3 < p) × (3 + length rest ≤ max_buffer_size)
IsRefused _ = ⊥

-- A length and what it counts.
abbrev pub prefixed : Bytes → Bytes
prefixed body = be32 (length body) ++ body

parse_tcp_frame-prefixed :
    (body : Bytes) → IsRefused body → parse_tcp_frame (prefixed body) ≡ err invalid_priority
parse_tcp_frame-prefixed (p ∷ h ∷ l ∷ rest) (high, fits) =
    parse_tcp_frame-be32 (p ∷ h ∷ l ∷ rest) (omega arith)
    ∙ parse_frame-cons p h l rest
    ∙ ground arith
parse_tcp_frame-prefixed [] x = absurd x
parse_tcp_frame-prefixed (p ∷ []) x = absurd x
parse_tcp_frame-prefixed (p ∷ h ∷ []) x = absurd x

scan-prefixed :
    (body more : Bytes)
    → IsRefused body
    → scan (prefixed body ++ more) ≡ framed (prefixed body) more
scan-prefixed (p ∷ h ∷ l ∷ rest) more (high, fits) =
    scan-front (p ∷ h ∷ l ∷ rest) more (omega arith) (omega arith)
scan-prefixed [] more x = absurd x
scan-prefixed (p ∷ []) more x = absurd x
scan-prefixed (p ∷ h ∷ []) more x = absurd x

module _ (clock counters : ℕ → ℕ) (client_address : Bytes) where
  take_frame-prefixed :
      (body : Bytes) (s : Session)
      → IsRefused body
      → take_frame clock counters client_address (prefixed body) s ≡ s
  unfolding take_frame
  take_frame-prefixed body s refused =
      ap (push_parsed clock counters client_address s) (parse_tcp_frame-prefixed body refused)

  drain-prefixed :
      (n : ℕ) (bodies : List Bytes) (s : Session)
      → All IsRefused bodies
      → length (flatten (map prefixed bodies)) ≤ n
      → drain clock counters client_address n (record s { buf = flatten (map prefixed bodies) })
        ≡ record s { buf = [] }
  unfolding drain scan
  drain-prefixed zero [] s refused enough = refl
  drain-prefixed (suc n) [] s refused enough = refl
  drain-prefixed zero (b ∷ bs) s refused enough =
      absurd (omega (arith, length-append {0} (prefixed b) (flatten (map prefixed bs))))
  drain-prefixed (suc n) (b ∷ bs) s refused enough =
      let rest = flatten (map prefixed bs) in
      drain-turn clock counters client_address n (record s { buf = prefixed b ++ rest })
        (scan-prefixed b rest refused.0)
      ∙ ap (drain clock counters client_address n)
          (take_frame-prefixed b (record s { buf = rest }) refused.0)
      ∙ drain-prefixed n bs s refused.1
          (omega (arith, length-append {0} (prefixed b) (flatten (map prefixed bs))))

  -- However `recv` cuts them, frames with a priority that does not exist leave nothing behind.
  pub handle_client-prefixed :
      (bodies chunks : List Bytes)
      → All IsRefused bodies
      → All (λ c. c ≢ []) chunks
      → flatten chunks ≡ flatten (map prefixed bodies)
      → handle_client clock counters client_address (turns_of chunks) new_session ≡ new_session
  unfolding receive
  handle_client-prefixed bodies chunks refused ne e =
      handle_client-flatten clock counters client_address chunks ne
      ∙ ap (λ b. receive clock counters client_address b new_session) e
      ∙ drain-prefixed (length (flatten (map prefixed bodies))) bodies new_session refused
          (omega arith)
