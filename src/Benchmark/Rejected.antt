-- ===== src/Benchmark/Rejected.antt =====
-- The frames of the load generator, at the server.
use event_stream_core.Prelude.{
  ℕ, zero, suc, ◌+◌, ◌≤◌, ◌≡◌, ◌≢◌, refl, sym, ap, subst, ◌∙◌, true, List, [], ◌∷◌, ◌++◌, All,
  flatten, map, length, Bytes, some, arith, append_assoc, append-nil, length-append, take-length,
  Bool, ==_iff,
}
use event_stream_core.Parser.{be32}
use event_stream_core.Server.{new_session, handle_client}
use event_stream_core.Server.Refused.{IsRefused, prefixed, handle_client-prefixed}
use event_stream_core.Server.Stream.{turns_of}
use event_stream_core.Benchmark.{
  Network, Client, new_client, send_part, or_false, send_frame, payload_of, benchmark_topic,
  msg_infix, count, send_messages, run_client,
}

module _ (network : Network) where
  -- What follows the bytes `b`, all of them taken by `n` calls.
  abbrev after : Bytes → Client → Client
  after b c = record c { calls = suc c.calls; wire = c.wire ++ b }

  abbrev bodies : ℕ → ℕ → ℕ → List Bytes
  bodies zero i j = []
  bodies (suc n) i j = benchmark_topic ∷ payload_of network i j ∷ bodies n i (suc j)

  module _ (takes_all : (k : ℕ) (b : Bytes) → network.send k b ≡ some (length b)) where
    send_part-whole : (b : Bytes) (c : Client) → send_part network b c ≡ (after b c, true)
    unfolding send_part
    send_part-whole b c =
        rw (takes_all c.calls b, take-length b, (==_iff (length b) (length b)).1 refl) refl

    or_false-whole :
        (b : Bytes) (c : Client) (rest : Client → Client × Bool)
        → or_false network (send_part network b c) rest ≡ rest (after b c)
    or_false-whole b c rest = ap (λ r. or_false network r rest) (send_part-whole b c)

    after_frame : Bytes → Bytes → Client → Client
    after_frame topic payload c =
        after payload (after (be32 (length payload)) (after topic (after (be32 (length topic)) c)))

    send_frame-whole :
        (topic payload : Bytes) (c : Client)
        → send_frame network topic payload c ≡ (after_frame topic payload c, true)
    unfolding send_frame after_frame
    send_frame-whole topic payload c =
        or_false-whole (be32 (length topic)) c _
        ∙ or_false-whole topic _ _
        ∙ or_false-whole (be32 (length payload)) _ _
        ∙ send_part-whole payload _

    regroup :
        (w a t b p rest : Bytes)
        → ((((w ++ a) ++ t) ++ b) ++ p) ++ rest ≡ w ++ ((a ++ t) ++ ((b ++ p) ++ rest))
    regroup w a t b p rest = simp (append_assoc) refl

    sent_one : Bytes → Bytes → Client → Client
    sent_one topic payload c = record (after_frame topic payload c) {
      messages_sent = suc c.messages_sent;
    }

    count-send_frame :
        (topic payload : Bytes) (c : Client)
        → count network (send_frame network topic payload c) ≡ sent_one topic payload c
    unfolding sent_one after_frame
    count-send_frame topic payload c = ap (count network) (send_frame-whole topic payload c)

    -- What was sent and counted from `c` to `d`.
    Sends : ℕ → List Bytes → Client → Client → Type 0
    Sends n frames c d =
        (d.messages_sent ≡ n + c.messages_sent)
        × (d.errors ≡ c.errors)
        × (d.wire ≡ c.wire ++ flatten (map prefixed frames))

    nothing_sent : (c : Client) → Sends 0 [] c c
    unfolding Sends
    nothing_sent c = (omega arith, refl, sym (append-nil c.wire))

    Sends-cons :
        (n : ℕ) (frames : List Bytes) (topic payload : Bytes) (c d : Client)
        → Sends n frames (sent_one topic payload c) d
        → Sends (suc n) (topic ∷ payload ∷ frames) c d
    unfolding Sends sent_one after_frame
    Sends-cons n frames topic payload c d (m, e, w) = (
      omega (arith, m),
      e,
      w
          ∙ regroup c.wire (be32 (length topic)) topic (be32 (length payload)) payload
              (flatten (map prefixed frames)),
    )

    send_messages-Sends :
        (n i j : ℕ) (c : Client) → Sends n (bodies n i j) c (send_messages network n i j c)
    unfolding send_messages
    send_messages-Sends zero i j c = nothing_sent c
    send_messages-Sends (suc n) i j c =
        subst (λ d. Sends (suc n) (bodies (suc n) i j) c (send_messages network n i (suc j) d))
          (sym (count-send_frame benchmark_topic (payload_of network i j) c))
          (Sends-cons n (bodies n i (suc j)) benchmark_topic (payload_of network i j) c _
            (send_messages-Sends n i (suc j) _))

    bodies-IsRefused :
        ((k : ℕ) → length (network.to_string k) ≤ 20) → (n i j : ℕ) → All IsRefused (bodies n i j)
    bodies-IsRefused short zero i j = tt
    bodies-IsRefused short (suc n) i j = (
      (omega arith, omega arith),
      (
        (
          omega arith,
          omega (
            arith,
            length-append {0} (network.to_string i ++ msg_infix) (network.to_string j),
            length-append {0} (network.to_string i) msg_infix,
            short i,
            short j,
          ),
        ),
        bodies-IsRefused short n i (suc j),
      ),
    )

    -- A client of the load generator that gets its connection, and whose calls of `send` take all the
    -- bytes, counts every message as sent, and no error. However `recv` cuts its bytes, the server
    -- makes no event of them: it drops both halves of every message, and waits with an empty buffer.
    pub run_client-rejected :
        (n i : ℕ) (chunks : List Bytes) (clock counters : ℕ → ℕ) (client_address : Bytes)
        → network.socket ≡ true
        → network.connect ≡ true
        → ((k : ℕ) → length (network.to_string k) ≤ 20)
        → All (λ c. c ≢ []) chunks
        → flatten chunks ≡ (run_client network n i new_client).wire
        → ((run_client network n i new_client).messages_sent ≡ n)
          × ((run_client network n i new_client).errors ≡ 0)
          × (handle_client clock counters client_address (turns_of chunks) new_session
              ≡ new_session)
    unfolding run_client Sends
    run_client-rejected n i chunks clock counters client_address up connected short ne e =
        let same : run_client network n i new_client ≡ send_messages network n i 0 new_client =
          rw (up, connected) refl in
        let (m, no_error, w) =
          subst (λ d. Sends n (bodies n i 0) new_client d) (sym same)
            (send_messages-Sends n i 0 new_client) in
        (
          m ∙ omega arith,
          no_error,
          handle_client-prefixed clock counters client_address (bodies n i 0) chunks
              (bodies-IsRefused short n i 0) ne (e ∙ w),
        )
