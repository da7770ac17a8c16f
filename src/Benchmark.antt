-- ===== src/Benchmark.antt =====
-- `TCPLoadGenerator` of src/benchmark/benchmark.cpp: the frames that its clients send, and what they
-- count. The socket is a parameter: whether `socket` and `connect` succeed, how many bytes the call of
-- `send` with a number takes, none for an error, and `std::to_string`.
pub mod Writes
pub mod Left
pub mod Numbered
pub mod Outcomes
pub mod Written
pub mod Latencies
pub mod Options
pub mod Rejected
mod Tests
use event_stream_core.Prelude.{
  ℕ, zero, suc, ◌+◌, Bool, true, false, Option, none, some, List, [], ◌∷◌, ◌++◌, ◌==◌,
  if◌then◌else◌, length, take, Bytes,
}
use event_stream_core.Parser.{be32}

pub record Network : Type 0 where
  pub socket : Bool
  pub connect : Bool
  pub send : ℕ → Bytes → Option ℕ
  pub to_string : ℕ → Bytes

-- The counters that the clients share, and this client's connection: the calls of `send`, and the
-- bytes that they took.
pub record Client : Type 0 where
  pub messages_sent : ℕ
  pub errors : ℕ
  pub calls : ℕ
  pub wire : Bytes

abbrev pub new_client : Client
new_client = record { messages_sent = 0; errors = 0; calls = 0; wire = [] }

-- "benchmark_topic"
abbrev pub benchmark_topic : Bytes
benchmark_topic =
    b'b' ∷ b'e' ∷ b'n' ∷ b'c' ∷ b'h' ∷ b'm' ∷ b'a' ∷ b'r' ∷ b'k' ∷ b'_' ∷ b't' ∷ b'o' ∷ b'p' ∷ b'i'
    ∷ b'c' ∷ []

-- "client_"
abbrev pub client_prefix : Bytes
client_prefix = b'c' ∷ b'l' ∷ b'i' ∷ b'e' ∷ b'n' ∷ b't' ∷ b'_' ∷ []

-- "_msg_"
abbrev pub msg_infix : Bytes
msg_infix = b'_' ∷ b'm' ∷ b's' ∷ b'g' ∷ b'_' ∷ []

module _ (network : Network) where
  abbrev pub took : Bytes → Client → Option ℕ → Client × Bool
  took bytes c none = (record c { calls = suc c.calls }, false)
  took bytes c (some n) =
      (record c { calls = suc c.calls; wire = c.wire ++ take n bytes }, n == length bytes)

  -- A call of `send`, and the test that it took all the bytes.
  unfoldable pub send_part : Bytes → Client → Client × Bool
  send_part bytes c = took bytes c (network.send c.calls bytes)

  -- `if (...) return false;`
  abbrev pub or_false : Client × Bool → (Client → Client × Bool) → Client × Bool
  or_false (c, true) rest = rest c
  or_false (c, false) rest = (c, false)

  unfoldable pub send_frame : Bytes → Bytes → Client → Client × Bool
  send_frame topic payload c = or_false (send_part (be32 (length topic)) c) (λ c₁.
      or_false (send_part topic c₁)
        (λ c₂. or_false (send_part (be32 (length payload)) c₂) (λ c₃. send_part payload c₃)))

  abbrev pub payload_of : ℕ → ℕ → Bytes
  payload_of i j = client_prefix ++ network.to_string i ++ msg_infix ++ network.to_string j

  abbrev pub count : Client × Bool → Client
  count (c, true) = record c { messages_sent = suc c.messages_sent }
  count (c, false) = record c { errors = suc c.errors }

  -- The loop over the messages from number `j` on.
  unfoldable pub send_messages : ℕ → ℕ → ℕ → Client → Client
  send_messages zero i j c = c
  send_messages (suc n) i j c =
      send_messages n i (suc j) (count (send_frame benchmark_topic (payload_of i j) c))

  -- The thread of client `i`.
  unfoldable pub run_client : ℕ → ℕ → Client → Client
  run_client messages_per_client i c =
      if network.socket
      then (if network.connect
          then send_messages messages_per_client i 0 c
          else record c { errors = suc c.errors })
      else record c { errors = suc c.errors }
