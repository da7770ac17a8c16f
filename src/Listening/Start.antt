-- ===== src/Listening/Start.antt =====
-- What `start` leaves behind on each path.
use event_stream_core.Prelude.{
  ℕ, ◌≡◌, refl, ap, ◌∙◌, Bool, true, false, ◌&&◌, Option, none, some, List, [], ◌∷◌, if◌then◌else◌,
  Bool-cases, inl, inr,
}
use event_stream_core.Listening.{
  SysCall, opened, closed, Network, testing, TcpIngestServer, bind_and_listen, start_on, start,
}

pub on_socket :
    (network : Network) (fd : ℕ)
    → bind_and_listen network fd ≡ (
        if network.bind fd && network.listen (some fd)
        then (some fd, [])
        else (none, closed fd ∷ []))
on_socket network fd = elim (Bool-cases (network.bind fd)) [
  | inl bound ↦ elim (Bool-cases (network.listen (some fd))) [
    | inl up ↦ rw (bound, up) refl
    | inr down ↦ rw (bound, down) refl
  ]
  | inr free ↦ rw (free, network.listen_none) refl
]

-- The server that `start` leaves, for what came of `bind` and `listen`.
leave : TcpIngestServer → ℕ → Option ℕ × List SysCall → TcpIngestServer × List SysCall
leave s fd (listening, calls) = (
  record s { is_running = true; server_fd = listening; accept_thread = testing },
  opened fd ∷ calls,
)

leave-if :
    (s : TcpIngestServer) (fd : ℕ) (b : Bool)
    → leave s fd (if b then (some fd, []) else (none, closed fd ∷ [])) ≡ (
        if b
        then (
          record s { is_running = true; server_fd = some fd; accept_thread = testing },
          opened fd ∷ [],
        )
        else (
          record s { is_running = true; server_fd = none; accept_thread = testing },
          opened fd ∷ closed fd ∷ [],
        ))
unfolding leave
leave-if s fd true = refl
leave-if s fd false = refl

-- A call of `start` that gets a socket keeps it exactly if `bind` and `listen` succeed. Otherwise it
-- closes it, once, and goes on with the descriptor -1. On both paths the flag is up and the thread
-- that accepts is started.
pub start_lem :
    (network : Network) (fd : ℕ) (s : TcpIngestServer)
    → network.socket ≡ some fd
    → start network s ≡ (
        if network.bind fd && network.listen (some fd)
        then (
          record s { is_running = true; server_fd = some fd; accept_thread = testing },
          opened fd ∷ [],
        )
        else (
          record s { is_running = true; server_fd = none; accept_thread = testing },
          opened fd ∷ closed fd ∷ [],
        ))
unfolding start leave
start_lem network fd s e =
    ap (λ o. start_on network o s) e
    ∙ ap (leave s fd) (on_socket network fd)
    ∙ leave-if s fd (network.bind fd && network.listen (some fd))
