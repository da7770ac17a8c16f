-- ===== src/Listening/Descriptors.antt =====
-- What is opened is closed once, or still held: `start`, `stop`, the thread that accepts and the
-- threads of the clients, in every order.
use event_stream_core.Prelude.{
  ℕ, zero, suc, ◌+◌, ◌≡◌, refl, ap, ◌&&◌, if◌then◌else◌, Bool, true, false, Option, none, some,
  List, [], ◌∷◌, ◌++◌, arith,
}
use event_stream_core.Listening.{
  SysCall, opened, closed, Network, AcceptThread, not_started, testing, accepting, ended,
  TcpIngestServer, close_fd, start_on, start, stop, accept_turn, remove_client, Stretch, accepts,
  client_ends, stops, serve, serve_all, lifetime,
}
use event_stream_core.Listening.Start.{on_socket}

module _ (w : ℕ → ℕ) where
  abbrev pub weigh_opened : List SysCall → ℕ
  weigh_opened [] = 0
  weigh_opened (opened fd ∷ calls) = w fd + weigh_opened calls
  weigh_opened (closed fd ∷ calls) = weigh_opened calls

  abbrev pub weigh_closed : List SysCall → ℕ
  weigh_closed [] = 0
  weigh_closed (opened fd ∷ calls) = weigh_closed calls
  weigh_closed (closed fd ∷ calls) = w fd + weigh_closed calls

  abbrev pub weigh_fd : Option ℕ → ℕ
  weigh_fd none = 0
  weigh_fd (some fd) = w fd

  abbrev pub weigh_fds : List ℕ → ℕ
  weigh_fds [] = 0
  weigh_fds (fd ∷ fds) = w fd + weigh_fds fds

  abbrev pub held : TcpIngestServer → ℕ
  held s = weigh_fd s.server_fd + weigh_fds s.clients

  -- A descriptor held before, or opened, is closed, or held behind.
  pub IsBalanced : TcpIngestServer → TcpIngestServer × List SysCall → Type 0
  IsBalanced s (s', calls) = weigh_opened calls + held s ≡ weigh_closed calls + held s'

  weigh_opened-append :
      (xs ys : List SysCall) → weigh_opened (xs ++ ys) ≡ weigh_opened xs + weigh_opened ys
  weigh_opened-append [] ys = omega arith
  weigh_opened-append (opened fd ∷ xs) ys = omega (arith, weigh_opened-append xs ys)
  weigh_opened-append (closed fd ∷ xs) ys = omega (arith, weigh_opened-append xs ys)

  weigh_closed-append :
      (xs ys : List SysCall) → weigh_closed (xs ++ ys) ≡ weigh_closed xs + weigh_closed ys
  weigh_closed-append [] ys = omega arith
  weigh_closed-append (opened fd ∷ xs) ys = omega (arith, weigh_closed-append xs ys)
  weigh_closed-append (closed fd ∷ xs) ys = omega (arith, weigh_closed-append xs ys)

  weigh_fds-append : (xs ys : List ℕ) → weigh_fds (xs ++ ys) ≡ weigh_fds xs + weigh_fds ys
  weigh_fds-append [] ys = omega arith
  weigh_fds-append (x ∷ xs) ys = omega (arith, weigh_fds-append xs ys)

  remove_client-weight :
      (i : ℕ) (fds : List ℕ)
      → weigh_opened ((remove_client i fds).1) + weigh_fds fds
        ≡ weigh_closed ((remove_client i fds).1) + weigh_fds ((remove_client i fds).0)
  remove_client-weight i [] = refl
  remove_client-weight zero (fd ∷ fds) = omega arith
  remove_client-weight (suc i) (fd ∷ fds) = omega (arith, remove_client-weight i fds)

  stop-IsBalanced : (s : TcpIngestServer) → IsBalanced s (stop s)
  unfolding stop IsBalanced
  stop-IsBalanced s = by_fd s.server_fd
    where
      by_fd :
          (fd : Option ℕ)
          → weigh_opened (close_fd fd) + (weigh_fd fd + weigh_fds s.clients)
            ≡ weigh_closed (close_fd fd) + (0 + weigh_fds s.clients)
      by_fd none = omega arith
      by_fd (some n) = omega arith

  accept_turn-IsBalanced :
      (t : AcceptThread) (result : Option ℕ) (s : TcpIngestServer)
      → IsBalanced s (accept_turn t result s)
  unfolding IsBalanced
  accept_turn-IsBalanced not_started result s = omega arith
  accept_turn-IsBalanced testing result s = omega arith
  accept_turn-IsBalanced accepting none s = omega arith
  accept_turn-IsBalanced accepting (some fd) s = omega (arith, weigh_fds-append s.clients (fd ∷ []))
  accept_turn-IsBalanced ended result s = omega arith

  serve-IsBalanced : (x : Stretch) (s : TcpIngestServer) → IsBalanced s (serve x s)
  unfolding serve IsBalanced
  serve-IsBalanced (accepts result) s = accept_turn-IsBalanced s.accept_thread result s
  serve-IsBalanced (client_ends i) s = omega (arith, remove_client-weight i s.clients)
  serve-IsBalanced stops s = stop-IsBalanced s

  serve_all-IsBalanced : (xs : List Stretch) (s : TcpIngestServer) → IsBalanced s (serve_all xs s)
  unfolding serve_all IsBalanced
  serve_all-IsBalanced [] s = refl
  serve_all-IsBalanced (x ∷ xs) s =
      let now = serve x s in
      let rest = serve_all xs now.0 in
      omega (
        arith,
        serve-IsBalanced x s,
        serve_all-IsBalanced xs now.0,
        weigh_opened-append now.1 rest.1,
        weigh_closed-append now.1 rest.1,
      )

  start_on-IsBalanced :
      (network : Network) (socket : Option ℕ) (s : TcpIngestServer)
      → s.server_fd ≡ none
      → IsBalanced s (start_on network socket s)
  unfolding IsBalanced
  start_on-IsBalanced network none s e = omega (arith, ap weigh_fd e)
  start_on-IsBalanced network (some fd) s e = omega (
    arith,
    ap weigh_fd e,
    ap (λ p. weigh_opened p.1) (on_socket network fd),
    ap (λ p. weigh_closed p.1 + weigh_fd p.0) (on_socket network fd),
    by_test (network.bind fd && network.listen (some fd)),
  )
    where
      by_test :
          (b : Bool)
          → let p : Option ℕ × List SysCall = if b then (some fd, []) else (none, closed fd ∷ []) in
            (weigh_opened p.1 ≡ 0) × (weigh_closed p.1 + weigh_fd p.0 ≡ w fd)
      by_test true = (refl, omega arith)
      by_test false = (refl, omega arith)

  -- From a server that has no socket, and after `start` and any sequence of `stop`, of turns of the
  -- thread that accepts and of ends of clients, each descriptor was opened as often as it was closed,
  -- plus once if the server or a client still holds it. For all weights of a descriptor this is
  -- stated at once.
  pub lifetime-IsBalanced :
      (network : Network) (xs : List Stretch) (s : TcpIngestServer)
      → s.server_fd ≡ none
      → IsBalanced s (lifetime network xs s)
  unfolding lifetime start IsBalanced
  lifetime-IsBalanced network xs s e =
      let first = start_on network network.socket s in
      let rest = serve_all xs first.0 in
      omega (
        arith,
        start_on-IsBalanced network network.socket s e,
        serve_all-IsBalanced xs first.0,
        weigh_opened-append first.1 rest.1,
        weigh_closed-append first.1 rest.1,
      )
