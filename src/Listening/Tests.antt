-- ===== src/Listening/Tests.antt =====
-- A port that is free and a port that is taken.
use event_stream_core.Prelude.{
  ℕ, ◌≤◌, arith, ◌≡◌, refl, Bool, true, false, Option, none, some, List, [], ◌∷◌,
}
use event_stream_core.Listening.{
  opened, closed, TcpIngestServer, accepting, Network, testing, ended, new_server, start, Stretch,
  accepts, client_ends, stops, serve, serve_all, stop, lifetime,
}
use event_stream_core.Listening.Quiet.{count_opened, remaining, stops-quiet}
use event_stream_core.Listening.Start.{start_lem}
use event_stream_core.Listening.Descriptors.{IsBalanced, lifetime-IsBalanced}

abbrev listens : Option ℕ → Bool
listens none = false
listens (some _) = true

abbrev free_port : Network
free_port = record { socket = some 3; bind = λ _. true; listen = listens; listen_none = refl }

abbrev taken_port : Network
taken_port = record { socket = some 3; bind = λ _. false; listen = listens; listen_none = refl }

abbrev stretches : List Stretch
stretches =
    accepts none
    ∷ accepts (some 4)
    ∷ accepts none
    ∷ stops
    ∷ accepts (some 5)
    ∷ client_ends 0
    ∷ accepts none
    ∷ client_ends 0
    ∷ []

start_lem_example : start taken_port new_server ≡ (
  record { server_fd = none; is_running = true; accept_thread = testing; clients = [] },
  opened 3 ∷ closed 3 ∷ [],
)
start_lem_example = start_lem taken_port 3 new_server refl

lifetime_run : lifetime free_port stretches new_server ≡ (
  record { server_fd = none; is_running = false; accept_thread = ended; clients = [] },
  opened 3 ∷ opened 4 ∷ closed 3 ∷ opened 5 ∷ closed 4 ∷ closed 5 ∷ [],
)
unfolding lifetime start serve_all serve stop
lifetime_run = refl

-- The weight of a descriptor is the number itself.
lifetime-IsBalanced_example :
    IsBalanced (λ fd. fd) new_server (lifetime free_port stretches new_server)
lifetime-IsBalanced_example = lifetime-IsBalanced (λ fd. fd) free_port stretches new_server refl

-- `stop` comes while the thread is in `accept`.
abbrev in_accept : TcpIngestServer
in_accept = record {
  server_fd = some 3;
  is_running = true;
  accept_thread = accepting;
  clients = 4 ∷ [];
}

stops-quiet_example :
    let (last, calls) =
      serve_all (stops ∷ accepts (some 5) ∷ accepts none ∷ accepts (some 6) ∷ []) in_accept in
    (count_opened calls ≤ 1) × (remaining last.accept_thread ≡ 0)
stops-quiet_example =
    stops-quiet (accepts (some 5) ∷ accepts none ∷ accepts (some 6) ∷ []) in_accept (omega arith)
