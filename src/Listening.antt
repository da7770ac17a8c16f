-- ===== src/Listening.antt =====
-- `TcpIngestServer` of include/ingest/tcpingest_server.hpp and src/ingest/tcpingest_server.cpp without
-- `handleClient`: `start`, `stop`, `acceptConnections`, and the descriptors that they and the client
-- threads open and close. A descriptor is a number, and -1 is `none`. What the system calls return
-- is an argument: `Network` for those of `start`, and the result of `accept` for each turn.
pub mod Start
pub mod Descriptors
pub mod Quiet
mod Tests
use event_stream_core.Prelude.{
  ℕ, zero, suc, ◌≡◌, Bool, true, false, not, ◌&&◌, Option, none, some, List, [], ◌∷◌, ◌++◌,
  if◌then◌else◌,
}

-- The calls that open and close descriptors, and the warnings of `start`.
pub data SysCall : Type 0 where
  opened : ℕ → SysCall  -- returned by `socket` or by `accept`
  closed : ℕ → SysCall  -- by `closeSocket`

pub record Network : Type 0 where
  pub socket : Option ℕ
  pub bind : ℕ → Bool
  pub listen : Option ℕ → Bool
  -- `listen` on -1 fails, with EBADF.
  pub listen_none : listen none ≡ false

pub data AcceptThread : Type 0 where
  not_started testing accepting ended : AcceptThread

pub record TcpIngestServer : Type 0 where
  pub server_fd : Option ℕ
  pub is_running : Bool
  pub accept_thread : AcceptThread
  pub clients : List ℕ  -- the descriptors of the client threads that run

abbrev pub new_server : TcpIngestServer
new_server = record {
  server_fd = none;
  is_running = false;
  accept_thread = not_started;
  clients = [];
}

-- `closeSocket(server_fd); server_fd = -1;`
abbrev pub close_fd : Option ℕ → List SysCall
close_fd none = []
close_fd (some fd) = closed fd ∷ []

-- A call of `bind` or `listen` whose failure closes the socket, and nothing else.
abbrev pub or_close : Bool → Option ℕ → Option ℕ × List SysCall
or_close true fd = (fd, [])
or_close false fd = (none, close_fd fd)

-- `start` behind the test of the socket, on a server whose accept thread is not there or has been
-- joined: assigning a thread to one that is still joinable ends the program.
abbrev pub bind_and_listen : Network → ℕ → Option ℕ × List SysCall
bind_and_listen network fd =
    let (bound, first) = or_close (network.bind fd) (some fd) in
    let (listening, second) = or_close (network.listen bound) bound in (listening, first ++ second)

abbrev pub start_on : Network → Option ℕ → TcpIngestServer → TcpIngestServer × List SysCall
start_on network none s = (record s { is_running = true; server_fd = none }, [])
start_on network (some fd) s =
    let (listening, calls) = bind_and_listen network fd in
    (
      record s { is_running = true; server_fd = listening; accept_thread = testing },
      opened fd ∷ calls,
    )

unfoldable pub start : Network → TcpIngestServer → TcpIngestServer × List SysCall
start network s = start_on network network.socket s

-- `stop` up to the joins.
unfoldable pub stop : TcpIngestServer → TcpIngestServer × List SysCall
stop s = (record s { is_running = false; server_fd = none }, close_fd s.server_fd)

-- What `accept` returned: a failure, or the descriptor of a client, which gets a thread.
abbrev pub on_accept : Option ℕ → TcpIngestServer → TcpIngestServer × List SysCall
on_accept none s = (s, [])
on_accept (some fd) s = (record s { clients = s.clients ++ fd ∷ [] }, opened fd ∷ [])

-- `acceptConnections` runs its test in one turn, and in the next it returns from `accept`.
abbrev pub accept_turn : AcceptThread → Option ℕ → TcpIngestServer → TcpIngestServer × List SysCall
accept_turn testing result s =
    (record s { accept_thread = if s.is_running then accepting else ended }, [])
accept_turn accepting result s = on_accept result (record s { accept_thread = testing })
accept_turn _ result s = (s, [])

-- The end of a client's thread, with its `closeSocket`.
abbrev pub remove_client : ℕ → List ℕ → List ℕ × List SysCall
remove_client i [] = ([], [])
remove_client zero (fd ∷ fds) = (fds, closed fd ∷ [])
remove_client (suc i) (fd ∷ fds) = let (rest, calls) = remove_client i fds in (fd ∷ rest, calls)

-- A stretch in which one thread runs alone.
pub data Stretch : Type 0 where
  accepts : Option ℕ → Stretch
  client_ends : ℕ → Stretch
  stops : Stretch

unfoldable pub serve : Stretch → TcpIngestServer → TcpIngestServer × List SysCall
unfolding stop
serve (accepts result) s = accept_turn s.accept_thread result s
serve (client_ends i) s =
    let (rest, calls) = remove_client i s.clients in (record s { clients = rest }, calls)
serve stops s = stop s

unfoldable pub serve_all : List Stretch → TcpIngestServer → TcpIngestServer × List SysCall
serve_all [] s = (s, [])
serve_all (x ∷ xs) s =
    let (s', calls) = serve x s in let (last, later) = serve_all xs s' in (last, calls ++ later)

-- `start`, and what follows.
unfoldable pub lifetime : Network → List Stretch → TcpIngestServer → TcpIngestServer × List SysCall
unfolding start
lifetime network xs s =
    let (started, first) = start network s in
    let (last, rest) = serve_all xs started in (last, first ++ rest)
