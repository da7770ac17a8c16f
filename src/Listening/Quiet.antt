-- ===== src/Listening/Quiet.antt =====
-- What the thread that accepts does when the flag is down.
use event_stream_core.Prelude.{
  ℕ, zero, suc, ◌+◌, ◌-◌, ◌≤◌, ◌≡◌, refl, ap, Bool, false, Option, none, some, List, [], ◌∷◌, ◌++◌,
  if◌then◌else◌, arith,
}
use event_stream_core.Listening.{
  SysCall, opened, closed, AcceptThread, not_started, testing, accepting, ended, TcpIngestServer,
  close_fd, stop, accept_turn, remove_client, Stretch, accepts, client_ends, stops, serve,
  serve_all,
}

abbrev pub count_opened : List SysCall → ℕ
count_opened [] = 0
count_opened (opened fd ∷ calls) = 1 + count_opened calls
count_opened (closed fd ∷ calls) = count_opened calls

-- The calls of `accept` that the thread is in.
abbrev pub pending : AcceptThread → ℕ
pending accepting = 1
pending _ = 0

-- The turns that the thread needs before `stop` can join it.
abbrev pub remaining : AcceptThread → ℕ
remaining testing = 1
remaining accepting = 2
remaining _ = 0

abbrev pub turns : List Stretch → ℕ
turns [] = 0
turns (accepts _ ∷ xs) = 1 + turns xs
turns (_ ∷ xs) = turns xs

pub IsQuiet : ℕ → TcpIngestServer → TcpIngestServer × List SysCall → Type 0
IsQuiet n s (s', calls) =
    (s'.is_running ≡ false)
    × (count_opened calls + pending s'.accept_thread ≤ pending s.accept_thread)
    × (remaining s'.accept_thread ≡ remaining s.accept_thread - n)

count_opened-append :
    (xs ys : List SysCall) → count_opened (xs ++ ys) ≡ count_opened xs + count_opened ys
count_opened-append [] ys = omega arith
count_opened-append (opened fd ∷ xs) ys = omega (arith, count_opened-append xs ys)
count_opened-append (closed fd ∷ xs) ys = omega (arith, count_opened-append xs ys)

count_opened-close_fd : (fd : Option ℕ) → count_opened (close_fd fd) ≡ 0
count_opened-close_fd none = refl
count_opened-close_fd (some fd) = refl

count_opened-remove_client : (i : ℕ) (fds : List ℕ) → count_opened ((remove_client i fds).1) ≡ 0
count_opened-remove_client i [] = refl
count_opened-remove_client zero (fd ∷ fds) = refl
count_opened-remove_client (suc i) (fd ∷ fds) = count_opened-remove_client i fds

test_down : (b : Bool) → b ≡ false → (if b then accepting else ended) ≡ ended
test_down b e = rw e refl

accept_turn-IsQuiet :
    (t : AcceptThread) (result : Option ℕ) (s : TcpIngestServer)
    → s.is_running ≡ false
    → s.accept_thread ≡ t
    → IsQuiet 1 s (accept_turn t result s)
unfolding IsQuiet
accept_turn-IsQuiet not_started result s down at =
    (down, omega (arith, ap pending at), omega (arith, ap remaining at))
accept_turn-IsQuiet testing result s down at =
    let over = test_down s.is_running down in
    (
      down,
      omega (arith, ap pending over, ap pending at),
      omega (arith, ap remaining over, ap remaining at),
    )
accept_turn-IsQuiet accepting none s down at =
    (down, omega (arith, ap pending at), omega (arith, ap remaining at))
accept_turn-IsQuiet accepting (some fd) s down at =
    (down, omega (arith, ap pending at), omega (arith, ap remaining at))
accept_turn-IsQuiet ended result s down at =
    (down, omega (arith, ap pending at), omega (arith, ap remaining at))

serve-IsQuiet :
    (x : Stretch) (s : TcpIngestServer)
    → s.is_running ≡ false
    → IsQuiet (turns (x ∷ [])) s (serve x s)
unfolding serve stop IsQuiet
serve-IsQuiet (accepts result) s down = accept_turn-IsQuiet s.accept_thread result s down refl
serve-IsQuiet (client_ends i) s down =
    (down, omega (arith, count_opened-remove_client i s.clients), omega arith)
serve-IsQuiet stops s down = (refl, omega (arith, count_opened-close_fd s.server_fd), omega arith)

turns-cons : (x : Stretch) (xs : List Stretch) → turns (x ∷ xs) ≡ turns (x ∷ []) + turns xs
turns-cons (accepts _) xs = omega arith
turns-cons (client_ends _) xs = omega arith
turns-cons stops xs = omega arith

serve_all-IsQuiet :
    (xs : List Stretch) (s : TcpIngestServer)
    → s.is_running ≡ false
    → IsQuiet (turns xs) s (serve_all xs s)
unfolding serve_all IsQuiet
serve_all-IsQuiet [] s down = (down, omega arith, omega arith)
serve_all-IsQuiet (x ∷ xs) s down =
    let now = serve x s in
    let (down', few, left) = serve-IsQuiet x s down in
    let (down'', fewer, left') = serve_all-IsQuiet xs now.0 down' in
    (
      down'',
      omega (arith, few, fewer, count_opened-append now.1 (serve_all xs now.0).1),
      omega (arith, left, left', turns-cons x xs),
    )

remaining_le : (t : AcceptThread) → remaining t ≤ 2
remaining_le not_started = omega arith
remaining_le testing = omega arith
remaining_le accepting = omega arith
remaining_le ended = omega arith

-- When `stop` has set the flag, the server opens at most one descriptor more, and that only if the
-- thread is in `accept` already. If `accept` returns and the thread gets another turn, it is over, so
-- that `stop` can join it.
pub stops-quiet :
    (xs : List Stretch) (s : TcpIngestServer)
    → 2 ≤ turns xs
    → let (last, calls) = serve_all (stops ∷ xs) s in
      (count_opened calls ≤ pending s.accept_thread) × (remaining last.accept_thread ≡ 0)
unfolding serve_all serve stop IsQuiet
stops-quiet xs s enough =
    let now = serve stops s in
    let (down, few, left) = serve_all-IsQuiet xs now.0 refl in
    (
      omega (
        arith,
        few,
        count_opened-close_fd s.server_fd,
        count_opened-append now.1 (serve_all xs now.0).1,
      ),
      omega (arith, left, enough, remaining_le s.accept_thread),
    )
