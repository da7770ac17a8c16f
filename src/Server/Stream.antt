-- ===== src/Server/Stream.antt =====
-- The outer loop on the bytes of a connection, however `recv` cuts them.
use event_stream_core.Prelude.{
  ℕ, ◌≡◌, ◌≢◌, refl, ap, sym, ◌∙◌, Bool, true, List, [], ◌∷◌, ◌++◌, All, flatten, if◌then◌else◌,
  Bytes, append-nil, inl, inr, Bool-cases,
}
use event_stream_core.Server.{Session, new_session, receive, turn, handle_client, drain}
use event_stream_core.Server.Drain.{resume, receive-extend}

-- `recv` returned these bytes, one call after the other.
abbrev pub turns_of : List Bytes → List (Bool × Bytes)
turns_of [] = []
turns_of (c ∷ cs) = (true, c) ∷ turns_of cs

module _ (clock counters : ℕ → ℕ) (client_address : Bytes) where
  abbrev got : Bytes → Session → Session
  got = receive clock counters client_address

  abbrev handle : List (Bool × Bytes) → Session → Session
  handle = handle_client clock counters client_address

  abbrev resumed : Bytes → Session → Session
  resumed = resume clock counters client_address

  turn-receive :
      (c : Bytes) (s : Session) → c ≢ [] → turn clock counters client_address true c s ≡ got c s
  turn-receive [] s ne = absurd (ne refl)
  turn-receive (b ∷ bs) s ne = refl

  resume-receive :
      (a b : Bytes) (s : Session)
      → (if s.is_open then resumed b (got a s) else s) ≡ resumed (a ++ b) s
  resume-receive a b s = elim (Bool-cases s.is_open) [
    | inl e ↦
        ap (λ o. if o then resumed b (got a s) else s) e
        ∙ sym (receive-extend clock counters client_address a b s e)
        ∙ ap (λ o. if o then got (a ++ b) s else s) (sym e)
    | inr e ↦
        ap (λ o. if o then resumed b (got a s) else s) e
        ∙ ap (λ o. if o then got (a ++ b) s else s) (sym e)
  ]

  handle_client-resume :
      (c : Bytes) (cs : List Bytes) (s : Session)
      → All (λ c. c ≢ []) (c ∷ cs)
      → handle (turns_of (c ∷ cs)) s ≡ resumed (flatten (c ∷ cs)) s
  unfolding handle_client
  handle_client-resume c [] s (ne, _) =
      ap (λ t. if s.is_open then t else s)
        (turn-receive c s ne ∙ ap (λ b. got b s) (sym (append-nil c)))
  handle_client-resume c (d ∷ ds) s (ne, nes) =
      ap (λ t. if s.is_open then handle (turns_of (d ∷ ds)) t else s) (turn-receive c s ne)
      ∙ ap (λ t. if s.is_open then t else s) (handle_client-resume d ds (got c s) nes)
      ∙ resume-receive c (flatten (d ∷ ds)) s

  -- However the bytes of a connection are cut into non-empty chunks, as `recv` does, the thread is
  -- where it would be had it got them all at once.
  pub handle_client-flatten :
      (chunks : List Bytes)
      → All (λ c. c ≢ []) chunks
      → handle_client clock counters client_address (turns_of chunks) new_session
        ≡ receive clock counters client_address (flatten chunks) new_session
  unfolding handle_client receive drain
  handle_client-flatten [] ne = refl
  handle_client-flatten (c ∷ cs) ne = handle_client-resume c cs new_session ne
