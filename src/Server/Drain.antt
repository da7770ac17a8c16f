-- ===== src/Server/Drain.antt =====
-- The inner loop: enough fuel, and bytes that come later.
use event_stream_core.Prelude.{
  ℕ, zero, suc, subst, ◌≤◌, ◌<◌, ◌≡◌, refl, ap, sym, ◌∙◌, true, [], ◌∷◌, ◌++◌, if◌then◌else◌,
  length, Option, none, some, Bytes, append_assoc, arith, length-append, Result, ok, err,
}
use event_stream_core.Event.{Event}
use event_stream_core.Parser.{ParsedResult, ParseError, parse_tcp_frame}
use event_stream_core.Server.{
  Found, incomplete, too_large, empty_frame, framed, scan, Session, push_created, push_parsed,
  take_frame, turn_on, drain, receive,
}
use event_stream_core.Server.Scan.{found-append, IsShorter, scan-IsShorter}

-- More bytes at the end of the buffer.
abbrev pub extend : Bytes → Session → Session
extend more s = record s { buf = s.buf ++ more }

pub empty_buf : (buf : Bytes) → length buf ≤ 0 → buf ≡ []
empty_buf [] h = refl
empty_buf (b ∷ bs) h = absurd (omega arith)

module _ (clock counters : ℕ → ℕ) (client_address : Bytes) where
  -- A frame changes neither the buffer nor whether the session is open, and reads neither.
  abbrev pub Leaves : (Session → Session) → Type 0
  Leaves f =
      (s : Session) (buf : Bytes)
      → ((f (record s { buf = buf })) ≡ record (f s) { buf = buf })
        × ((f s).buf ≡ s.buf)
        × ((f s).is_open ≡ s.is_open)

  push_created-Leaves :
      (o : Option (Event × ℕ)) → Leaves (λ s. push_created clock counters client_address s o)
  push_created-Leaves none s buf = (refl, refl, refl)
  push_created-Leaves (some (evt, counter)) s buf = (refl, refl, refl)

  push_parsed-Leaves :
      (r : Result ParseError ParsedResult)
      → Leaves (λ s. push_parsed clock counters client_address s r)
  push_parsed-Leaves (ok parsed) s buf = push_created-Leaves _ s buf
  push_parsed-Leaves (err e) s buf = (refl, refl, refl)

  pub take_frame-Leaves : (frame : Bytes) → Leaves (take_frame clock counters client_address frame)
  unfolding take_frame
  take_frame-Leaves frame = push_parsed-Leaves (parse_tcp_frame frame)

  abbrev run : ℕ → Session → Session
  run = drain clock counters client_address

  abbrev on : (Session → Session) → Session → Found → Session
  on = turn_on clock counters client_address

  pub drain-turn :
      (n : ℕ) (s : Session) {f : Found} → scan s.buf ≡ f → run (suc n) s ≡ on (run n) s f
  unfolding drain
  drain-turn n s e = ap (λ f. on (run n) s f) e

  pub drain-settled : (n : ℕ) (s : Session) → scan s.buf ≡ incomplete → run n s ≡ s
  unfolding drain
  drain-settled zero s e = refl
  drain-settled (suc n) s e = drain-turn n s e

  drain-empty : (n : ℕ) (s : Session) → length s.buf ≤ 0 → run n s ≡ s
  unfolding scan
  drain-empty n s h = drain-settled n s (ap scan (empty_buf s.buf h))

  turn_on-cong :
      (go go' : Session → Session) (s : Session) (f : Found)
      → IsShorter f s.buf
      → ((t : Session) → length t.buf < length s.buf → go t ≡ go' t)
      → on go s f ≡ on go' s f
  turn_on-cong go go' s incomplete h e = refl
  turn_on-cong go go' s too_large h e = refl
  turn_on-cong go go' s (empty_frame rest) h e = e _ h
  turn_on-cong go go' s (framed frame rest) h e =
      e _
        (omega (arith, ap (λ b. length b) (take_frame-Leaves frame (record s { buf = rest }) []).1))

  -- Fuel for every byte of the buffer is enough.
  pub drain-enough :
      (n m : ℕ) (s : Session) → length s.buf ≤ n → length s.buf ≤ m → run n s ≡ run m s
  drain-enough zero m s h k = drain-empty zero s h ∙ sym (drain-empty m s h)
  drain-enough (suc n) zero s h k = drain-empty (suc n) s k ∙ sym (drain-empty zero s k)
  drain-enough (suc n) (suc m) s h k =
      drain-turn n s refl
      ∙ turn_on-cong (run n) (run m) s (scan s.buf) (scan-IsShorter s.buf)
          (λ t l. drain-enough n m t (omega arith) (omega arith))
      ∙ sym (drain-turn m s refl)

  -- What the outer loop does with the next bytes: nothing, once it has returned.
  abbrev pub resume : Bytes → Session → Session
  resume more t = if t.is_open then receive clock counters client_address more t else t

  resume-open :
      (more : Bytes) (t : Session)
      → t.is_open ≡ true
      → resume more t ≡ receive clock counters client_address more t
  resume-open more t e = ap (λ b. if b then receive clock counters client_address more t else t) e

  receive-enough :
      (m : ℕ) (more : Bytes) (s : Session)
      → length (s.buf ++ more) ≤ m
      → run m (extend more s) ≡ receive clock counters client_address more s
  unfolding receive
  receive-enough m more s h =
      drain-enough m (length (s.buf ++ more)) (extend more s) h (omega arith)

  abbrev Extends : ℕ → Type 0
  Extends n =
      (m : ℕ) (s : Session) (more : Bytes)
      → length s.buf ≤ n
      → length (s.buf ++ more) ≤ m
      → s.is_open ≡ true
      → run m (extend more s) ≡ resume more (run n s)

  settled-Extends :
      (n m : ℕ) (s : Session) (more : Bytes)
      → scan s.buf ≡ incomplete
      → length (s.buf ++ more) ≤ m
      → s.is_open ≡ true
      → run m (extend more s) ≡ resume more (run n s)
  settled-Extends n m s more e k is_open =
      receive-enough m more s k
      ∙ sym (resume-open more s is_open)
      ∙ ap (resume more) (sym (drain-settled n s e))

  take_frame-extend :
      (frame rest more : Bytes) (s : Session)
      → take_frame clock counters client_address frame (record s { buf = rest ++ more })
        ≡ extend more (take_frame clock counters client_address frame (record s { buf = rest }))
  take_frame-extend frame rest more s =
      let leaves = take_frame-Leaves frame (record s { buf = rest }) (rest ++ more) in
      leaves.0
      ∙ ap
          (λ b. record (take_frame clock counters client_address frame (record s { buf = rest })) {
            buf = b ++ more;
          })
          (sym leaves.1)

  found-Extends :
      (n : ℕ)
      → Extends n
      → (m : ℕ) (s : Session) (more : Bytes) (f : Found) → scan s.buf ≡ f
      → length s.buf ≤ suc n
      → length (s.buf ++ more) ≤ suc m
      → s.is_open ≡ true
      → run (suc m) (extend more s) ≡ resume more (run (suc n) s)
  found-Extends n ih m s more incomplete e h k is_open =
      settled-Extends (suc n) (suc m) s more e k is_open
  found-Extends n ih m s more too_large e h k is_open =
      drain-turn m (extend more s) (found-append s.buf more too_large e tt)
      ∙ ap (resume more) (sym (drain-turn n s e))
  found-Extends n ih m s more (empty_frame rest) e h k is_open =
      let short : length rest < length s.buf =
        subst (λ f. IsShorter f s.buf) e (scan-IsShorter s.buf) in
      drain-turn m (extend more s) (found-append s.buf more (empty_frame rest) e tt)
      ∙ ih m (record s { buf = rest }) more (omega arith)
          (omega (arith, length-append {0} rest more, length-append {0} s.buf more)) is_open
      ∙ ap (resume more) (sym (drain-turn n s e))
  found-Extends n ih m s more (framed frame rest) e h k is_open =
      let short : length rest < length s.buf =
        subst (λ f. IsShorter f s.buf) e (scan-IsShorter s.buf) in
      let t = take_frame clock counters client_address frame (record s { buf = rest }) in
      let leaves = take_frame-Leaves frame (record s { buf = rest }) [] in
      let same : length t.buf ≡ length rest = ap (λ b. length b) leaves.1 in
      drain-turn m (extend more s) (found-append s.buf more (framed frame rest) e tt)
      ∙ ap (run m) (take_frame-extend frame rest more s)
      ∙ ih m t more (omega arith)
          (omega (arith, length-append {0} t.buf more, length-append {0} s.buf more))
          (leaves.2 ∙ is_open)
      ∙ ap (resume more) (sym (drain-turn n s e))

  drain-Extends : (n : ℕ) → Extends n
  unfolding scan
  drain-Extends zero m s more h k is_open =
      settled-Extends zero m s more (ap scan (empty_buf s.buf h)) k is_open
  drain-Extends (suc n) zero s more h k is_open =
      settled-Extends (suc n) zero s more
        (ap scan (empty_buf s.buf (omega (arith, length-append {0} s.buf more)))) k is_open
  drain-Extends (suc n) (suc m) s more h k is_open =
      found-Extends n (drain-Extends n) m s more (scan s.buf) refl h k is_open

  -- Two stretches of bytes that come one after the other do what they do together.
  pub receive-extend :
      (a b : Bytes) (s : Session)
      → s.is_open ≡ true
      → receive clock counters client_address (a ++ b) s
        ≡ resume b (receive clock counters client_address a s)
  unfolding receive
  receive-extend a b s is_open =
      ap (λ buf. run (length buf) (record s { buf = buf })) (sym (append_assoc s.buf a b))
      ∙ drain-Extends (length (s.buf ++ a)) (length ((s.buf ++ a) ++ b)) (extend a s) b
          (omega arith) (omega arith) is_open
