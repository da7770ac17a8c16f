-- ===== src/Parser/Guards.antt =====
-- What the parser does on each frame: the guards of `parseFrame` in one ladder, over the three
-- header bytes and the rest of the body.
use event_stream_core.Prelude.{
  ℕ, zero, suc, ◌+◌, ◌*◌, ◌≤◌, ◌<◌, List, [], ◌∷◌, ◌≡◌, ◌≢◌, refl, sym, ◌∙◌, ltb, ◌==◌,
  if◌then◌else◌, length, take, drop, Bytes, Result, ok, err, arith,
}
use event_stream_core.Parser.{
  ParseError, ParsedResult, body_too_small, invalid_priority, topic_too_long, zero_topic,
  no_frame_length, length_mismatch, out_of_bounds, priority_of, parse_frame, parse_tcp_frame,
}

abbrev pub header_ladder : ℕ → ℕ → Bytes → Result ParseError ParsedResult
header_ladder p n rest =
    if ltb 3 p
    then err invalid_priority
    else if ltb (length rest) n
    then err topic_too_long
    else if n == 0
    then err zero_topic
    else ok (record { priority = priority_of p; topic = take n rest; payload = drop n rest })

drop_all {ℓ} : {A : Type ℓ} (n : ℕ) (xs : List A) → length xs ≤ n → drop n xs ≡ []
drop_all zero [] h = refl
drop_all zero (x ∷ xs) h = absurd (omega arith)
drop_all (suc n) [] h = refl
drop_all (suc n) (x ∷ xs) h = drop_all n xs (omega arith)

drop_three : (n a b c : ℕ) (rest : Bytes) → drop (3 + n) (a ∷ b ∷ c ∷ rest) ≡ drop n rest
drop_three n a b c rest = let e : 3 + n ≡ suc (suc (suc n)) = omega arith in rw e

pub parse_frame-cons :
    (p h l : ℕ) (rest : Bytes) → parse_frame (p ∷ h ∷ l ∷ rest) ≡ header_ladder p (h * 256 + l) rest
unfolding parse_frame
parse_frame-cons p h l rest =
    ground (arith, drop_three (h * 256 + l) p h l rest, drop_all (h * 256 + l) rest)

-- A body of fewer than three bytes.
pub parse_frame_short : (body : Bytes) → length body < 3 → parse_frame body ≡ err body_too_small
unfolding parse_frame
parse_frame_short body h = ground arith

pub parse_tcp_frame-cons :
    (a b c d : ℕ) (body : Bytes)
    → parse_tcp_frame (a ∷ b ∷ c ∷ d ∷ body) ≡ (
        if ((a * 256 + b) * 256 + c) * 256 + d == length body
        then parse_frame body
        else err length_mismatch)
unfolding parse_tcp_frame
parse_tcp_frame-cons a b c d body = ground arith

pub parse_tcp_frame_short : (f : Bytes) → length f < 4 → parse_tcp_frame f ≡ err no_frame_length
unfolding parse_tcp_frame
parse_tcp_frame_short f h = ground arith

header_ladder-in_bounds : (p n : ℕ) (rest : Bytes) → header_ladder p n rest ≢ err out_of_bounds
header_ladder-in_bounds p n rest h = ground arith

parse_frame-in_bounds : (body : Bytes) → parse_frame body ≢ err out_of_bounds
parse_frame-in_bounds (p ∷ h ∷ l ∷ rest) e =
    header_ladder-in_bounds p (h * 256 + l) rest (sym (parse_frame-cons p h l rest) ∙ e)
parse_frame-in_bounds body e = cc (parse_frame_short body (omega arith))

-- The guards come before the reads they protect: on no input, of any length and with any declared
-- lengths in it, does the parser read outside the frame.
pub parse_tcp_frame-in_bounds : (frame : Bytes) → parse_tcp_frame frame ≢ err out_of_bounds
parse_tcp_frame-in_bounds (a ∷ b ∷ c ∷ d ∷ body) e =
    ground (arith, parse_tcp_frame-cons a b c d body, parse_frame-in_bounds body)
parse_tcp_frame-in_bounds frame e = cc (parse_tcp_frame_short frame (omega arith))
