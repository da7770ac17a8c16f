-- ===== src/Parser/RoundTrip.antt =====
-- The parser against the client's `make_frame` (test.py).
use event_stream_core.Prelude.{
  ℕ, ◌+◌, ◌*◌, ◌/◌, ◌%◌, ◌^◌, ◌≤◌, ◌<◌, [], ◌∷◌, ◌++◌, ◌≡◌, ◌≢◌, refl, sym, ◌∙◌, ap₂, some, ap,
  Bool, true, false, ==_iff, if◌then◌else◌, length, All, Bytes, IsByte, Result, ok, err, arith,
  length-append, take-append, drop-append, take-append-drop, length-take,
}
use event_stream_core.Event.{priority_code}
use event_stream_core.Parser.{
  ParseError, length_mismatch, ParsedResult, priority_of, parse_frame, parse_tcp_frame, be16, be32,
  make_frame,
}
use event_stream_core.Parser.Guards.{
  header_ladder, parse_frame-cons, parse_frame_short, parse_tcp_frame-cons, parse_tcp_frame_short,
}

header_ladder-append :
    (p : ℕ) (topic payload : Bytes)
    → p ≤ 3
    → topic ≢ []
    → header_ladder p (length topic) (topic ++ payload)
      ≡ ok (record { priority = priority_of p; topic = topic; payload = payload })
header_ladder-append p [] payload h ne = absurd (ne refl)
header_ladder-append p (t ∷ ts) payload h ne = ground (
  arith,
  length-append {0} (t ∷ ts) payload,
  take-append {0} (t ∷ ts) payload,
  drop-append {0} (t ∷ ts) payload,
)

-- The fields behind the length, in the order in which they are sent.
abbrev pub body_of : Bytes → Bytes → ℕ → Bytes
body_of topic payload p = p ∷ (be16 (length topic) ++ topic ++ payload)

pub length-body_of :
    (topic payload : Bytes) (p : ℕ)
    → length (body_of topic payload p) ≡ 3 + (length topic + length payload)
length-body_of topic payload p = omega (arith, length-append {0} topic payload)

parse_frame-body_of :
    (topic payload : Bytes) (p : ℕ)
    → length topic < 2 ^ 16
    → p ≤ 3
    → topic ≢ []
    → parse_frame (body_of topic payload p)
      ≡ ok (record { priority = priority_of p; topic = topic; payload = payload })
parse_frame-body_of topic payload p small h ne =
    let n : length topic / 256 % 256 * 256 + length topic % 256 ≡ length topic = omega arith in
    parse_frame-cons p _ _ (topic ++ payload) ∙ rw n (header_ladder-append p topic payload h ne)

make_frame-inv :
    (topic payload : Bytes) (p : ℕ) {frame : Bytes}
    → make_frame topic payload p ≡ some frame
    → (length topic < 2 ^ 16)
      × (length (body_of topic payload p) < 2 ^ 32)
      × (frame ≡ be32 (length (body_of topic payload p)) ++ body_of topic payload p)
unfolding make_frame
make_frame-inv topic payload p e = ground (arith, length-body_of topic payload p)

pub be32_value :
    (n : ℕ)
    → n < 2 ^ 32
    → ((n / 2 ^ 24 % 256 * 256 + n / 2 ^ 16 % 256) * 256 + n / 256 % 256) * 256 + n % 256 ≡ n
be32_value n h = omega arith

pub parse_tcp_frame-be32 :
    (body : Bytes)
    → length body < 2 ^ 32
    → parse_tcp_frame (be32 (length body) ++ body) ≡ parse_frame body
parse_tcp_frame-be32 body h =
    parse_tcp_frame-cons _ _ _ _ body
    ∙ rw (be32_value (length body) h, (==_iff (length body) (length body)).1 refl)

-- A frame that the client builds for a non-empty topic and one of the four priorities is parsed to
-- the priority, the topic and the payload that went into it.
pub parse_tcp_frame-make_frame :
    (topic payload : Bytes) (p : ℕ) {frame : Bytes}
    → make_frame topic payload p ≡ some frame
    → p ≤ 3
    → topic ≢ []
    → parse_tcp_frame frame
      ≡ ok (record { priority = priority_of p; topic = topic; payload = payload })
parse_tcp_frame-make_frame topic payload p e h ne =
    let (small, fits, is_frame) = make_frame-inv topic payload p e in
    rw is_frame (
      parse_tcp_frame-be32 (body_of topic payload p) fits
      ∙ parse_frame-body_of topic payload p small h ne)

header_ladder-inv :
    (p h l : ℕ) (rest : Bytes) {r : ParsedResult}
    → header_ladder p (h * 256 + l) rest ≡ ok r
    → (priority_code r.priority ≡ p)
      × (length r.topic ≡ h * 256 + l)
      × (r.topic ++ r.payload ≡ rest)
      × (r.topic ≢ [])
header_ladder-inv p h l rest e =
    ground (arith, take-append-drop {0} (h * 256 + l) rest, length-take {0} (h * 256 + l) rest)

parse_frame-inv :
    (body : Bytes) {r : ParsedResult}
    → All IsByte body
    → parse_frame body ≡ ok r
    → (length r.topic < 2 ^ 16)
      × (body_of r.topic r.payload (priority_code r.priority) ≡ body)
      × (r.topic ≢ [])
parse_frame-inv (p ∷ h ∷ l ∷ rest) {r} (_, (hb, (lb, _))) e =
    let (code, n, parts, ne) =
      header_ladder-inv p h l rest (sym (parse_frame-cons p h l rest) ∙ e) in
    let hi : length r.topic / 256 % 256 ≡ h = omega arith in
    let lo : length r.topic % 256 ≡ l = omega arith in
    (omega arith, ap₂ (λ c t. c ∷ t) code (ap₂ (λ c t. c ∷ t) hi (ap₂ (λ c t. c ∷ t) lo parts)), ne)
parse_frame-inv body b e = cc (parse_frame_short body (omega arith))

length_digits :
    (n a b c d : ℕ)
    → (a < 256) × (b < 256) × (c < 256) × (d < 256)
    → ((a * 256 + b) * 256 + c) * 256 + d ≡ n
    → (be32 n ≡ a ∷ b ∷ c ∷ d ∷ []) × (n < 2 ^ 32)
length_digits n a b c d h e = (ground arith, omega arith)

pub make_frame-body_of :
    (topic payload : Bytes) (p : ℕ)
    → length topic < 2 ^ 16
    → length (body_of topic payload p) < 2 ^ 32
    → p < 256
    → make_frame topic payload p
      ≡ some (be32 (length (body_of topic payload p)) ++ body_of topic payload p)
unfolding make_frame
make_frame-body_of topic payload p small fits byte = ground (arith, length-body_of topic payload p)

if_ok :
    (b : Bool) {m : Result ParseError ParsedResult} {r : ParsedResult}
    → (if b then m else err length_mismatch) ≡ ok r
    → (b ≡ true) × (m ≡ ok r)
if_ok true e = (refl, e)
if_ok false e = cc

-- The converse: whatever the parser accepts is, byte for byte, the frame that the client builds
-- for the result, and its topic is not empty. So no two frames give the same result.
pub make_frame-parse_tcp_frame :
    (frame : Bytes) {r : ParsedResult}
    → All IsByte frame
    → parse_tcp_frame frame ≡ ok r
    → (make_frame r.topic r.payload (priority_code r.priority) ≡ some frame) × (r.topic ≢ [])
make_frame-parse_tcp_frame (a ∷ b ∷ c ∷ d ∷ body) {r} (ab, (bb, (cb, (db, rest)))) e =
    let (len, parsed) = if_ok _ (sym (parse_tcp_frame-cons a b c d body) ∙ e) in
    let (small, same, ne) = parse_frame-inv body rest parsed in
    let (head, fits) = length_digits (length body) a b c d (ab, bb, cb, db) ((==_iff _ _).0 len) in
    let n : length (body_of r.topic r.payload (priority_code r.priority)) ≡ length body =
      ap length same in
    (
      make_frame-body_of r.topic r.payload (priority_code r.priority) small (omega arith)
            (ground arith)
          ∙ ap some (ap₂ ◌++◌ (ap be32 n ∙ head) same),
      ne,
    )
make_frame-parse_tcp_frame frame b e = cc (parse_tcp_frame_short frame (omega arith))
