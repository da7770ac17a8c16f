-- ===== src/Server/Scan.antt =====
-- The front of the buffer: the length, and what more bytes behind change.
use Prim.Native.Nat.{bit_or, bit_or-bitwise, max}
use native.Mathlib.Nat.{pow-suc}
use event_stream_core.Prelude.{
  ℕ, zero, suc, subst, ◌+◌, ◌*◌, ◌/◌, ◌%◌, ◌^◌, ◌≤◌, ◌<◌, ◌≡◌, ◌≢◌, refl, ap, sym, ◌∙◌, ◌∷◌, ◌++◌,
  length, Bytes, IsByte, u32, arith, length-append, length-drop, take-append_of_le,
  drop-append_of_le,
}
use event_stream_core.Event.Crc32.Xor.{first_digit, mul-two-pow-suc}
use event_stream_core.Parser.{be32}
use event_stream_core.Parser.RoundTrip.{be32_value}
use event_stream_core.Server.{
  max_buffer_size, Found, incomplete, too_large, empty_frame, framed, frame_length, find_frame,
  scan,
}

or_step : (a b : ℕ) → bit_or a b ≡ bit_or (a / 2) (b / 2) * 2 + max (a % 2) (b % 2)
or_step zero b = simp bit_or-bitwise (omega arith)
or_step (suc a) b = simp bit_or-bitwise (first_digit (λ y. y) max a b)

or_zero_fuel : (n a : ℕ) → a ≤ n → bit_or a 0 ≡ a
or_zero_fuel n zero h = refl
or_zero_fuel zero (suc a) h = absurd (omega arith)
or_zero_fuel (suc n) (suc a) h =
    omega (arith, or_step (suc a) 0, or_zero_fuel n (suc a / 2) (omega arith))

or_fields : (k h l : ℕ) → l < 2 ^ k → bit_or (h * 2 ^ k) l ≡ h * 2 ^ k + l
or_fields zero h l fits =
    let e : l ≡ 0 = omega arith in rw e (omega (arith, or_zero_fuel (h * 2 ^ 0) (h * 2 ^ 0)))
or_fields (suc k) h l fits = ground (
  arith,
  or_step (h * 2 ^ suc k) l,
  mul-two-pow-suc h k,
  or_fields k h (l / 2) (omega (arith, pow-suc 2 k)),
)

-- The four bytes put together by shifts are the number that `read_uint32_be` reads.
pub frame_length_lem :
    (b₀ b₁ b₂ b₃ : ℕ)
    → IsByte b₁
    → IsByte b₂
    → IsByte b₃
    → frame_length b₀ b₁ b₂ b₃ ≡ ((b₀ * 256 + b₁) * 256 + b₂) * 256 + b₃
frame_length_lem b₀ b₁ b₂ b₃ h₁ h₂ h₃ =
    let top : bit_or (b₀ * 2 ^ 24) (b₁ * 2 ^ 16) ≡ (b₀ * 2 ^ 8 + b₁) * 2 ^ 16 =
      omega (arith, or_fields 24 b₀ (b₁ * 2 ^ 16) (omega arith)) in
    let mid : bit_or ((b₀ * 2 ^ 8 + b₁) * 2 ^ 16) (b₂ * 2 ^ 8)
        ≡ ((b₀ * 2 ^ 8 + b₁) * 2 ^ 8 + b₂) * 2 ^ 8 =
      omega (arith, or_fields 16 (b₀ * 2 ^ 8 + b₁) (b₂ * 2 ^ 8) (omega arith)) in
    let low : bit_or (((b₀ * 2 ^ 8 + b₁) * 2 ^ 8 + b₂) * 2 ^ 8) b₃
        ≡ ((b₀ * 2 ^ 8 + b₁) * 2 ^ 8 + b₂) * 2 ^ 8 + b₃ =
      or_fields 8 ((b₀ * 2 ^ 8 + b₁) * 2 ^ 8 + b₂) b₃ h₃ in
    ap (λ x. bit_or (bit_or x (b₂ * 2 ^ 8)) b₃) top ∙ ap (λ x. bit_or x b₃) mid ∙ low ∙ omega arith

pub frame_length-be32 :
    (n : ℕ)
    → n < 2 ^ 32
    → frame_length (n / 2 ^ 24 % 256) (n / 2 ^ 16 % 256) (n / 256 % 256) (n % 256) ≡ n
frame_length-be32 n fits =
    frame_length_lem (n / 2 ^ 24 % 256) (n / 2 ^ 16 % 256) (n / 256 % 256) (n % 256) (omega arith)
      (omega arith) (omega arith)
    ∙ be32_value n fits

-- More bytes behind a frame stay behind it.
abbrev pub behind : Found → Bytes → Found
behind incomplete more = incomplete
behind too_large more = too_large
behind (empty_frame rest) more = empty_frame (rest ++ more)
behind (framed frame rest) more = framed frame (rest ++ more)

find_frame-append :
    (n : ℕ) (buf more : Bytes)
    → 4 ≤ length buf
    → find_frame n buf ≢ incomplete
    → find_frame n (buf ++ more) ≡ behind (find_frame n buf) more
find_frame-append n buf more four h = ground (
  arith,
  length-append {0} buf more,
  drop-append_of_le {0} 4 buf more,
  take-append_of_le {0} (u32 (4 + n)) buf more,
  drop-append_of_le {0} (u32 (4 + n)) buf more,
)

pub scan-append :
    (buf more : Bytes) → scan buf ≢ incomplete → scan (buf ++ more) ≡ behind (scan buf) more
unfolding scan
scan-append (a ∷ b ∷ c ∷ d ∷ rest) more h =
    find_frame-append (frame_length a b c d) (a ∷ b ∷ c ∷ d ∷ rest) more (omega arith) h
scan-append buf more h = absurd (h refl)

abbrev pub IsComplete : Found → Type 0
IsComplete incomplete = ⊥
IsComplete f = Unit

pub found-append :
    (buf more : Bytes) (f : Found)
    → scan buf ≡ f
    → IsComplete f
    → scan (buf ++ more) ≡ behind f more
found-append buf more f e c =
    scan-append buf more (λ i. subst (λ g. IsComplete g) (sym e ∙ i) c) ∙ ap (λ g. behind g more) e

-- What is left behind a frame is shorter than the buffer.
abbrev pub IsShorter : Found → Bytes → Type 0
IsShorter (empty_frame rest) buf = length rest < length buf
IsShorter (framed frame rest) buf = length rest < length buf
IsShorter f buf = Unit

find_frame-IsShorter : (n : ℕ) (buf : Bytes) → 4 ≤ length buf → IsShorter (find_frame n buf) buf
find_frame-IsShorter n buf four =
    ground (arith, length-drop {0} 4 buf, length-drop {0} (u32 (4 + n)) buf)

pub scan-IsShorter : (buf : Bytes) → IsShorter (scan buf) buf
unfolding scan
scan-IsShorter (a ∷ b ∷ c ∷ d ∷ rest) =
    find_frame-IsShorter (frame_length a b c d) (a ∷ b ∷ c ∷ d ∷ rest) (omega arith)
scan-IsShorter buf = tt

-- A buffer with no whole frame at its front is short.
find_frame-incomplete :
    (n : ℕ) (buf : Bytes) → find_frame n buf ≡ incomplete → length buf < 4 + max_buffer_size
find_frame-incomplete n buf e = ground arith

pub scan-incomplete : (buf : Bytes) → scan buf ≡ incomplete → length buf < 4 + max_buffer_size
unfolding scan
scan-incomplete (a ∷ b ∷ c ∷ d ∷ rest) e =
    find_frame-incomplete (frame_length a b c d) (a ∷ b ∷ c ∷ d ∷ rest) e
scan-incomplete buf e = omega arith

find_frame-too_large : (n : ℕ) (buf : Bytes) → max_buffer_size < n → find_frame n buf ≡ too_large
find_frame-too_large n buf large = ground arith

pub scan-too_large :
    (n : ℕ) (rest : Bytes) → max_buffer_size < n → n < 2 ^ 32 → scan (be32 n ++ rest) ≡ too_large
unfolding scan
scan-too_large n rest large fits =
    ap (λ k. find_frame k (be32 n ++ rest)) (frame_length-be32 n fits)
    ∙ find_frame-too_large n (be32 n ++ rest) large
