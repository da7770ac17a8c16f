-- ===== src/Event/Crc32/Reference.antt =====
-- The table-driven checksum against the shift register that takes one bit of the message at a time.
use native.Mathlib.Nat.{pow-suc, div-div-eq-div-mul}
use event_stream_core.Prelude.{
  ℕ, zero, suc, ◌+◌, ◌*◌, ◌/◌, ◌%◌, ◌^◌, ◌<◌, bit_xor, ◌≡◌, refl, ap, ap₂, ◌∙◌, sym, arith, some,
  List, [], ◌∷◌, ◌++◌, ◌==◌, if◌then◌else◌, get_elem?, All, Bytes, IsByte,
}
use event_stream_core.Event.Crc32.{
  polynomial, shift_bit, shift_bits, table_from, crc32_table, ◌>>=◌, crc_bytes, calculate_crc32,
}
use event_stream_core.Event.Crc32.Xor.{
  bit_xor-mod, bit_xor-div, bit_xor_comm, bit_xor-zero, bit_xor_assoc, bit_xor_fields,
  mul-two-pow-suc, bit_and_one, bit_and_byte,
}

-- The register takes a bit of the message.
abbrev pub register_bit : ℕ → ℕ → ℕ
register_bit crc bit = if (crc + bit) % 2 == 0 then crc / 2 else bit_xor (crc / 2) polynomial

abbrev pub register : ℕ → List ℕ → ℕ
register crc [] = crc
register crc (bit ∷ bits) = register (register_bit crc bit) bits

-- The `n` low bits of a byte, lowest first.
abbrev pub bits_of : ℕ → ℕ → List ℕ
bits_of zero byte = []
bits_of (suc n) byte = byte % 2 ∷ bits_of n (byte / 2)

abbrev pub message_bits : Bytes → List ℕ
message_bits [] = []
message_bits (byte ∷ bytes) = bits_of 8 byte ++ message_bits bytes

-- CRC-32: all ones at the start, all bits inverted at the end.
abbrev pub crc32_of : Bytes → ℕ
crc32_of bytes = bit_xor (register 0xFFFFFFFF (message_bits bytes)) 0xFFFFFFFF

-- What a bit that falls out feeds back.
abbrev feedback : ℕ → ℕ
feedback zero = 0
feedback (suc n) = polynomial

feedback-add :
    (x y : ℕ) → x < 2 → y < 2 → feedback ((x + y) % 2) ≡ bit_xor (feedback x) (feedback y)
feedback-add zero zero hx hy = refl
feedback-add zero (suc zero) hx hy = refl
feedback-add (suc zero) zero hx hy = refl
feedback-add (suc zero) (suc zero) hx hy = refl
feedback-add (suc (suc x)) y hx hy = absurd (omega arith)
feedback-add x (suc (suc y)) hx hy = absurd (omega arith)

feedback_lem :
    (n x : ℕ) → n < 2 → (if n == 0 then x else bit_xor x polynomial) ≡ bit_xor x (feedback n)
feedback_lem zero x h = sym (bit_xor-zero x)
feedback_lem (suc n) x h = ground arith

shift_bit-feedback : (a : ℕ) → shift_bit a ≡ bit_xor (a / 2) (feedback (a % 2))
unfolding shift_bit
shift_bit-feedback a = rw (bit_and_one a) (feedback_lem (a % 2) (a / 2) (omega arith))

register_bit-feedback :
    (crc bit : ℕ) → register_bit crc bit ≡ bit_xor (crc / 2) (feedback ((crc + bit) % 2))
register_bit-feedback crc bit = feedback_lem ((crc + bit) % 2) (crc / 2) (omega arith)

exchange : (a b c d : ℕ) → bit_xor (bit_xor a b) (bit_xor c d) ≡ bit_xor (bit_xor a c) (bit_xor b d)
exchange a b c d =
    bit_xor_assoc a b (bit_xor c d)
    ∙ ap (bit_xor a)
        (sym (bit_xor_assoc b c d) ∙ ap (λ x. bit_xor x d) (bit_xor_comm b c) ∙ bit_xor_assoc c b d)
    ∙ sym (bit_xor_assoc a c (bit_xor b d))

add_mod : (a b : ℕ) → (a + b) % 2 ≡ (a % 2 + b % 2) % 2
add_mod a b = omega arith

-- A shift is linear.
shift_bit-xor : (a b : ℕ) → shift_bit (bit_xor a b) ≡ bit_xor (shift_bit a) (shift_bit b)
shift_bit-xor a b =
    shift_bit-feedback (bit_xor a b)
    ∙ ap₂ bit_xor (bit_xor-div a b) (ap feedback (bit_xor-mod a b ∙ add_mod a b))
    ∙ ap (bit_xor (bit_xor (a / 2) (b / 2)))
        (feedback-add (a % 2) (b % 2) (omega arith) (omega arith))
    ∙ exchange (a / 2) (b / 2) (feedback (a % 2)) (feedback (b % 2))
    ∙ ap₂ bit_xor (sym (shift_bit-feedback a)) (sym (shift_bit-feedback b))

shift_bits-xor :
    (n a b : ℕ) → shift_bits n (bit_xor a b) ≡ bit_xor (shift_bits n a) (shift_bits n b)
unfolding shift_bits
shift_bits-xor zero a b = refl
shift_bits-xor (suc n) a b =
    ap (shift_bits n) (shift_bit-xor a b) ∙ shift_bits-xor n (shift_bit a) (shift_bit b)

shift_bit-double : (x y : ℕ) → x ≡ 2 * y → shift_bit x ≡ y
unfolding shift_bit
shift_bit-double x y e = ground (arith, bit_and_one x)

shift_bits-high : (k h : ℕ) → shift_bits k (h * 2 ^ k) ≡ h
unfolding shift_bits
shift_bits-high zero h = omega arith
shift_bits-high (suc k) h =
    ap (shift_bits k) (shift_bit-double (h * 2 ^ suc k) (h * 2 ^ k) (mul-two-pow-suc h k))
    ∙ shift_bits-high k h

shift_byte : (x : ℕ) → shift_bits 8 x ≡ bit_xor (x / 256) (shift_bits 8 (x % 256))
shift_byte x =
    let split : x ≡ x / 256 * 2 ^ 8 + x % 256 = omega arith in
    ap (shift_bits 8) (split ∙ sym (bit_xor_fields 8 (x / 256) (x % 256) (omega arith)))
    ∙ shift_bits-xor 8 (x / 256 * 2 ^ 8) (x % 256)
    ∙ ap (λ t. bit_xor t (shift_bits 8 (x % 256))) (shift_bits-high 8 (x / 256))

from_zero : (i : ℕ) → 0 + i ≡ i
from_zero i = omega arith

at_zero : (i : ℕ) → i ≡ i + 0
at_zero i = omega arith

at_suc : (i j : ℕ) → suc i + j ≡ i + suc j
at_suc i j = omega arith

table_from-get : (n i j : ℕ) → j < n → get_elem? (table_from n i) j ≡ some (shift_bits 8 (i + j))
unfolding table_from
table_from-get zero i j h = absurd (omega arith)
table_from-get (suc n) i zero h = ap (λ k. some (shift_bits 8 k)) (at_zero i)
table_from-get (suc n) i (suc j) h =
    table_from-get n (suc i) j (omega arith) ∙ ap (λ k. some (shift_bits 8 k)) (at_suc i j)

div_pow-suc : (x k : ℕ) → x / 2 ^ suc k ≡ x / 2 / 2 ^ k
div_pow-suc x k =
    let p : 2 ^ suc k ≡ 2 * 2 ^ k = omega (arith, pow-suc 2 k) in
    ap (λ (t : ℕ). x / t) p ∙ sym (div-div-eq-div-mul x 2 (2 ^ k))

one_div : (x : ℕ) → x ≡ x / 2 ^ 0
one_div x = omega arith

bit_xor-shift : (k a b : ℕ) → bit_xor a b / 2 ^ k ≡ bit_xor (a / 2 ^ k) (b / 2 ^ k)
bit_xor-shift zero a b = sym (one_div (bit_xor a b)) ∙ ap₂ bit_xor (one_div a) (one_div b)
bit_xor-shift (suc k) a b =
    div_pow-suc (bit_xor a b) k
    ∙ ap (λ (t : ℕ). t / 2 ^ k) (bit_xor-div a b)
    ∙ bit_xor-shift k (a / 2) (b / 2)
    ∙ ap₂ bit_xor (sym (div_pow-suc a k)) (sym (div_pow-suc b k))

shift_in_bit :
    (crc byte : ℕ) → shift_bit (bit_xor crc byte) ≡ bit_xor (register_bit crc (byte % 2)) (byte / 2)
shift_in_bit crc byte =
    let low : bit_xor crc byte % 2 ≡ (crc + byte % 2) % 2 = omega (arith, bit_xor-mod crc byte) in
    shift_bit-feedback (bit_xor crc byte)
    ∙ ap₂ bit_xor (bit_xor-div crc byte) (ap feedback low)
    ∙ bit_xor_assoc (crc / 2) (byte / 2) _
    ∙ ap (bit_xor (crc / 2)) (bit_xor_comm (byte / 2) _)
    ∙ sym (bit_xor_assoc (crc / 2) _ (byte / 2))
    ∙ ap (λ x. bit_xor x (byte / 2)) (sym (register_bit-feedback crc (byte % 2)))

-- The register takes the bits of a byte by shifting the byte in.
shift_in :
    (n crc byte : ℕ)
    → shift_bits n (bit_xor crc byte) ≡ bit_xor (register crc (bits_of n byte)) (byte / 2 ^ n)
unfolding shift_bits
shift_in zero crc byte = ap (bit_xor crc) (one_div byte)
shift_in (suc n) crc byte =
    ap (shift_bits n) (shift_in_bit crc byte)
    ∙ shift_in n (register_bit crc (byte % 2)) (byte / 2)
    ∙ ap (bit_xor (register crc (bits_of (suc n) byte))) (sym (div_pow-suc byte n))

shift_in_byte :
    (crc byte : ℕ) → IsByte byte → shift_bits 8 (bit_xor crc byte) ≡ register crc (bits_of 8 byte)
shift_in_byte crc byte h =
    let none_left : byte / 2 ^ 8 ≡ 0 = omega arith in
    shift_in 8 crc byte ∙ ap (bit_xor _) none_left ∙ bit_xor-zero _

-- One round of the loop: shift the register by a byte and add the entry for what falls out.
table_round :
    (crc byte : ℕ)
    → IsByte byte
    → bit_xor (crc / 2 ^ 8) (shift_bits 8 (bit_xor crc byte % 256)) ≡ register crc (bits_of 8 byte)
table_round crc byte h =
    let none_left : byte / 2 ^ 8 ≡ 0 = omega arith in
    let high : crc / 2 ^ 8 ≡ bit_xor crc byte / 256 =
      sym (bit_xor-shift 8 crc byte ∙ ap (bit_xor (crc / 2 ^ 8)) none_left ∙ bit_xor-zero _) in
    ap (λ x. bit_xor x (shift_bits 8 (bit_xor crc byte % 256))) high
    ∙ sym (shift_byte (bit_xor crc byte))
    ∙ shift_in_byte crc byte h

table_entry : (i : ℕ) → i < 256 → get_elem? crc32_table i ≡ some (shift_bits 8 i)
unfolding crc32_table
table_entry i h = table_from-get 256 0 i h ∙ ap (λ k. some (shift_bits 8 k)) (from_zero i)

crc_bytes_step :
    (byte : ℕ) (bytes : Bytes) (crc : ℕ)
    → IsByte byte
    → crc_bytes (byte ∷ bytes) crc ≡ crc_bytes bytes (register crc (bits_of 8 byte))
unfolding crc_bytes
crc_bytes_step byte bytes crc h =
    let entry =
      ap (get_elem? crc32_table) (bit_and_byte (bit_xor crc byte))
      ∙ table_entry (bit_xor crc byte % 256) (omega arith) in
    ap (λ e. e >>= λ x. crc_bytes bytes (bit_xor (crc / 2 ^ 8) x)) entry
    ∙ ap (crc_bytes bytes) (table_round crc byte h)

register-append :
    (xs ys : List ℕ) (crc : ℕ) → register crc (xs ++ ys) ≡ register (register crc xs) ys
register-append [] ys crc = refl
register-append (x ∷ xs) ys crc = register-append xs ys (register_bit crc x)

crc_bytes-register :
    (bytes : Bytes) (crc : ℕ)
    → All IsByte bytes
    → crc_bytes bytes crc ≡ some (register crc (message_bits bytes))
unfolding crc_bytes
crc_bytes-register [] crc h = refl
crc_bytes-register (byte ∷ bytes) crc h =
    crc_bytes_step byte bytes crc h.0
    ∙ crc_bytes-register bytes (register crc (bits_of 8 byte)) h.1
    ∙ ap some (sym (register-append (bits_of 8 byte) (message_bits bytes) crc))

-- On every byte string the table-driven loop reads inside its table, and computes the CRC-32: the
-- checksum of the shift register that is fed with the data's bits one by one, lowest first.
pub calculate_crc32-crc32_of :
    (bytes : Bytes) → All IsByte bytes → calculate_crc32 bytes ≡ some (crc32_of bytes)
unfolding calculate_crc32
calculate_crc32-crc32_of bytes h =
    ap (λ e. e >>= λ crc. some (bit_xor crc 0xFFFFFFFF)) (crc_bytes-register bytes 0xFFFFFFFF h)
