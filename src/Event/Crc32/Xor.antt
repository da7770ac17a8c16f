-- ===== src/Event/Crc32/Xor.antt =====
-- Laws of `^` and of `&` with a low mask, from the digits that the native operations stand for.
use Prim.Native.Nat.{min, digits, bitwise, differ, bit_xor-bitwise, bit_and-bitwise}
use native.Mathlib.Nat.{le_refl, pow-suc, zero-add}
use event_stream_core.Prelude.{
  ℕ, zero, suc, ◌+◌, ◌-◌, ◌*◌, ◌/◌, ◌%◌, ◌^◌, ◌≤◌, ◌<◌, bit_xor, bit_and, ◌≡◌, refl, ap, ◌∙◌, arith,
}

-- One round more than the first number has digits changes nothing.
module _ (past : ℕ → ℕ) (digit : ℕ → ℕ → ℕ) where
  extra_round : (n a b : ℕ) → a ≤ n → digits past digit (suc n) a b ≡ digits past digit n a b
  extra_round zero zero b h = refl
  extra_round zero (suc a) b h = absurd (omega arith)
  extra_round (suc n) zero b h = refl
  extra_round (suc n) (suc a) b h =
      ap (λ (t : ℕ). t * 2 + digit (suc a % 2) (b % 2))
        (extra_round n (suc a / 2) (b / 2) (omega arith))

  extra_rounds : (k n a b : ℕ) → a ≤ n → digits past digit (k + n) a b ≡ digits past digit n a b
  extra_rounds zero n a b h = rw zero-add
  extra_rounds (suc k) n a b h =
      let e : suc k + n ≡ suc (k + n) = omega arith in
      ap (λ (t : ℕ). digits past digit t a b) e
      ∙ extra_round (k + n) a b (omega arith)
      ∙ extra_rounds k n a b h

  -- A positive number has as many rounds as its half needs, and some to spare.
  pub first_digit :
      (a b : ℕ)
      → bitwise past digit (suc a) b
        ≡ bitwise past digit (suc a / 2) (b / 2) * 2 + digit (suc a % 2) (b % 2)
  first_digit a b =
      let half = suc a / 2 in
      let e : a ≡ a - half + half = omega arith in
      ap (λ (t : ℕ). t * 2 + digit (suc a % 2) (b % 2))
        (ap (λ (t : ℕ). digits past digit t half (b / 2)) e
          ∙ extra_rounds (a - half) half half (b / 2) (le_refl _))

differ_bits : (x y : ℕ) → x < 2 → y < 2 → differ x y ≡ (x + y) % 2
differ_bits zero y hx hy = omega arith
differ_bits (suc zero) zero hx hy = refl
differ_bits (suc zero) (suc zero) hx hy = refl
differ_bits (suc zero) (suc (suc y)) hx hy = absurd (omega arith)
differ_bits (suc (suc x)) y hx hy = absurd (omega arith)

zero-bit_xor : (b : ℕ) → bit_xor 0 b ≡ b
zero-bit_xor b = simp bit_xor-bitwise

xor_digit : (a b : ℕ) → bit_xor a b ≡ bit_xor (a / 2) (b / 2) * 2 + differ (a % 2) (b % 2)
xor_digit zero b = simp bit_xor-bitwise (omega arith)
xor_digit (suc a) b = simp bit_xor-bitwise (first_digit (λ y. y) differ a b)

-- The lowest digit, and the others.
pub xor_step : (a b : ℕ) → bit_xor a b ≡ bit_xor (a / 2) (b / 2) * 2 + (a + b) % 2
xor_step a b = omega (arith, xor_digit a b, differ_bits (a % 2) (b % 2) (omega arith) (omega arith))

pub bit_xor-mod : (a b : ℕ) → bit_xor a b % 2 ≡ (a + b) % 2
bit_xor-mod a b = omega (arith, xor_step a b)

pub bit_xor-div : (a b : ℕ) → bit_xor a b / 2 ≡ bit_xor (a / 2) (b / 2)
bit_xor-div a b = omega (arith, xor_step a b)

comm_fuel : (n a b : ℕ) → a + b ≤ n → bit_xor a b ≡ bit_xor b a
comm_fuel zero zero zero h = refl
comm_fuel zero zero (suc b) h = absurd (omega arith)
comm_fuel zero (suc a) b h = absurd (omega arith)
comm_fuel (suc n) zero zero h = refl
comm_fuel (suc n) a b h =
    omega (arith, xor_step a b, xor_step b a, comm_fuel n (a / 2) (b / 2) (omega arith))

pub bit_xor_comm : (a b : ℕ) → bit_xor a b ≡ bit_xor b a
bit_xor_comm a b = comm_fuel (a + b) a b (le_refl _)

pub bit_xor-zero : (a : ℕ) → bit_xor a 0 ≡ a
bit_xor-zero a = bit_xor_comm a 0 ∙ zero-bit_xor a

assoc_step :
    (a b c : ℕ)
    → bit_xor (bit_xor (a / 2) (b / 2)) (c / 2) ≡ bit_xor (a / 2) (bit_xor (b / 2) (c / 2))
    → bit_xor (bit_xor a b) c ≡ bit_xor a (bit_xor b c)
assoc_step a b c ih =
    let left = xor_step (bit_xor a b) c in
    let right = xor_step a (bit_xor b c) in
    rw (bit_xor-div a b) at left
    ∙ omega (arith, ih, rw (bit_xor-div b c) at right, bit_xor-mod a b, bit_xor-mod b c)

assoc_fuel : (n a b c : ℕ) → a + (b + c) ≤ n → bit_xor (bit_xor a b) c ≡ bit_xor a (bit_xor b c)
assoc_fuel zero a b c h =
    let a₀ : a ≡ 0 = omega arith in
    let b₀ : b ≡ 0 = omega arith in let c₀ : c ≡ 0 = omega arith in rw (a₀, b₀, c₀)
assoc_fuel (suc n) a b c h = assoc_step a b c (assoc_fuel n (a / 2) (b / 2) (c / 2) (omega arith))

pub bit_xor_assoc : (a b c : ℕ) → bit_xor (bit_xor a b) c ≡ bit_xor a (bit_xor b c)
bit_xor_assoc a b c = assoc_fuel (a + (b + c)) a b c (le_refl _)

pub mul-two-pow-suc : (h k : ℕ) → h * 2 ^ suc k ≡ 2 * (h * 2 ^ k)
mul-two-pow-suc h k = omega (arith, ap (λ (t : ℕ). h * t) (pow-suc 2 k))

-- Digits that do not meet are added.
pub bit_xor_fields : (k h l : ℕ) → l < 2 ^ k → bit_xor (h * 2 ^ k) l ≡ h * 2 ^ k + l
bit_xor_fields zero h l fits =
    let l₀ : l ≡ 0 = omega arith in rw (l₀, bit_xor-zero (h * 2 ^ 0)) (omega arith)
bit_xor_fields (suc k) h l fits = ground (
  arith,
  xor_step (h * 2 ^ suc k) l,
  mul-two-pow-suc h k,
  pow-suc 2 k,
  bit_xor_fields k h (l / 2) (omega (arith, pow-suc 2 k)),
)

zero-bit_and : (b : ℕ) → bit_and 0 b ≡ 0
zero-bit_and b = simp bit_and-bitwise

and_step : (a b : ℕ) → bit_and a b ≡ bit_and (a / 2) (b / 2) * 2 + min (a % 2) (b % 2)
and_step zero b = simp bit_and-bitwise (omega arith)
and_step (suc a) b = simp bit_and-bitwise (first_digit (λ y. 0) min a b)

and-zero_fuel : (n a : ℕ) → a ≤ n → bit_and a 0 ≡ 0
and-zero_fuel n zero h = zero-bit_and 0
and-zero_fuel zero (suc a) h = absurd (omega arith)
and-zero_fuel (suc n) (suc a) h =
    omega (arith, and_step (suc a) 0, and-zero_fuel n (suc a / 2) (omega arith))

-- A mask of `k` ones is a remainder.
pub bit_and_one : (a : ℕ) → bit_and a 1 ≡ a % 2
bit_and_one a = omega (arith, and_step a 1, and-zero_fuel (a / 2) (a / 2) (le_refl _))

and_three : (a : ℕ) → bit_and a 3 ≡ a % 4
and_three a = omega (arith, and_step a 3, bit_and_one (a / 2))

and_fifteen : (a : ℕ) → bit_and a 15 ≡ a % 16
and_fifteen a = omega (arith, and_step a 15, and_step (a / 2) 7, and_three (a / 2 / 2))

pub bit_and_byte : (a : ℕ) → bit_and a 0xFF ≡ a % 256
bit_and_byte a = omega (
  arith,
  and_step a 255,
  and_step (a / 2) 127,
  and_step (a / 2 / 2) 63,
  and_step (a / 2 / 2 / 2) 31,
  and_fifteen (a / 2 / 2 / 2 / 2),
)
