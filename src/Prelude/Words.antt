-- ===== src/Prelude/Words.antt =====
-- Bytes and the casts to the fixed widths of the source's integer types.
use Prim.Native.Nat.{ℕ, ◌%◌, ◌/◌, ◌^◌, ◌<◌, ◌*◌}
use mathlib.Core.List.{List}

-- `std::vector<uint8_t>` and `std::string`: a byte is a number below 256.
abbrev pub Bytes : Type 0
Bytes = List ℕ

abbrev pub IsByte : ℕ → Type 0
IsByte b = b < 256

abbrev pub u16 : ℕ → ℕ
u16 n = n % 2 ^ 16

abbrev pub u32 : ℕ → ℕ
u32 n = n % 2 ^ 32

abbrev pub u64 : ℕ → ℕ
u64 n = n % 2 ^ 64

infixl 75 ◌<<◌ ◌>>>◌
abbrev pub ◌<<◌ : ℕ → ℕ → ℕ
x << k = x * 2 ^ k

abbrev pub ◌>>>◌ : ℕ → ℕ → ℕ
x >>> k = x / 2 ^ k
