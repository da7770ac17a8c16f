-- ===== src/Event/Crc32.antt =====
-- `EventFactory::calculateCRC32` of src/event/EventFactory.cpp. The table is filled on the first
-- call and never changes; here it is a list, and an index outside it reads `none`.
pub mod Xor
pub mod Reference
mod Tests
use event_stream_core.Prelude.{
  ℕ, zero, suc, ◌-◌, ◌/◌, ◌%◌, ◌^◌, Option, none, some, List, [], ◌∷◌, ◌==◌, if◌then◌else◌,
  get_elem?, Bytes, bit_xor, bit_and,
}

abbrev pub polynomial : ℕ
polynomial = 0xEDB88320

-- `if (crc & 1) crc = (crc >> 1) ^ 0xEDB88320; else crc >>= 1;`
unfoldable pub shift_bit : ℕ → ℕ
shift_bit crc = if bit_and crc 1 == 0 then crc / 2 else bit_xor (crc / 2) polynomial

-- The inner loop: `n` rounds.
unfoldable pub shift_bits : ℕ → ℕ → ℕ
unfolding shift_bit
shift_bits zero crc = crc
shift_bits (suc n) crc = shift_bits n (shift_bit crc)

-- `CRC32_TABLE`, from entry `i` on, with `n` entries to go.
unfoldable pub table_from : ℕ → ℕ → List ℕ
unfolding shift_bits
table_from zero i = []
table_from (suc n) i = shift_bits 8 i ∷ table_from n (suc i)

unfoldable pub crc32_table : List ℕ
unfolding table_from
crc32_table = table_from 256 0

infixl 5 ◌>>=◌
abbrev pub ◌>>=◌ : Option ℕ → (ℕ → Option ℕ) → Option ℕ
none >>= f = none
some a >>= f = f a

-- The loop over the data. `none` is a read outside the table.
unfoldable pub crc_bytes : Bytes → ℕ → Option ℕ
crc_bytes [] crc = some crc
crc_bytes (byte ∷ bytes) crc = do
  entry ← get_elem? crc32_table (bit_and (bit_xor crc byte) 0xFF)
  crc_bytes bytes (bit_xor (crc / 2 ^ 8) entry)

unfoldable pub calculate_crc32 : Bytes → Option ℕ
calculate_crc32 bytes = do crc ← crc_bytes bytes 0xFFFFFFFF; some (bit_xor crc 0xFFFFFFFF)
