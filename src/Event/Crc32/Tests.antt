-- ===== src/Event/Crc32/Tests.antt =====
-- Checksums of known messages.
use event_stream_core.Prelude.{[], ◌∷◌, ◌≡◌, refl, some, Bytes, arith}
use event_stream_core.Event.Crc32.{calculate_crc32, crc_bytes, crc32_table}
use event_stream_core.Event.Crc32.Reference.{crc32_of, calculate_crc32-crc32_of}

-- "123456789", the customary check message.
abbrev check_message : Bytes
check_message = b'1' ∷ b'2' ∷ b'3' ∷ b'4' ∷ b'5' ∷ b'6' ∷ b'7' ∷ b'8' ∷ b'9' ∷ []

check_value : calculate_crc32 check_message ≡ some 0xCBF43926
unfolding calculate_crc32 crc_bytes crc32_table
check_value = refl

empty_value : calculate_crc32 [] ≡ some 0
unfolding calculate_crc32 crc_bytes
empty_value = refl

calculate_crc32-crc32_of_example : calculate_crc32 check_message ≡ some (crc32_of check_message)
calculate_crc32-crc32_of_example = calculate_crc32-crc32_of check_message (omega arith)
