-- ===== src/UnitTests/Texts.antt =====
-- The names of the files and the texts that the unit tests (unittest) use.
use event_stream_core.Prelude.{[], ◌∷◌, Bytes}

abbrev pub config_yaml : Bytes
config_yaml =
    b'c' ∷ b'o' ∷ b'n' ∷ b'f' ∷ b'i' ∷ b'g' ∷ b'/' ∷ b'c' ∷ b'o' ∷ b'n' ∷ b'f' ∷ b'i' ∷ b'g' ∷ b'.'
    ∷ b'y' ∷ b'a' ∷ b'm' ∷ b'l' ∷ []

abbrev pub non_existent_yaml : Bytes
non_existent_yaml =
    b'c' ∷ b'o' ∷ b'n' ∷ b'f' ∷ b'i' ∷ b'g' ∷ b'/' ∷ b'n' ∷ b'o' ∷ b'n' ∷ b'_' ∷ b'e' ∷ b'x' ∷ b'i'
    ∷ b's' ∷ b't' ∷ b'e' ∷ b'n' ∷ b't' ∷ b'.' ∷ b'y' ∷ b'a' ∷ b'm' ∷ b'l' ∷ []

abbrev pub missing_field_yaml : Bytes
missing_field_yaml =
    b'u' ∷ b'n' ∷ b'i' ∷ b't' ∷ b't' ∷ b'e' ∷ b's' ∷ b't' ∷ b'/' ∷ b'i' ∷ b'n' ∷ b'v' ∷ b'a' ∷ b'l'
    ∷ b'i' ∷ b'd' ∷ b'C' ∷ b'o' ∷ b'n' ∷ b'f' ∷ b'i' ∷ b'g' ∷ b'/' ∷ b'm' ∷ b'i' ∷ b's' ∷ b's'
    ∷ b'i' ∷ b'n' ∷ b'g' ∷ b'_' ∷ b'f' ∷ b'i' ∷ b'e' ∷ b'l' ∷ b'd' ∷ b'.' ∷ b'y' ∷ b'a' ∷ b'm'
    ∷ b'l' ∷ []

abbrev pub invalid_type_yaml : Bytes
invalid_type_yaml =
    b'u' ∷ b'n' ∷ b'i' ∷ b't' ∷ b't' ∷ b'e' ∷ b's' ∷ b't' ∷ b'/' ∷ b'i' ∷ b'n' ∷ b'v' ∷ b'a' ∷ b'l'
    ∷ b'i' ∷ b'd' ∷ b'C' ∷ b'o' ∷ b'n' ∷ b'f' ∷ b'i' ∷ b'g' ∷ b'/' ∷ b'i' ∷ b'n' ∷ b'v' ∷ b'a'
    ∷ b'l' ∷ b'i' ∷ b'd' ∷ b'_' ∷ b't' ∷ b'y' ∷ b'p' ∷ b'e' ∷ b'.' ∷ b'y' ∷ b'a' ∷ b'm' ∷ b'l' ∷ []

abbrev pub invalid_value_yaml : Bytes
invalid_value_yaml =
    b'u' ∷ b'n' ∷ b'i' ∷ b't' ∷ b't' ∷ b'e' ∷ b's' ∷ b't' ∷ b'/' ∷ b'i' ∷ b'n' ∷ b'v' ∷ b'a' ∷ b'l'
    ∷ b'i' ∷ b'd' ∷ b'C' ∷ b'o' ∷ b'n' ∷ b'f' ∷ b'i' ∷ b'g' ∷ b'/' ∷ b'i' ∷ b'n' ∷ b'v' ∷ b'a'
    ∷ b'l' ∷ b'i' ∷ b'd' ∷ b'_' ∷ b'v' ∷ b'a' ∷ b'l' ∷ b'u' ∷ b'e' ∷ b'.' ∷ b'y' ∷ b'a' ∷ b'm'
    ∷ b'l' ∷ []

abbrev pub temp_storage_bin : Bytes
temp_storage_bin =
    b't' ∷ b'e' ∷ b'm' ∷ b'p' ∷ b'_' ∷ b's' ∷ b't' ∷ b'o' ∷ b'r' ∷ b'a' ∷ b'g' ∷ b'e' ∷ b'.' ∷ b'b'
    ∷ b'i' ∷ b'n' ∷ []

abbrev pub event_stream_core_name : Bytes
event_stream_core_name =
    b'E' ∷ b'v' ∷ b'e' ∷ b'n' ∷ b't' ∷ b'S' ∷ b't' ∷ b'r' ∷ b'e' ∷ b'a' ∷ b'm' ∷ b'C' ∷ b'o' ∷ b'r'
    ∷ b'e' ∷ []

abbrev pub version_1 : Bytes
version_1 = b'1' ∷ b'.' ∷ b'0' ∷ b'.' ∷ b'0' ∷ []

abbrev pub localhost : Bytes
localhost = b'1' ∷ b'2' ∷ b'7' ∷ b'.' ∷ b'0' ∷ b'.' ∷ b'0' ∷ b'.' ∷ b'1' ∷ []

abbrev pub topic1 : Bytes
topic1 = b't' ∷ b'o' ∷ b'p' ∷ b'i' ∷ b'c' ∷ b'1' ∷ []

abbrev pub test_topic : Bytes
test_topic = b't' ∷ b'e' ∷ b's' ∷ b't' ∷ b'_' ∷ b't' ∷ b'o' ∷ b'p' ∷ b'i' ∷ b'c' ∷ []
