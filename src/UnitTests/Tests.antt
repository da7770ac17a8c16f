-- ===== src/UnitTests/Tests.antt =====
-- Files in which `version` and the section for the pool are not there.
use event_stream_core.Prelude.{
  ◌≡◌, refl, Bool, true, false, Option, none, some, [], ◌&&◌, if◌then◌else◌, not, Bytes, eqb, ok,
  err,
}
use event_stream_core.Parser.{parse_tcp_frame, length_mismatch}
use event_stream_core.Config.{Load, pos}
use event_stream_core.Config.Keys.{key_version, key_threads_pool}
use event_stream_core.Config.Load.{Yaml}
use event_stream_core.Config.Required.{IsThere}
use event_stream_core.UnitTests.{
  test_frame, file_not_found, missing_field, invalid_type, invalid_value,
}
use event_stream_core.UnitTests.Texts.{non_existent_yaml}
use event_stream_core.UnitTests.Passed.{error_tests-pass}

-- The frame of the test has neither the length of the frame nor the priority, so it is no frame.
test_frame-mismatch : parse_tcp_frame test_frame ≡ err length_mismatch
unfolding parse_tcp_frame
test_frame-mismatch = refl

abbrev defined : Bytes → Bool
defined key = not (eqb key key_version) && not (eqb key key_threads_pool)

-- A library whose nodes are the keys that lead to them.
abbrev yaml : Yaml Bytes
yaml = record {
  subscript = λ node key. ok key;
  is_defined = defined;
  as_string = λ node. ok node;
  as_int = λ node. ok (pos 1);
  as_bool_or = λ node default. default;
  items = λ node. ok [];
}

abbrev files : Bytes → Option (Load Bytes)
files filepath = if eqb filepath non_existent_yaml then none else some (ok [])

not-IsThere : (key : Bytes) → defined key ≡ false → ¬ IsThere yaml [] key
unfolding IsThere
not-IsThere key e (child, found, test) = cc

error_tests_run :
    (file_not_found yaml files ≡ true)
    × (missing_field yaml files ≡ true)
    × (invalid_type yaml files ≡ true)
    × (invalid_value yaml files ≡ true)
unfolding eqb
error_tests_run =
    error_tests-pass yaml files [] [] [] refl refl (not-IsThere key_version refl) refl
      (not-IsThere key_threads_pool refl) refl (not-IsThere key_threads_pool refl)
