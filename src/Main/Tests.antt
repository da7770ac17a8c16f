-- ===== src/Main/Tests.antt =====
-- A start of the program, and one that fails.
use event_stream_core.Prelude.{
  ℕ, ◌≡◌, ◌↔◌, suc, refl, true, Option, some, none, [], ◌∷◌, Bytes, eqb, if◌then◌else◌, ok,
}
use event_stream_core.Config.{pos, AppConfiguration, sqlite}
use event_stream_core.Config.Keys.{key_backend}
use event_stream_core.Config.Load.{Yaml, load_config}
use event_stream_core.Config.Loaded.{ReadAs}
use event_stream_core.Config.Valid.{IsValid}
use event_stream_core.System.{System, new_system}
use event_stream_core.Main.{exit_failure, started, boot}
use event_stream_core.Main.Boot.{system_of, boot_iff}

-- A library whose nodes are the keys that lead to them, and every number is 4.
abbrev keyed : Yaml Bytes
keyed = record {
  subscript = λ node key. ok key;
  is_defined = λ node. true;
  as_string = λ node. ok (if eqb node key_backend then sqlite else node);
  as_int = λ node. ok (pos 4);
  as_bool_or = λ node default. default;
  items = λ node. ok (node ∷ []);
}

-- Every file can be opened, and holds one byte.
abbrev files : Bytes → Option Bytes
files path = some (7 ∷ [])

no_config : boot keyed none none files ≡ exit_failure
unfolding boot load_config
no_config = refl

abbrev four_workers : System
four_workers = new_system [] (record { contents = 7 ∷ []; good = true }) 4

boot_iff_example : (boot keyed (some (ok [])) none files ≡ started four_workers) ↔ (
    (config : AppConfiguration) × ReadAs keyed (some (ok [])) config
    × IsValid config
    × (contents : Bytes) × (n : ℕ) × (files config.storage.path ≡ some contents)
    × (config.thread_pool.max_threads ≡ pos (suc n))
    × (four_workers ≡ system_of config none contents n))
boot_iff_example = boot_iff none files keyed (some (ok [])) four_workers
