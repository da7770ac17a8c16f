-- ===== src/Main.antt =====
-- `main` of src/app/main.cpp: what it builds from the configuration file, the topics file and the
-- files that it can open, and its exit code where it builds nothing. The sockets are those of
-- `Listening`; the threads that it starts are those of `System`.
pub mod Boot
mod Tests
use event_stream_core.Prelude.{
  ℕ, suc, ◌-◌, ◌+◌, ◌^◌, Option, none, some, List, [], Bytes, Result, ok, err,
}
use event_stream_core.Config.{ℤ, pos, negsuc, Load, ConfigError, AppConfiguration}
use event_stream_core.Config.Load.{Yaml, load_config}
use event_stream_core.TopicTable.{Table, load_file_config}
use event_stream_core.Storage.{StorageEngine, StorageError, open_storage}
use event_stream_core.System.{System, new_system}

pub data Outcome : Type 0 where
  exit_failure : Outcome
  started : System → Outcome

-- `static_cast<size_t>` of an `int`.
abbrev pub size_of_int : ℤ → ℕ
size_of_int (pos n) = n
size_of_int (negsuc n) = 2 ^ 64 - (n + 1)

-- An exception of the constructor is caught by `main`.
abbrev pub with_storage : AppConfiguration → Table → Result StorageError StorageEngine → Outcome
with_storage config table (ok storage) =
    started (new_system table storage (size_of_int config.thread_pool.max_threads))
with_storage config table (err e) = exit_failure

-- The topics file, if it can be opened, and the contents of the files that can be appended to.
abbrev pub build : Option Bytes → (Bytes → Option Bytes) → AppConfiguration → Outcome
build topics files config =
    with_storage config (load_file_config topics []).0 (open_storage (files config.storage.path))

abbrev pub configured : Option Bytes → (Bytes → Option Bytes) → Load AppConfiguration → Outcome
configured topics files (err e) = exit_failure
configured topics files (ok config) = build topics files config

module _ {Node : Type 0} (yaml : Yaml Node) where
  unfoldable pub boot : Option (Load Node) → Option Bytes → (Bytes → Option Bytes) → Outcome
  boot file topics files = configured topics files (load_config yaml file)
