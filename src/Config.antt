-- ===== src/Config.antt =====
-- include/config/AppConfig.hpp and src/config/ConfigLoader.cpp: the configuration, read through a
-- YAML library, which is the parameter `Yaml`: its nodes, subscript, test and conversions. An exception
-- of the library is the error `yaml_error`; the others are those that the loader throws.
pub mod Keys
pub mod Load
pub mod Valid
pub mod Loaded
pub mod Required
mod Tests
use event_stream_core.Prelude.{
  ℕ, zero, suc, Bool, true, false, not, ◌&&◌, ◌||◌, Option, none, some, List, [], ◌∷◌, ltb,
  if◌then◌else◌, Bytes, eqb, Result, ok, err, ◌>>=◌, ◌>>◌, throw_if,
}

-- `int`
pub data ℤ : Type 0 where
  pos negsuc : ℕ → ℤ

pub data ConfigError : Type 0 where
  file_not_found yaml_error : ConfigError
  missing_key : Bytes → ConfigError
  invalid_port invalid_file_ingestion invalid_router invalid_rule_engine : ConfigError
  unsupported_backend invalid_python invalid_threads_pool : ConfigError

abbrev pub Load : Type 0 → Type 0
Load A = Result ConfigError A

pub record TcpConfig : Type 0 where
  pub host : Bytes
  pub port : ℤ
  pub enable : Bool
  pub max_connections : ℤ

pub record UdpConfig : Type 0 where
  pub host : Bytes
  pub port : ℤ
  pub enable : Bool
  pub buffer_size : ℤ

pub record FileConfig : Type 0 where
  pub path : Bytes
  pub enable : Bool
  pub poll_interval_ms : ℤ

pub record IngestionConfig : Type 0 where
  pub tcp_config : TcpConfig
  pub udp_config : UdpConfig
  pub file_config : FileConfig

pub record Router : Type 0 where
  pub shards : ℤ
  pub strategy : Bytes
  pub buffer_size : ℤ

pub record RuleEngine : Type 0 where
  pub enable_cache : Bool
  pub rules_file : Bytes
  pub threads : ℤ
  pub cache_size : ℤ

pub record StorageConfig : Type 0 where
  pub backend : Bytes
  pub path : Bytes

pub record PythonConfig : Type 0 where
  pub enable : Bool
  pub script_path : Bytes

pub record BroadCastPushConfig : Type 0 where
  pub host : Bytes
  pub port : ℤ
  pub enable : Bool

pub record BoardCastConfig : Type 0 where
  pub tcp_push : BroadCastPushConfig
  pub websocket_push : BroadCastPushConfig

pub record ThreadsPoolConfig : Type 0 where
  pub min_threads : ℤ
  pub max_threads : ℤ

pub record AppConfiguration : Type 0 where
  pub app_name : Bytes
  pub version : Bytes
  pub ingestion : IngestionConfig
  pub router : Router
  pub rule_engine : RuleEngine
  pub storage : StorageConfig
  pub python : PythonConfig
  pub broadcast : BoardCastConfig
  pub thread_pool : ThreadsPoolConfig
  pub plugin_list : List Bytes

-- `n <= 0`, `n < 0`, `n > 65535` and `m > n`.
abbrev pub not_positive : ℤ → Bool
not_positive (pos zero) = true
not_positive (pos (suc n)) = false
not_positive (negsuc n) = true

abbrev pub is_negative : ℤ → Bool
is_negative (pos n) = false
is_negative (negsuc n) = true

abbrev pub is_above : ℤ → ℤ → Bool
is_above (pos m) (pos n) = ltb n m
is_above (pos m) (negsuc n) = true
is_above (negsuc m) (pos n) = false
is_above (negsuc m) (negsuc n) = ltb m n

abbrev pub bad_port : ℤ → Bool
bad_port port = not_positive port || is_above port (pos 65535)

abbrev pub is_empty : Bytes → Bool
is_empty [] = true
is_empty (b ∷ bs) = false

abbrev pub sqlite : Bytes
sqlite = b's' ∷ b'q' ∷ b'l' ∷ b'i' ∷ b't' ∷ b'e' ∷ []

abbrev pub filesystem : Bytes
filesystem = b'f' ∷ b'i' ∷ b'l' ∷ b'e' ∷ b's' ∷ b'y' ∷ b's' ∷ b't' ∷ b'e' ∷ b'm' ∷ []

-- The checks at the end of `loadConfig`.
unfoldable pub validate : AppConfiguration → Load AppConfiguration
validate c = do
  throw_if (bad_port c.ingestion.tcp_config.port) invalid_port
  throw_if (bad_port c.ingestion.udp_config.port) invalid_port
  throw_if (c.ingestion.file_config.enable && is_empty c.ingestion.file_config.path)
      invalid_file_ingestion
  throw_if (not_positive c.router.shards || not_positive c.router.buffer_size) invalid_router
  throw_if (not_positive c.rule_engine.threads || is_negative c.rule_engine.cache_size)
      invalid_rule_engine
  throw_if (not (eqb c.storage.backend sqlite) && not (eqb c.storage.backend filesystem))
      unsupported_backend
  throw_if (c.python.enable && is_empty c.python.script_path) invalid_python
  throw_if
      (not_positive c.thread_pool.min_threads
        || not_positive c.thread_pool.max_threads
        || is_above c.thread_pool.min_threads c.thread_pool.max_threads)
      invalid_threads_pool
  ok c
