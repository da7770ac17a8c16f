-- ===== src/Config/Tests.antt =====
-- A library whose nodes are the keys that lead to them.
use event_stream_core.Prelude.{
  ◌≡◌, ◌↔◌, refl, true, false, some, [], ◌∷◌, Bytes, eqb, if◌then◌else◌, ok, err,
}
use event_stream_core.Config.{
  ℤ, pos, negsuc, AppConfiguration, BroadCastPushConfig, sqlite, invalid_router, validate,
}
use event_stream_core.Config.Keys.{
  key_port, key_backend, key_app_name, key_version, key_host, key_path, key_strategy,
  key_rules_file, key_sqlite_path, key_script_path, key_load,
}
use event_stream_core.Config.Load.{
  Yaml, read_config, load_config, parse_tcp_config, parse_udp_config, parse_file_config,
  parse_router, parse_rule_engine, parse_storage, parse_python, parse_broad_cast_push_config,
  parse_plugins, parse_threads_pool, strings_of,
}
use event_stream_core.Config.Valid.{IsValid}
use event_stream_core.Config.Loaded.{ReadAs, load_config_iff}

-- Every port is `port`, every other number is `n`, and a string is the key that it stands at.
abbrev keyed : ℤ → ℤ → Yaml Bytes
keyed port n = record {
  subscript = λ node key. ok key;
  is_defined = λ node. true;
  as_string = λ node. ok (if eqb node key_backend then sqlite else node);
  as_int = λ node. ok (if eqb node key_port then port else n);
  as_bool_or = λ node default. default;
  items = λ node. ok (node ∷ []);
}

abbrev pushed_to : BroadCastPushConfig
pushed_to = record { host = key_host; port = pos 8080; enable = false }

abbrev config : AppConfiguration
config = record {
  app_name = key_app_name;
  version = key_version;
  ingestion = record {
    tcp_config = record {
      host = key_host;
      port = pos 8080;
      enable = false;
      max_connections = pos 4;
    };
    udp_config = record { host = key_host; port = pos 8080; enable = false; buffer_size = pos 4 };
    file_config = record { path = key_path; enable = false; poll_interval_ms = pos 4 };
  };
  router = record { shards = pos 4; strategy = key_strategy; buffer_size = pos 4 };
  rule_engine = record {
    enable_cache = false;
    rules_file = key_rules_file;
    threads = pos 4;
    cache_size = pos 4;
  };
  storage = record { backend = sqlite; path = key_sqlite_path };
  python = record { enable = false; script_path = key_script_path };
  broadcast = record { tcp_push = pushed_to; websocket_push = pushed_to };
  thread_pool = record { min_threads = pos 4; max_threads = pos 4 };
  plugin_list = key_load ∷ [];
}

no_shards : load_config (keyed (pos 8080) (negsuc 0)) (some (ok [])) ≡ err invalid_router
unfolding load_config read_config validate parse_tcp_config parse_udp_config parse_file_config
    parse_router parse_rule_engine parse_storage parse_python parse_broad_cast_push_config
    parse_plugins parse_threads_pool strings_of eqb
no_shards = refl

loaded : load_config (keyed (pos 8080) (pos 4)) (some (ok [])) ≡ ok config
unfolding load_config read_config validate parse_tcp_config parse_udp_config parse_file_config
    parse_router parse_rule_engine parse_storage parse_python parse_broad_cast_push_config
    parse_plugins parse_threads_pool strings_of eqb
loaded = refl

load_config_iff_example :
    (load_config (keyed (pos 8080) (pos 4)) (some (ok [])) ≡ ok config)
    ↔ (ReadAs (keyed (pos 8080) (pos 4)) (some (ok [])) config × IsValid config)
load_config_iff_example = load_config_iff (keyed (pos 8080) (pos 4)) (some (ok [])) config
