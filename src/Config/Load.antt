-- ===== src/Config/Load.antt =====
-- `ConfigLoader::loadConfig`, on the nodes of the YAML library.
use event_stream_core.Prelude.{
  Bool, true, false, Option, none, some, List, [], ◌∷◌, Bytes, ok, err, ◌>>=◌, ◌>>◌, throw_if, not,
}
use event_stream_core.Config.{
  ℤ, Load, file_not_found, missing_key, TcpConfig, UdpConfig, FileConfig, Router, RuleEngine,
  StorageConfig, PythonConfig, BroadCastPushConfig, ThreadsPoolConfig, AppConfiguration, validate,
}
use event_stream_core.Config.Keys.{
  key_app_name, key_version, key_ingestion, key_tcp, key_udp, key_file, key_router, key_rule_engine,
  key_storage, key_python_integration, key_broadcast, key_tcp_push, key_websocket_push, key_plugins,
  key_load, key_threads_pool, key_host, key_port, key_enable, key_max_connections, key_buffer_bytes,
  key_path, key_poll_interval_ms, key_shards, key_strategy, key_buffer_size, key_enable_cache,
  key_rules_file, key_threads, key_cache_size, key_backend, key_sqlite_path, key_script_path,
  key_min_threads, key_max_threads,
}

-- The YAML library. A subscript and a conversion can throw; a test `!node`, and a conversion with a
-- default, cannot.
pub record Yaml (Node : Type 0) : Type 0 where
  pub subscript : Node → Bytes → Load Node
  pub is_defined : Node → Bool
  pub as_string : Node → Load Bytes
  pub as_int : Node → Load ℤ
  pub as_bool_or : Node → Bool → Bool
  pub items : Node → Load (List Node)

module _ {Node : Type 0} (yaml : Yaml Node) where
  open yaml use {subscript, is_defined, as_string, as_int, as_bool_or, items}

  -- `ValidateNodeExists`
  abbrev pub validate_node_exists : Node → Bytes → Load (Unit {0})
  validate_node_exists node key = do
    child ← subscript node key
    throw_if (not (is_defined child)) (missing_key key)

  -- `node[key].as<std::string>()`, and so on.
  abbrev string_at : Node → Bytes → Load Bytes
  string_at node key = subscript node key >>= as_string

  abbrev int_at : Node → Bytes → Load ℤ
  int_at node key = subscript node key >>= as_int

  abbrev bool_at : Node → Bytes → Load Bool
  bool_at node key = do child ← subscript node key; ok (as_bool_or child false)

  unfoldable pub parse_tcp_config : Node → Load TcpConfig
  parse_tcp_config node = do
    host ← string_at node key_host
    port ← int_at node key_port
    enable ← bool_at node key_enable
    max_connections ← int_at node key_max_connections
    ok (record { host = host; port = port; enable = enable; max_connections = max_connections })

  unfoldable pub parse_udp_config : Node → Load UdpConfig
  parse_udp_config node = do
    host ← string_at node key_host
    port ← int_at node key_port
    enable ← bool_at node key_enable
    buffer_size ← int_at node key_buffer_bytes
    ok (record { host = host; port = port; enable = enable; buffer_size = buffer_size })

  unfoldable pub parse_file_config : Node → Load FileConfig
  parse_file_config node = do
    path ← string_at node key_path
    enable ← bool_at node key_enable
    poll_interval_ms ← int_at node key_poll_interval_ms
    ok (record { path = path; enable = enable; poll_interval_ms = poll_interval_ms })

  unfoldable pub parse_broad_cast_push_config : Node → Load BroadCastPushConfig
  parse_broad_cast_push_config node = do
    host ← string_at node key_host
    port ← int_at node key_port
    enable ← bool_at node key_enable
    ok (record { host = host; port = port; enable = enable })

  unfoldable pub parse_router : Node → Load Router
  parse_router node = do
    shards ← int_at node key_shards
    strategy ← string_at node key_strategy
    buffer_size ← int_at node key_buffer_size
    ok (record { shards = shards; strategy = strategy; buffer_size = buffer_size })

  unfoldable pub parse_rule_engine : Node → Load RuleEngine
  parse_rule_engine node = do
    enable_cache ← bool_at node key_enable_cache
    rules_file ← string_at node key_rules_file
    threads ← int_at node key_threads
    cache_size ← int_at node key_cache_size
    ok (record {
      enable_cache = enable_cache;
      rules_file = rules_file;
      threads = threads;
      cache_size = cache_size;
    })

  unfoldable pub parse_storage : Node → Load StorageConfig
  parse_storage node = do
    backend ← string_at node key_backend
    path ← string_at node key_sqlite_path
    ok (record { backend = backend; path = path })

  unfoldable pub parse_python : Node → Load PythonConfig
  parse_python node = do
    enable ← bool_at node key_enable
    script_path ← string_at node key_script_path
    ok (record { enable = enable; script_path = script_path })

  unfoldable pub parse_threads_pool : Node → Load ThreadsPoolConfig
  parse_threads_pool node = do
    min_threads ← int_at node key_min_threads
    max_threads ← int_at node key_max_threads
    ok (record { min_threads = min_threads; max_threads = max_threads })

  unfoldable pub strings_of : List Node → Load (List Bytes)
  strings_of [] = ok []
  strings_of (node ∷ nodes) = do
    plugin ← as_string node
    plugins ← strings_of nodes
    ok (plugin ∷ plugins)

  -- `if (root["plugins"] && root["plugins"]["load"])`
  abbrev plugins_if : Bool → Node → Load (List Bytes)
  plugins_if false node = ok []
  plugins_if true node = items node >>= strings_of

  abbrev plugins_in : Bool → Node → Load (List Bytes)
  plugins_in false plugins = ok []
  plugins_in true plugins = do load ← subscript plugins key_load; plugins_if (is_defined load) load

  unfoldable pub parse_plugins : Node → Load (List Bytes)
  parse_plugins root = do
    plugins ← subscript root key_plugins
    plugins_in (is_defined plugins) plugins

  -- A section that must be there.
  abbrev section_of : Node → Bytes → Load Node
  section_of node key = validate_node_exists node key >> subscript node key

  unfoldable pub read_config : Node → Load AppConfiguration
  read_config root = do
    validate_node_exists root key_app_name
    validate_node_exists root key_version
    app_name ← string_at root key_app_name
    version ← string_at root key_version
    ingestion ← section_of root key_ingestion
    tcp_config ← subscript ingestion key_tcp >>= parse_tcp_config
    udp_config ← subscript ingestion key_udp >>= parse_udp_config
    file_config ← subscript ingestion key_file >>= parse_file_config
    router ← section_of root key_router >>= parse_router
    rule_engine ← section_of root key_rule_engine >>= parse_rule_engine
    storage ← section_of root key_storage >>= parse_storage
    python ← section_of root key_python_integration >>= parse_python
    broadcast ← section_of root key_broadcast
    validate_node_exists broadcast key_tcp_push
    validate_node_exists broadcast key_websocket_push
    tcp_push ← subscript broadcast key_tcp_push >>= parse_broad_cast_push_config
    websocket_push ← subscript broadcast key_websocket_push >>= parse_broad_cast_push_config
    plugin_list ← parse_plugins root
    thread_pool ← section_of root key_threads_pool >>= parse_threads_pool
    ok (record {
      app_name = app_name;
      version = version;
      ingestion = record {
        tcp_config = tcp_config;
        udp_config = udp_config;
        file_config = file_config;
      };
      router = router;
      rule_engine = rule_engine;
      storage = storage;
      python = python;
      broadcast = record { tcp_push = tcp_push; websocket_push = websocket_push };
      thread_pool = thread_pool;
      plugin_list = plugin_list;
    })

  -- `none` is a file that cannot be opened; `YAML::LoadFile` can throw.
  unfoldable pub load_config : Option (Load Node) → Load AppConfiguration
  load_config none = err file_not_found
  load_config (some file) = file >>= read_config >>= validate
