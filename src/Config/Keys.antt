-- ===== src/Config/Keys.antt =====
-- The keys of the configuration file.
use event_stream_core.Prelude.{[], ◌∷◌, Bytes}

abbrev pub key_app_name : Bytes
key_app_name = b'a' ∷ b'p' ∷ b'p' ∷ b'_' ∷ b'n' ∷ b'a' ∷ b'm' ∷ b'e' ∷ []

abbrev pub key_version : Bytes
key_version = b'v' ∷ b'e' ∷ b'r' ∷ b's' ∷ b'i' ∷ b'o' ∷ b'n' ∷ []

abbrev pub key_ingestion : Bytes
key_ingestion = b'i' ∷ b'n' ∷ b'g' ∷ b'e' ∷ b's' ∷ b't' ∷ b'i' ∷ b'o' ∷ b'n' ∷ []

abbrev pub key_tcp : Bytes
key_tcp = b't' ∷ b'c' ∷ b'p' ∷ []

abbrev pub key_udp : Bytes
key_udp = b'u' ∷ b'd' ∷ b'p' ∷ []

abbrev pub key_file : Bytes
key_file = b'f' ∷ b'i' ∷ b'l' ∷ b'e' ∷ []

abbrev pub key_router : Bytes
key_router = b'r' ∷ b'o' ∷ b'u' ∷ b't' ∷ b'e' ∷ b'r' ∷ []

abbrev pub key_rule_engine : Bytes
key_rule_engine = b'r' ∷ b'u' ∷ b'l' ∷ b'e' ∷ b'_' ∷ b'e' ∷ b'n' ∷ b'g' ∷ b'i' ∷ b'n' ∷ b'e' ∷ []

abbrev pub key_storage : Bytes
key_storage = b's' ∷ b't' ∷ b'o' ∷ b'r' ∷ b'a' ∷ b'g' ∷ b'e' ∷ []

abbrev pub key_python_integration : Bytes
key_python_integration =
    b'p' ∷ b'y' ∷ b't' ∷ b'h' ∷ b'o' ∷ b'n' ∷ b'_' ∷ b'i' ∷ b'n' ∷ b't' ∷ b'e' ∷ b'g' ∷ b'r' ∷ b'a'
    ∷ b't' ∷ b'i' ∷ b'o' ∷ b'n' ∷ []

abbrev pub key_broadcast : Bytes
key_broadcast = b'b' ∷ b'r' ∷ b'o' ∷ b'a' ∷ b'd' ∷ b'c' ∷ b'a' ∷ b's' ∷ b't' ∷ []

abbrev pub key_tcp_push : Bytes
key_tcp_push = b't' ∷ b'c' ∷ b'p' ∷ b'_' ∷ b'p' ∷ b'u' ∷ b's' ∷ b'h' ∷ []

abbrev pub key_websocket_push : Bytes
key_websocket_push =
    b'w' ∷ b'e' ∷ b'b' ∷ b's' ∷ b'o' ∷ b'c' ∷ b'k' ∷ b'e' ∷ b't' ∷ b'_' ∷ b'p' ∷ b'u' ∷ b's' ∷ b'h'
    ∷ []

abbrev pub key_plugins : Bytes
key_plugins = b'p' ∷ b'l' ∷ b'u' ∷ b'g' ∷ b'i' ∷ b'n' ∷ b's' ∷ []

abbrev pub key_load : Bytes
key_load = b'l' ∷ b'o' ∷ b'a' ∷ b'd' ∷ []

abbrev pub key_threads_pool : Bytes
key_threads_pool =
    b'T' ∷ b'h' ∷ b'r' ∷ b'e' ∷ b'a' ∷ b'd' ∷ b's' ∷ b'_' ∷ b'p' ∷ b'o' ∷ b'o' ∷ b'l' ∷ []

abbrev pub key_host : Bytes
key_host = b'h' ∷ b'o' ∷ b's' ∷ b't' ∷ []

abbrev pub key_port : Bytes
key_port = b'p' ∷ b'o' ∷ b'r' ∷ b't' ∷ []

abbrev pub key_enable : Bytes
key_enable = b'e' ∷ b'n' ∷ b'a' ∷ b'b' ∷ b'l' ∷ b'e' ∷ []

abbrev pub key_max_connections : Bytes
key_max_connections =
    b'm' ∷ b'a' ∷ b'x' ∷ b'C' ∷ b'o' ∷ b'n' ∷ b'n' ∷ b'e' ∷ b'c' ∷ b't' ∷ b'i' ∷ b'o' ∷ b'n' ∷ b's'
    ∷ []

abbrev pub key_buffer_bytes : Bytes
key_buffer_bytes = b'b' ∷ b'u' ∷ b'f' ∷ b'f' ∷ b'e' ∷ b'r' ∷ b'S' ∷ b'i' ∷ b'z' ∷ b'e' ∷ []

abbrev pub key_path : Bytes
key_path = b'p' ∷ b'a' ∷ b't' ∷ b'h' ∷ []

abbrev pub key_poll_interval_ms : Bytes
key_poll_interval_ms =
    b'p' ∷ b'o' ∷ b'l' ∷ b'l' ∷ b'_' ∷ b'i' ∷ b'n' ∷ b't' ∷ b'e' ∷ b'r' ∷ b'v' ∷ b'a' ∷ b'l' ∷ b'_'
    ∷ b'm' ∷ b's' ∷ []

abbrev pub key_shards : Bytes
key_shards = b's' ∷ b'h' ∷ b'a' ∷ b'r' ∷ b'd' ∷ b's' ∷ []

abbrev pub key_strategy : Bytes
key_strategy = b's' ∷ b't' ∷ b'r' ∷ b'a' ∷ b't' ∷ b'e' ∷ b'g' ∷ b'y' ∷ []

abbrev pub key_buffer_size : Bytes
key_buffer_size = b'b' ∷ b'u' ∷ b'f' ∷ b'f' ∷ b'e' ∷ b'r' ∷ b'_' ∷ b's' ∷ b'i' ∷ b'z' ∷ b'e' ∷ []

abbrev pub key_enable_cache : Bytes
key_enable_cache =
    b'e' ∷ b'n' ∷ b'a' ∷ b'b' ∷ b'l' ∷ b'e' ∷ b'_' ∷ b'c' ∷ b'a' ∷ b'c' ∷ b'h' ∷ b'e' ∷ []

abbrev pub key_rules_file : Bytes
key_rules_file = b'r' ∷ b'u' ∷ b'l' ∷ b'e' ∷ b's' ∷ b'_' ∷ b'f' ∷ b'i' ∷ b'l' ∷ b'e' ∷ []

abbrev pub key_threads : Bytes
key_threads = b't' ∷ b'h' ∷ b'r' ∷ b'e' ∷ b'a' ∷ b'd' ∷ b's' ∷ []

abbrev pub key_cache_size : Bytes
key_cache_size = b'c' ∷ b'a' ∷ b'c' ∷ b'h' ∷ b'e' ∷ b'_' ∷ b's' ∷ b'i' ∷ b'z' ∷ b'e' ∷ []

abbrev pub key_backend : Bytes
key_backend = b'b' ∷ b'a' ∷ b'c' ∷ b'k' ∷ b'e' ∷ b'n' ∷ b'd' ∷ []

abbrev pub key_sqlite_path : Bytes
key_sqlite_path = b's' ∷ b'q' ∷ b'l' ∷ b'i' ∷ b't' ∷ b'e' ∷ b'_' ∷ b'p' ∷ b'a' ∷ b't' ∷ b'h' ∷ []

abbrev pub key_script_path : Bytes
key_script_path = b's' ∷ b'c' ∷ b'r' ∷ b'i' ∷ b'p' ∷ b't' ∷ b'_' ∷ b'p' ∷ b'a' ∷ b't' ∷ b'h' ∷ []

abbrev pub key_min_threads : Bytes
key_min_threads = b'm' ∷ b'i' ∷ b'n' ∷ b'_' ∷ b't' ∷ b'h' ∷ b'r' ∷ b'e' ∷ b'a' ∷ b'd' ∷ b's' ∷ []

abbrev pub key_max_threads : Bytes
key_max_threads = b'm' ∷ b'a' ∷ b'x' ∷ b'_' ∷ b't' ∷ b'h' ∷ b'r' ∷ b'e' ∷ b'a' ∷ b'd' ∷ b's' ∷ []
