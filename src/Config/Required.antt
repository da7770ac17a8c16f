-- ===== src/Config/Required.antt =====
-- The sections and the keys that a file must have.
use event_stream_core.Prelude.{
  ◌≡◌, refl, Bool, true, false, not, some, List, [], ◌∷◌, All, Bytes, Result, ok, err, ◌>>=◌, ◌>>◌,
  throw_if,
}
use event_stream_core.Config.{ConfigError, Load, missing_key, AppConfiguration}
use event_stream_core.Config.Keys.{
  key_app_name, key_version, key_ingestion, key_tcp, key_udp, key_file, key_router, key_rule_engine,
  key_storage, key_python_integration, key_broadcast, key_tcp_push, key_websocket_push,
  key_threads_pool,
}
use event_stream_core.Config.Load.{
  Yaml, validate_node_exists, read_config, load_config, parse_tcp_config, parse_udp_config,
  parse_file_config, parse_router, parse_rule_engine, parse_storage, parse_python,
  parse_broad_cast_push_config, parse_plugins, parse_threads_pool,
}

abbrev pub required_keys : List Bytes
required_keys =
    key_app_name ∷ key_version ∷ key_ingestion ∷ key_router ∷ key_rule_engine ∷ key_storage
    ∷ key_python_integration ∷ key_broadcast ∷ key_threads_pool ∷ []

bind-inv {ℓ κ} :
    {A : Type ℓ} {B : Type κ} (m : Result ConfigError A) {f : A → Result ConfigError B} {b : B}
    → (m >>= f) ≡ ok b
    → (a : A) × (m ≡ ok a) × (f a ≡ ok b)
bind-inv (ok a) e = (a, refl, e)
bind-inv (err x) e = cc

module _ {Node : Type 0} (yaml : Yaml Node) where
  unfoldable pub IsThere : Node → Bytes → Type 0
  IsThere node key =
      (child : Node) × (yaml.subscript node key ≡ ok child) × (yaml.is_defined child ≡ true)

  throw-inv :
      (b : Bool) (key : Bytes) {u : Unit {0}} → throw_if (not b) (missing_key key) ≡ ok u → b ≡ true
  throw-inv true key e = refl
  throw-inv false key e = cc

  validate_node_exists-inv :
      (node : Node) (key : Bytes) {u : Unit {0}}
      → validate_node_exists yaml node key ≡ ok u
      → IsThere node key
  unfolding IsThere
  validate_node_exists-inv node key e =
      let (child, found, test) = bind-inv (yaml.subscript node key) e in
      (child, found, throw-inv (yaml.is_defined child) key test)

  section-inv :
      (node : Node) (key : Bytes) {child : Node}
      → (validate_node_exists yaml node key >> yaml.subscript node key) ≡ ok child
      → IsThere node key
  section-inv node key e =
      let (_, there, _) = bind-inv (validate_node_exists yaml node key) e in
      validate_node_exists-inv node key there

  parsed-inv :
      {A : Type 0} (node : Node) (key : Bytes) (parse : Node → Load A) {a : A}
      → (validate_node_exists yaml node key >> yaml.subscript node key >>= parse) ≡ ok a
      → IsThere node key
  parsed-inv node key parse e =
      let (_, section, _) =
        bind-inv (validate_node_exists yaml node key >> yaml.subscript node key) e in
      section-inv node key section

  read_config-required :
      (root : Node) {c : AppConfiguration}
      → read_config yaml root ≡ ok c
      → All (IsThere root) required_keys
  unfolding read_config
  read_config-required root e =
      let there = λ (key : Bytes). validate_node_exists yaml root key in
      let section = λ (key : Bytes). there key >> yaml.subscript root key in
      let (_, app_name, r₁) = bind-inv (there key_app_name) e in
      let (_, version, r₂) = bind-inv (there key_version) r₁ in
      let (_, _, r₃) = bind-inv (yaml.subscript root key_app_name >>= yaml.as_string) r₂ in
      let (_, _, r₄) = bind-inv (yaml.subscript root key_version >>= yaml.as_string) r₃ in
      let (node, ingestion, r₅) = bind-inv (section key_ingestion) r₄ in
      let (_, _, r₆) = bind-inv (yaml.subscript node key_tcp >>= parse_tcp_config yaml) r₅ in
      let (_, _, r₇) = bind-inv (yaml.subscript node key_udp >>= parse_udp_config yaml) r₆ in
      let (_, _, r₈) = bind-inv (yaml.subscript node key_file >>= parse_file_config yaml) r₇ in
      let (_, router, r₉) = bind-inv (section key_router >>= parse_router yaml) r₈ in
      let (_, rules, s₁) = bind-inv (section key_rule_engine >>= parse_rule_engine yaml) r₉ in
      let (_, storage, s₂) = bind-inv (section key_storage >>= parse_storage yaml) s₁ in
      let (_, python, s₃) = bind-inv (section key_python_integration >>= parse_python yaml) s₂ in
      let (cast, broadcast, s₄) = bind-inv (section key_broadcast) s₃ in
      let (_, _, s₅) = bind-inv (validate_node_exists yaml cast key_tcp_push) s₄ in
      let (_, _, s₆) = bind-inv (validate_node_exists yaml cast key_websocket_push) s₅ in
      let push = parse_broad_cast_push_config yaml in
      let (_, _, s₇) = bind-inv (yaml.subscript cast key_tcp_push >>= push) s₆ in
      let (_, _, s₈) = bind-inv (yaml.subscript cast key_websocket_push >>= push) s₇ in
      let (_, _, s₉) = bind-inv (parse_plugins yaml root) s₈ in
      let (_, threads, _) = bind-inv (section key_threads_pool >>= parse_threads_pool yaml) s₉ in
      (
        validate_node_exists-inv root key_app_name app_name,
        (
          validate_node_exists-inv root key_version version,
          (
            section-inv root key_ingestion ingestion,
            (
              parsed-inv root key_router (parse_router yaml) router,
              (
                parsed-inv root key_rule_engine (parse_rule_engine yaml) rules,
                (
                  parsed-inv root key_storage (parse_storage yaml) storage,
                  (
                    parsed-inv root key_python_integration (parse_python yaml) python,
                    (
                      section-inv root key_broadcast broadcast,
                      (parsed-inv root key_threads_pool (parse_threads_pool yaml) threads, tt),
                    ),
                  ),
                ),
              ),
            ),
          ),
        ),
      )

  -- A file that is loaded has, at its top, the name, the version, and the sections for the ingestion,
  -- the router, the rules, the storage, Python, the broadcast and the pool.
  pub load_config-required :
      (root : Node) (c : AppConfiguration)
      → load_config yaml (some (ok root)) ≡ ok c
      → All (IsThere root) required_keys
  unfolding load_config
  load_config-required root c e =
      let (_, read, _) = bind-inv (read_config yaml root) e in read_config-required root read
