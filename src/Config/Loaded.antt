-- ===== src/Config/Loaded.antt =====
-- Which files are loaded, and what as.
use event_stream_core.Prelude.{◌≡◌, ◌↔◌, refl, ap, subst, ◌∙◌, Option, none, some, ok, err, ◌>>=◌}
use event_stream_core.Config.{Load, AppConfiguration, validate}
use event_stream_core.Config.Load.{Yaml, read_config, load_config}
use event_stream_core.Config.Valid.{IsValid, validate-inv, validate-IsValid}

module _ {Node : Type 0} (yaml : Yaml Node) where
  -- The file can be opened and parsed, and is read as this configuration.
  abbrev pub ReadAs : Option (Load Node) → AppConfiguration → Type 0
  ReadAs file c = (root : Node) × (file ≡ some (ok root)) × (read_config yaml root ≡ ok c)

  validated :
      (read : Load AppConfiguration) {c : AppConfiguration}
      → (read >>= validate) ≡ ok c
      → (read ≡ ok c) × IsValid c
  validated (ok c') h =
      let (same, valid) = validate-inv c' h in (ap ok same, subst IsValid same valid)
  validated (err e) h = cc

  load_config-inv :
      (file : Option (Load Node)) {c : AppConfiguration}
      → load_config yaml file ≡ ok c
      → ReadAs file c × IsValid c
  unfolding load_config
  load_config-inv none h = cc
  load_config-inv (some (err e)) h = cc
  load_config-inv (some (ok root)) h =
      let (read, valid) = validated (read_config yaml root) h in ((root, refl, read), valid)

  ReadAs-load_config :
      (file : Option (Load Node)) (c : AppConfiguration)
      → ReadAs file c
      → IsValid c
      → load_config yaml file ≡ ok c
  unfolding load_config
  ReadAs-load_config file c (root, is_file, read) valid =
      ap (load_config yaml) is_file ∙ ap (λ r. r >>= validate) read ∙ validate-IsValid c valid

  -- The loader returns a configuration exactly if the file is read as it and all of it is in range:
  -- both ports from 1 to 65535, positive numbers of shards, buffers and threads, a cache size that
  -- is not negative, a backend that is known, a path where one is needed, and no more threads at
  -- least than at most.
  pub load_config_iff :
      (file : Option (Load Node)) (c : AppConfiguration)
      → (load_config yaml file ≡ ok c) ↔ (ReadAs file c × IsValid c)
  load_config_iff file c = (load_config-inv file, λ h. ReadAs-load_config file c h.0 h.1)
