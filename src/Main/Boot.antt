-- ===== src/Main/Boot.antt =====
-- When the program starts, and as what.
use event_stream_core.Prelude.{
  ℕ, zero, suc, ◌≡◌, ◌↔◌, refl, ap, sym, ◌∙◌, true, Option, none, some, [], Bytes, ok, err, arith,
}
use event_stream_core.Config.{ℤ, pos, negsuc, Load, AppConfiguration}
use event_stream_core.Config.Load.{Yaml, load_config}
use event_stream_core.Config.Valid.{IsValid, IsPositive}
use event_stream_core.Config.Loaded.{ReadAs, load_config_iff}
use event_stream_core.TopicTable.{load_file_config}
use event_stream_core.Storage.{open_storage}
use event_stream_core.System.{System, new_system}
use event_stream_core.Main.{started, size_of_int, with_storage, build, configured, boot}

-- The system that a configuration describes, on a file with these contents.
abbrev pub system_of : AppConfiguration → Option Bytes → Bytes → ℕ → System
system_of config topics contents n =
    new_system (load_file_config topics []).0 (record { contents = contents; good = true }) (suc n)

positive_size : (m : ℤ) → IsPositive m → (n : ℕ) × (m ≡ pos (suc n))
positive_size (pos zero) h = absurd (omega arith)
positive_size (pos (suc n)) h = (n, refl)
positive_size (negsuc n) h = elim h [ ]

started-inj : (a b : System) → started a ≡ started b → a ≡ b
started-inj a b e = cc

module _ (topics : Option Bytes) (files : Bytes → Option Bytes) where
  abbrev StartsAs : AppConfiguration → System → Type 0
  StartsAs config s =
      (contents : Bytes) × (n : ℕ) × (files config.storage.path ≡ some contents)
      × (config.thread_pool.max_threads ≡ pos (suc n))
      × (s ≡ system_of config topics contents n)

  opened :
      (config : AppConfiguration) (s : System) (file : Option Bytes) (n : ℕ)
      → config.thread_pool.max_threads ≡ pos (suc n)
      → with_storage config (load_file_config topics []).0 (open_storage file) ≡ started s
      → (contents : Bytes) × (file ≡ some contents) × (s ≡ system_of config topics contents n)
  opened config s none n e h = cc
  opened config s (some contents) n e h = (
    contents,
    refl,
    started-inj s _ (
        sym h
        ∙ ap
            (λ m. started (
              new_system (load_file_config topics []).0
                (record { contents = contents; good = true }) (size_of_int m)))
            e),
  )

  build-started :
      (config : AppConfiguration) (s : System)
      → IsValid config
      → build topics files config ≡ started s
      → StartsAs config s
  build-started config s valid h =
      let (n, e) = positive_size config.thread_pool.max_threads valid.max_threads in
      let (contents, can_open, same) = opened config s (files config.storage.path) n e h in
      (contents, n, can_open, e, same)

  StartsAs-build :
      (config : AppConfiguration) (s : System)
      → StartsAs config s
      → build topics files config ≡ started s
  StartsAs-build config s (contents, n, can_open, e, same) =
      ap (λ f. with_storage config (load_file_config topics []).0 (open_storage f)) can_open
      ∙ ap
          (λ m. started (
            new_system (load_file_config topics []).0 (record { contents = contents; good = true })
              (size_of_int m)))
          e
      ∙ ap started (sym same)

  configured-inv :
      (r : Load AppConfiguration) (s : System)
      → configured topics files r ≡ started s
      → (config : AppConfiguration) × (r ≡ ok config) × (build topics files config ≡ started s)
  configured-inv (ok config) s h = (config, refl, h)
  configured-inv (err e) s h = cc

  -- The program starts exactly if the configuration file is read as a configuration in range and
  -- the file of the storage can be opened; it then has the table of the topics file, empty queues,
  -- all threads at their start, as many workers as the configuration allows at most, one at least,
  -- and appends to what the file holds.
  pub boot_iff :
      {Node : Type 0} (yaml : Yaml Node) (file : Option (Load Node)) (s : System)
      → (boot yaml file topics files ≡ started s) ↔ (
          (config : AppConfiguration) × ReadAs yaml file config
          × IsValid config
          × (contents : Bytes) × (n : ℕ) × (files config.storage.path ≡ some contents)
          × (config.thread_pool.max_threads ≡ pos (suc n))
          × (s ≡ system_of config topics contents n))
  unfolding boot
  boot_iff yaml file s = (
    λ h.
        let (config, loads, built) = configured-inv (load_config yaml file) s h in
        let (reads, valid) = (load_config_iff yaml file config).0 loads in
        let (contents, n, can_open, e, same) = build-started config s valid built in
        (config, reads, valid, contents, n, can_open, e, same),
    λ h.
        let (config, reads, valid, contents, n, can_open, e, same) = h in
        ap (configured topics files) ((load_config_iff yaml file config).1 (reads, valid))
        ∙ StartsAs-build config s (contents, n, can_open, e, same),
  )
