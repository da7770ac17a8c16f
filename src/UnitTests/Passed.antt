-- ===== src/UnitTests/Passed.antt =====
-- The tests pass, and for what reason.
use event_stream_core.Prelude.{
  All, sym, ℕ, ◌≡◌, ◌≢◌, refl, ap, ap₂, ◌+◌, u64, ◌∙◌, true, Option, none, some, ◌++◌, Bytes, eqb,
  ok, err, arith, inl, inr,
}
use event_stream_core.Event.{Event}
use event_stream_core.Event.Factory.{create_event}
use event_stream_core.Event.Factory.Ids.{event_of, create_event_lem}
use event_stream_core.Config.{Load, AppConfiguration}
use event_stream_core.Config.Keys.{key_version, key_threads_pool}
use event_stream_core.Config.Load.{Yaml, load_config}
use event_stream_core.Config.Required.{IsThere, required_keys, load_config-required}
use event_stream_core.Storage.{Device, StorageEngine, open_storage, store_event}
use event_stream_core.Storage.Durable.{record_of, store_event-cases}
use event_stream_core.System.EndToEnd.{AcceptsAll, store_event-stays_good, store_event-contents}
use event_stream_core.Processor.{start, stop}
use event_stream_core.Processor.Loop.{process_loop-order}
use event_stream_core.UnitTests.{
  expect_config, load_success, expect_throw, throws_on, file_not_found, missing_field, invalid_type,
  invalid_value, creat_event_request, expect_event, creat_event, store_event_request, stored,
  store_opened, stores_event, init, start_stop, test_event_request, start_create_stop,
}
use event_stream_core.UnitTests.Texts.{
  config_yaml, non_existent_yaml, missing_field_yaml, invalid_type_yaml, invalid_value_yaml,
  temp_storage_bin,
}

module _ {Node : Type 0} (yaml : Yaml Node) (files : Bytes → Option (Load Node)) where
  expect_throw-err :
      (result : Load AppConfiguration)
      → ((config : AppConfiguration) → result ≢ ok config)
      → expect_throw yaml files result ≡ true
  expect_throw-err (ok config) never = absurd (never config refl)
  expect_throw-err (err e) never = refl

  throws_on-none : (filepath : Bytes) → files filepath ≡ none → throws_on yaml files filepath ≡ true
  unfolding throws_on load_config
  throws_on-none filepath e = ap (λ f. expect_throw yaml files (load_config yaml f)) e

  throws_on-never :
      (filepath : Bytes) (root : Node)
      → files filepath ≡ some (ok root)
      → ((config : AppConfiguration) → load_config yaml (some (ok root)) ≢ ok config)
      → throws_on yaml files filepath ≡ true
  unfolding throws_on
  throws_on-never filepath root e never =
      ap (λ f. expect_throw yaml files (load_config yaml f)) e
      ∙ expect_throw-err (load_config yaml (some (ok root))) never

  -- The tests of the errors of the loader pass with every YAML library: the first as its file is not
  -- there, the second as `version` is not, and the third and the fourth as the section for the pool
  -- is not, so whatever types and values the two files have.
  pub error_tests-pass :
      (fields types values : Node)
      → files non_existent_yaml ≡ none
      → files missing_field_yaml ≡ some (ok fields)
      → ¬ IsThere yaml fields key_version
      → files invalid_type_yaml ≡ some (ok types)
      → ¬ IsThere yaml types key_threads_pool
      → files invalid_value_yaml ≡ some (ok values)
      → ¬ IsThere yaml values key_threads_pool
      → (file_not_found yaml files ≡ true)
        × (missing_field yaml files ≡ true)
        × (invalid_type yaml files ≡ true)
        × (invalid_value yaml files ≡ true)
  error_tests-pass fields types values absent f no_version t no_pool v no_pool' = (
    throws_on-none non_existent_yaml absent,
    throws_on-never missing_field_yaml fields f
        (λ config e. no_version (load_config-required yaml fields config e).1.0),
    throws_on-never invalid_type_yaml types t
        (λ config e. no_pool (load_config-required yaml types config e).1.1.1.1.1.1.1.1.0),
    throws_on-never invalid_value_yaml values v
        (λ config e. no_pool' (load_config-required yaml values config e).1.1.1.1.1.1.1.1.0),
  )

  expect_config-ok :
      (result : Load AppConfiguration)
      → expect_config yaml files result ≡ true
      → (config : AppConfiguration) × (result ≡ ok config)
  expect_config-ok (ok config) e = (config, refl)
  expect_config-ok (err e') e = cc

  -- The test of the success passes only if the file that comes with the program has all the sections.
  pub load_success-required :
      (root : Node)
      → files config_yaml ≡ some (ok root)
      → load_success yaml files ≡ true
      → All (IsThere yaml root) required_keys
  unfolding load_success
  load_success-required root file passes =
      let (config, loaded) = expect_config-ok (load_config yaml (files config_yaml)) passes in
      load_config-required yaml root config (sym (ap (load_config yaml) file) ∙ loaded)

-- The test of the factory passes, whatever the clock and the counter read.
creat_event-passes : (now counter : ℕ) → creat_event now counter ≡ true
unfolding creat_event eqb
creat_event-passes now counter =
    ap expect_event (create_event_lem (creat_event_request now) counter (omega arith))

module _ (device : Device) (accepts : AcceptsAll device) where
  -- On a disk that takes every block, the file of the test of the storage grows by the record of
  -- the event, behind what it held.
  stores_event-grows :
      (contents : Bytes → Option Bytes) (old : Bytes) (now counter : ℕ)
      → contents temp_storage_bin ≡ some old
      → stores_event device contents now counter
        ≡ some (old ++ record_of (event_of (store_event_request now) counter))
  unfolding stores_event
  stores_event-grows contents old now counter held =
      let s : StorageEngine = record { contents = old; good = true } in
      let event = event_of (store_event_request now) counter in
      let open_with = λ (file : Option Bytes) (created : Option (Event × ℕ)).
        store_opened device (open_storage file) created in
      ap (λ file. open_with file (create_event (store_event_request now) counter)) held
      ∙ ap (open_with (some old)) (create_event_lem (store_event_request now) counter (omega arith))
      ∙ elim (store_event-cases device event s) [
        | inl (returned, good) ↦
            ap (λ r. stored device ((store_event device event s).0, r)) returned
            ∙ ap some (store_event-contents device accepts event s refl)
        | inr (thrown, bad) ↦ cc (store_event-stays_good device accepts event s refl)
      ]

  -- However many turns the loop makes, the processor ends as it was built: the event that the test
  -- makes is not published, so no task is submitted and nothing is stored.
  start_create_stop-init :
      (n now counter : ℕ) (s : StorageEngine)
      → start_create_stop device n s now counter
        ≡ (init s, some (event_of (test_event_request now) counter, u64 (counter + 1)))
  unfolding start_stop
  start_create_stop-init n now counter s =
      ap₂ (λ p created. (p, created))
        (ap stop (process_loop-order device true n (start (init s)) refl (omega arith)))
        (create_event_lem (test_event_request now) counter (omega arith))
