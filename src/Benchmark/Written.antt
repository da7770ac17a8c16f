-- ===== src/Benchmark/Written.antt =====
-- What the writers of the benchmark have stored when they are joined.
use event_stream_core.Prelude.{
  append_assoc, append-nil, map, ℕ, ◌+◌, ◌*◌, ◌-◌, ◌<◌, ◌≤◌, ◌≡◌, refl, ap, sym, ◌∙◌, subst, Option,
  none, some, List, [], ◌∷◌, ◌++◌, Bytes, length, arith, true, Result, ok, err,
}
use event_stream_core.Event.{EventHeader, Event}
use event_stream_core.Storage.{Device, StorageEngine, StorageError, store_event}
use event_stream_core.Storage.Durable.{store_all, store_all-Log, Log}
use event_stream_core.Benchmark.Left.{
  turns_of_writer, left_at, all_left, count_some, advance-left_at, advance-all_left, all_left-zero,
  new_writers-all_left, new_writers-left_at,
}
use event_stream_core.Benchmark.Numbered.{
  Key, numbers_of, only_if, number_of, rest_at, rest_at-advance, rest_at-over, records_of,
  rest_at-new_writers,
}
use event_stream_core.Benchmark.Outcomes.{returns, throws, counts_of_Log}
use event_stream_core.Benchmark.Writes.{
  StorageBenchmark, Writers, Turn, new_benchmark, new_writers, record_at, advance, event_of_record,
  count_write, write_record, run_writers, run_write_benchmark, total_events,
}

module _ (device : Device) (to_string : ℕ → Bytes) (uninitialized : EventHeader) where
  abbrev pub event_of_key : Key → Event
  event_of_key key =
      event_of_record device to_string uninitialized key.writer key.number key.timestamp

  -- What the turns of the writers amount to.
  record Wrote (n : ℕ) (js : Writers) (b : StorageBenchmark) (last : Writers × StorageBenchmark)
      : Type 0 where
    keys : List Key
    numbers : (i : ℕ) → numbers_of i keys ++ rest_at n last.0 i ≡ rest_at n js i
    left : length (map event_of_key keys) + all_left n last.0 ≡ all_left n js
    storage : last.1.storage ≡ (store_all device (map event_of_key keys) b.storage).0
    completed :
        last.1.writes_completed
        ≡ b.writes_completed + returns (store_all device (map event_of_key keys) b.storage).1
    failed :
        last.1.writes_failed
        ≡ b.writes_failed + throws (store_all device (map event_of_key keys) b.storage).1

  abbrev write : Turn → Option ℕ → StorageBenchmark → StorageBenchmark
  write = write_record device to_string uninitialized

  Counts :
      ℕ
      → StorageBenchmark
      → StorageEngine × Result StorageError (Unit {0})
      → List (Result StorageError (Unit {0}))
      → Type 0
  Counts latency b stored rs =
      let b' = count_write device to_string uninitialized latency b stored in
      (b'.storage ≡ stored.0)
      × (b'.writes_completed + returns rs ≡ b.writes_completed + returns (stored.1 ∷ rs))
      × (b'.writes_failed + throws rs ≡ b.writes_failed + throws (stored.1 ∷ rs))

  count_write-Counts :
      (latency : ℕ) (b : StorageBenchmark) (stored : StorageEngine × Result StorageError (Unit {0}))
      (rs : List (Result StorageError (Unit {0})))
      → Counts latency b stored rs
  unfolding Counts
  count_write-Counts latency b (s, ok _) rs = ground arith
  count_write-Counts latency b (s, err e) rs = (refl, refl, omega arith)

  write_record-Wrote :
      (n : ℕ) (js js' : Writers) (b : StorageBenchmark) (t : Turn) (next : Option ℕ)
      (last : Writers × StorageBenchmark)
      → count_some next + all_left n js' ≡ all_left n js
      → ((i : ℕ) → number_of i t.writer next ++ rest_at n js' i ≡ rest_at n js i)
      → Wrote n js' (write t next b) last
      → Wrote n js b last
  unfolding store_all Counts
  write_record-Wrote n js js' b t none last e numbered w = record {
    keys = w.keys;
    numbers = λ i. w.numbers i ∙ numbered i;
    left = omega (arith, w.left, e);
    storage = w.storage;
    completed = w.completed;
    failed = w.failed;
  }
  write_record-Wrote n js js' b t (some j) last e numbered w =
      let key : Key = record { writer = t.writer; number = j; timestamp = t.timestamp } in
      let events = map event_of_key w.keys in
      let (s, r) = store_event device (event_of_key key) b.storage in
      let rs = (store_all device events s).1 in
      let b' = write t (some j) b in
      let (same, completed, failed) =
        count_write-Counts (t.write_end - t.write_start) b (s, r) rs in
      record {
        keys = key ∷ w.keys;
        numbers = λ i.
            append_assoc (only_if i t.writer (j ∷ [])) (numbers_of i w.keys) (rest_at n last.0 i)
            ∙ ap (◌++◌ (only_if i t.writer (j ∷ []))) (w.numbers i)
            ∙ numbered i;
        left = omega (arith, w.left, e);
        storage = w.storage ∙ ap (λ x. (store_all device events x).0) same;
        completed =
            w.completed
            ∙ ap (λ x. b'.writes_completed + returns (store_all device events x).1) same
            ∙ completed;
        failed =
            w.failed
            ∙ ap (λ x. b'.writes_failed + throws (store_all device events x).1) same
            ∙ failed;
      }

  run_writers-Wrote :
      (n : ℕ) (ts : List Turn) (js : Writers) (b : StorageBenchmark)
      → Wrote n js b (run_writers device to_string uninitialized n ts (js, b))
  unfolding run_writers store_all
  run_writers-Wrote n [] js b = record {
    keys = [];
    numbers = λ i. refl;
    left = omega arith;
    storage = refl;
    completed = omega arith;
    failed = omega arith;
  }
  run_writers-Wrote n (t ∷ ts) js b =
      let next = record_at n js t.writer in
      let js' = advance n js t.writer in
      write_record-Wrote n js js' b t next
        (run_writers device to_string uninitialized n (t ∷ ts) (js, b))
        (advance-all_left n js t.writer) (λ i. rest_at-advance n js i t.writer)
        (run_writers-Wrote n ts js' (write t next b))

  run_writers-left_at :
      (n : ℕ) (ts : List Turn) (js : Writers) (b : StorageBenchmark) (i : ℕ)
      → left_at n (run_writers device to_string uninitialized n ts (js, b)).0 i
        ≤ left_at n js i - turns_of_writer i ts
  unfolding run_writers
  run_writers-left_at n [] js b i = omega arith
  run_writers-left_at n (t ∷ ts) js b i =
      let js' = advance n js t.writer in
      omega (
        arith,
        advance-left_at n js i t.writer,
        run_writers-left_at n ts js' (write t (record_at n js t.writer) b) i,
      )

  -- A storage whose stream is good is written by any number of writers, whose turns come in any order,
  -- at least as many of each as it has records. Then every writer has handed each of its records to
  -- `storeEvent` once, in their order, and `total_events` is the number of writers times that of
  -- their records; `writes_completed` of the calls returned, and their records lie in the file one
  -- behind the other, and `writes_failed` calls, all after them, threw.
  pub run_write_benchmark-Log :
      (num_writers writes_per_writer : ℕ) (ts : List Turn) (s : StorageEngine)
      → s.good ≡ true
      → ((i : ℕ) → i < num_writers → writes_per_writer ≤ turns_of_writer i ts)
      → let b =
          (run_write_benchmark device to_string uninitialized num_writers writes_per_writer ts
            s).1 in
        (keys : List Key) × ((i : ℕ)
          → numbers_of i keys ≡ records_of num_writers writes_per_writer i)
        × (rs : List (Result StorageError (Unit {0}))) × (log : Log
            (map event_of_key keys)
            s
            b.storage
            rs)
        × (total_events device to_string uninitialized b ≡ num_writers * writes_per_writer)
        × (b.writes_completed ≡ length log.stored)
        × (b.writes_failed ≡ length log.refused)
  unfolding run_write_benchmark
  run_write_benchmark-Log num_writers n ts s good turns =
      let last = (run_write_benchmark device to_string uninitialized num_writers n ts s).0 in
      let w = run_writers-Wrote n ts (new_writers num_writers) (new_benchmark s) in
      let es = map event_of_key w.keys in
      let rs = (store_all device es s).1 in
      let log = subst (λ st. Log es s st rs) (sym w.storage) (store_all-Log device es s good) in
      let (returned, thrown, together) = counts_of_Log log in
      let nothing_left : (i : ℕ) → left_at n last i ≡ 0 = λ i. omega (
        arith,
        run_writers-left_at n ts (new_writers num_writers) (new_benchmark s) i,
        new_writers-left_at n num_writers (λ i. turns_of_writer i ts) turns i,
      ) in
      let over = all_left-zero n last nothing_left in
      let events = w.left ∙ new_writers-all_left n num_writers in
      (
        w.keys,
        λ i.
            sym (append-nil (numbers_of i w.keys))
            ∙ ap (◌++◌ (numbers_of i w.keys)) (sym (rest_at-over n last i (nothing_left i)))
            ∙ w.numbers i
            ∙ rest_at-new_writers n num_writers i,
        rs,
        log,
        omega (arith, w.completed, w.failed, returned, thrown, together, over, events),
        omega (arith, w.completed, returned),
        omega (arith, w.failed, thrown),
      )
