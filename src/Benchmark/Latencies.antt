-- ===== src/Benchmark/Latencies.antt =====
-- The latencies in the result of `runWriteBenchmark`, in nanoseconds: the source divides each by 1000.0
-- and makes a mean of all in floating point. `std::sort` is a parameter.
use event_stream_core.Prelude.{
  ℕ, zero, suc, ◌-◌, ◌*◌, ◌/◌, ◌≤◌, ◌<◌, ◌≡◌, refl, subst, Option, none, some, List, [], ◌∷◌,
  length, get_elem?, All, arith, length-append, min, Bytes, Result, ok, err,
}
use event_stream_core.Event.{EventHeader}
use event_stream_core.Storage.{Device, StorageEngine, StorageError, store_event}
use event_stream_core.Benchmark.Writes.{
  StorageBenchmark, Writers, new_benchmark, new_writers, run_write_benchmark, Turn, note_latency,
  record_at, advance, event_of_record, count_write, write_record, run_writers,
}

pub record Latencies : Type 0 where
  pub latency_p50_us : ℕ
  pub latency_p99_us : ℕ
  pub latency_max_us : ℕ

infixl 5 ◌>>=◌
abbrev pub ◌>>=◌ : Option ℕ → (ℕ → Option Latencies) → Option Latencies
none >>= f = none
some a >>= f = f a

-- `none` would be an index that is out of range.
unfoldable pub of_sorted : List ℕ → Option Latencies
of_sorted latencies = do
  p50 ← get_elem? latencies (length latencies / 2)
  p99 ← get_elem? latencies (length latencies * 99 / 100)
  max ← get_elem? latencies (length latencies - 1)
  some (record { latency_p50_us = p50; latency_p99_us = p99; latency_max_us = max })

abbrev pub IsSorted : List ℕ → Type 0
IsSorted [] = Unit
IsSorted (x ∷ xs) = All (λ y. x ≤ y) xs × IsSorted xs

All-get :
    {P : ℕ → Type 0} (xs : List ℕ) (i : ℕ)
    → All P xs
    → i < length xs
    → (x : ℕ) × (get_elem? xs i ≡ some x) × P x
All-get [] i h lt = absurd (omega arith)
All-get (x ∷ xs) zero h lt = (x, refl, h.0)
All-get (x ∷ xs) (suc i) h lt = All-get xs i h.1 (omega arith)

-- The entries of a sorted list at two places, in order.
IsSorted-get :
    (xs : List ℕ) (i j : ℕ)
    → IsSorted xs
    → i ≤ j
    → j < length xs
    → (x : ℕ) × (y : ℕ) × (get_elem? xs i ≡ some x) × (get_elem? xs j ≡ some y) × (x ≤ y)
IsSorted-get [] i j h le lt = absurd (omega arith)
IsSorted-get (x ∷ xs) zero zero h le lt = (x, x, refl, refl, omega arith)
IsSorted-get (x ∷ xs) zero (suc j) h le lt =
    let (y, found, order) = All-get xs j h.0 (omega arith) in (x, y, refl, found, order)
IsSorted-get (x ∷ xs) (suc i) zero h le lt = absurd (omega arith)
IsSorted-get (x ∷ xs) (suc i) (suc j) h le lt = IsSorted-get xs i j h.1 (omega arith) (omega arith)

abbrev pub HasFigures : List ℕ → Type 0
HasFigures xs =
    (r : Latencies) × (of_sorted xs ≡ some r)
    × (r.latency_p50_us ≤ r.latency_p99_us)
    × (r.latency_p99_us ≤ r.latency_max_us)

length-zero : (xs : List ℕ) → length xs ≡ 0 → xs ≡ []
length-zero [] e = refl
length-zero (x ∷ xs) e = absurd (omega (arith, e))

-- Of any latencies but none, all three indices are in range, and the figures are in order.
pub of_sorted-ordered : (xs : List ℕ) → IsSorted xs → 0 < length xs → HasFigures xs
unfolding of_sorted
of_sorted-ordered xs h some_latency =
    let n = length xs in
    let (p50, p99, at_half, at_99, below) =
      IsSorted-get xs (n / 2) (n * 99 / 100) h (omega arith) (omega arith) in
    let (p99', max, at_99', at_end, below') =
      IsSorted-get xs (n * 99 / 100) (n - 1) h (omega arith) (omega arith) in
    let same : p99' ≡ p99 = cc in
    (
      record { latency_p50_us = p50; latency_p99_us = p99; latency_max_us = max },
      rw (at_half, at_99, at_end),
      below,
      subst (λ p. p ≤ max) same below',
    )

-- As many latencies as calls that returned, up to the limit.
abbrev pub AreCapped : StorageBenchmark → Type 0
AreCapped b = length b.write_latencies_ns ≡ min b.writes_completed 100000

module _ (device : Device) (to_string : ℕ → Bytes) (uninitialized : EventHeader) where
  note_latency-length :
      (latency : ℕ) (b : StorageBenchmark)
      → AreCapped b
      → length (note_latency latency b).write_latencies_ns ≡ min (suc b.writes_completed) 100000
  note_latency-length latency b h =
      ground (arith, length-append b.write_latencies_ns (latency ∷ []))

  count_write-AreCapped :
      (latency : ℕ) (b : StorageBenchmark) (p : StorageEngine × Result StorageError (Unit {0}))
      → AreCapped b
      → AreCapped (count_write device to_string uninitialized latency b p)
  count_write-AreCapped latency b (s, ok _) h = note_latency-length latency b h
  count_write-AreCapped latency b (s, err e) h = h

  write_record-AreCapped :
      (t : Turn) (next : Option ℕ) (b : StorageBenchmark)
      → AreCapped b
      → AreCapped (write_record device to_string uninitialized t next b)
  write_record-AreCapped t none b h = h
  write_record-AreCapped t (some j) b h =
      count_write-AreCapped (t.write_end - t.write_start) b
        (store_event device (event_of_record device to_string uninitialized t.writer j t.timestamp)
          b.storage)
        h

  pub run_writers-AreCapped :
      (n : ℕ) (ts : List Turn) (js : Writers) (b : StorageBenchmark)
      → AreCapped b
      → AreCapped (run_writers device to_string uninitialized n ts (js, b)).1
  unfolding run_writers
  run_writers-AreCapped n [] js b h = h
  run_writers-AreCapped n (t ∷ ts) js b h =
      let next = record_at n js t.writer in
      run_writers-AreCapped n ts (advance n js t.writer)
        (write_record device to_string uninitialized t next b) (write_record-AreCapped t next b h)

  -- If a call returned, the three figures exist and are in order, whatever `sort` does that sorts and
  -- keeps the length; if none did, there are no latencies, and the source leaves its result's figures
  -- without a value.
  pub run_write_benchmark-latencies :
      (num_writers writes_per_writer : ℕ) (ts : List Turn) (s : StorageEngine)
      (sort : List ℕ → List ℕ)
      → ((xs : List ℕ) → IsSorted (sort xs))
      → ((xs : List ℕ) → length (sort xs) ≡ length xs)
      → let b =
          (run_write_benchmark device to_string uninitialized num_writers writes_per_writer ts
            s).1 in
        (b.writes_completed ≡ 0 → b.write_latencies_ns ≡ [])
        × (0 < b.writes_completed → HasFigures (sort b.write_latencies_ns))
  unfolding run_write_benchmark
  run_write_benchmark-latencies k n ts s sort sorts keeps =
      let start = new_benchmark s in
      let capped = run_writers-AreCapped n ts (new_writers k) start (omega arith) in
      let xs = (run_write_benchmark device to_string uninitialized k n ts s).1.write_latencies_ns in
      (
        λ none_returned. length-zero xs (omega (arith, capped, none_returned)),
        λ some_returned.
            of_sorted-ordered (sort xs) (sorts xs) (omega (arith, capped, some_returned, keeps xs)),
      )
