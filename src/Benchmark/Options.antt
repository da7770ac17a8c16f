-- ===== src/Benchmark/Options.antt =====
-- The `main` of src/benchmark/benchmark.cpp: its options, and the measurements that it starts.
use event_stream_core.Prelude.{
  ℕ, Bool, true, false, Option, none, some, List, [], ◌∷◌, ◌++◌, Bytes, eqb, if◌then◌else◌,
}

-- "--eventbus-only"
abbrev pub eventbus_only : Bytes
eventbus_only =
    b'-' ∷ b'-' ∷ b'e' ∷ b'v' ∷ b'e' ∷ b'n' ∷ b't' ∷ b'b' ∷ b'u' ∷ b's' ∷ b'-' ∷ b'o' ∷ b'n' ∷ b'l'
    ∷ b'y' ∷ []

-- "--tcp-only"
abbrev pub tcp_only : Bytes
tcp_only = b'-' ∷ b'-' ∷ b't' ∷ b'c' ∷ b'p' ∷ b'-' ∷ b'o' ∷ b'n' ∷ b'l' ∷ b'y' ∷ []

-- "--processor-only"
abbrev pub processor_only : Bytes
processor_only =
    b'-' ∷ b'-' ∷ b'p' ∷ b'r' ∷ b'o' ∷ b'c' ∷ b'e' ∷ b's' ∷ b's' ∷ b'o' ∷ b'r' ∷ b'-' ∷ b'o' ∷ b'n'
    ∷ b'l' ∷ b'y' ∷ []

-- "--storage-only"
abbrev pub storage_only : Bytes
storage_only =
    b'-' ∷ b'-' ∷ b's' ∷ b't' ∷ b'o' ∷ b'r' ∷ b'a' ∷ b'g' ∷ b'e' ∷ b'-' ∷ b'o' ∷ b'n' ∷ b'l' ∷ b'y'
    ∷ []

-- "--all"
abbrev pub all_benchmarks : Bytes
all_benchmarks = b'-' ∷ b'-' ∷ b'a' ∷ b'l' ∷ b'l' ∷ []

-- "--help"
abbrev pub help : Bytes
help = b'-' ∷ b'-' ∷ b'h' ∷ b'e' ∷ b'l' ∷ b'p' ∷ []

pub record Options : Type 0 where
  pub run_eventbus : Bool
  pub run_tcp : Bool
  pub run_processor : Bool
  pub run_storage : Bool

abbrev pub default_options : Options
default_options = record {
  run_eventbus = true;
  run_tcp = false;
  run_processor = true;
  run_storage = true;
}

-- An argument other than `--help`. One that is not known changes nothing.
unfoldable pub apply_option : Bytes → Options → Options
apply_option arg o =
    if eqb arg eventbus_only
    then record o { run_tcp = false; run_processor = false; run_storage = false }
    else if eqb arg tcp_only
    then record o {
      run_eventbus = false;
      run_tcp = true;
      run_processor = false;
      run_storage = false;
    }
    else if eqb arg processor_only
    then record o {
      run_eventbus = false;
      run_tcp = false;
      run_processor = true;
      run_storage = false;
    }
    else if eqb arg storage_only
    then record o { run_eventbus = false; run_tcp = false; run_processor = false }
    else if eqb arg all_benchmarks
    then record { run_eventbus = true; run_tcp = true; run_processor = true; run_storage = true }
    else o

-- The loop over the arguments; `none` if one of them is `--help`, where the program ends.
unfoldable pub parse_options : List Bytes → Options → Option Options
parse_options [] o = some o
parse_options (arg ∷ args) o =
    let rest = parse_options args (apply_option arg o) in if eqb arg help then none else rest

-- `runLoadTest` and `runWriteBenchmark` with their arguments.
pub data Measurement : Type 0 where
  load_test write_benchmark : ℕ → ℕ → Measurement

-- The measurements of `main`, in order. The one of the event bus prints that it is skipped, and there
-- is none for the processor.
abbrev pub measurements : Options → List Measurement
measurements o =
    (if o.run_tcp then load_test 5 200 ∷ load_test 10 500 ∷ [] else [])
    ++ (if o.run_storage then write_benchmark 1 5000 ∷ write_benchmark 4 5000 ∷ [] else [])
