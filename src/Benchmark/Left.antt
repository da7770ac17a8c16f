-- ===== src/Benchmark/Left.antt =====
-- How far the writers of the benchmark are.
use event_stream_core.Prelude.{
  ℕ, zero, suc, ◌+◌, ◌*◌, ◌-◌, ◌<◌, ◌≤◌, ◌≡◌, refl, Option, none, some, List, [], ◌∷◌, arith,
}
use event_stream_core.ThreadPool.Shutdown.{one_if_same}
use event_stream_core.Benchmark.Writes.{Writers, Turn, new_writers, record_at, advance}

-- The turns of one writer.
abbrev pub turns_of_writer : ℕ → List Turn → ℕ
turns_of_writer i [] = 0
turns_of_writer i (t ∷ ts) = one_if_same i t.writer + turns_of_writer i ts

-- The records that a writer, and all of them, have to write.
abbrev pub left_at : ℕ → Writers → ℕ → ℕ
left_at n [] i = 0
left_at n (j ∷ js) zero = n - j
left_at n (j ∷ js) (suc i) = left_at n js i

abbrev pub all_left : ℕ → Writers → ℕ
all_left n [] = 0
all_left n (j ∷ js) = (n - j) + all_left n js

pub advance-left_at :
    (n : ℕ) (js : Writers) (i k : ℕ)
    → left_at n (advance n js k) i ≤ left_at n js i - one_if_same i k
advance-left_at n [] i k = omega arith
advance-left_at n (j ∷ js) zero zero = ground arith
advance-left_at n (j ∷ js) zero (suc k) = omega arith
advance-left_at n (j ∷ js) (suc i) zero = omega arith
advance-left_at n (j ∷ js) (suc i) (suc k) = advance-left_at n js i k

abbrev pub count_some : Option ℕ → ℕ
count_some none = 0
count_some (some j) = 1

pub advance-all_left :
    (n : ℕ) (js : Writers) (k : ℕ)
    → count_some (record_at n js k) + all_left n (advance n js k) ≡ all_left n js
advance-all_left n [] k = refl
advance-all_left n (j ∷ js) zero = ground arith
advance-all_left n (j ∷ js) (suc k) = omega (arith, advance-all_left n js k)

pub all_left-zero : (n : ℕ) (js : Writers) → ((i : ℕ) → left_at n js i ≡ 0) → all_left n js ≡ 0
all_left-zero n [] h = refl
all_left-zero n (j ∷ js) h = omega (arith, h 0, all_left-zero n js (λ i. h (suc i)))

pub new_writers-all_left : (n k : ℕ) → all_left n (new_writers k) ≡ k * n
new_writers-all_left n zero = omega arith
new_writers-all_left n (suc k) = ground (arith, new_writers-all_left n k)

-- Of enough turns for each writer, no writer has more records than turns.
pub new_writers-left_at :
    (n k : ℕ) (turns : ℕ → ℕ)
    → ((i : ℕ) → i < k → n ≤ turns i)
    → (i : ℕ) → left_at n (new_writers k) i ≤ turns i
new_writers-left_at n zero turns h i = omega arith
new_writers-left_at n (suc k) turns h zero = omega (arith, h 0 (omega arith))
new_writers-left_at n (suc k) turns h (suc i) =
    new_writers-left_at n k (λ i. turns (suc i)) (λ i lt. h (suc i) (omega (arith, lt))) i
