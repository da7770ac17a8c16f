-- ===== src/Benchmark/Numbered.antt =====
-- Which records each writer of the benchmark has written, and which it has still to write.
use event_stream_core.Prelude.{
  ℕ, zero, suc, ◌-◌, ◌<◌, ◌≡◌, refl, ap, ◌∙◌, Option, none, some, List, [], ◌∷◌, ◌++◌, ltb, arith,
  Bool-cases, inl, inr, if◌then◌else◌,
}
use event_stream_core.Benchmark.Writes.{Writers, new_writers, record_at, advance}
use event_stream_core.Benchmark.Left.{left_at}

-- `count` numbers from `first` on.
abbrev pub up_from : ℕ → ℕ → List ℕ
up_from zero first = []
up_from (suc count) first = first ∷ up_from count (suc first)

-- A list if two writers are the same, else nothing.
abbrev pub only_if : ℕ → ℕ → List ℕ → List ℕ
only_if zero zero xs = xs
only_if zero (suc k) xs = []
only_if (suc i) zero xs = []
only_if (suc i) (suc k) xs = only_if i k xs

-- A record of a writer, and what the clock reads for its event.
pub record Key : Type 0 where
  pub writer : ℕ
  pub number : ℕ
  pub timestamp : ℕ

-- The numbers of the records of one writer, in their order.
abbrev pub numbers_of : ℕ → List Key → List ℕ
numbers_of i [] = []
numbers_of i (key ∷ keys) = only_if i key.writer (key.number ∷ []) ++ numbers_of i keys

abbrev pub number_of : ℕ → ℕ → Option ℕ → List ℕ
number_of i k none = []
number_of i k (some j) = only_if i k (j ∷ [])

abbrev pub rest_at : ℕ → Writers → ℕ → List ℕ
rest_at n [] i = []
rest_at n (j ∷ js) zero = up_from (n - j) j
rest_at n (j ∷ js) (suc i) = rest_at n js i

up_from-step : (n j : ℕ) → j < n → j ∷ up_from (n - suc j) (suc j) ≡ up_from (n - j) j
up_from-step n j lt =
    let one_more : suc (n - suc j) ≡ n - j = omega (arith, lt) in ap (λ c. up_from c j) one_more

number_of-first : (k : ℕ) (next : Option ℕ) → number_of zero (suc k) next ≡ []
number_of-first k none = refl
number_of-first k (some j) = refl

number_of-later : (i : ℕ) (next : Option ℕ) → number_of (suc i) zero next ≡ []
number_of-later i none = refl
number_of-later i (some j) = refl

number_of-suc : (i k : ℕ) (next : Option ℕ) → number_of (suc i) (suc k) next ≡ number_of i k next
number_of-suc i k none = refl
number_of-suc i k (some j) = refl

-- A turn writes the next record of its writer, and of no other.
pub rest_at-advance :
    (n : ℕ) (js : Writers) (i k : ℕ)
    → number_of i k (record_at n js k) ++ rest_at n (advance n js k) i ≡ rest_at n js i
rest_at-advance n [] i k = refl
rest_at-advance n (j ∷ js) zero zero = elim (Bool-cases (ltb j n)) [
  | inl more ↦ rw more (up_from-step n j (ground arith))
  | inr over ↦ rw over refl
]
rest_at-advance n (j ∷ js) zero (suc k) =
    ap (λ xs. xs ++ up_from (n - j) j) (number_of-first k (record_at n js k))
rest_at-advance n (j ∷ js) (suc i) zero =
    ap (λ xs. xs ++ rest_at n js i) (number_of-later i (record_at n (j ∷ js) zero))
rest_at-advance n (j ∷ js) (suc i) (suc k) =
    ap (λ xs. xs ++ rest_at n (advance n js k) i) (number_of-suc i k (record_at n js k))
    ∙ rest_at-advance n js i k

pub rest_at-over : (n : ℕ) (js : Writers) (i : ℕ) → left_at n js i ≡ 0 → rest_at n js i ≡ []
rest_at-over n [] i e = refl
rest_at-over n (j ∷ js) zero e = ap (λ c. up_from c j) e
rest_at-over n (j ∷ js) (suc i) e = rest_at-over n js i e

-- The numbers of the records of writer `i`, when there are `k` writers with `n` records each.
abbrev pub records_of : ℕ → ℕ → ℕ → List ℕ
records_of k n i = if ltb i k then up_from n 0 else []

pub rest_at-new_writers : (n k i : ℕ) → rest_at n (new_writers k) i ≡ records_of k n i
rest_at-new_writers n zero i = ground arith
rest_at-new_writers n (suc k) zero =
    let all_left : n - 0 ≡ n = omega arith in rw all_left (ground arith)
rest_at-new_writers n (suc k) (suc i) = ground (arith, rest_at-new_writers n k i)
