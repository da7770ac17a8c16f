-- ===== src/Benchmark/Outcomes.antt =====
-- How many calls of `storeEvent` returned, and how many threw.
use event_stream_core.Prelude.{
  ℕ, suc, ◌+◌, ◌≡◌, refl, ap, sym, ◌∙◌, List, [], ◌∷◌, ◌++◌, length, length-append, Result, ok, err,
}
use event_stream_core.Event.{Event}
use event_stream_core.Storage.{StorageEngine, StorageError}
use event_stream_core.Storage.Durable.{Log, all_return, all_throw}

-- The calls that returned, and those that threw.
abbrev pub returns : List (Result StorageError (Unit {0})) → ℕ
returns [] = 0
returns (ok _ ∷ rs) = suc (returns rs)
returns (err e ∷ rs) = returns rs

abbrev pub throws : List (Result StorageError (Unit {0})) → ℕ
throws [] = 0
throws (ok _ ∷ rs) = throws rs
throws (err e ∷ rs) = suc (throws rs)

counts-Log :
    (es fs : List Event)
    → (returns (all_return es ++ all_throw fs) ≡ length es)
      × (throws (all_return es ++ all_throw fs) ≡ length fs)
counts-Log [] [] = (refl, refl)
counts-Log [] (f ∷ fs) = let (r, t) = counts-Log [] fs in (r, ap suc t)
counts-Log (e ∷ es) fs = let (r, t) = counts-Log es fs in (ap suc r, t)

pub counts_of_Log :
    {es : List Event} {s last : StorageEngine} {rs : List (Result StorageError (Unit {0}))}
    (log : Log es s last rs)
    → (returns rs ≡ length log.stored)
      × (throws rs ≡ length log.refused)
      × (length log.stored + length log.refused ≡ length es)
counts_of_Log log =
    let (returned, thrown) = counts-Log log.stored log.refused in
    (
      ap returns log.results ∙ returned,
      ap throws log.results ∙ thrown,
      sym (length-append log.stored log.refused) ∙ sym (ap (λ es. length es) log.splits),
    )
