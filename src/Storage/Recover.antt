-- ===== src/Storage/Recover.antt =====
-- Reading a file that was written by `storeEvent` alone.
use event_stream_core.Prelude.{
  ℕ, zero, suc, ◌≡◌, ◌++◌, refl, subst, ap, ◌∙◌, true, Option, none, some, List, [], ◌∷◌, map,
  length, flatten, All, Bytes, append_assoc,
}
use event_stream_core.Event.{Event}
use event_stream_core.Storage.{Device, StorageEngine}
use event_stream_core.Storage.Durable.{record_of, Log, store_all, store_all-Log}
use event_stream_core.Storage.Decode.{
  Stored, stored_of, IsStorable, read_record, read_record-record_of,
}

-- The first `n` records, and what follows them.
abbrev add_record : Stored → Option (List Stored × Bytes) → Option (List Stored × Bytes)
add_record r none = none
add_record r (some (rs, rest)) = some (r ∷ rs, rest)

abbrev then_records :
    (Bytes → Option (List Stored × Bytes)) → Option (Stored × Bytes) → Option (List Stored × Bytes)
then_records more none = none
then_records more (some (r, rest)) = add_record r (more rest)

unfoldable pub read_records : ℕ → Bytes → Option (List Stored × Bytes)
read_records zero bytes = some ([], bytes)
read_records (suc n) bytes = then_records (read_records n) (read_record bytes)

read_records-records :
    (es : List Event) (rest : Bytes)
    → All IsStorable es
    → read_records (length es) (flatten (map record_of es) ++ rest) ≡ some (map stored_of es, rest)
unfolding read_records
read_records-records [] rest h = refl
read_records-records (e ∷ es) rest h =
    ap (read_records (suc (length es)))
      (append_assoc (record_of e) (flatten (map record_of es)) rest)
    ∙ ap (then_records (read_records (length es)))
        (read_record-record_of e (flatten (map record_of es) ++ rest) h.0)
    ∙ ap (add_record (stored_of e)) (read_records-records es rest h.1)

All-split : (xs ys zs : List Event) → xs ≡ ys ++ zs → All IsStorable xs → All IsStorable ys
All-split xs [] zs e h = tt
All-split xs (y ∷ ys) zs e h =
    let here = subst (All IsStorable) e h in (here.0, All-split (ys ++ zs) ys zs refl here.1)

-- A file that was empty at the start holds, from its first byte on, the records of exactly the
-- calls that returned, in their order: they are read back whatever a failed call left behind them.
pub store_all-recover :
    (device : Device) (es : List Event) (s : StorageEngine)
    → s.good ≡ true
    → s.contents ≡ []
    → All IsStorable es
    → (log : Log es s (store_all device es s).0 (store_all device es s).1) × (read_records
          (length log.stored)
          (store_all device es s).0.contents
        ≡ some (map stored_of log.stored, log.part))
store_all-recover device es s good empty h =
    let log = store_all-Log device es s good in
    (
      log,
      ap (read_records (length log.stored))
            (log.written ∙ ap (λ c. c ++ (flatten (map record_of log.stored) ++ log.part)) empty)
          ∙ read_records-records log.stored log.part
              (All-split es log.stored log.refused log.splits h),
    )
