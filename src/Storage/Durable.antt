-- ===== src/Storage/Durable.antt =====
-- What is in the file after `storeEvent`, and what a failure does to the calls after it.
use event_stream_core.Prelude.{
  ◌≡◌, ◌⊎◌, refl, sym, ap, ap₂, ◌∙◌, map, Bool, true, false, List, [], ◌∷◌, ◌++◌, if◌then◌else◌,
  Bytes, Result, ok, err, inl, inr, flatten, append-nil, append_assoc, arith,
}
use event_stream_core.Event.{Event}
use event_stream_core.Storage.{
  Device, StorageEngine, StorageError, cannot_write, blocks_of, write, write_all, store_event,
}

-- One event as it lies in the file.
abbrev pub record_of : Event → Bytes
record_of event = flatten (blocks_of event)

module _ (device : Device) where
  write-good :
      (block : Bytes) (s : StorageEngine)
      → (write device block s).good ≡ true
      → (s.good ≡ true) × ((write device block s).contents ≡ s.contents ++ block)
  write-good block s h = ground (arith, device.append_good s.contents block)

  write-bad : (block : Bytes) (s : StorageEngine) → s.good ≡ false → write device block s ≡ s
  write-bad block s h = ground arith

  write_all-good :
      (bs : List Bytes) (s : StorageEngine)
      → (write_all device bs s).good ≡ true
      → (s.good ≡ true) × ((write_all device bs s).contents ≡ s.contents ++ flatten bs)
  unfolding write_all
  write_all-good [] s h = (h, sym (append-nil s.contents))
  write_all-good (b ∷ bs) s h =
      let (good', rest) = write_all-good bs (write device b s) h in
      let (good, first) = write-good b s good' in
      (good, rest ∙ ap (λ c. c ++ flatten bs) first ∙ append_assoc s.contents b (flatten bs))

  stored_if :
      (w s' : StorageEngine)
      → ◌≡◌ {A = StorageEngine × Result StorageError (Unit {0})}
          (w, if w.good then ok tt else err cannot_write)
          (s', ok tt)
      → (w ≡ s') × (w.good ≡ true)
  stored_if w s' e = ground arith

  -- A call that returns has put the whole record of the event, and nothing else, at the end of the
  -- file, and the stream was and is good.
  pub store_event-ok :
      (event : Event) (s s' : StorageEngine)
      → store_event device event s ≡ (s', ok tt)
      → (s.good ≡ true) × (s'.good ≡ true) × (s'.contents ≡ s.contents ++ record_of event)
  unfolding store_event
  store_event-ok event s s' e =
      let mid = write_all device (blocks_of event) s in
      let (same, good') = stored_if (write device [] mid) s' e in
      let (mid_good, flushed) = write-good [] mid good' in
      let (good, written) = write_all-good (blocks_of event) s mid_good in
      (
        good,
        ap (λ x. x.good) (sym same) ∙ good',
        ap (λ x. x.contents) (sym same) ∙ flushed ∙ append-nil mid.contents ∙ written,
      )

  write_all-bad : (bs : List Bytes) (s : StorageEngine) → s.good ≡ false → write_all device bs s ≡ s
  unfolding write_all
  write_all-bad [] s h = refl
  write_all-bad (b ∷ bs) s h = ap (write_all device bs) (write-bad b s h) ∙ write_all-bad bs s h

  store_event-bad :
      (event : Event) (s : StorageEngine)
      → s.good ≡ false
      → store_event device event s ≡ (s, err cannot_write)
  unfolding store_event
  store_event-bad event s h =
      ap (λ w. (w, if w.good then ok tt else err cannot_write))
        (ap (write device []) (write_all-bad (blocks_of event) s h) ∙ write-bad [] s h)
      ∙ ground arith

  -- `s'` holds what `s` holds, and `part` behind it.
  abbrev Extends : StorageEngine → StorageEngine → Type 0
  Extends s s' = (part : Bytes) × (s'.contents ≡ s.contents ++ part)

  Extends-trans : (a b c : StorageEngine) → Extends a b → Extends b c → Extends a c
  Extends-trans a b c (p, hp) (q, hq) =
      (p ++ q, hq ∙ ap (λ x. x ++ q) hp ∙ append_assoc a.contents p q)

  write-Extends : (block : Bytes) (s : StorageEngine) → Extends s (write device block s)
  write-Extends block s = go s.good refl
    where
      go : (b : Bool) → s.good ≡ b → Extends s (write device block s)
      go true e = let (part, h) = device.append_keeps s.contents block in (part, ground arith)
      go false e = ([], ground (arith, append-nil s.contents))

  write_all-Extends : (bs : List Bytes) (s : StorageEngine) → Extends s (write_all device bs s)
  unfolding write_all
  write_all-Extends [] s = ([], sym (append-nil s.contents))
  write_all-Extends (b ∷ bs) s =
      Extends-trans s (write device b s) (write_all device bs (write device b s))
        (write-Extends b s) (write_all-Extends bs (write device b s))

  store_event-Extends :
      (event : Event) (s : StorageEngine) → Extends s (store_event device event s).0
  unfolding store_event
  store_event-Extends event s =
      let mid = write_all device (blocks_of event) s in
      Extends-trans s mid (write device [] mid) (write_all-Extends (blocks_of event) s)
        (write-Extends [] mid)

  pub store_event-cases :
      (event : Event) (s : StorageEngine)
      → let (s', r) = store_event device event s in
        ((r ≡ ok tt) × (s'.good ≡ true)) ⊎ ((r ≡ err cannot_write) × (s'.good ≡ false))
  unfolding store_event
  store_event-cases event s = ground arith

  -- The calls of any threads, one after the other.
  unfoldable pub store_all :
      List Event → StorageEngine → StorageEngine × List (Result StorageError (Unit {0}))
  store_all [] s = (s, [])
  store_all (e ∷ es) s =
      let (s', r) = store_event device e s in let (last, rs) = store_all es s' in (last, r ∷ rs)

abbrev pub all_return : List Event → List (Result StorageError (Unit {0}))
all_return = map (λ e. ok tt)

abbrev pub all_throw : List Event → List (Result StorageError (Unit {0}))
all_throw = map (λ e. err cannot_write)

-- How a sequence of calls went: the first calls return and their records lie in the file one behind
-- the other, the others throw; only a call that throws can leave a part of a record behind them.
pub record Log (es : List Event) (s last : StorageEngine)
    (rs : List (Result StorageError (Unit {0}))) : Type 0 where
  pub stored : List Event
  pub refused : List Event
  pub part : Bytes
  pub splits : es ≡ stored ++ refused
  pub results : rs ≡ all_return stored ++ all_throw refused
  pub written : last.contents ≡ s.contents ++ (flatten (map record_of stored) ++ part)
  pub whole : refused ≡ [] → part ≡ []

regroup : (a b c d : Bytes) → (a ++ b) ++ (c ++ d) ≡ a ++ ((b ++ c) ++ d)
regroup a b c d = append_assoc a b (c ++ d) ∙ ap (◌++◌ a) (sym (append_assoc b c d))

module _ (device : Device) where
  store_all-bad :
      (es : List Event) (s : StorageEngine)
      → s.good ≡ false
      → store_all device es s ≡ (s, all_throw es)
  unfolding store_all
  store_all-bad [] s h = refl
  store_all-bad (e ∷ es) s h =
      let first = store_event-bad device e s h in
      let rest = ap (λ x. store_all device es x.0) first ∙ store_all-bad es s h in
      ap₂ (λ x y. (x.0, y ∷ x.1)) rest (ap (λ x. x.1) first)

  -- From a stream that is good on, the calls succeed up to one that fails, and none after it does:
  -- nothing clears the stream's error state.
  pub store_all-Log :
      (es : List Event) (s : StorageEngine)
      → s.good ≡ true
      → Log es s (store_all device es s).0 (store_all device es s).1
  unfolding store_all
  store_all-Log [] s h = record {
    stored = [];
    refused = [];
    part = [];
    splits = refl;
    results = refl;
    written = sym (append-nil s.contents);
    whole = λ e. refl;
  }
  store_all-Log (e ∷ es) s h = elim (store_event-cases device e s) [
    | inl (returned, good') ↦
        let s' = (store_event device e s).0 in
        let rest = store_all-Log es s' good' in
        let (_, _, mine) = store_event-ok device e s s' (ap (λ r. (s', r)) returned) in
        record {
          stored = e ∷ rest.stored;
          refused = rest.refused;
          part = rest.part;
          splits = ap (◌∷◌ e) rest.splits;
          results = ap₂ (λ x y. x ∷ y) returned rest.results;
          written =
              rest.written
              ∙ ap (λ c. c ++ (flatten (map record_of rest.stored) ++ rest.part)) mine
              ∙ regroup s.contents (record_of e) (flatten (map record_of rest.stored)) rest.part;
          whole = rest.whole;
        }
    | inr (thrown, bad) ↦
        let s' = (store_event device e s).0 in
        let (part, extends) = store_event-Extends device e s in
        let rest = store_all-bad es s' bad in
        record {
          stored = [];
          refused = e ∷ es;
          part = part;
          splits = refl;
          results = ap₂ (λ x y. x ∷ y) thrown (ap (λ x. x.1) rest);
          written = ap (λ x. x.0.contents) rest ∙ extends;
          whole = λ e. cc;
        }
  ]
