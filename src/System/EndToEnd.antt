-- ===== src/System/EndToEnd.antt =====
-- From the bytes of a connection to the bytes of the file.
use event_stream_core.Prelude.{
  ℕ, suc, ◌≡◌, ◌≢◌, refl, subst, ap, sym, ◌∙◌, true, some, List, [], ◌∷◌, ◌++◌, append_assoc,
  append-nil, map, flatten, All, Bytes, inl, inr, arith,
}
use event_stream_core.Event.{Event}
use event_stream_core.TopicTable.{Table}
use event_stream_core.Storage.{Device, StorageEngine, write, write_all, blocks_of, store_event}
use event_stream_core.Storage.Durable.{record_of, store_all, store_event-ok, store_event-cases}
use event_stream_core.Server.{new_session, handle_client}
use event_stream_core.Server.Stream.{turns_of}
use event_stream_core.Server.Frames.{
  Message, IsSendable, wire, event_at, events_from, handle_client-wire,
}
use event_stream_core.Processor.Loop.{present}
use event_stream_core.System.{Move, run, new_system}
use event_stream_core.System.Delivery.{AreRouted, pushes, run-delivers}

-- A disk that takes every block.
abbrev pub AcceptsAll : Device → Type 0
AcceptsAll device = (contents block : Bytes) → (device.append contents block).1 ≡ true

module _ (device : Device) (accepts : AcceptsAll device) where
  write-stays_good :
      (block : Bytes) (s : StorageEngine) → s.good ≡ true → (write device block s).good ≡ true
  write-stays_good block s h = ground (arith, accepts s.contents block)

  write_all-stays_good :
      (bs : List Bytes) (s : StorageEngine) → s.good ≡ true → (write_all device bs s).good ≡ true
  unfolding write_all
  write_all-stays_good [] s h = h
  write_all-stays_good (b ∷ bs) s h =
      write_all-stays_good bs (write device b s) (write-stays_good b s h)

  pub store_event-stays_good :
      (e : Event) (s : StorageEngine) → s.good ≡ true → (store_event device e s).0.good ≡ true
  unfolding store_event
  store_event-stays_good e s h =
      write-stays_good [] (write_all device (blocks_of e) s)
        (write_all-stays_good (blocks_of e) s h)

  pub store_event-contents :
      (e : Event) (s : StorageEngine)
      → s.good ≡ true
      → (store_event device e s).0.contents ≡ s.contents ++ record_of e
  store_event-contents e s h = elim (store_event-cases device e s) [
    | inl (returned, good) ↦
        let s' = (store_event device e s).0 in
        (store_event-ok device e s s' (ap (λ r. (s', r)) returned)).2
    | inr (thrown, bad) ↦ cc (store_event-stays_good e s h)
  ]

  store_all-contents :
      (es : List Event) (s : StorageEngine)
      → s.good ≡ true
      → (store_all device es s).0.contents ≡ s.contents ++ flatten (map record_of es)
  unfolding store_all
  store_all-contents [] s h = sym (append-nil s.contents)
  store_all-contents (e ∷ es) s h =
      store_all-contents es (store_event device e s).0 (store_event-stays_good e s h)
      ∙ ap (λ c. c ++ flatten (map record_of es)) (store_event-contents e s h)
      ∙ append_assoc s.contents (record_of e) (flatten (map record_of es))

module _ (clock counters : ℕ → ℕ) (client_address : Bytes) where
  some-present :
      (k : ℕ) (ms : List Message)
      → map some (present (events_from clock counters client_address k ms))
        ≡ events_from clock counters client_address k ms
  some-present k [] = refl
  some-present k (m ∷ ms) =
      ap (◌∷◌ (event_at clock counters client_address k m)) (some-present (suc k) ms)

  -- A client sends frames as in `handle_client-wire`, and the disk takes every block. Then there is
  -- a schedule of the threads, in which `tryPush` is called with just the events of the connection
  -- in their order, behind which the file holds, after what it held, the records of all these
  -- events as they were routed, whole and in the same order.
  pub end_to_end :
      (device : Device) (table : Table) (n : ℕ) (storage : StorageEngine) (ms : List Message)
      (chunks : List Bytes)
      → AcceptsAll device
      → storage.good ≡ true
      → All IsSendable ms
      → All (λ c. c ≢ []) chunks
      → flatten chunks ≡ wire ms
      → (schedule : List Move) × (routed : List Event) × (map some (pushes schedule)
          ≡ (handle_client clock counters client_address (turns_of chunks) new_session).pushed)
        × AreRouted table (pushes schedule) routed
        × ((run device schedule (new_system table storage (suc n))).0.storage.contents
            ≡ storage.contents ++ flatten (map record_of routed))
  end_to_end device table n storage ms chunks accepts good sendable ne e =
      let events = present (events_from clock counters client_address 0 ms) in
      let (schedule, routed, same, are, done) = run-delivers device table n events storage in
      (
        schedule,
        routed,
        ap (map some) same
            ∙ some-present 0 ms
            ∙ ap (λ s. s.pushed)
                (sym (handle_client-wire clock counters client_address ms chunks sendable ne e)),
        subst (λ es. AreRouted table es routed) (sym same) are,
        ap (λ s. s.storage.contents) done ∙ store_all-contents device accepts routed storage good,
      )
