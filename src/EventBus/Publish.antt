-- ===== src/EventBus/Publish.antt =====
-- Who is called by `publishEvent`.
use event_stream_core.Prelude.{
  ◌≡◌, refl, ap, sym, ◌∙◌, Bool, true, false, List, [], ◌∷◌, ◌++◌, append-nil, append_assoc,
  if◌then◌else◌,
}
use event_stream_core.Event.{Event}
use event_stream_core.EventBus.{
  EventBus, Call, returned, threw, subscribe_all, call_handlers, publish_event,
}

module _ {A : Type 0} where
  abbrev pub called : List (Call A) → List A
  called [] = []
  called (returned h ∷ cs) = h ∷ called cs
  called (threw h ∷ cs) = h ∷ called cs

  called-cons :
      (throws : Bool) (h : A) (cs : List (Call A))
      → called ((if throws then threw h else returned h) ∷ cs) ≡ h ∷ called cs
  called-cons true h cs = refl
  called-cons false h cs = refl

  -- What these callbacks subscribe, in the order of their calls.
  abbrev pub added_by : (A → Event → List A × Bool) → Event → List A → List A
  added_by effect event [] = []
  added_by effect event (h ∷ hs) = (effect h event).0 ++ added_by effect event hs

  subscribe_all-append :
      (hs : List A) (bus : EventBus A) → (subscribe_all hs bus).subscribers ≡ bus.subscribers ++ hs
  unfolding subscribe_all
  subscribe_all-append [] bus = sym (append-nil bus.subscribers)
  subscribe_all-append (h ∷ hs) bus =
      subscribe_all-append hs (record { subscribers = bus.subscribers ++ h ∷ [] })
      ∙ append_assoc bus.subscribers (h ∷ []) hs

  call_handlers-called :
      (effect : A → Event → List A × Bool) (hs : List A) (event : Event) (bus : EventBus A)
      → (called (call_handlers effect hs event bus).1 ≡ hs)
        × ((call_handlers effect hs event bus).0.subscribers
            ≡ bus.subscribers ++ added_by effect event hs)
  unfolding call_handlers
  call_handlers-called effect [] event bus = (refl, sym (append-nil bus.subscribers))
  call_handlers-called effect (h ∷ hs) event bus =
      let added = (effect h event).0 in
      let (calls, subs) = call_handlers-called effect hs event (subscribe_all added bus) in
      (
        called-cons (effect h event).1 h _ ∙ ap (◌∷◌ h) calls,
        subs
            ∙ ap (λ s. s ++ added_by effect event hs) (subscribe_all-append added bus)
            ∙ append_assoc bus.subscribers added (added_by effect event hs),
      )

  -- A publication calls every callback that is subscribed when it starts, once, in the order of the
  -- subscriptions, whichever of them throw; those that are subscribed in its course stand behind
  -- them afterwards and are not called by it.
  pub publish_event_lem :
      (effect : A → Event → List A × Bool) (event : Event) (bus : EventBus A)
      → (called (publish_event effect event bus).1 ≡ bus.subscribers)
        × ((publish_event effect event bus).0.subscribers
            ≡ bus.subscribers ++ added_by effect event bus.subscribers)
  publish_event_lem effect event bus = call_handlers-called effect bus.subscribers event bus
