-- ===== src/Server/Inbound.antt =====
-- The calls of `tryPush` that a connection's thread makes, on a dispatcher that no other thread
-- touches meanwhile.
use event_stream_core.Prelude.{
  ℕ, zero, suc, ◌≤◌, ◌<◌, ◌≡◌, ◌≢◌, inl, inr, refl, ap, sym, ◌∙◌, true, false, List, [], ◌∷◌, ◌++◌,
  All, flatten, length, take, Bytes, leb, arith, length-append, take-append_of_le, append_assoc,
  append-nil, Bool-cases,
}
use event_stream_core.Event.{EventPtr}
use event_stream_core.Dispatcher.{Dispatcher, inbound_capacity, try_push}
use event_stream_core.Server.{new_session, handle_client}
use event_stream_core.Server.Stream.{turns_of}
use event_stream_core.Server.Frames.{Message, IsSendable, wire, events_from, handle_client-wire}

-- The calls, one after the other; their results are not looked at.
unfoldable pub try_push_all : List EventPtr → Dispatcher → Dispatcher
try_push_all [] d = d
try_push_all (evt ∷ evts) d = try_push_all evts (try_push evt d).0

take_all : (n : ℕ) (xs : List EventPtr) → length xs ≤ n → take n xs ≡ xs
take_all zero [] h = refl
take_all zero (x ∷ xs) h = absurd (omega arith)
take_all (suc n) [] h = refl
take_all (suc n) (x ∷ xs) h = ap (◌∷◌ x) (take_all n xs (omega arith))

try_push_room :
    (evt : EventPtr) (d : Dispatcher)
    → leb inbound_capacity (length d.inbound_queue) ≡ false
    → (try_push evt d).0 ≡ record d { inbound_queue = d.inbound_queue ++ evt ∷ [] }
unfolding try_push
try_push_room evt d h = rw h refl

try_push_full :
    (evt : EventPtr) (d : Dispatcher)
    → leb inbound_capacity (length d.inbound_queue) ≡ true
    → (try_push evt d).0 ≡ d
unfolding try_push
try_push_full evt d h = rw h refl

leb_room : (m n : ℕ) → leb m n ≡ false → n < m
leb_room m n h = ground arith

leb_full : (m n : ℕ) → leb m n ≡ true → m ≤ n
leb_full m n h = ground arith

try_push_all-take :
    (evts : List EventPtr) (d : Dispatcher)
    → length d.inbound_queue ≤ inbound_capacity
    → try_push_all evts d
      ≡ record d { inbound_queue = take inbound_capacity (d.inbound_queue ++ evts) }
unfolding try_push_all
try_push_all-take [] d h =
    ap (λ q. record d { inbound_queue = q })
      (sym (
        ap (take inbound_capacity) (append-nil d.inbound_queue)
        ∙ take_all inbound_capacity d.inbound_queue h))
try_push_all-take (evt ∷ evts) d h =
    elim (Bool-cases (leb inbound_capacity (length d.inbound_queue))) [
      | inl full ↦
          let le = leb_full _ _ full in
          ap (try_push_all evts) (try_push_full evt d full)
          ∙ try_push_all-take evts d h
          ∙ ap (λ q. record d { inbound_queue = q })
              (take-append_of_le inbound_capacity d.inbound_queue evts le
                ∙ sym (take-append_of_le inbound_capacity d.inbound_queue (evt ∷ evts) le))
      | inr room ↦
          ap (try_push_all evts) (try_push_room evt d room)
          ∙ try_push_all-take evts (record d { inbound_queue = d.inbound_queue ++ evt ∷ [] })
              (omega (arith, leb_room _ _ room, length-append {0} d.inbound_queue (evt ∷ [])))
          ∙ ap (λ q. record d { inbound_queue = take inbound_capacity q })
              (append_assoc d.inbound_queue (evt ∷ []) evts)
    ]

module _ (clock counters : ℕ → ℕ) (client_address : Bytes) where
  -- A client sends frames as in `handle_client-wire`. On a dispatcher that no other thread touches,
  -- the inbound queue then holds what it held and the client's events in their order, up to its
  -- capacity: the events for which there was no room are gone, and nothing else is.
  pub try_push_all-wire :
      (ms : List Message) (chunks : List Bytes) (d : Dispatcher)
      → All IsSendable ms
      → All (λ c. c ≢ []) chunks
      → flatten chunks ≡ wire ms
      → length d.inbound_queue ≤ inbound_capacity
      → try_push_all
          (handle_client clock counters client_address (turns_of chunks) new_session).pushed
          d
        ≡ record d {
          inbound_queue =
              take inbound_capacity
                (d.inbound_queue ++ events_from clock counters client_address 0 ms);
        }
  try_push_all-wire ms chunks d sendable ne e h =
      ap (λ s. try_push_all s.pushed d)
        (handle_client-wire clock counters client_address ms chunks sendable ne e)
      ∙ try_push_all-take (events_from clock counters client_address 0 ms) d h
