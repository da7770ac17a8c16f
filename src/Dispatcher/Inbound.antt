-- ===== src/Dispatcher/Inbound.antt =====
-- The dispatcher's loop against its inbound queue, with clients pushing and `stop` at any time.
use event_stream_core.Prelude.{
  Bool, true, false, Option, none, some, List, [], ◌∷◌, ◌++◌, ◌≡◌, refl, subst, ◌⊎◌, inl, inr, sym,
  ap, ◌∙◌, if◌then◌else◌, append-nil, balance_trans, arith,
}
use event_stream_core.Event.{EventPtr}
use event_stream_core.EventBusMulti.{QueueId, EventBusMulti}
use event_stream_core.Dispatcher.{
  Dispatcher, Report, timed_out, sent, dropped, crashed, try_push, try_pop, stop, dispatch_turn,
  report_of, deliver_popped,
}
use event_stream_core.Dispatcher.Retry.{Sleep}

-- A call that another thread makes.
pub data Outside : Type 0 where
  arrives : EventPtr → Outside
  stops : Outside

-- The state after the call, and the events that it put into the queue.
abbrev pub arrival : EventPtr → Dispatcher × Bool → Dispatcher × List EventPtr
arrival evt (d, accepted) = (d, if accepted then evt ∷ [] else [])

abbrev pub outside : Outside → Dispatcher → Dispatcher × List EventPtr
outside (arrives evt) d = arrival evt (try_push evt d)
outside stops d = (stop d, [])

unfoldable pub outside_all : List Outside → Dispatcher → Dispatcher × List EventPtr
outside_all [] d = (d, [])
outside_all (o ∷ os) d =
    let (d', xs) = outside o d in let (last, ys) = outside_all os d' in (last, xs ++ ys)

-- What happens around one turn of the loop: calls before the test of `running_`, calls before the
-- wait ends, and the sleeps of the retry loop.
pub record Turn : Type 0 where
  pub before : List Outside
  pub waiting : List Outside
  pub sleep : Sleep

pub record Run : Type 0 where
  pub dispatcher : Dispatcher
  pub bus : EventBusMulti
  pub accepted : List EventPtr
  pub reports : List Report

-- After a crash there is no next turn.
abbrev pub and_then : Report → Dispatcher → EventBusMulti → List EventPtr → Run → Run
and_then (crashed evt) d bus entered rest = record {
  dispatcher = d;
  bus = bus;
  accepted = entered;
  reports = crashed evt ∷ [];
}
and_then r d bus entered rest = record rest {
  accepted = entered ++ rest.accepted;
  reports = r ∷ rest.reports;
}

-- `DispatchLoop`, for as long as the turns go.
unfoldable pub dispatch_loop : List Turn → Dispatcher → EventBusMulti → Run
dispatch_loop [] d bus = record { dispatcher = d; bus = bus; accepted = []; reports = [] }
dispatch_loop (t ∷ ts) d bus =
    let (d₁, xs) = outside_all t.before d in
    let (d₂, ys) = outside_all t.waiting d₁ in
    let turned = dispatch_turn t.sleep d₂ bus in
    let rest = dispatch_loop ts turned.dispatcher turned.bus in
    if d₁.running
    then and_then turned.report turned.dispatcher turned.bus (xs ++ ys) rest
    else record { dispatcher = d₁; bus = bus; accepted = xs; reports = [] }

-- The event that a turn took from the inbound queue.
abbrev pub taken : Report → List EventPtr
taken timed_out = []
taken (sent q evt routed) = evt ∷ []
taken (dropped q evt routed) = evt ∷ []
taken (crashed evt) = evt ∷ []

abbrev pub taken_all : List Report → List EventPtr
taken_all [] = []
taken_all (r ∷ rs) = taken r ++ taken_all rs

abbrev Balanced : Dispatcher → List EventPtr → List EventPtr → Dispatcher → Type 0
Balanced d entered left d' = d.inbound_queue ++ entered ≡ left ++ d'.inbound_queue

outside-Balanced : (o : Outside) (d : Dispatcher) → Balanced d (outside o d).1 [] (outside o d).0
unfolding try_push
outside-Balanced (arrives evt) d = ground (arith, append-nil d.inbound_queue)
outside-Balanced stops d = append-nil d.inbound_queue

outside_all-Balanced :
    (os : List Outside) (d : Dispatcher) → Balanced d (outside_all os d).1 [] (outside_all os d).0
unfolding outside_all
outside_all-Balanced [] d = append-nil d.inbound_queue
outside_all-Balanced (o ∷ os) d =
    balance_trans _ _ _ (outside o d).1 [] _ [] (outside-Balanced o d)
      (outside_all-Balanced os (outside o d).0)

try_pop-cases :
    (d : Dispatcher) (xs : List EventPtr)
    → d.inbound_queue ≡ xs
    → ((xs ≡ []) × (try_pop d ≡ (d, none)))
      ⊎ ((evt : EventPtr) × (rest : List EventPtr) × (xs ≡ evt ∷ rest)
          × (try_pop d ≡ (record d { inbound_queue = rest }, some evt)))
unfolding try_pop
try_pop-cases d [] e = inl (refl, ground arith)
try_pop-cases d (x ∷ xs) e = inr (x, xs, refl, ground arith)

taken-report_of :
    (q : QueueId) (evt routed : EventPtr) (b : Bool) → taken (report_of q evt routed b) ≡ evt ∷ []
taken-report_of q evt routed b = ground arith

dispatch_turn-Balanced :
    (sleep : Sleep) (d : Dispatcher) (bus : EventBusMulti)
    → let t = dispatch_turn sleep d bus in Balanced d [] (taken t.report) t.dispatcher
unfolding dispatch_turn
dispatch_turn-Balanced sleep d bus = elim (try_pop-cases d _ refl) [
  | inl (empty, e) ↦ turned (d, none) e (append-nil d.inbound_queue)
  | inr (evt, rest, full, e) ↦
      turned (record d { inbound_queue = rest }, some evt) e
        (append-nil d.inbound_queue ∙ full ∙ sym (ap (λ x. x ++ rest) (taken-report_of _ _ _ _)))
]
  where
    turned :
        (p : Dispatcher × Option EventPtr)
        → try_pop d ≡ p
        → Balanced d []
            (taken (deliver_popped sleep bus p).report)
            (deliver_popped sleep bus p).dispatcher
        → Balanced d []
            (taken (dispatch_turn sleep d bus).report)
            (dispatch_turn sleep d bus).dispatcher
    turned p e h =
        subst
          (λ x.
            Balanced d [] (taken (deliver_popped sleep bus x).report)
              (deliver_popped sleep bus x).dispatcher)
          (sym e) h

abbrev IsFifo : Dispatcher → Run → Type 0
IsFifo d run = Balanced d run.accepted (taken_all run.reports) run.dispatcher

through_turn :
    (d d₂ d' : Dispatcher) (entered : List EventPtr) (r : Report)
    → Balanced d entered [] d₂
    → Balanced d₂ [] (taken r) d'
    → Balanced d entered (taken r) d'
through_turn d d₂ d' entered r arrive turn = arrive ∙ sym (append-nil d₂.inbound_queue) ∙ turn

and_then-IsFifo :
    (d d' : Dispatcher) (bus : EventBusMulti) (entered : List EventPtr) (rest : Run) (r : Report)
    → Balanced d entered (taken r) d'
    → IsFifo d' rest
    → IsFifo d (and_then r d' bus entered rest)
and_then-IsFifo d d' bus entered rest (crashed evt) turn later = turn
and_then-IsFifo d d' bus entered rest r turn later =
    balance_trans _ _ _ entered (taken r) rest.accepted (taken_all rest.reports) turn later

if-IsFifo :
    (d : Dispatcher) (b : Bool) (x y : Run)
    → IsFifo d x
    → IsFifo d y
    → IsFifo d (if b then x else y)
if-IsFifo d true x y hx hy = hx
if-IsFifo d false x y hx hy = hy

-- First in, first out, with nothing lost before it is routed: what the queue held and what clients
-- had accepted, in this order, is what the turns took from it, each as one report, and what is left
-- in it when the loop ends, by `stop` or with the turns.
pub dispatch_loop-fifo :
    (ts : List Turn) (d : Dispatcher) (bus : EventBusMulti)
    → let run = dispatch_loop ts d bus in
      d.inbound_queue ++ run.accepted ≡ taken_all run.reports ++ run.dispatcher.inbound_queue
unfolding dispatch_loop
dispatch_loop-fifo [] d bus = append-nil d.inbound_queue
dispatch_loop-fifo (t ∷ ts) d bus =
    let (d₁, xs) = outside_all t.before d in
    let (d₂, ys) = outside_all t.waiting d₁ in
    let turned = dispatch_turn t.sleep d₂ bus in
    let arrive =
      balance_trans _ _ _ xs [] ys [] (outside_all-Balanced t.before d)
        (outside_all-Balanced t.waiting d₁) in
    let turn =
      through_turn d d₂ turned.dispatcher (xs ++ ys) turned.report arrive
        (dispatch_turn-Balanced t.sleep d₂ bus) in
    if-IsFifo d d₁.running _ _
      (and_then-IsFifo d turned.dispatcher turned.bus (xs ++ ys) _ turned.report turn
        (dispatch_loop-fifo ts turned.dispatcher turned.bus))
      (outside_all-Balanced t.before d)
