-- ===== src/EventBusMulti/Fifo.antt =====
-- Histories of the bus: any interleaving of the `push` and `pop` calls of any number of threads.
use event_stream_core.Prelude.{
  Bool, true, false, Option, none, some, List, [], ◌∷◌, ◌++◌, ◌≡◌, if◌then◌else◌, append-nil,
  balance_trans, arith,
}
use event_stream_core.Event.{EventPtr}
use event_stream_core.EventBusMulti.{
  QueueId, realtime, transactional, batch, EventBusMulti, new_bus, get_queue, push, pop,
}
use event_stream_core.EventBusMulti.Queue.{IsWithin, new_bus-IsWithin, push-IsWithin, pop-IsWithin}

pub data Call : Type 0 where
  pushes : QueueId → EventPtr → Call
  pops : QueueId → Call

-- What a call returned.
pub data Outcome : Type 0 where
  pushed refused popped : QueueId → EventPtr → Outcome
  timed_out : QueueId → Outcome

abbrev push_outcome : QueueId → EventPtr → EventBusMulti × Bool → EventBusMulti × Outcome
push_outcome q evt (bus, done) = (bus, if done then pushed q evt else refused q evt)

abbrev pop_outcome : QueueId → EventBusMulti × Option EventPtr → EventBusMulti × Outcome
pop_outcome q (bus, none) = (bus, timed_out q)
pop_outcome q (bus, some evt) = (bus, popped q evt)

unfoldable pub perform : Call → EventBusMulti → EventBusMulti × Outcome
perform (pushes q evt) bus = push_outcome q evt (push q evt bus)
perform (pops q) bus = pop_outcome q (pop q bus)

unfoldable pub perform_all : List Call → EventBusMulti → EventBusMulti × List Outcome
perform_all [] bus = (bus, [])
perform_all (c ∷ cs) bus =
    let (bus', outcome) = perform c bus in
    let (last, outcomes) = perform_all cs bus' in (last, outcome ∷ outcomes)

abbrev pub same_queue : QueueId → QueueId → Bool
same_queue realtime realtime = true
same_queue transactional transactional = true
same_queue batch batch = true
same_queue _ _ = false

-- The events that a history put into a queue, and those that it took from it, oldest first.
abbrev pub entered : QueueId → List Outcome → List EventPtr
entered q [] = []
entered q (pushed r evt ∷ os) = (if same_queue q r then evt ∷ [] else []) ++ entered q os
entered q (refused r evt ∷ os) = entered q os
entered q (popped r evt ∷ os) = entered q os
entered q (timed_out r ∷ os) = entered q os

abbrev pub left : QueueId → List Outcome → List EventPtr
left q [] = []
left q (pushed r evt ∷ os) = left q os
left q (refused r evt ∷ os) = left q os
left q (popped r evt ∷ os) = (if same_queue q r then evt ∷ [] else []) ++ left q os
left q (timed_out r ∷ os) = left q os

abbrev Balanced : QueueId → EventBusMulti → EventBusMulti → List Outcome → Type 0
Balanced q before after os =
    (get_queue q before).dq ++ entered q os ≡ left q os ++ (get_queue q after).dq

perform-Balanced :
    (q : QueueId) (c : Call) (bus : EventBusMulti)
    → Balanced q bus (perform c bus).0 ((perform c bus).1 ∷ [])
unfolding perform push pop
perform-Balanced q (pushes realtime evt) bus = ground (arith, append-nil (get_queue q bus).dq)
perform-Balanced q (pushes transactional evt) bus = ground (arith, append-nil (get_queue q bus).dq)
perform-Balanced q (pushes batch evt) bus = ground (arith, append-nil (get_queue q bus).dq)
perform-Balanced q (pops realtime) bus = ground (arith, append-nil (get_queue q bus).dq)
perform-Balanced q (pops transactional) bus = ground (arith, append-nil (get_queue q bus).dq)
perform-Balanced q (pops batch) bus = ground (arith, append-nil (get_queue q bus).dq)

entered-cons :
    (q : QueueId) (o : Outcome) (os : List Outcome)
    → entered q (o ∷ os) ≡ entered q (o ∷ []) ++ entered q os
entered-cons q o os = ground arith

left-cons :
    (q : QueueId) (o : Outcome) (os : List Outcome) → left q (o ∷ os) ≡ left q (o ∷ []) ++ left q os
left-cons q o os = ground arith

-- Each queue is first in, first out, and loses or makes up nothing: what it held at the start and
-- what was accepted since, in this order, is what was taken since and what it holds now.
pub perform_all-fifo :
    (q : QueueId) (cs : List Call) (bus : EventBusMulti)
    → (get_queue q bus).dq ++ entered q (perform_all cs bus).1
      ≡ left q (perform_all cs bus).1 ++ (get_queue q (perform_all cs bus).0).dq
unfolding perform_all
perform_all-fifo q [] bus = append-nil (get_queue q bus).dq
perform_all-fifo q (c ∷ cs) bus =
    let mid = (perform c bus).0 in
    let o = (perform c bus).1 in
    let os = (perform_all cs mid).1 in
    rw (entered-cons q o os, left-cons q o os)
      (balance_trans _ _ _ (entered q (o ∷ [])) (left q (o ∷ [])) (entered q os) (left q os)
        (perform-Balanced q c bus) (perform_all-fifo q cs mid))

perform-IsWithin : (c : Call) {bus : EventBusMulti} → IsWithin bus → IsWithin (perform c bus).0
unfolding perform
perform-IsWithin (pushes q evt) v = push-IsWithin q evt v
perform-IsWithin (pops q) {bus} v = ground (arith, pop-IsWithin q {bus = bus})

run-IsWithin :
    (cs : List Call) {bus : EventBusMulti} → IsWithin bus → IsWithin (perform_all cs bus).0
unfolding perform_all
run-IsWithin [] v = v
run-IsWithin (c ∷ cs) v = run-IsWithin cs (perform-IsWithin c v)

-- From the constructor on, no history takes a queue past its capacity, and none changes a capacity.
pub perform_all-IsWithin : (cs : List Call) → IsWithin (perform_all cs new_bus).0
perform_all-IsWithin cs = run-IsWithin cs new_bus-IsWithin
