-- ===== src/Win/Events/Loop.antt =====
-- The loop over the event queue, also where processing an event queues others.
use xplain_software_framewor.Base.{
  ℕ, zero, suc, ◌+◌, ◌≤◌, ◌≡◌, refl, subst, inl, inr, arith, ltb, lt→ltb, le→ltb, Bool-cases, ne→==,
  some, List, [], ◌∷◌, ◌++◌, length, length-append, if◌then◌else◌,
}
use xplain_software_framewor.Win.Events.{
  EventData, WinEvent, WinEventQueue, queue_events, event_queue_pop, win_queue_event,
  process_events,
}
use xplain_software_framewor.Win.Events.Queue.{
  HoldsEvents, stamped, queue_event_lem, pop-HoldsEvents, is_empty_lem,
}

-- A list of events after others are queued: an event goes behind them if there are fewer than 16,
-- and is lost otherwise.
pub queued : List WinEvent → List WinEvent → List WinEvent
queued es [] = es
queued es (event ∷ events) =
    queued (if ltb (length es) 16 then es ++ stamped event ∷ [] else es) events

-- The events are processed from the first on, each as the first of the list that the events queued
-- meanwhile go to, until none is left.
pub data Processed {ℓ} {S : Type ℓ} (process : EventData → S → List WinEvent × S)
    : List WinEvent → S → S → Type ℓ where
  no_more : {s : S} → Processed process [] s s
  first :
      {e : WinEvent} {es more : List WinEvent} {s s' : S}
      → queued (e ∷ es) (process e.event s).0 ≡ e ∷ more
      → Processed process more (process e.event s).1 s'
      → Processed process (e ∷ es) s s'

queue_events-HoldsEvents :
    (events : List WinEvent) (q : WinEventQueue) (es : List WinEvent)
    → HoldsEvents q es
    → HoldsEvents (queue_events events q) (queued es events)
unfolding queue_events queued
queue_events-HoldsEvents [] q es h = h
queue_events-HoldsEvents (event ∷ events) q es h = elim (queue_event_lem event q es h).1 [
  | inl (few, held, _) ↦
      rw (lt→ltb (length es) 16 few)
        (queue_events-HoldsEvents events (win_queue_event event q) (es ++ stamped event ∷ []) held)
  | inr (full, held, _) ↦
      rw (le→ltb (length es) 16 (omega (arith, full)))
        (queue_events-HoldsEvents events (win_queue_event event q) es held)
]

-- The first event stays the first, and there are no more new ones than were queued.
queued_front :
    (events : List WinEvent) (e : WinEvent) (es : List WinEvent)
    → (more : List WinEvent) × (queued (e ∷ es) events ≡ e ∷ more)
      × (length more ≤ length es + length events)
unfolding queued
queued_front [] e es = (es, refl, omega arith)
queued_front (event ∷ events) e es = elim (Bool-cases (ltb (length (e ∷ es)) 16)) [
  | inl few ↦
      let (more, same, le) = queued_front events e (es ++ stamped event ∷ []) in
      (more, rw few same, omega (arith, length-append es (stamped event ∷ [])))
  | inr full ↦ let (more, same, le) = queued_front events e es in (more, rw full same, omega arith)
]

module _ {ℓ} {S : Type ℓ} (process : EventData → S → List WinEvent × S) (to_come : S → ℕ)
    (bounded : (e : EventData) (s : S)
      → length (process e s).0 + to_come (process e s).1 ≤ to_come s) where
  loop_lem :
      (rounds : ℕ) (q : WinEventQueue) (es : List WinEvent) (s : S)
      → HoldsEvents q es
      → length es + to_come s ≤ rounds
      → (q' : WinEventQueue) × (s' : S) × (process_events process rounds q s ≡ some (q', s'))
        × HoldsEvents q' []
        × Processed process es s s'
  unfolding process_events
  loop_lem zero q [] s h enough = (q, s, rw (is_empty_lem q [] h) refl, h, no_more)
  loop_lem (suc rounds) q [] s h enough = (q, s, rw (is_empty_lem q [] h) refl, h, no_more)
  loop_lem zero q (e ∷ es) s h enough = absurd (omega arith)
  loop_lem (suc rounds) q (e ∷ es) s h enough =
      let (events, s1) = process e.event s in
      let (more, same, le) = queued_front events e es in
      let held =
        subst (HoldsEvents (queue_events events q)) same
          (queue_events-HoldsEvents events q (e ∷ es) h) in
      let (q', s', ran, empty, done) =
        loop_lem rounds (event_queue_pop (queue_events events q)) more s1
          (pop-HoldsEvents (queue_events events q) e more held).1
          (omega (arith, le, bounded e.event s)) in
      (
        q',
        s',
        rw
            (
              is_empty_lem q (e ∷ es) h,
              ne→== (length (e ∷ es)) 0 (λ p. omega (arith, p)),
              (pop-HoldsEvents q e es h).0,
            )
            ran,
        empty,
        first same done,
      )

  -- For a queue that holds events, and processing that queues events only by `win_queue_event`, of
  -- which there are at most `to_come` in the state that it has: `win_process_events` ends
  -- after at most one round for each event in the queue and each one to come, and leaves the queue
  -- empty. It has processed the events in the order in which they were queued, also those that were
  -- queued meanwhile, of which it dropped those for which there was no place behind the event that
  -- was being processed.
  pub process_events_lem :
      (q : WinEventQueue) (es : List WinEvent) (s : S)
      → HoldsEvents q es
      → (q' : WinEventQueue) × (s' : S) × (process_events process (length es + to_come s) q s
          ≡ some (q', s'))
        × HoldsEvents q' []
        × Processed process es s s'
  process_events_lem q es s h = loop_lem (length es + to_come s) q es s h (omega arith)
