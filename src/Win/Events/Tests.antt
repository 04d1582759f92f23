-- ===== src/Win/Events/Tests.antt =====
-- A queue of one event.
use xplain_software_framewor.Base.{
  ℕ, zero, suc, ◌+◌, ◌≤◌, ◌<◌, ◌≡◌, refl, ◌⊎◌, arith, some, List, [], ◌∷◌, ◌++◌, length, add32,
}
use xplain_software_framewor.Win.Events.{
  EventData, command, WinEvent, WinEventQueue, win_queue_event, process_events,
}
use xplain_software_framewor.Win.Events.Queue.{HoldsEvents, queue_event_lem, stamped}
use xplain_software_framewor.Win.Events.Loop.{Processed, process_events_lem}

abbrev told : ℕ → WinEvent
told n = record {
  timestamp = n;
  event = command (record { sender = 2; recipient = 5; command = n });
}

abbrev queue : WinEventQueue
queue = record {
  ring = record { head = 16; tail = 15 };
  buffer = λ i. told 0;
  num_dropped_events = 4;
  task_added = 1;
}

queue-HoldsEvents : HoldsEvents queue (told 0 ∷ [])
queue-HoldsEvents = record {
  taken = 15;
  tracks = record { head_at = refl; tail_at = refl; ordered = omega arith; fits = omega arith };
  stored = (refl, tt);
}

queue_event_example :
    ((win_queue_event (told 1) queue).task_added ≡ 2)
    × (((length (told 0 ∷ []) < 16)
          × HoldsEvents (win_queue_event (told 1) queue) (told 0 ∷ stamped (told 1) ∷ [])
          × ((win_queue_event (told 1) queue).num_dropped_events ≡ 4))
        ⊎ ((length (told 0 ∷ []) ≡ 16)
            × HoldsEvents (win_queue_event (told 1) queue) (told 0 ∷ [])
            × ((win_queue_event (told 1) queue).num_dropped_events ≡ add32 4 1)))
queue_event_example = queue_event_lem (told 1) queue (told 0 ∷ []) queue-HoldsEvents

-- Processing that notes the events, and queues another as long as it has some to send.
unfoldable send : EventData → ℕ × List EventData → List WinEvent × (ℕ × List EventData)
send event (zero, seen) = ([], (zero, seen ++ event ∷ []))
send event (suc left, seen) = (told left ∷ [], (left, seen ++ event ∷ []))

send-bounded :
    (event : EventData) (s : ℕ × List EventData)
    → length (send event s).0 + (send event s).1.0 ≤ s.0
unfolding send
send-bounded event (zero, seen) = omega arith
send-bounded event (suc left, seen) = omega arith

process_events_example :
    (q' : WinEventQueue) × (s' : ℕ × List EventData) × (process_events send
        (length (told 0 ∷ []) + 2)
        queue
        (2, [])
      ≡ some (q', s'))
    × HoldsEvents q' []
    × Processed send (told 0 ∷ []) (2, []) s'
process_events_example =
    process_events_lem send (λ s. s.0) send-bounded queue (told 0 ∷ []) (2, []) queue-HoldsEvents
