-- ===== src/Win/Events.antt =====
-- util/gfx/win.c: the event queue, and the windows that an event is handed to. What the handlers
-- answer is a parameter, `accepts`; the windows whose handlers are called are the result, in
-- order.
pub mod Queue
pub mod Loop
pub mod Routing
pub mod Bubbling
mod Tests
use xplain_software_framewor.Base.{
  ℕ, zero, suc, ◌+◌, ◌^◌, Bool, true, false, Option, none, some, ◌>>=◌, List, [], ◌∷◌, ◌++◌, ◌==◌,
  ◌&&◌, if◌then◌else◌, add32, bit_and,
}
use xplain_software_framewor.Base.Int.{ℤ, ◌-ℤ◌, ◌+ℤ◌, to_i16}
use xplain_software_framewor.Ring.{RingHead}
use xplain_software_framewor.Ring
use xplain_software_framewor.Win.{WinPoint, WinArea, WinAttributes, Windows, assign, win_raise}
use xplain_software_framewor.Win.Geometry.{win_is_inside_area}

pub data PointerEventType : Type 0 where
  pointer_press : PointerEventType
  pointer_move : PointerEventType
  pointer_release : PointerEventType

pub record WinPointerEvent : Type 0 where
  pub pos : WinPoint
  pub is_relative : Bool
  pub last_pos : WinPoint
  pub buttons : ℕ
  pub type : PointerEventType

pub data KeyboardEventType : Type 0 where
  keyboard_press : KeyboardEventType
  keyboard_release : KeyboardEventType

pub record WinKeyboardEvent : Type 0 where
  pub keycode : ℕ
  pub type : KeyboardEventType

pub record WinCommandEvent : Type 0 where
  pub sender : ℕ
  pub recipient : ℕ
  pub command : ℕ

pub data EventData : Type 0 where
  pointer : WinPointerEvent → EventData
  keyboard : WinKeyboardEvent → EventData
  command : WinCommandEvent → EventData

pub record WinEvent : Type 0 where
  pub timestamp : ℕ
  pub event : EventData

-- `struct win_event_queue` with `win_num_dropped_events`, and the number of times that its task was
-- given to the main work queue.
pub record WinEventQueue : Type 0 where
  pub ring : RingHead
  pub buffer : ℕ → WinEvent
  pub num_dropped_events : ℕ
  pub task_added : ℕ

abbrev pub queue_size : ℕ
queue_size = 2 ^ 4

pub event_queue_is_empty : WinEventQueue → Bool
event_queue_is_empty q = Ring.is_empty q.ring

pub event_queue_is_full : WinEventQueue → Bool
event_queue_is_full q = Ring.is_full q.ring queue_size

pub event_queue_get_tail : WinEventQueue → WinEvent
event_queue_get_tail q = q.buffer (Ring.get_tail q.ring queue_size)

pub event_queue_push : WinEvent → ℕ → WinEventQueue → WinEventQueue
event_queue_push event timestamp q = record q {
  buffer =
      assign q.buffer (Ring.get_head q.ring queue_size) (record event { timestamp = timestamp });
  ring = Ring.insert_entries q.ring 1;
}

pub event_queue_pop : WinEventQueue → WinEventQueue
event_queue_pop q = record q { ring = Ring.extract_entries q.ring 1 }

pub win_queue_event : WinEvent → WinEventQueue → WinEventQueue
win_queue_event event q =
    let q1 = record q { task_added = q.task_added + 1 } in
    if event_queue_is_full q1
    then record q1 { num_dropped_events = add32 q1.num_dropped_events 1 }
    else event_queue_push event 0 q1

pub win_queue_pointer_event : WinPointerEvent → ℕ → WinEventQueue → WinEventQueue
win_queue_pointer_event event timestamp =
    win_queue_event (record { timestamp = timestamp; event = pointer event })

pub win_queue_keyboard_event : WinKeyboardEvent → ℕ → WinEventQueue → WinEventQueue
win_queue_keyboard_event event timestamp =
    win_queue_event (record { timestamp = timestamp; event = keyboard event })

pub win_queue_command_event : WinCommandEvent → ℕ → WinEventQueue → WinEventQueue
win_queue_command_event event timestamp =
    win_queue_event (record { timestamp = timestamp; event = command event })

-- Calls of `win_queue_event`, one for each event, as the handlers make while an event is processed.
pub queue_events : List WinEvent → WinEventQueue → WinEventQueue
queue_events [] q = q
queue_events (event ∷ events) q = queue_events events (win_queue_event event q)

-- The loop of `win_process_events`, at most so many rounds; `none` means that there is an event
-- more. What `process` does with an event is to change its own state and to queue events, for
-- which it has no other way than `win_queue_event`. The event that is processed is still in the queue
-- meanwhile.
pub process_events {ℓ} :
    {S : Type ℓ}
    → (EventData → S → List WinEvent × S)
    → ℕ
    → WinEventQueue
    → S
    → Option (WinEventQueue × S)
process_events process zero q s = if event_queue_is_empty q then some (q, s) else none
process_events process (suc rounds) q s =
    let (events, s1) = process (event_queue_get_tail q).event s in
    let rest = process_events process rounds (event_queue_pop (queue_events events q)) s1 in
    if event_queue_is_empty q then some (q, s) else rest

-- `pointer` event before it is handed on, and the new `win_last_pointer_pos`.
pub absolute : WinPoint → WinPointerEvent → WinPointerEvent
absolute last_pointer_pos event =
    let pos =
      if event.is_relative
      then record {
        x = to_i16 (event.pos.x +ℤ last_pointer_pos.x);
        y = to_i16 (event.pos.y +ℤ last_pointer_pos.y);
      }
      else event.pos in
    record event { pos = pos; is_relative = false; last_pos = last_pointer_pos }

module _ (accepts : ℕ → Bool) (w : Windows) where
  -- The handler of a window, if it has one.
  abbrev pub asked : ℕ → List ℕ
  asked win = if (w.attributes win).event_handler == 0 then [] else win ∷ []

  abbrev pub accepted : ℕ → Bool
  accepted win = if (w.attributes win).event_handler == 0 then false else accepts win

  -- The loop of `win_process_keyboard_event` and `win_process_command_event`, with fuel for the
  -- windows on the way to the root: the windows whose handlers are called.
  pub bubble : ℕ → ℕ → Option (List ℕ)
  bubble zero win = none
  bubble (suc depth) win =
      let above = bubble depth (w.parent win) >>= λ wins. some (asked win ++ wins) in
      if accepted win
      then some (asked win)
      else if w.parent win == 0
      then some (asked win)
      else above

  pub process_keyboard_event : ℕ → Option (List ℕ)
  process_keyboard_event depth =
      if w.keyboard_focus == 0 then some [] else bubble depth w.keyboard_focus

  pub process_command_event : ℕ → WinCommandEvent → Option (List ℕ)
  process_command_event depth event =
      if event.recipient == 0 then none else bubble depth event.recipient

-- `child->is_mapped && win_is_inside_area(area, &local_pos)`
abbrev pub takes : Windows → WinPoint → ℕ → Bool
takes w local_pos child =
    w.is_mapped child && win_is_inside_area (w.attributes child).area local_pos

-- The search of `win_handle_pointer_event` from a child of `win` on, at most so many siblings; 0
-- is no child, and `none` that there are more siblings.
pub find_child : Windows → WinPoint → ℕ → ℕ → ℕ → Option ℕ
find_child w local_pos win zero child = none
find_child w local_pos win (suc siblings) child =
    let rest = find_child w local_pos win siblings (w.next_sibling child) in
    if takes w local_pos child
    then some child
    else if w.next_sibling child == w.top_child win
    then some 0
    else rest

abbrev pub local_to : WinArea → WinPoint → WinPoint
local_to area pos = record { x = to_i16 (pos.x -ℤ area.pos.x); y = to_i16 (pos.y -ℤ area.pos.y) }

abbrev pub is_press : PointerEventType → Bool
is_press pointer_press = true
is_press _ = false

-- `WIN_BEHAVIOR_RAISE_ON_PRESS`
abbrev pub raise_on_press : ℕ
raise_on_press = 1

module _ (accepts : ℕ → Bool) (depth siblings : ℕ) where
  -- The window's own handler, after its child has not accepted.
  abbrev pub own_handler : ℕ → List ℕ → Windows → Option (Bool × List ℕ × Windows)
  own_handler win before w = some (accepted accepts w win, before ++ asked accepts w win, w)

  abbrev pub raised_on_press : WinPointerEvent → ℕ → Windows → Option Windows
  raised_on_press event child w =
      if is_press event.type
      then (if bit_and (w.attributes child).behavior raise_on_press == 0
          then some w
          else win_raise depth child w)
      else some w

  pub handle_pointer_event :
      ℕ → ℕ → WinPointerEvent → WinPoint → Windows → Option (Bool × List ℕ × Windows)
  handle_pointer_event zero win event pos w = none
  handle_pointer_event (suc levels) win event pos w =
      if w.top_child win == 0
      then own_handler win [] w
      else (let local_pos = local_to (w.attributes win).area pos in
          find_child w local_pos win siblings (w.top_child win) >>= λ child.
          if child == 0
          then own_handler win [] w
          else raised_on_press event child w >>= λ w1.
              handle_pointer_event levels child event local_pos w1 >>= λ (taken, wins, w2).
              if taken then some (true, wins, w2) else own_handler win wins w2)

  -- With the new `win_last_pointer_pos`, and the windows whose handlers are called.
  pub process_pointer_event :
      ℕ → WinPoint → WinPointerEvent → Windows → Option (WinPoint × List ℕ × Windows)
  process_pointer_event levels last_pointer_pos event w =
      let event' = absolute last_pointer_pos event in
      if w.pointer_grabber == 0
      then (handle_pointer_event levels w.root event' event'.pos w >>= λ (taken, wins, w1).
          some (event'.pos, wins, w1))
      else some (event'.pos, asked accepts w w.pointer_grabber, w)

-- The `switch` of `win_process_events`, with what the handlers answer to the event.
pub process_event :
    (EventData → ℕ → Bool)
    → ℕ
    → ℕ
    → ℕ
    → EventData
    → WinPoint × List ℕ × Windows
    → Option (WinPoint × List ℕ × Windows)
process_event accepts depth siblings levels (pointer e) (last, wins, w) =
    process_pointer_event (accepts (pointer e)) depth siblings levels last e w
    >>= λ (last', more, w'). some (last', wins ++ more, w')
process_event accepts depth siblings levels (keyboard e) (last, wins, w) =
    process_keyboard_event (accepts (keyboard e)) w depth >>= λ more. some (last, wins ++ more, w)
process_event accepts depth siblings levels (command e) (last, wins, w) =
    process_command_event (accepts (command e)) w depth e >>= λ more. some (last, wins ++ more, w)

pub data TouchEventType : Type 0 where
  touch_press : TouchEventType
  touch_move : TouchEventType
  touch_release : TouchEventType
  touch_no_event : TouchEventType

abbrev pub touch_button : ℕ
touch_button = 1

-- `unset` has what the event holds before: its type is kept for `TOUCH_NO_EVENT`, and its last
-- position always.
abbrev pub pointer_type : WinPointerEvent → TouchEventType → PointerEventType
pointer_type unset touch_press = pointer_press
pointer_type unset touch_move = pointer_move
pointer_type unset touch_release = pointer_release
pointer_type unset touch_no_event = unset.type

pub win_queue_touch_event :
    WinPointerEvent → WinPoint → TouchEventType → ℕ → WinEventQueue → WinEventQueue
win_queue_touch_event unset panel type = win_queue_pointer_event (record {
  pos = panel;
  is_relative = false;
  last_pos = unset.last_pos;
  buttons = touch_button;
  type = pointer_type unset type;
})
