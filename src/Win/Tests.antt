-- ===== src/Win/Tests.antt =====
-- Five windows: the root 1 has the children 2, 3 and 4, and 3 has the child 5.
use xplain_software_framewor.Base.{
  ℕ, zero, suc, ◌≤◌, ◌≡◌, refl, inl, inr, arith, Bool, true, false, some, List, [], ◌∷◌, length,
  get_or,
}
use xplain_software_framewor.Base.Int.{pos, ◌+ℤ◌}
use xplain_software_framewor.Win.{
  WinPoint, WinArea, Windows, assign, win_unlink, win_raise, win_lower,
}
use xplain_software_framewor.Win.Tree.{Tree, Levels}
use xplain_software_framewor.Win.Links.{unlink-Tree}
use xplain_software_framewor.Win.Raise.{raise-Tree, lower-Tree}
use xplain_software_framewor.Win.Geometry.Clipping.{area_of, Clips, InBoth, clipping_lem}
use xplain_software_framewor.Win.Geometry.{win_compute_clipping}
use xplain_software_framewor.Win.Geometry.Union.{SmallArea}
use xplain_software_framewor.Win.Draw.{win_draw_contents}
use xplain_software_framewor.Win.Draw.Order.{picture, draw_contents_lem}
use xplain_software_framewor.Win.Events.{
  WinPointerEvent, pointer_move, handle_pointer_event, process_keyboard_event,
  process_command_event, WinCommandEvent,
}
use xplain_software_framewor.Win.Events.Bubbling.{asked_along, bubbling_lem}
use xplain_software_framewor.Win.Events.Routing.{route, with_windows, handle_pointer_event_lem}
use xplain_software_framewor.Win.Geometry.Tests.{area_at, clip}

abbrev windows : Windows
windows = record {
  attributes = λ win. record {
    area =
        area_at (get_or (0 ∷ 0 ∷ 0 ∷ 20 ∷ 60 ∷ 5 ∷ []) win 0)
          (get_or (0 ∷ 99 ∷ 10 ∷ 30 ∷ 30 ∷ 9 ∷ []) win 0);
    background = 0;
    event_handler = 7;
    behavior = 0;
    custom = 0;
  };
  parent = λ win. get_or (0 ∷ 0 ∷ 1 ∷ 1 ∷ 1 ∷ 3 ∷ []) win 0;
  prev_sibling = λ win. get_or (0 ∷ 0 ∷ 4 ∷ 2 ∷ 3 ∷ 5 ∷ []) win 0;
  next_sibling = λ win. get_or (0 ∷ 0 ∷ 3 ∷ 4 ∷ 2 ∷ 5 ∷ []) win 0;
  top_child = λ win. get_or (0 ∷ 2 ∷ 0 ∷ 5 ∷ []) win 0;
  is_mapped = λ win. true;
  root = 1;
  keyboard_focus = 0;
  pointer_grabber = 0;
  log = [];
}

abbrev children : ℕ → List ℕ
children win = get_or ([] ∷ (2 ∷ 3 ∷ 4 ∷ []) ∷ [] ∷ (5 ∷ []) ∷ []) win []

windows-Tree : Tree windows children
windows-Tree zero proper = absurd (proper refl)
windows-Tree (suc zero) proper = record {
  circle = (refl, (refl, refl, (refl, refl, (refl, refl))));
  distinct = (((λ e. omega arith), ((λ e. omega arith), tt)), (((λ e. omega arith), tt), (tt, tt)));
  proper = ((λ e. omega arith), ((λ e. omega arith), ((λ e. omega arith), tt)));
  owned = (refl, (refl, (refl, tt)));
}
windows-Tree (suc (suc zero)) proper = record {
  circle = refl;
  distinct = tt;
  proper = tt;
  owned = tt;
}
windows-Tree (suc (suc (suc zero))) proper = record {
  circle = (refl, (refl, refl));
  distinct = (tt, tt);
  proper = ((λ e. omega arith), tt);
  owned = (refl, tt);
}
windows-Tree (suc (suc (suc (suc n)))) proper = record {
  circle = refl;
  distinct = tt;
  proper = tt;
  owned = tt;
}

few : (win : ℕ) → length (children win) ≤ 3
few zero = omega arith
few (suc zero) = omega arith
few (suc (suc zero)) = omega arith
few (suc (suc (suc zero))) = omega arith
few (suc (suc (suc (suc n)))) = omega arith

unlink_example :
    Tree (win_unlink 3 windows) (assign children 1 (2 ∷ 4 ∷ []))
    × ((win_unlink 3 windows).parent 3 ≡ 0)
unlink_example =
    unlink-Tree windows children 3 1 (2 ∷ []) (4 ∷ []) windows-Tree (λ e. omega arith) refl

raise_example :
    (w' : Windows) × (win_raise 2 3 windows ≡ some w')
    × Tree w' (assign children 1 (3 ∷ 2 ∷ 4 ∷ []))
raise_example =
    raise-Tree 2 windows children 3 1 2 [] (4 ∷ []) windows-Tree (λ e. omega arith)
      (λ e. omega arith) (λ e. omega arith) refl (λ e. omega arith) (inr (inl refl))

lower_example :
    (w' : Windows) × (win_lower 2 3 windows ≡ some w')
    × Tree w' (assign children 1 (2 ∷ 4 ∷ 3 ∷ []))
lower_example =
    lower-Tree 2 windows children 3 1 4 5 (2 ∷ []) [] [] windows-Tree (λ e. omega arith)
      (λ e. omega arith) (λ e. omega arith) refl refl (inr (inl refl))

abbrev at : ℕ → WinPoint
at n = record { x = pos n; y = pos n }

abbrev moved : WinPointerEvent
moved = record {
  pos = at 26;
  is_relative = false;
  last_pos = at 20;
  buttons = 0;
  type = pointer_move;
}

abbrev accepts_three : ℕ → Bool
accepts_three win = get_or (false ∷ true ∷ true ∷ true ∷ []) win false

children-Levels : Levels children 4 1
children-Levels = (tt, ((tt, tt), (tt, tt)))

handle_pointer_event_example :
    handle_pointer_event accepts_three 3 3 4 1 moved (at 26) windows
    ≡ some (
        with_windows accepts_three windows children
          (route accepts_three windows children 4 1 (at 26)))
handle_pointer_event_example =
    handle_pointer_event_lem accepts_three windows children 3 3 moved refl windows-Tree few 4 1
      (at 26) (λ e. omega arith) children-Levels

draw_contents_example :
    win_draw_contents windows 3 4 1 clip ≡ some (picture windows children 4 1 clip)
draw_contents_example =
    draw_contents_lem windows children 3 windows-Tree few 4 1 clip (λ e. omega arith)
      children-Levels

abbrev accepts_root : ℕ → Bool
accepts_root win = get_or (false ∷ true ∷ []) win false

abbrev pressed : WinCommandEvent
pressed = record { sender = 2; recipient = 5; command = 8 }

bubbling_example :
    (windows.keyboard_focus ≡ 5
      → process_keyboard_event accepts_root windows 3
        ≡ some (asked_along accepts_root windows (5 ∷ 3 ∷ 1 ∷ [])))
    × (pressed.recipient ≡ 5
        → process_command_event accepts_root windows 3 pressed
          ≡ some (asked_along accepts_root windows (5 ∷ 3 ∷ 1 ∷ [])))
bubbling_example =
    bubbling_lem accepts_root windows 5 (3 ∷ 1 ∷ []) pressed (λ e. omega arith)
      (refl, (λ e. omega arith), (refl, (λ e. omega arith), refl))

small_1 : SmallArea (area_of windows 1)
unfolding ◌+ℤ◌
small_1 = record {
  left = (omega arith, omega arith);
  top = (omega arith, omega arith);
  width = (omega arith, omega arith);
  height = (omega arith, omega arith);
  right = (omega arith, omega arith);
  bottom = (omega arith, omega arith);
}

small_3 : SmallArea (area_of windows 3)
unfolding ◌+ℤ◌
small_3 = record {
  left = (omega arith, omega arith);
  top = (omega arith, omega arith);
  width = (omega arith, omega arith);
  height = (omega arith, omega arith);
  right = (omega arith, omega arith);
  bottom = (omega arith, omega arith);
}

small_5 : SmallArea (area_of windows 5)
unfolding ◌+ℤ◌
small_5 = record {
  left = (omega arith, omega arith);
  top = (omega arith, omega arith);
  width = (omega arith, omega arith);
  height = (omega arith, omega arith);
  right = (omega arith, omega arith);
  bottom = (omega arith, omega arith);
}

small_dirty : SmallArea (area_at 6 40)
unfolding ◌+ℤ◌
small_dirty = record {
  left = (omega arith, omega arith);
  top = (omega arith, omega arith);
  width = (omega arith, omega arith);
  height = (omega arith, omega arith);
  right = (omega arith, omega arith);
  bottom = (omega arith, omega arith);
}

clipping_example :
    Clips windows
      (3 ∷ 1 ∷ [])
      (InBoth windows (area_of windows 5) (area_at 6 40))
      (win_compute_clipping 3 windows 5 (area_at 6 40))
clipping_example =
    clipping_lem windows 5 (3 ∷ 1 ∷ []) (area_at 6 40)
      ((λ e. omega arith), refl, ((λ e. omega arith), refl, refl)) small_5 small_dirty
      (small_3, (small_1, tt))

-- An area that is less high, at another place, of which only the size is selected.
abbrev lower_area : WinArea
lower_area = record {
  pos = record { x = pos 40; y = pos 30 };
  size = record { x = pos 50; y = pos 7 };
}
