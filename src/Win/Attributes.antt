-- ===== src/Win/Attributes.antt =====
-- util/gfx/win.c: the attributes of a window, and what is drawn again when they change.
pub mod Dirty
use xplain_software_framewor.Base.{
  ℕ, ◌+◌, ◌/◌, Bool, true, false, not, Option, none, some, ◌>>=◌, ◌==◌, ◌&&◌, ◌||◌, if◌then◌else◌,
  bit_and,
}
use xplain_software_framewor.Base.Int.{pos, ltbℤ}
use xplain_software_framewor.Win.{
  WinPoint, WinArea, WinAttributes, Windows, assign, act, draw, draw_parent, event_attributes,
  handle_event, is_visible, if_visible, win_redraw,
}
use xplain_software_framewor.Win.Geometry.{win_compute_union}

abbrev pub attr_position : ℕ
attr_position = 1

abbrev pub attr_size : ℕ
attr_size = 2

abbrev pub attr_background : ℕ
attr_background = 4

abbrev pub attr_eventhandler : ℕ
attr_eventhandler = 8

abbrev pub attr_behavior : ℕ
attr_behavior = 16

abbrev pub attr_custom : ℕ
attr_custom = 32

-- `attribute_mask & flag`
abbrev pub selects : ℕ → ℕ → Bool
selects attribute_mask flag = not (bit_and attribute_mask flag == 0)

abbrev pub with_attributes : ℕ → WinAttributes → Windows → Windows
with_attributes win attributes w = record w { attributes = assign w.attributes win attributes }

-- The area after the change, and the one to be drawn again.
abbrev pub new_extent : WinArea → WinArea → ℕ → WinArea
new_extent area new_area attribute_mask = record {
  pos = if selects attribute_mask attr_position then new_area.pos else area.pos;
  size = if selects attribute_mask attr_size then new_area.size else area.size;
}

abbrev pub dirty_extent : WinArea → WinArea → ℕ → WinArea
dirty_extent area new_area attribute_mask =
    let moved =
      if selects attribute_mask attr_position then win_compute_union area new_area else area in
    if selects attribute_mask attr_size then win_compute_union moved new_area else moved

abbrev pub exposes : WinArea → WinArea → ℕ → Bool
exposes area new_area attribute_mask =
    selects attribute_mask attr_position
    || (selects attribute_mask attr_size
        && (ltbℤ new_area.size.x area.size.x || ltbℤ new_area.size.y area.size.y))

module _ (depth : ℕ) where
  pub win_set_area : ℕ → WinArea → ℕ → Windows → Option Windows
  win_set_area win new_area attribute_mask w =
      let attributes = w.attributes win in
      let dirty_area = dirty_extent attributes.area new_area attribute_mask in
      if win == 0
      then none
      else if win == w.root
      then none
      else handle_event win (event_attributes attribute_mask) (
          with_attributes win
            (record attributes { area = new_extent attributes.area new_area attribute_mask }) w)
        >>= if_visible depth win (
            act (
              if exposes attributes.area new_area attribute_mask
              then draw_parent win dirty_area
              else draw win dirty_area))

  -- All but the position and the size.
  abbrev pub other_attributes : WinAttributes → WinAttributes → ℕ → WinAttributes
  other_attributes old new attribute_mask = record old {
    background = if selects attribute_mask attr_background then new.background else old.background;
    event_handler =
        if selects attribute_mask attr_eventhandler then new.event_handler else old.event_handler;
    behavior = if selects attribute_mask attr_behavior then new.behavior else old.behavior;
    custom = if selects attribute_mask attr_custom then new.custom else old.custom;
  }

  pub win_set_attributes : ℕ → WinAttributes → ℕ → Windows → Option Windows
  win_set_attributes win new_attributes attribute_mask w =
      let w1 =
        with_attributes win (other_attributes (w.attributes win) new_attributes attribute_mask) w in
      if win == 0
      then none
      else if selects attribute_mask (attr_position + attr_size)
      then win_set_area win new_attributes.area attribute_mask w1
      else handle_event win (event_attributes attribute_mask) w1 >>= λ w2.
          if selects attribute_mask attr_background
          then if_visible depth win (act (draw win (w.attributes win).area)) w2
          else some w2

  -- With the size of the screen.
  pub win_reset_root_geometry : WinPoint → Windows → Option Windows
  win_reset_root_geometry screen w =
      let attributes = w.attributes w.root in
      handle_event w.root (event_attributes attr_size) (
        with_attributes w.root
          (record attributes { area = record { pos = attributes.area.pos; size = screen } }) w)
      >>= win_redraw depth w.root

-- With the width and the height of the screen; also the new `win_last_pointer_pos`.
pub win_init : ℕ → ℕ → ℕ → Windows → WinPoint × Windows
win_init width height root_background w =
    let attributes = w.attributes w.root in
    let screen : WinPoint = record { x = pos width; y = pos height } in
    let w1 =
      with_attributes w.root
        (record attributes {
          area = record { pos = attributes.area.pos; size = screen };
          background = root_background;
        })
        w in
    (record { x = pos (width / 2); y = pos (height / 2) }, record w1 { keyboard_focus = w.root })
