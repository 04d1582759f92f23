-- ===== src/Win.antt =====
-- util/gfx/win.c: the windows. A window is its address, and a null pointer is 0. The siblings of a
-- window are a circular list of `next_sibling` and `prev_sibling`, with `top_child` of the parent
-- on top. What the functions ask of an event handler or of the drawing code is in `log`, in order;
-- a handler does not call back into this file, but may queue events (Events/Loop). A window that is raised, lowered or unlinked is taken
-- to have a parent.
pub mod Ring
pub mod Tree
pub mod Links
pub mod Adding
pub mod Stacking
pub mod Raise
pub mod Geometry
pub mod Events
pub mod Attributes
pub mod Draw
mod Tests
use xplain_software_framewor.Base.{
  ℕ, zero, suc, Bool, true, false, Option, ◌>>=◌, none, some, List, [], ◌∷◌, ◌++◌, ◌==◌,
  if◌then◌else◌,
}
use xplain_software_framewor.Base.Int.{ℤ}

-- `*p = v` for the member of a window.
abbrev pub assign {ℓ} : {A : Type ℓ} → (ℕ → A) → ℕ → A → ℕ → A
assign f p v a = if a == p then v else f a

pub record WinPoint : Type 0 where
  pub x : ℤ
  pub y : ℤ

pub record WinArea : Type 0 where
  pub pos : WinPoint
  pub size : WinPoint

pub record WinAttributes : Type 0 where
  pub area : WinArea
  pub background : ℕ
  pub event_handler : ℕ
  pub behavior : ℕ
  pub custom : ℕ

-- The types of event that this file sends by itself; with the attribute mask where it is the data.
pub data WinEventType : Type 0 where
  event_raise : WinEventType
  event_unraise : WinEventType
  event_getfocus : WinEventType
  event_losefocus : WinEventType
  event_destroy : WinEventType
  event_attributes : ℕ → WinEventType

-- A call of an event handler, of `win_draw` and of `win_draw_parent` with the dirty area,
-- the erasing of the screen, and `membag_free` of a window.
pub data Action : Type 0 where
  event : ℕ → WinEventType → Action
  draw : ℕ → WinArea → Action
  draw_parent : ℕ → WinArea → Action
  erase : Action
  free : ℕ → Action

pub record Windows : Type 0 where
  pub attributes : ℕ → WinAttributes
  pub parent : ℕ → ℕ
  pub prev_sibling : ℕ → ℕ
  pub next_sibling : ℕ → ℕ
  pub top_child : ℕ → ℕ
  pub is_mapped : ℕ → Bool
  pub root : ℕ
  pub keyboard_focus : ℕ
  pub pointer_grabber : ℕ
  pub log : List Action

abbrev pub act : Action → Windows → Windows
act action w = record w { log = w.log ++ (action ∷ []) }

-- `none` is the use of a null pointer.
pub handle_event : ℕ → WinEventType → Windows → Option Windows
handle_event win type w =
    if win == 0
    then none
    else if (w.attributes win).event_handler == 0
    then some w
    else some (act (event win type) w)

pub win_unlink : ℕ → Windows → Windows
win_unlink win w =
    let p = w.parent win in
    let next = w.next_sibling win in
    let prev = w.prev_sibling win in
    let w1 = if next == win then record w { top_child = assign w.top_child p 0 } else record w {
      top_child = if w.top_child p == win then assign w.top_child p next else w.top_child;
      prev_sibling = assign w.prev_sibling next prev;
      next_sibling = assign w.next_sibling prev next;
    } in
    record w1 {
      parent = assign w1.parent win 0;
      next_sibling = assign w1.next_sibling win 0;
      prev_sibling = assign w1.prev_sibling win 0;
    }

pub win_add_top_child : ℕ → ℕ → Windows → Windows
win_add_top_child parent child w =
    let top = w.top_child parent in
    let w1 =
      if top == 0
      then record w {
        next_sibling = assign w.next_sibling child child;
        prev_sibling = assign w.prev_sibling child child;
      }
      else (let last = w.prev_sibling top in
          record w {
            next_sibling = assign (assign w.next_sibling child top) last child;
            prev_sibling = assign (assign w.prev_sibling child last) top child;
          }) in
    record w1 {
      top_child = assign w1.top_child parent child;
      parent = assign w1.parent child parent;
    }

-- `win_is_visible`, with fuel for the windows on the way to the root.
pub is_visible : ℕ → ℕ → Windows → Option Bool
is_visible zero win w = none
is_visible (suc fuel) win w =
    let above = is_visible fuel (w.parent win) w in
    if w.is_mapped win then (if w.parent win == 0 then some true else above) else some false

-- A failed assertion is `none`. `depth` is fuel for `is_visible`.
module _ (depth : ℕ) where
  -- `if (win_is_visible(win))`
  abbrev pub if_visible : ℕ → (Windows → Windows) → Windows → Option Windows
  if_visible win f w = is_visible depth win w >>= λ visible. some (if visible then f w else w)

  pub win_redraw : ℕ → Windows → Option Windows
  win_redraw win w = if_visible win (act (draw win (w.attributes win).area)) w

  pub win_show : ℕ → Windows → Option Windows
  win_show win w =
      if win == 0
      then none
      else if w.is_mapped win
      then some w
      else win_redraw win (record w { is_mapped = assign w.is_mapped win true })

  abbrev pub unmapped : ℕ → Windows → Windows
  unmapped win w = record w { is_mapped = assign w.is_mapped win false }

  pub win_hide : ℕ → Windows → Option Windows
  win_hide win w =
      if win == 0
      then none
      else if w.is_mapped win
      then (if win == w.root
          then some (act erase (unmapped win w))
          else (is_visible depth win w >>= λ visible. some (
              if visible
              then act (draw_parent win (w.attributes win).area) (unmapped win w)
              else unmapped win w)))
      else some w

  pub win_raise : ℕ → Windows → Option Windows
  win_raise win w =
      if win == 0
      then none
      else if win == w.root
      then none
      else if w.top_child (w.parent win) == win
      then some w
      else (do
        w1 ← handle_event (w.top_child win) event_unraise w
        let parent = w1.parent win
        w2 ← handle_event win event_raise (win_add_top_child parent win (win_unlink win w1))
        win_redraw win w2)

  pub win_lower : ℕ → Windows → Option Windows
  win_lower win w =
      if win == 0
      then none
      else if win == w.root
      then none
      else if w.prev_sibling (w.top_child (w.parent win)) == win
      then some w
      else (do
        w1 ← handle_event (w.top_child win) event_unraise w
        let parent = w1.parent win
        let w2 = win_add_top_child parent win (win_unlink win w1)
        let w3 = record w2 { top_child = assign w2.top_child parent (w2.next_sibling win) }
        w4 ← handle_event (w3.top_child win) event_raise w3
        win_redraw win w4)

  pub win_reparent : ℕ → ℕ → Windows → Option Windows
  win_reparent child new_parent w =
      if child == 0
      then none
      else if child == w.root
      then none
      else if new_parent == 0
      then none
      else if w.is_mapped child
      then (do
        w1 ← win_hide child w
        win_show child (win_add_top_child new_parent child (win_unlink child w1)))
      else some (win_add_top_child new_parent child (win_unlink child w))

  -- `destroy_children` and its loop; `none` also means that the fuel ran out.
  mutual
    pub destroy_children : ℕ → ℕ → Windows → Option Windows
    destroy_children zero win w = none
    destroy_children (suc fuel) win w = elim (w.top_child win == 0) [
      | true ↦ some w
      | false ↦ destroy_from fuel win (w.top_child win) w >>= λ w1.
          some (record w1 { top_child = assign w1.top_child win 0 })
    ]

    destroy_from : ℕ → ℕ → ℕ → Windows → Option Windows
    destroy_from zero win child w = none
    destroy_from (suc fuel) win child w =
        destroy_children fuel child w >>= handle_event child event_destroy >>= λ w1.
        let next_sibling = w1.next_sibling child in
        let w2 = act (free child) w1 in
        elim (next_sibling == w2.top_child win) [
          | true ↦ some w2
          | false ↦ destroy_from fuel win next_sibling w2
        ]

  pub win_destroy : ℕ → ℕ → Windows → Option Windows
  win_destroy fuel win w = if win == 0 then none else if win == w.root then none else (do
    w1 ← if w.is_mapped win then win_hide win w else some w
    w2 ← destroy_children fuel win (win_unlink win w1)
    w3 ← handle_event win event_destroy w2
    some (act (free win) w3))

-- `win_create`, with the window that `membag_alloc` returns, or a null pointer.
pub win_create : ℕ → ℕ → WinAttributes → Windows → Option (ℕ × Windows)
win_create allocated parent attributes w =
    if parent == 0
    then none
    else if allocated == 0
    then some (0, w)
    else some (
      allocated,
      win_add_top_child parent allocated (record w {
        attributes = assign w.attributes allocated attributes;
        is_mapped = assign w.is_mapped allocated false;
        top_child = assign w.top_child allocated 0;
      }),
    )

pub win_set_keyboard_focus : ℕ → Windows → Option Windows
win_set_keyboard_focus win w =
    let new =
      λ (w1 : Windows). handle_event win event_getfocus (record w1 { keyboard_focus = win }) in
    if w.keyboard_focus == 0 then new w else handle_event w.keyboard_focus event_losefocus w >>= new

pub win_grab_pointer : ℕ → Windows → Windows
win_grab_pointer win w = record w { pointer_grabber = win }
