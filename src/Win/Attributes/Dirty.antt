-- ===== src/Win/Attributes/Dirty.antt =====
-- What `win_set_area` draws again, against the area before and after.
use xplain_software_framewor.Base.{ℕ, ◌≤◌, ◌≡◌, ◌≢◌, ◌⊎◌, arith, if◌then◌else◌, ◌%◌, ◌/◌}
use xplain_software_framewor.Base.Int.{ℤ, ◌<ℤ◌, pos_part, neg_part, ◌+ℤ◌}
use xplain_software_framewor.Win.{WinArea, Windows, Action, draw, draw_parent}
use xplain_software_framewor.Win.Geometry.Union.{lesser, greater}
use xplain_software_framewor.Win.Attributes.{with_attributes, exposes}

abbrev pub Half : ℤ → Type 0
Half z = (pos_part z ≤ 2048) × (neg_part z ≤ 2048)

-- All edges and sizes are so small that those of a union are small.
pub record HalfArea (area : WinArea) : Type 0 where
  pub left : Half area.pos.x
  pub top : Half area.pos.y
  pub width : Half area.size.x
  pub height : Half area.size.y
  pub right : Half (area.pos.x +ℤ area.size.x)
  pub bottom : Half (area.pos.y +ℤ area.size.y)

-- The smallest area that has two others.
abbrev pub Spans : WinArea → WinArea → WinArea → Type 0
Spans dirty a b =
    (dirty.pos.x ≡ lesser a.pos.x b.pos.x)
    × (dirty.pos.y ≡ lesser a.pos.y b.pos.y)
    × (dirty.pos.x +ℤ dirty.size.x ≡ greater (a.pos.x +ℤ a.size.x) (b.pos.x +ℤ b.size.x))
    × (dirty.pos.y +ℤ dirty.size.y ≡ greater (a.pos.y +ℤ a.size.y) (b.pos.y +ℤ b.size.y))

lesser_self : (a : ℤ) → lesser a a ≡ a
lesser_self a = ground arith

greater_self : (a : ℤ) → greater a a ≡ a
greater_self a = ground arith

-- The position is the new one if the lowest bit of the mask is set, and the size if the next one is;
-- otherwise they are the old ones.
abbrev pub Selected : ℕ → WinArea → WinArea → WinArea → Type 0
Selected mask old new area =
    (((mask % 2 ≡ 1) × (area.pos ≡ new.pos)) ⊎ ((mask % 2 ≡ 0) × (area.pos ≡ old.pos)))
    × (((mask / 2 % 2 ≡ 1) × (area.size ≡ new.size))
        ⊎ ((mask / 2 % 2 ≡ 0) × (area.size ≡ old.size)))

-- The smallest area that has the old one and the whole argument, whichever of position and size
-- the mask selects; the old one if it selects neither.
abbrev pub Marked : ℕ → WinArea → WinArea → WinArea → Type 0
Marked mask old new dirty =
    ((mask % 4 ≢ 0) × Spans dirty old new) ⊎ ((mask % 4 ≡ 0) × (dirty ≡ old))

-- The window moves, or becomes narrower or lower.
abbrev pub Exposed : ℕ → WinArea → WinArea → Type 0
Exposed mask old new =
    (mask % 2 ≡ 1)
    ⊎ ((mask / 2 % 2 ≡ 1) × ((new.size.x <ℤ old.size.x) ⊎ (new.size.y <ℤ old.size.y)))

-- With the siblings if the window leaves a part of its old area.
abbrev pub Redraws : ℕ → ℕ → WinArea → WinArea → WinArea → Action → Type 0
Redraws win mask old new dirty action =
    (Exposed mask old new × (action ≡ draw_parent win dirty))
    ⊎ (¬ Exposed mask old new × (action ≡ draw win dirty))

abbrev redraw_of : ℕ → WinArea → WinArea → WinArea → ℕ → Action
redraw_of win area new_area dirty_area mask =
    if exposes area new_area mask then draw_parent win dirty_area else draw win dirty_area

-- The windows after the change, and the drawing that it asks for.
abbrev pub resized : ℕ → WinArea → Windows → Windows
resized win new_area w = with_attributes win (record (w.attributes win) { area = new_area }) w
