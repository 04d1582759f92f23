-- ===== src/Win/Geometry.antt =====
-- util/gfx/win.c: areas and clipping regions. Coordinates are `gfx_coord_t`, an `int16_t`: what is
-- stored is cut to 16 bits, and what is computed between is an `int`.
pub mod Intersection
pub mod Union
pub mod Regions
pub mod Clipping
pub mod Tests
use xplain_software_framewor.Base.{
  ℕ, zero, suc, Bool, true, false, Option, none, some, ◌>>=◌, ◌&&◌, ◌||◌, ◌==◌, if◌then◌else◌,
}
use xplain_software_framewor.Base.Int.{
  ℤ, pos, negsuc, pos_part, neg_part, ◌+ℤ◌, ◌-ℤ◌, ◌≤ℤ◌, ◌<ℤ◌, lebℤ, ltbℤ, to_i16, IsI16, +ℤ_parts,
  -ℤ_parts, to_i16_id, eq_of_parts,
}
use xplain_software_framewor.Win.{WinPoint, WinArea, Windows}

pub record WinClipRegion : Type 0 where
  pub origin : WinPoint
  pub nw : WinPoint
  pub se : WinPoint

pub win_is_inside_clip : WinClipRegion → WinPoint → Bool
win_is_inside_clip clip point =
    lebℤ clip.nw.x point.x
    && (lebℤ clip.nw.y point.y && (lebℤ point.x clip.se.x && lebℤ point.y clip.se.y))

pub win_is_inside_area : WinArea → WinPoint → Bool
win_is_inside_area area point =
    lebℤ area.pos.x point.x
    && (lebℤ area.pos.y point.y
        && (ltbℤ point.x (area.pos.x +ℤ area.size.x) && ltbℤ point.y (area.pos.y +ℤ area.size.y)))

-- The last coordinate of an extent, `pos + size - 1`.
abbrev pub last_of : ℤ → ℤ → ℤ
last_of start size = to_i16 ((start +ℤ size) -ℤ pos 1)

abbrev pub right_x : WinArea → ℤ
right_x area = last_of area.pos.x area.size.x

abbrev pub bottom_y : WinArea → ℤ
bottom_y area = last_of area.pos.y area.size.y

-- `if (low < start) low = start;` and `if (high > end) high = end;`
abbrev pub raised : ℤ → ℤ → ℤ
raised low start = if ltbℤ low start then start else low

abbrev pub cut : ℤ → ℤ → ℤ
cut high end = if ltbℤ end high then end else high

-- The result, and the region that is left in `clip`.
pub win_compute_intersection : WinClipRegion → WinArea → Bool × WinClipRegion
win_compute_intersection clip area =
    if ltbℤ clip.se.x area.pos.x
    then (false, clip)
    else if ltbℤ clip.se.y area.pos.y
    then (false, clip)
    else if ltbℤ (right_x area) clip.nw.x
    then (false, clip)
    else if ltbℤ (bottom_y area) clip.nw.y
    then (false, clip)
    else (
      true,
      record clip {
        nw = record { x = raised clip.nw.x area.pos.x; y = raised clip.nw.y area.pos.y };
        se = record { x = cut clip.se.x (right_x area); y = cut clip.se.y (bottom_y area) };
      },
    )

-- One axis of `win_compute_union`, for the start and the size of an area and of another one.
abbrev pub expand : ℤ → ℤ → ℤ → ℤ × ℤ
expand start size other =
    let expand_left = to_i16 (start -ℤ other) in
    if ltbℤ (pos 0) expand_left
    then (to_i16 (start -ℤ expand_left), to_i16 (size +ℤ expand_left))
    else (start, size)

abbrev pub widen : ℤ → ℤ → ℤ → ℤ → ℤ
widen start size other other_size =
    let expand_width = to_i16 ((other +ℤ other_size) -ℤ (start +ℤ size)) in
    if ltbℤ (pos 0) expand_width then to_i16 (size +ℤ expand_width) else size

pub win_compute_union : WinArea → WinArea → WinArea
win_compute_union area merge =
    let (left, width) = expand area.pos.x area.size.x merge.pos.x in
    let (top, height) = expand area.pos.y area.size.y merge.pos.y in
    record {
      pos = record { x = left; y = top };
      size = record {
        x = widen left width merge.pos.x merge.size.x;
        y = widen top height merge.pos.y merge.size.y;
      };
    }

-- One axis of the clipping inside a parent of a size: `if (low < 0) low = 0;` and
-- `if (high >= size) high = size - 1;`
abbrev pub below_size : ℤ → ℤ → ℤ
below_size high size = if lebℤ size high then to_i16 (size -ℤ pos 1) else high

abbrev pub clip_inside : WinArea → WinClipRegion → WinClipRegion
clip_inside parent clip = record clip {
  nw = record { x = raised clip.nw.x (pos 0); y = raised clip.nw.y (pos 0) };
  se = record { x = below_size clip.se.x parent.size.x; y = below_size clip.se.y parent.size.y };
}

-- `clip->NW.x > clip->SE.x || clip->NW.y > clip->SE.y`
abbrev pub is_negative : WinClipRegion → Bool
is_negative clip = ltbℤ clip.se.x clip.nw.x || ltbℤ clip.se.y clip.nw.y

-- `point->x += by->x; point->y += by->y;`
abbrev pub shift : WinPoint → WinPoint → WinPoint
shift point by = record { x = to_i16 (point.x +ℤ by.x); y = to_i16 (point.y +ℤ by.y) }

abbrev pub translate : WinArea → WinClipRegion → WinClipRegion
translate parent clip = record {
  origin = shift clip.origin parent.pos;
  nw = shift clip.nw parent.pos;
  se = shift clip.se parent.pos;
}

-- The loop of `win_compute_clipping` from `win` to the root, with fuel for the windows on the way.
pub to_root : ℕ → Windows → ℕ → WinClipRegion → Option (Bool × WinClipRegion)
to_root zero w win clip = none
to_root (suc depth) w win clip =
    let parent = (w.attributes (w.parent win)).area in
    let inside = clip_inside parent clip in
    let rest = to_root depth w (w.parent win) (translate parent inside) in
    if win == w.root
    then some (true, clip)
    else if is_negative inside
    then some (false, inside)
    else rest

-- The result, and the region that is left in `clip`.
pub win_compute_clipping : ℕ → Windows → ℕ → WinArea → Option (Bool × WinClipRegion)
win_compute_clipping depth w win dirty_area =
    let area = (w.attributes win).area in
    let (valid, clip) =
      win_compute_intersection
        (record {
          origin = area.pos;
          nw = area.pos;
          se = record { x = right_x area; y = bottom_y area };
        })
        dirty_area in
    if valid then to_root depth w win clip else some (false, clip)

-- `none` means that the fuel ran out. Where there is no region, the code tests the point against
-- what is left in `clip`.
pub win_is_inside_window : ℕ → Windows → ℕ → WinPoint → Option Bool
win_is_inside_window depth w win point =
    win_compute_clipping depth w win (w.attributes win).area >>= λ (valid, clip).
    some (win_is_inside_clip clip point)

-- On one axis: from `low` to `high`, and from `start` on for a size.
abbrev pub In : ℤ → ℤ → ℤ → Type 0
In low high z = (low ≤ℤ z) × (z ≤ℤ high)

abbrev pub Covers : ℤ → ℤ → ℤ → Type 0
Covers start size z = (start ≤ℤ z) × (z <ℤ start +ℤ size)
