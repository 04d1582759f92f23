-- ===== src/Win/Draw.antt =====
-- util/gfx/win.c: the drawing of windows. What is drawn is the list of the windows with the region
-- to which the screen is clipped: the background, if any, and what the handler draws.
pub mod Order
use xplain_software_framewor.Base.{
  ℕ, zero, suc, Bool, true, false, not, Option, none, some, ◌>>=◌, List, [], ◌∷◌, ◌++◌, ◌==◌, ◌&&◌,
  ◌||◌, if◌then◌else◌, bit_and,
}
use xplain_software_framewor.Base.Int.{ℤ, pos, ◌+ℤ◌, ◌-ℤ◌, lebℤ, ltbℤ, to_i16}
use xplain_software_framewor.Win.{WinPoint, WinArea, Windows}
use xplain_software_framewor.Win.Geometry.{
  WinClipRegion, right_x, bottom_y, raised, cut, is_negative, shift, win_compute_clipping,
}

pub data Painted : Type 0 where
  painted : ℕ → WinClipRegion → Painted

-- The region of a child inside the one of its parent.
abbrev pub child_region : WinArea → WinClipRegion → WinClipRegion
child_region area parent_clip =
    let origin = parent_clip.origin in
    let nw = shift area.pos origin in
    let se = shift (record { x = right_x area; y = bottom_y area }) origin in
    record {
      origin = nw;
      nw = record { x = raised nw.x parent_clip.nw.x; y = raised nw.y parent_clip.nw.y };
      se = record { x = cut se.x parent_clip.se.x; y = cut se.y parent_clip.se.y };
    }

-- `if (pos < 0) { size += pos; pos = 0; }`
abbrev pub from_zero : ℤ → ℤ → ℤ × ℤ
from_zero start size = if ltbℤ start (pos 0) then (pos 0, to_i16 (size +ℤ start)) else (start, size)

-- `if (pos + size > parent_size) size = parent_size - pos;`
abbrev pub up_to : ℤ → ℤ → ℤ → ℤ
up_to start size parent_size =
    if ltbℤ parent_size (start +ℤ size) then to_i16 (parent_size -ℤ start) else size

pub win_translate_area_to_parent : WinArea → WinArea → Bool × WinArea
win_translate_area_to_parent area parent_area =
    let (x, from_x) = from_zero area.pos.x area.size.x in
    let (y, from_y) = from_zero area.pos.y area.size.y in
    let width = up_to x from_x parent_area.size.x in
    let height = up_to y from_y parent_area.size.y in
    let clipped : WinArea = record {
      pos = record { x = x; y = y };
      size = record { x = width; y = height };
    } in
    if lebℤ width (pos 0) || lebℤ height (pos 0)
    then (false, clipped)
    else (true, record { pos = shift clipped.pos parent_area.pos; size = clipped.size })

module _ (w : Windows) where
  abbrev pub if_mapped : (ℕ → Option (List Painted)) → ℕ → Option (List Painted)
  if_mapped draw_child child = if w.is_mapped child then draw_child child else some []

  -- The loop of `win_draw_contents`, from the bottom child up to `top`, for at most so many.
  pub draw_children : (ℕ → Option (List Painted)) → ℕ → ℕ → ℕ → Option (List Painted)
  draw_children draw_child top zero child = none
  draw_children draw_child top (suc siblings) child =
      let prev = w.prev_sibling child in
      let rest = draw_children draw_child top siblings prev in
      if_mapped draw_child prev >>= λ first.
      (if prev == top then some [] else rest) >>= λ more. some (first ++ more)

  -- The inner loop of `win_draw`, over the siblings that cover `win`.
  pub draw_covering : (ℕ → Option (List Painted)) → ℕ → ℕ → ℕ → Option (List Painted)
  draw_covering draw_child top zero win = none
  draw_covering draw_child top (suc siblings) win =
      let prev = w.prev_sibling win in
      let rest = draw_covering draw_child top siblings prev in
      if win == top
      then some []
      else if_mapped draw_child prev >>= λ first. rest >>= λ more. some (first ++ more)

  -- `draw_contents` draws what is inside the region.
  pub win_draw_child :
      (ℕ → WinClipRegion → Option (List Painted)) → WinClipRegion → ℕ → Option (List Painted)
  win_draw_child draw_contents parent_clip child =
      let clip = child_region (w.attributes child).area parent_clip in
      if is_negative clip then some [] else draw_contents child clip

  module _ (siblings : ℕ) where
    pub win_draw_contents : ℕ → ℕ → WinClipRegion → Option (List Painted)
    win_draw_contents zero win clip = none
    win_draw_contents (suc levels) win clip =
        let top = w.top_child win in
        (if top == 0
          then some []
          else draw_children (win_draw_child (win_draw_contents levels) clip) top siblings top)
        >>= λ children. some (painted win clip ∷ children)

    -- The outer loop of `win_draw`.
    pub draw_above : ℕ → ℕ → ℕ → WinClipRegion → Option (List Painted)
    draw_above levels zero win clip = none
    draw_above levels (suc depth) win clip =
        let area = (w.attributes win).area in
        let parent_clip = record clip {
          origin = record {
            x = to_i16 (clip.origin.x -ℤ area.pos.x);
            y = to_i16 (clip.origin.y -ℤ area.pos.y);
          };
        } in
        let top = w.top_child (w.parent win) in
        let rest = draw_above levels depth (w.parent top) parent_clip in
        if win == w.root
        then some []
        else draw_covering (win_draw_child (win_draw_contents levels) parent_clip) top siblings win
          >>= λ first. rest >>= λ more. some (first ++ more)

    abbrev pub redraw_parent : ℕ
    redraw_parent = 2

    -- `win_draw`, which may go on to the parents, at most `depth` of them.
    pub win_draw : ℕ → ℕ → ℕ → WinArea → Option (List Painted)
    win_draw levels zero win dirty_area = none
    win_draw levels (suc depth) win dirty_area =
        let parent = w.parent win in
        let (translated, area) =
          win_translate_area_to_parent dirty_area (w.attributes parent).area in
        let from_parent = win_draw levels depth parent area in
        win_compute_clipping (suc depth) w win dirty_area >>= λ (valid, clip).
        if not valid
        then some []
        else if not (parent == 0) && not (bit_and (w.attributes win).behavior redraw_parent == 0)
        then (if translated then from_parent else some [])
        else win_draw_contents levels win clip >>= λ own.
            draw_above levels (suc depth) win clip >>= λ more. some (own ++ more)

    pub win_draw_parent : ℕ → ℕ → ℕ → WinArea → Option (List Painted)
    win_draw_parent levels depth child dirty_area =
        let (translated, area) =
          win_translate_area_to_parent dirty_area (w.attributes (w.parent child)).area in
        if translated then win_draw levels depth (w.parent child) area else some []

  -- The loop of `win_translate_win_to_root` over the parents.
  pub translate_to_root : ℕ → ℕ → WinPoint → Option WinPoint
  translate_to_root zero win return_pos = none
  translate_to_root (suc depth) win return_pos =
      let rest =
        translate_to_root depth (w.parent win) (shift return_pos (w.attributes win).area.pos) in
      if win == 0 then some return_pos else rest

  pub win_translate_win_to_root : ℕ → ℕ → Option WinPoint
  win_translate_win_to_root depth start_win =
      if start_win == 0
      then none
      else translate_to_root depth (w.parent start_win) (w.attributes start_win).area.pos
