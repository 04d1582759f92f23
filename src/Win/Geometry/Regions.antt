-- ===== src/Win/Geometry/Regions.antt =====
-- Regions inside a parent, in the coordinates of the parent's own parent, and of a whole window.
use xplain_software_framewor.Base.{◌≡◌, ◌↔◌, arith, true, false}
use xplain_software_framewor.Base.Int.{
  ℤ, pos, ◌+ℤ◌, ◌-ℤ◌, ◌≤ℤ◌, ◌<ℤ◌, to_i16, IsI16, +ℤ_parts, -ℤ_parts, to_i16_id, part_cases,
}
use xplain_software_framewor.Win.{WinPoint, WinArea}
use xplain_software_framewor.Win.Geometry.{
  WinClipRegion, win_is_inside_clip, win_is_inside_area, right_x, bottom_y, raised, below_size,
  clip_inside, is_negative, translate, In,
}
use xplain_software_framewor.Win.Geometry.Intersection.{inside_clip_iff, inside_area_iff, last_iff}
use xplain_software_framewor.Win.Geometry.Union.{Small, SmallArea}

-- On one axis: inside a parent.
abbrev pub Below : ℤ → ℤ → Type 0
Below size z = (pos 0 ≤ℤ z) × (z <ℤ size)

clipped_iff :
    (low high size z : ℤ)
    → Small size
    → In (raised low (pos 0)) (below_size high size) z ↔ (In low high z × Below size z)
clipped_iff low high size z small =
    let fits : IsI16 (size -ℤ pos 1) = (
      omega (arith, -ℤ_parts size (pos 1), part_cases (size -ℤ pos 1)),
      omega (arith, -ℤ_parts size (pos 1), part_cases (size -ℤ pos 1)),
    ) in
    let one = -ℤ_parts size (pos 1) in
    rw (to_i16_id (size -ℤ pos 1) fits) (λ h. ground (arith, one), λ h. ground (arith, one))

inside_bounds :
    (low high size : ℤ)
    → Small size
    → (pos 0 ≤ℤ raised low (pos 0)) × (below_size high size <ℤ size)
inside_bounds low high size small =
    let fits : IsI16 (size -ℤ pos 1) = (
      omega (arith, -ℤ_parts size (pos 1), part_cases (size -ℤ pos 1)),
      omega (arith, -ℤ_parts size (pos 1), part_cases (size -ℤ pos 1)),
    ) in
    let one = -ℤ_parts size (pos 1) in
    rw (to_i16_id (size -ℤ pos 1) fits) (ground arith, ground (arith, one))

-- An extent inside a parent is moved as a whole.
moved_iff :
    (low high size by z : ℤ)
    → pos 0 ≤ℤ low
    → low ≤ℤ high
    → high <ℤ size
    → Small size
    → Small by
    → In (to_i16 (low +ℤ by)) (to_i16 (high +ℤ by)) z ↔ In low high (z -ℤ by)
moved_iff low high size by z from order to small_size small_by =
    let l = +ℤ_parts low by in
    let h = +ℤ_parts high by in
    let d = -ℤ_parts z by in
    let lc = part_cases (low +ℤ by) in
    let hc = part_cases (high +ℤ by) in
    let low_fits : IsI16 (low +ℤ by) = (omega arith, omega arith) in
    let high_fits : IsI16 (high +ℤ by) = (omega arith, omega arith) in
    rw (to_i16_id (low +ℤ by) low_fits, to_i16_id (high +ℤ by) high_fits)
      (
        (λ i. (omega (arith, l, h, d, i.0), omega (arith, l, h, d, i.1))),
        (λ i. (omega (arith, l, h, d, i.0), omega (arith, l, h, d, i.1))),
      )

abbrev pub Inside : WinClipRegion → WinPoint → Type 0
Inside clip q = win_is_inside_clip clip q ≡ true

pub within_iff :
    (area : WinArea) (clip : WinClipRegion) (q : WinPoint)
    → SmallArea area
    → Inside (clip_inside area clip) q
      ↔ (Inside clip q × (Below area.size.x q.x × Below area.size.y q.y))
within_iff area clip q small =
    let on_x = clipped_iff clip.nw.x clip.se.x area.size.x q.x small.width in
    let on_y = clipped_iff clip.nw.y clip.se.y area.size.y q.y small.height in
    let all = inside_clip_iff (clip_inside area clip) q in
    let old = inside_clip_iff clip q in
    (
      λ h.
          let (hx, hy) = all.0 h in
          (old.1 ((on_x.0 hx).0, (on_y.0 hy).0), ((on_x.0 hx).1, (on_y.0 hy).1)),
      λ h. let (hx, hy) = old.0 h.0 in all.1 (on_x.1 (hx, h.1.0), on_y.1 (hy, h.1.1)),
    )

-- No point is inside a negative region.
pub negative-Inside :
    (clip : WinClipRegion) (q : WinPoint) → is_negative clip ≡ true → ¬ Inside clip q
negative-Inside clip q e h = let i = (inside_clip_iff clip q).0 h in ground (arith, e, i)

not_negative :
    (clip : WinClipRegion)
    → is_negative clip ≡ false
    → (clip.nw.x ≤ℤ clip.se.x) × (clip.nw.y ≤ℤ clip.se.y)
not_negative clip e = (ground (arith, e), ground (arith, e))

pub translated_iff :
    (area : WinArea) (clip : WinClipRegion) (q : WinPoint)
    → SmallArea area
    → is_negative (clip_inside area clip) ≡ false
    → Inside (translate area (clip_inside area clip)) q
      ↔ Inside (clip_inside area clip) (record { x = q.x -ℤ area.pos.x; y = q.y -ℤ area.pos.y })
translated_iff area clip q small e =
    let inside = clip_inside area clip in
    let (order_x, order_y) = not_negative inside e in
    let (from_x, to_x) = inside_bounds clip.nw.x clip.se.x area.size.x small.width in
    let (from_y, to_y) = inside_bounds clip.nw.y clip.se.y area.size.y small.height in
    let on_x =
      moved_iff inside.nw.x inside.se.x area.size.x area.pos.x q.x from_x order_x to_x small.width
        small.left in
    let on_y =
      moved_iff inside.nw.y inside.se.y area.size.y area.pos.y q.y from_y order_y to_y small.height
        small.top in
    let all = inside_clip_iff (translate area inside) q in
    let old = inside_clip_iff inside (record { x = q.x -ℤ area.pos.x; y = q.y -ℤ area.pos.y }) in
    (
      λ h. let (hx, hy) = all.0 h in old.1 (on_x.0 hx, on_y.0 hy),
      λ h. let (hx, hy) = old.0 h in all.1 (on_x.1 hx, on_y.1 hy),
    )

abbrev pub whole : WinArea → WinClipRegion
whole area = record {
  origin = area.pos;
  nw = area.pos;
  se = record { x = right_x area; y = bottom_y area };
}

pub last_fits : (start size : ℤ) → Small (start +ℤ size) → IsI16 ((start +ℤ size) -ℤ pos 1)
last_fits start size small =
    let one = -ℤ_parts (start +ℤ size) (pos 1) in
    let part = part_cases ((start +ℤ size) -ℤ pos 1) in
    (omega (arith, one, part), omega (arith, one, part))

pub whole_iff :
    (area : WinArea) (q : WinPoint)
    → SmallArea area
    → Inside (whole area) q ↔ (win_is_inside_area area q ≡ true)
whole_iff area q small =
    let on_x = last_iff area.pos.x area.size.x (last_fits area.pos.x area.size.x small.right) q.x in
    let on_y =
      last_iff area.pos.y area.size.y (last_fits area.pos.y area.size.y small.bottom) q.y in
    let all = inside_clip_iff (whole area) q in
    let old = inside_area_iff area q in
    (
      λ h. let (hx, hy) = all.0 h in old.1 ((hx.0, on_x.0 hx.1), (hy.0, on_y.0 hy.1)),
      λ h. let (hx, hy) = old.0 h in all.1 ((hx.0, on_x.1 hx.1), (hy.0, on_y.1 hy.1)),
    )
