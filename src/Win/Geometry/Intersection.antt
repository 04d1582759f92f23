-- ===== src/Win/Geometry/Intersection.antt =====
-- `win_compute_intersection` against the points of a region and an area.
use xplain_software_framewor.Base.{
  ◌≡◌, refl, ◌↔◌, ◌⊎◌, inl, inr, arith, Bool, true, false, Bool-cases, ltb→lt, ltb_false→le,
}
use xplain_software_framewor.Base.Int.{
  ℤ, pos, ◌+ℤ◌, +ℤ_parts, ◌-ℤ◌, ◌≤ℤ◌, ◌<ℤ◌, ltbℤ, IsI16, -ℤ_parts, to_i16_id,
}
use xplain_software_framewor.Win.{WinPoint, WinArea}
use xplain_software_framewor.Win.Geometry.{
  WinClipRegion, win_is_inside_clip, win_is_inside_area, last_of, right_x, bottom_y, raised, cut,
  win_compute_intersection, In, Covers,
}

pub inside_clip_iff :
    (clip : WinClipRegion) (p : WinPoint)
    → (win_is_inside_clip clip p ≡ true) ↔ (In clip.nw.x clip.se.x p.x × In clip.nw.y clip.se.y p.y)
unfolding win_is_inside_clip
inside_clip_iff clip p = (λ e. ground arith, λ e. ground arith)

pub inside_area_iff :
    (area : WinArea) (p : WinPoint)
    → (win_is_inside_area area p ≡ true)
      ↔ (Covers area.pos.x area.size.x p.x × Covers area.pos.y area.size.y p.y)
unfolding win_is_inside_area
inside_area_iff area p = (λ e. ground arith, λ e. ground arith)

module _ (start size : ℤ) (fits : IsI16 ((start +ℤ size) -ℤ pos 1)) where
  -- The last coordinate of an extent is before its end, and nothing else is.
  pub last_iff : (z : ℤ) → (z ≤ℤ last_of start size) ↔ (z <ℤ start +ℤ size)
  last_iff z = rw (to_i16_id _ fits) (
    λ h. omega (arith, -ℤ_parts (start +ℤ size) (pos 1)),
    λ h. omega (arith, -ℤ_parts (start +ℤ size) (pos 1)),
  )

  -- The cut extent is what both have in common.
  cut_iff :
      (low high z : ℤ)
      → In (raised low start) (cut high (last_of start size)) z
        ↔ (In low high z × Covers start size z)
  cut_iff low high z =
      let l = last_iff z in (λ h. ground (arith, l.0, l.1), λ h. ground (arith, l.0, l.1))

  apart_iff :
      (low high z : ℤ)
      → (high <ℤ start) ⊎ (last_of start size <ℤ low)
      → ¬ (In low high z × Covers start size z)
  apart_iff low high z apart both = ground (arith, (last_iff z).1)

-- What the result of an intersection says: the points that are left are those of both, and a
-- region without points is refused.
abbrev pub Intersected : WinClipRegion → WinArea → Bool × WinClipRegion → Type 0
Intersected clip area (true, left) =
    (p : WinPoint)
    → (win_is_inside_clip left p ≡ true)
      ↔ ((win_is_inside_clip clip p ≡ true) × (win_is_inside_area area p ≡ true))
Intersected clip area (false, left) =
    (left ≡ clip)
    × ((p : WinPoint) → ¬ ((win_is_inside_clip clip p ≡ true) × (win_is_inside_area area p ≡ true)))

module _ (clip : WinClipRegion) (area : WinArea)
    (fits_x : IsI16 ((area.pos.x +ℤ area.size.x) -ℤ pos 1))
    (fits_y : IsI16 ((area.pos.y +ℤ area.size.y) -ℤ pos 1)) where
  none_x :
      (clip.se.x <ℤ area.pos.x) ⊎ (right_x area <ℤ clip.nw.x) → Intersected clip area (false, clip)
  none_x apart = (
    refl,
    λ p both.
        apart_iff area.pos.x area.size.x fits_x clip.nw.x clip.se.x p.x apart
          (((inside_clip_iff clip p).0 both.0).0, ((inside_area_iff area p).0 both.1).0),
  )

  none_y :
      (clip.se.y <ℤ area.pos.y) ⊎ (bottom_y area <ℤ clip.nw.y) → Intersected clip area (false, clip)
  none_y apart = (
    refl,
    λ p both.
        apart_iff area.pos.y area.size.y fits_y clip.nw.y clip.se.y p.y apart
          (((inside_clip_iff clip p).0 both.0).1, ((inside_area_iff area p).0 both.1).1),
  )

  abbrev left_over : WinClipRegion
  left_over = record clip {
    nw = record { x = raised clip.nw.x area.pos.x; y = raised clip.nw.y area.pos.y };
    se = record { x = cut clip.se.x (right_x area); y = cut clip.se.y (bottom_y area) };
  }

  both_left : Intersected clip area (true, left_over)
  both_left p =
      let in_x = cut_iff area.pos.x area.size.x fits_x clip.nw.x clip.se.x p.x in
      let in_y = cut_iff area.pos.y area.size.y fits_y clip.nw.y clip.se.y p.y in
      let in_left = inside_clip_iff left_over p in
      let in_clip = inside_clip_iff clip p in
      let in_area = inside_area_iff area p in
      (
        λ h.
            let (hx, hy) = in_left.0 h in
            (in_clip.1 ((in_x.0 hx).0, (in_y.0 hy).0), in_area.1 ((in_x.0 hx).1, (in_y.0 hy).1)),
        λ h.
            let (cx, cy) = in_clip.0 h.0 in
            let (ax, ay) = in_area.0 h.1 in in_left.1 (in_x.1 (cx, ax), in_y.1 (cy, ay)),
      )

pub points_lem :
    (clip : WinClipRegion) (area : WinArea)
    → IsI16 ((area.pos.x +ℤ area.size.x) -ℤ pos 1)
    → IsI16 ((area.pos.y +ℤ area.size.y) -ℤ pos 1)
    → Intersected clip area (win_compute_intersection clip area)
unfolding win_compute_intersection
points_lem clip area fits_x fits_y = elim (Bool-cases (ltbℤ clip.se.x area.pos.x)) [
  | inl e ↦ rw e (none_x clip area fits_x fits_y (inl (ltb→lt _ _ e)))
  | inr e ↦ elim (Bool-cases (ltbℤ clip.se.y area.pos.y)) [
    | inl f ↦ rw (e, f) (none_y clip area fits_x fits_y (inl (ltb→lt _ _ f)))
    | inr f ↦ elim (Bool-cases (ltbℤ (right_x area) clip.nw.x)) [
      | inl g ↦ rw (e, f, g) (none_x clip area fits_x fits_y (inr (ltb→lt _ _ g)))
      | inr g ↦ elim (Bool-cases (ltbℤ (bottom_y area) clip.nw.y)) [
        | inl h ↦ rw (e, f, g, h) (none_y clip area fits_x fits_y (inr (ltb→lt _ _ h)))
        | inr h ↦ rw (e, f, g, h) (both_left clip area fits_x fits_y)
      ]
    ]
  ]
]

-- A region and an area that have points.
abbrev pub HasPoints : WinClipRegion → Type 0
HasPoints clip = (clip.nw.x ≤ℤ clip.se.x) × (clip.nw.y ≤ℤ clip.se.y)

abbrev pub HasSize : WinArea → Type 0
HasSize area = (pos 0 <ℤ area.size.x) × (pos 0 <ℤ area.size.y)

-- On one axis: what is left of two extents that are neither apart nor empty is not empty.
left_over_ordered :
    (low high start size : ℤ)
    → IsI16 ((start +ℤ size) -ℤ pos 1)
    → low ≤ℤ high
    → pos 0 <ℤ size
    → ltbℤ high start ≡ false
    → ltbℤ (last_of start size) low ≡ false
    → raised low start ≤ℤ cut high (last_of start size)
left_over_ordered low high start size fits proper sized e f =
    let last = -ℤ_parts (start +ℤ size) (pos 1) in
    let sum = +ℤ_parts start size in
    let after = ltb_false→le _ _ e in
    let before = ltb_false→le _ _ f in
    rw (to_i16_id _ fits) (ground (arith, last, sum, after, rw (to_i16_id _ fits) at before))

corner_lem :
    (clip : WinClipRegion) (area : WinArea)
    → IsI16 ((area.pos.x +ℤ area.size.x) -ℤ pos 1)
    → IsI16 ((area.pos.y +ℤ area.size.y) -ℤ pos 1)
    → HasPoints clip
    → HasSize area
    → (win_compute_intersection clip area).0 ≡ true
    → HasPoints (win_compute_intersection clip area).1
unfolding win_compute_intersection
corner_lem clip area fits_x fits_y proper sized = elim (Bool-cases (ltbℤ clip.se.x area.pos.x)) [
  | inl e ↦ rw e (λ no. cc)
  | inr e ↦ elim (Bool-cases (ltbℤ clip.se.y area.pos.y)) [
    | inl f ↦ rw (e, f) (λ no. cc)
    | inr f ↦ elim (Bool-cases (ltbℤ (right_x area) clip.nw.x)) [
      | inl g ↦ rw (e, f, g) (λ no. cc)
      | inr g ↦ elim (Bool-cases (ltbℤ (bottom_y area) clip.nw.y)) [
        | inl h ↦ rw (e, f, g, h) (λ no. cc)
        | inr h ↦
            rw (e, f, g, h)
              (λ yes. (
                left_over_ordered clip.nw.x clip.se.x area.pos.x area.size.x fits_x proper.0 sized.0
                    e g,
                left_over_ordered clip.nw.y clip.se.y area.pos.y area.size.y fits_y proper.1 sized.1
                    f h,
              ))
      ]
    ]
  ]
]

-- For an area whose last coordinates fit `gfx_coord_t`: `win_compute_intersection` leaves the
-- region of exactly the points that were in the region and are in the area, and it returns false,
-- with the region as it was, only where there is no such point. If the region has points and the
-- area has a positive width and height, then it returns true only where there is such a point, the
-- top left corner of the region that is left.
pub intersection-Intersected :
    (clip : WinClipRegion) (area : WinArea)
    → IsI16 ((area.pos.x +ℤ area.size.x) -ℤ pos 1)
    → IsI16 ((area.pos.y +ℤ area.size.y) -ℤ pos 1)
    → Intersected clip area (win_compute_intersection clip area)
      × (((win_compute_intersection clip area).0 ≡ false)
          ⊎ (win_is_inside_clip
                (win_compute_intersection clip area).1
                (win_compute_intersection clip area).1.nw
              ≡ true)
          ⊎ ¬ (HasPoints clip × HasSize area))
intersection-Intersected clip area fits_x fits_y =
    let left = (win_compute_intersection clip area).1 in
    (
      points_lem clip area fits_x fits_y,
      elim (Bool-cases (win_compute_intersection clip area).0) [
        | inr refused ↦ inl refused
        | inl accepted ↦ elim (Bool-cases (win_is_inside_clip left left.nw)) [
          | inl inside ↦ inr (inl inside)
          | inr outside ↦ inr (
              inr (λ (proper, sized).
                let (on_x, on_y) = corner_lem clip area fits_x fits_y proper sized accepted in
                let inside =
                  (inside_clip_iff left left.nw).1 ((omega arith, on_x), (omega arith, on_y)) in
                absurd (cc (inside, outside))))
        ]
      ],
    )
