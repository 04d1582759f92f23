-- ===== src/Win/Geometry/Union.antt =====
-- `win_compute_union` against the edges of two areas.
use xplain_software_framewor.Base.{
  ◌+◌, ◌≤◌, ◌≡◌, refl, ap, ◌∙◌, inl, inr, arith, Bool-cases, ltb→lt, lt→ltb, le→ltb, ltb_false→le,
  if◌then◌else◌,
}
use xplain_software_framewor.Base.Int.{
  ℤ, pos_part, neg_part, ◌+ℤ◌, ◌-ℤ◌, ltbℤ, to_i16, IsI16, +ℤ_parts, -ℤ_parts, to_i16_id, part_cases,
  eq_of_parts,
}
use xplain_software_framewor.Win.{WinArea}
use xplain_software_framewor.Win.Geometry.{expand, widen, win_compute_union}

-- Far from the limits of 16 bits.
abbrev pub Small : ℤ → Type 0
Small z = (pos_part z ≤ 4096) × (neg_part z ≤ 4096)

abbrev pub lesser : ℤ → ℤ → ℤ
lesser a b = if ltbℤ b a then b else a

abbrev pub greater : ℤ → ℤ → ℤ
greater a b = if ltbℤ a b then b else a

sub_fits : (a b : ℤ) → Small a → Small b → IsI16 (a -ℤ b)
sub_fits a b ha hb = (
  omega (arith, -ℤ_parts a b, part_cases (a -ℤ b)),
  omega (arith, -ℤ_parts a b, part_cases (a -ℤ b)),
)

module _ (start size other : ℤ) (hs : Small start) (hz : Small size) (ho : Small other) where
  left_by : to_i16 (start -ℤ other) ≡ start -ℤ other
  left_by = to_i16_id _ (sub_fits start other hs ho)

  moved : to_i16 (start -ℤ (start -ℤ other)) ≡ other
  moved =
      ap to_i16 (
        eq_of_parts (start -ℤ (start -ℤ other)) other
          (omega (arith, -ℤ_parts start (start -ℤ other), -ℤ_parts start other)))
      ∙ to_i16_id other (omega arith, omega arith)

  grown : to_i16 (size +ℤ (start -ℤ other)) ≡ size +ℤ (start -ℤ other)
  grown =
      let sum = +ℤ_parts size (start -ℤ other) in
      let difference = -ℤ_parts start other in
      let one = part_cases (size +ℤ (start -ℤ other)) in
      to_i16_id _ (omega (arith, sum, difference, one), omega (arith, sum, difference, one))

  end_kept : other +ℤ (size +ℤ (start -ℤ other)) ≡ start +ℤ size
  end_kept = eq_of_parts (other +ℤ (size +ℤ (start -ℤ other))) (start +ℤ size) (
      omega (
        arith,
        +ℤ_parts other (size +ℤ (start -ℤ other)),
        +ℤ_parts size (start -ℤ other),
        -ℤ_parts start other,
        +ℤ_parts start size,
      ))

  -- On one axis, the start becomes the lesser one, and the end stays.
  expand_lem :
      ((expand start size other).0 ≡ lesser start other)
      × ((expand start size other).0 +ℤ (expand start size other).1 ≡ start +ℤ size)
  expand_lem = elim (Bool-cases (ltbℤ other start)) [
    | inl e ↦
        rw
          (
            left_by,
            e,
            lt→ltb (0 + neg_part (start -ℤ other)) (pos_part (start -ℤ other) + 0)
                (omega (arith, ltb→lt _ _ e, -ℤ_parts start other)),
            moved,
            grown,
          )
          (refl, end_kept)
    | inr e ↦
        rw
          (
            left_by,
            e,
            le→ltb (0 + neg_part (start -ℤ other)) (pos_part (start -ℤ other) + 0)
                (omega (arith, ltb_false→le _ _ e, -ℤ_parts start other)),
          )
          (refl, refl)
  ]

module _ (start size other other_size end : ℤ) (is_end : start +ℤ size ≡ end) (he : Small end)
    (hw : pos_part size ≤ 8192 × neg_part size ≤ 8192) (ho : Small (other +ℤ other_size)) where
  right_by : to_i16 ((other +ℤ other_size) -ℤ end) ≡ (other +ℤ other_size) -ℤ end
  right_by = to_i16_id _ (sub_fits (other +ℤ other_size) end ho he)

  widened : to_i16 (size +ℤ ((other +ℤ other_size) -ℤ end)) ≡ size +ℤ ((other +ℤ other_size) -ℤ end)
  widened =
      let sum = +ℤ_parts size ((other +ℤ other_size) -ℤ end) in
      let difference = -ℤ_parts (other +ℤ other_size) end in
      let one = part_cases (size +ℤ ((other +ℤ other_size) -ℤ end)) in
      to_i16_id _ (omega (arith, sum, difference, one), omega (arith, sum, difference, one))

  new_end : start +ℤ (size +ℤ ((other +ℤ other_size) -ℤ end)) ≡ other +ℤ other_size
  new_end = eq_of_parts (start +ℤ (size +ℤ ((other +ℤ other_size) -ℤ end))) (other +ℤ other_size) (
      omega (
        arith,
        +ℤ_parts start (size +ℤ ((other +ℤ other_size) -ℤ end)),
        +ℤ_parts size ((other +ℤ other_size) -ℤ end),
        -ℤ_parts (other +ℤ other_size) end,
        +ℤ_parts start size,
        ap pos_part is_end,
        ap neg_part is_end,
      ))

  -- On one axis, the end becomes the greater one.
  widen_lem : start +ℤ widen start size other other_size ≡ greater end (other +ℤ other_size)
  widen_lem = elim (Bool-cases (ltbℤ end (other +ℤ other_size))) [
    | inl e ↦
        rw
          (
            is_end,
            right_by,
            e,
            lt→ltb (0 + neg_part ((other +ℤ other_size) -ℤ end))
                (pos_part ((other +ℤ other_size) -ℤ end) + 0)
                (omega (arith, ltb→lt _ _ e, -ℤ_parts (other +ℤ other_size) end)),
            widened,
          )
          new_end
    | inr e ↦
        rw
          (
            is_end,
            right_by,
            e,
            le→ltb (0 + neg_part ((other +ℤ other_size) -ℤ end))
                (pos_part ((other +ℤ other_size) -ℤ end) + 0)
                (omega (arith, ltb_false→le _ _ e, -ℤ_parts (other +ℤ other_size) end)),
          )
          is_end
  ]

-- One axis of the union.
axis_lem :
    (start size other other_size : ℤ)
    → Small start
    → Small size
    → Small other
    → Small (start +ℤ size)
    → Small (other +ℤ other_size)
    → ((expand start size other).0 ≡ lesser start other)
      × ((expand start size other).0
            +ℤ widen (expand start size other).0 (expand start size other).1 other other_size
          ≡ greater (start +ℤ size) (other +ℤ other_size))
axis_lem start size other other_size hs hz ho he hoe = (
  expanded.0,
  widen_lem (expand start size other).0 (expand start size other).1 other other_size (start +ℤ size)
      expanded.1 he (omega (arith, within), omega (arith, within)) hoe,
)
  where
    expanded :
        ((expand start size other).0 ≡ lesser start other)
        × ((expand start size other).0 +ℤ (expand start size other).1 ≡ start +ℤ size)
    expanded = expand_lem start size other hs hz ho

    small_start : Small (lesser start other)
    small_start = elim (Bool-cases (ltbℤ other start)) [ inl e ↦ rw e ho | inr e ↦ rw e hs ]

    within :
        (pos_part (expand start size other).1 ≤ 8192)
        × (neg_part (expand start size other).1 ≤ 8192)
    within =
        let sum = +ℤ_parts (expand start size other).0 (expand start size other).1 in
        let one = part_cases (expand start size other).1 in
        let p = ap pos_part expanded.0 in
        let n = ap neg_part expanded.0 in
        let ep = ap pos_part expanded.1 in
        let en = ap neg_part expanded.1 in
        (
          omega (arith, sum, one, p, n, ep, en, small_start),
          omega (arith, sum, one, p, n, ep, en, small_start),
        )

-- All edges and sizes are far from the limits.
pub record SmallArea (area : WinArea) : Type 0 where
  pub left : Small area.pos.x
  pub top : Small area.pos.y
  pub width : Small area.size.x
  pub height : Small area.size.y
  pub right : Small (area.pos.x +ℤ area.size.x)
  pub bottom : Small (area.pos.y +ℤ area.size.y)

-- For areas with all edges and sizes between -4096 and 4096: `win_compute_union` is the smallest
-- area that has both. Its left and top edges are the lesser ones of the two, and its right and
-- bottom edges the greater ones.
pub union_lem :
    (area merge : WinArea)
    → SmallArea area
    → SmallArea merge
    → ((win_compute_union area merge).pos.x ≡ lesser area.pos.x merge.pos.x)
      × ((win_compute_union area merge).pos.y ≡ lesser area.pos.y merge.pos.y)
      × ((win_compute_union area merge).pos.x +ℤ (win_compute_union area merge).size.x
          ≡ greater (area.pos.x +ℤ area.size.x) (merge.pos.x +ℤ merge.size.x))
      × ((win_compute_union area merge).pos.y +ℤ (win_compute_union area merge).size.y
          ≡ greater (area.pos.y +ℤ area.size.y) (merge.pos.y +ℤ merge.size.y))
unfolding win_compute_union
union_lem area merge a m =
    let (left, right) =
      axis_lem area.pos.x area.size.x merge.pos.x merge.size.x a.left a.width m.left a.right
        m.right in
    let (top, bottom) =
      axis_lem area.pos.y area.size.y merge.pos.y merge.size.y a.top a.height m.top a.bottom
        m.bottom in
    (left, top, right, bottom)
