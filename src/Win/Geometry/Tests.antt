-- ===== src/Win/Geometry/Tests.antt =====
-- Some areas and a region.
use xplain_software_framewor.Base.{ℕ, ◌≡◌, ◌⊎◌, refl, true, false, arith}
use xplain_software_framewor.Base.Int.{pos, negsuc, ◌+ℤ◌, ◌-ℤ◌, to_i16}
use xplain_software_framewor.Win.{WinArea}
use xplain_software_framewor.Win.Geometry.{
  WinClipRegion, win_is_inside_clip, win_compute_intersection, win_compute_union,
}
use xplain_software_framewor.Win.Geometry.Intersection.{
  Intersected, HasPoints, HasSize, intersection-Intersected,
}
use xplain_software_framewor.Win.Geometry.Union.{lesser, greater, SmallArea, union_lem}

abbrev pub area_at : ℕ → ℕ → WinArea
area_at start size = record {
  pos = record { x = pos start; y = pos start };
  size = record { x = pos size; y = pos size };
}

abbrev pub clip : WinClipRegion
clip = record {
  origin = record { x = pos 0; y = pos 0 };
  nw = record { x = pos 0; y = negsuc 3 };
  se = record { x = pos 30; y = pos 30 };
}

intersection_example :
    Intersected clip (area_at 20 30) (win_compute_intersection clip (area_at 20 30))
    × (((win_compute_intersection clip (area_at 20 30)).0 ≡ false)
        ⊎ (win_is_inside_clip
              (win_compute_intersection clip (area_at 20 30)).1
              (win_compute_intersection clip (area_at 20 30)).1.nw
            ≡ true)
        ⊎ ¬ (HasPoints clip × HasSize (area_at 20 30)))
unfolding ◌+ℤ◌ ◌-ℤ◌
intersection_example =
    intersection-Intersected clip (area_at 20 30) (omega arith, omega arith)
      (omega arith, omega arith)

-- An area without points, inside the region.
accepts_empty : (win_compute_intersection clip (area_at 20 0)).0 ≡ true
unfolding win_compute_intersection ◌+ℤ◌ ◌-ℤ◌ to_i16
accepts_empty = refl

small_area : SmallArea (area_at 20 30)
unfolding ◌+ℤ◌
small_area = record {
  left = (omega arith, omega arith);
  top = (omega arith, omega arith);
  width = (omega arith, omega arith);
  height = (omega arith, omega arith);
  right = (omega arith, omega arith);
  bottom = (omega arith, omega arith);
}

small_merge : SmallArea (area_at 5 9)
unfolding ◌+ℤ◌
small_merge = record {
  left = (omega arith, omega arith);
  top = (omega arith, omega arith);
  width = (omega arith, omega arith);
  height = (omega arith, omega arith);
  right = (omega arith, omega arith);
  bottom = (omega arith, omega arith);
}

union_example :
    ((win_compute_union (area_at 20 30) (area_at 5 9)).pos.x ≡ lesser (pos 20) (pos 5))
    × ((win_compute_union (area_at 20 30) (area_at 5 9)).pos.y ≡ lesser (pos 20) (pos 5))
    × ((win_compute_union (area_at 20 30) (area_at 5 9)).pos.x
          +ℤ (win_compute_union (area_at 20 30) (area_at 5 9)).size.x
        ≡ greater (pos 20 +ℤ pos 30) (pos 5 +ℤ pos 9))
    × ((win_compute_union (area_at 20 30) (area_at 5 9)).pos.y
          +ℤ (win_compute_union (area_at 20 30) (area_at 5 9)).size.y
        ≡ greater (pos 20 +ℤ pos 30) (pos 5 +ℤ pos 9))
union_example = union_lem (area_at 20 30) (area_at 5 9) small_area small_merge
