-- ===== src/Win/Geometry/Clipping.antt =====
-- `win_compute_clipping` against the points that a window and its ancestors have in common.
use xplain_software_framewor.Base.{
  ℕ, suc, ◌≡◌, ◌≢◌, ◌↔◌, inl, inr, Bool, true, false, Bool-cases, eq→==, ne→==, Option, none, some,
  List, [], ◌∷◌, length, All, if◌then◌else◌,
}
use xplain_software_framewor.Base.Int.{◌-ℤ◌}
use xplain_software_framewor.Win.{WinPoint, WinArea, Windows}
use xplain_software_framewor.Win.Geometry.{
  WinClipRegion, win_is_inside_clip, win_is_inside_area, clip_inside, is_negative, translate,
  to_root, win_compute_intersection, win_compute_clipping,
}
use xplain_software_framewor.Win.Geometry.Intersection.{Intersected, points_lem}
use xplain_software_framewor.Win.Geometry.Union.{SmallArea}
use xplain_software_framewor.Win.Geometry.Regions.{
  Below, Inside, within_iff, negative-Inside, translated_iff, whole, last_fits, whole_iff,
}

-- The windows from the parent of `win` to the root.
abbrev pub Way : Windows → ℕ → List ℕ → Type 0
Way w win [] = win ≡ w.root
Way w win (p ∷ ps) = (win ≢ w.root) × (w.parent win ≡ p) × Way w p ps

module _ (w : Windows) where
  abbrev pub area_of : ℕ → WinArea
  area_of win = (w.attributes win).area

  -- A point of the screen, relative to the first of the windows.
  abbrev pub relative_to : List ℕ → WinPoint → WinPoint
  relative_to [] p = p
  relative_to (a ∷ as') p = record {
    x = (relative_to as' p).x -ℤ (area_of a).pos.x;
    y = (relative_to as' p).y -ℤ (area_of a).pos.y;
  }

  -- A point of the screen is within the size of all of the windows.
  abbrev pub InAll : List ℕ → WinPoint → Type 0
  InAll [] p = Unit
  InAll (a ∷ as') p =
      (Below (area_of a).size.x (relative_to (a ∷ as') p).x
        × Below (area_of a).size.y (relative_to (a ∷ as') p).y)
      × InAll as' p

  -- What a result says of the points of the screen for which `P` holds of the relative point.
  abbrev pub Clips : List ℕ → (WinPoint → Type 0) → Option (Bool × WinClipRegion) → Type 0
  Clips ps P none = ⊥
  Clips ps P (some (true, left)) =
      (p : WinPoint) → (win_is_inside_clip left p ≡ true) ↔ (P (relative_to ps p) × InAll ps p)
  Clips ps P (some (false, left)) = (p : WinPoint) → ¬ (P (relative_to ps p) × InAll ps p)

  -- One step to the parent keeps what the result says.
  step-Clips :
      (a : ℕ) (ps : List ℕ) (clip : WinClipRegion) (r : Option (Bool × WinClipRegion))
      → SmallArea (area_of a)
      → is_negative (clip_inside (area_of a) clip) ≡ false
      → Clips ps (Inside (translate (area_of a) (clip_inside (area_of a) clip))) r
      → Clips (a ∷ ps) (Inside clip) r
  step-Clips a ps clip none small e h = absurd h
  step-Clips a ps clip (some (true, left)) small e h = λ p.
      let moved = translated_iff (area_of a) clip (relative_to ps p) small e in
      let inside = within_iff (area_of a) clip (relative_to (a ∷ ps) p) small in
      (
        λ i.
            let (here, above) = (h p).0 i in
            let (old, below) = inside.0 (moved.0 here) in (old, (below, above)),
        λ i. (h p).1 (moved.1 (inside.1 (i.0, i.1.0)), i.1.1),
      )
  step-Clips a ps clip (some (false, left)) small e h = λ p both.
      let moved = translated_iff (area_of a) clip (relative_to ps p) small e in
      let inside = within_iff (area_of a) clip (relative_to (a ∷ ps) p) small in
      h p (moved.1 (inside.1 (both.0, both.1.0)), both.1.1)

  to_root_lem :
      (win : ℕ) (ps : List ℕ) (clip : WinClipRegion)
      → Way w win ps
      → All (λ a. SmallArea (area_of a)) ps
      → Clips ps (Inside clip) (to_root (suc (length ps)) w win clip)
  unfolding to_root
  to_root_lem win [] clip at_root small =
      rw (eq→== win w.root at_root) (λ p. (λ h. (h, tt), λ h. h.0))
  to_root_lem win (a ∷ ps) clip (ne, up, way) (here, small) =
      rw (ne→== win w.root ne, up)
        (elim (Bool-cases (is_negative (clip_inside (area_of a) clip))) [
          | inl e ↦ rw e (λ p both.
              negative-Inside (clip_inside (area_of a) clip) (relative_to (a ∷ ps) p) e
                ((within_iff (area_of a) clip (relative_to (a ∷ ps) p) here).1 (both.0, both.1.0)))
          | inr e ↦ rw e (
              step-Clips a ps clip
                (to_root (suc (length ps)) w a
                  (translate (area_of a) (clip_inside (area_of a) clip)))
                here e
                (to_root_lem a ps (translate (area_of a) (clip_inside (area_of a) clip)) way small))
        ])

  -- The points that are in both areas.
  abbrev pub InBoth : WinArea → WinArea → WinPoint → Type 0
  InBoth area dirty_area q =
      (win_is_inside_area area q ≡ true) × (win_is_inside_area dirty_area q ≡ true)

  Clips-replace :
      (ps : List ℕ) (P Q : WinPoint → Type 0) (r : Option (Bool × WinClipRegion))
      → ((q : WinPoint) → P q ↔ Q q)
      → Clips ps P r
      → Clips ps Q r
  Clips-replace ps P Q none same h = absurd h
  Clips-replace ps P Q (some (true, left)) same h = λ p.
      let here = same (relative_to ps p) in
      (λ i. let (old, above) = (h p).0 i in (here.0 old, above), λ i. (h p).1 (here.1 i.0, i.1))
  Clips-replace ps P Q (some (false, left)) same h =
      λ p both. h p ((same (relative_to ps p)).1 both.0, both.1)

  -- For a window with a way to the root, where the edges and sizes of the area to be redrawn, of
  -- the window and of its ancestors are between -4096 and 4096: with one step for each of these
  -- windows `win_compute_clipping` returns. If it returns true, then the region has exactly the
  -- points of the screen that, relative to the parent of the window, are in the window and in the area,
  -- and are within the size of every ancestor. If it returns false, there is no such point.
  pub clipping_lem :
      (win : ℕ) (ps : List ℕ) (dirty_area : WinArea)
      → Way w win ps
      → SmallArea (area_of win)
      → SmallArea dirty_area
      → All (λ a. SmallArea (area_of a)) ps
      → Clips ps
          (InBoth (area_of win) dirty_area)
          (win_compute_clipping (suc (length ps)) w win dirty_area)
  unfolding win_compute_clipping
  clipping_lem win ps dirty_area way here dirty small =
      of_region (win_compute_intersection (whole (area_of win)) dirty_area) (
        points_lem (whole (area_of win)) dirty_area
          (last_fits dirty_area.pos.x dirty_area.size.x dirty.right)
          (last_fits dirty_area.pos.y dirty_area.size.y dirty.bottom))
    where
      of_region :
          (r : Bool × WinClipRegion)
          → Intersected (whole (area_of win)) dirty_area r
          → Clips ps
              (InBoth (area_of win) dirty_area)
              (if r.0 then to_root (suc (length ps)) w win r.1 else some (false, r.1))
      of_region (true, clip) both =
          Clips-replace ps (Inside clip) (InBoth (area_of win) dirty_area)
            (to_root (suc (length ps)) w win clip)
            (λ q.
              let split = both q in
              let mine = whole_iff (area_of win) q here in
              (λ h. let (a, b) = split.0 h in (mine.0 a, b), λ h. split.1 (mine.1 h.0, h.1)))
            (to_root_lem win ps clip way small)
      of_region (false, clip) none_left = λ p both.
          none_left.1 (relative_to ps p)
            ((whole_iff (area_of win) (relative_to ps p) here).1 both.0.0, both.0.1)
