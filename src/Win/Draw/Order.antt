-- ===== src/Win/Draw/Order.antt =====
-- The order in which a window and its children are drawn, against the lists of children.
use xplain_software_framewor.Base.{
  ℕ, zero, suc, ◌≤◌, ◌<◌, ◌≡◌, ◌≢◌, refl, sym, subst, ◌∙◌, arith, eq→==, ne→==, Option, some, List,
  [], ◌∷◌, ◌++◌, length, length-append, All, if◌then◌else◌, Bool-cases, inl, inr,
}
use xplain_software_framewor.Win.{Windows}
use xplain_software_framewor.Win.Ring.{Away, Chain, Chain-append}
use xplain_software_framewor.Win.Tree.{Siblings, Tree, Levels, All-append}
use xplain_software_framewor.Win.Geometry.{WinClipRegion, is_negative}
use xplain_software_framewor.Win.Draw.{
  Painted, painted, child_region, if_mapped, draw_children, win_draw_child, win_draw_contents,
}

-- From the bottom window to the top.
abbrev pub bottom_up : List ℕ → List ℕ
bottom_up [] = []
bottom_up (c ∷ cs) = bottom_up cs ++ c ∷ []

bottom_up-Chain :
    (nx pv : ℕ → ℕ) (a : ℕ) (xs : List ℕ) (b : ℕ)
    → Chain nx pv a xs b
    → Chain pv nx b (bottom_up xs) a
bottom_up-Chain nx pv a [] b (n, p) = (p, n)
bottom_up-Chain nx pv a (x ∷ xs) b (n, p, rest) =
    Chain-append pv nx b (bottom_up xs) x [] a (bottom_up-Chain nx pv x xs b rest) (p, n)

bottom_up-All : (P : ℕ → Type 0) (xs : List ℕ) → All P xs → All P (bottom_up xs)
bottom_up-All P [] h = tt
bottom_up-All P (x ∷ xs) (here, h) =
    All-append P (bottom_up xs) (x ∷ []) (bottom_up-All P xs h) (here, tt)

length-bottom_up : (xs : List ℕ) → length (bottom_up xs) ≡ length xs
length-bottom_up [] = refl
length-bottom_up (x ∷ xs) =
    length-append (bottom_up xs) (x ∷ []) ∙ (let e = length-bottom_up xs in omega (arith, e))

module _ (w : Windows) where
  -- What is drawn for a list of windows, of which only the mapped ones count.
  pub paint_all : (ℕ → List Painted) → List ℕ → List Painted
  paint_all paint [] = []
  paint_all paint (c ∷ cs) = (if w.is_mapped c then paint c else []) ++ paint_all paint cs

  abbrev Paints : (ℕ → Option (List Painted)) → (ℕ → List Painted) → ℕ → Type 0
  Paints draw_child paint c = draw_child c ≡ some (paint c)

  mapped_lem :
      (draw_child : ℕ → Option (List Painted)) (paint : ℕ → List Painted) (c : ℕ)
      → Paints draw_child paint c
      → if_mapped w draw_child c ≡ some (if w.is_mapped c then paint c else [])
  mapped_lem draw_child paint c e = elim (Bool-cases (w.is_mapped c)) [
    | inl mapped ↦ rw (mapped, e) refl
    | inr hidden ↦ rw hidden refl
  ]

  draw_children_lem :
      (draw_child : ℕ → Option (List Painted)) (paint : ℕ → List Painted) (top n a : ℕ)
      (ys : List ℕ)
      → Chain w.prev_sibling w.next_sibling a ys top
      → Away top ys
      → length ys < n
      → All (Paints draw_child paint) (ys ++ top ∷ [])
      → draw_children w draw_child top n a ≡ some (paint_all paint (ys ++ top ∷ []))
  unfolding draw_children paint_all
  draw_children_lem draw_child paint top zero a ys chain away lt all = absurd (omega arith)
  draw_children_lem draw_child paint top (suc n) a [] (p, _) away lt (here, _) =
      rw (p, mapped_lem draw_child paint top here, eq→== top top refl) refl
  draw_children_lem draw_child paint top (suc n) a (y ∷ ys) (p, _, chain) (ne, away) lt
        (here, all) =
      rw
        (
          p,
          mapped_lem draw_child paint y here,
          ne→== y top (λ e. ne (sym e)),
          draw_children_lem draw_child paint top n y ys chain away (omega arith) all,
        )
        refl

  -- What is drawn of a child inside the region of its parent.
  abbrev pub inside : WinClipRegion → (ℕ → WinClipRegion → List Painted) → ℕ → List Painted
  inside clip paint c =
      let region = child_region (w.attributes c).area clip in
      if is_negative region then [] else paint c region

  child_lem :
      (draw : ℕ → WinClipRegion → Option (List Painted)) (paint : ℕ → WinClipRegion → List Painted)
      (clip : WinClipRegion) (c : ℕ)
      → ((region : WinClipRegion) → draw c region ≡ some (paint c region))
      → Paints (win_draw_child w draw clip) (inside clip paint) c
  unfolding win_draw_child
  child_lem draw paint clip c below =
      elim (Bool-cases (is_negative (child_region (w.attributes c).area clip))) [
        | inl e ↦ rw e refl
        | inr e ↦ rw e (below (child_region (w.attributes c).area clip))
      ]

  children_lem :
      (draw : ℕ → WinClipRegion → Option (List Painted)) (paint : ℕ → WinClipRegion → List Painted)
      (clip : WinClipRegion) (P : ℕ → Type 0) (cs : List ℕ)
      → ((c : ℕ) → c ≢ 0 → P c → (region : WinClipRegion) → draw c region ≡ some (paint c region))
      → Away 0 cs
      → All P cs
      → All (Paints (win_draw_child w draw clip) (inside clip paint)) cs
  children_lem draw paint clip P [] below proper h = tt
  children_lem draw paint clip P (c ∷ cs) below (ne, proper) (here, h) = (
    child_lem draw paint clip c (below c (λ e. ne (sym e)) here),
    children_lem draw paint clip P cs below proper h,
  )

  module _ (children : ℕ → List ℕ) where
    -- A window, and then its children from the bottom to the top with what is below them, each in its
    -- own region.
    pub picture : ℕ → ℕ → WinClipRegion → List Painted
    picture zero win clip = []
    picture (suc levels) win clip =
        painted win clip ∷ paint_all (inside clip (picture levels)) (bottom_up (children win))

    -- For a tree of windows with no more than `siblings` children each, and a window with at most
    -- `levels` levels below: `win_draw_contents` ends and draws the window first, and then its
    -- mapped children from the bottom to the top, each with all that is in it. A child is clipped
    -- to the region of its parent, and left out if nothing of it remains.
    pub draw_contents_lem :
        (siblings : ℕ)
        → Tree w children
        → ((p : ℕ) → length (children p) ≤ siblings)
        → (levels win : ℕ) (clip : WinClipRegion) → win ≢ 0
        → Levels children levels win
        → win_draw_contents w siblings levels win clip ≡ some (picture levels win clip)
    unfolding win_draw_contents picture paint_all
    draw_contents_lem siblings tree few zero win clip ok deep = absurd deep
    draw_contents_lem siblings tree few (suc levels) win clip ok deep =
        go (children win) refl (tree win ok) (λ c proper below region.
          draw_contents_lem siblings tree few levels c region proper below)
      where
        go :
            (cs : List ℕ)
            → children win ≡ cs
            → Siblings w win cs
            → ((c : ℕ)
                → c ≢ 0
                → Levels children levels c
                → (region : WinClipRegion)
                → win_draw_contents w siblings levels c region ≡ some (picture levels c region))
            → win_draw_contents w siblings (suc levels) win clip
              ≡ some (picture (suc levels) win clip)
        go [] e s below = rw (e, eq→== (w.top_child win) 0 s.circle) refl
        go (c ∷ cs) e s below =
            let (top, chain) = s.circle in
            let draw = win_draw_contents w siblings levels in
            let all =
              children_lem draw (picture levels) clip (Levels children levels) (c ∷ cs) below
                s.proper (subst (All (Levels children levels)) e deep) in
            rw
              (
                e,
                top,
                ne→== c 0 (λ z. s.proper.0 (sym z)),
                draw_children_lem (win_draw_child w draw clip) (inside clip (picture levels)) c
                    siblings c (bottom_up cs)
                    (bottom_up-Chain w.next_sibling w.prev_sibling c cs c chain)
                    (bottom_up-All (λ b. c ≢ b) cs s.distinct.0)
                    (let f = length-bottom_up cs in
                      let g = subst (λ (l : List ℕ). length l ≤ siblings) e (few win) in
                      omega (arith, f, g))
                    (bottom_up-All
                      (Paints (win_draw_child w draw clip) (inside clip (picture levels))) (c ∷ cs)
                      all),
              )
              refl
