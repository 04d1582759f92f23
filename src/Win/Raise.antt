-- ===== src/Win/Raise.antt =====
-- `win_raise` and `win_lower`: the window comes to the top or the bottom of its siblings.
use xplain_software_framewor.Base.{
  ℕ, zero, suc, ◌≡◌, ◌≢◌, refl, sym, ap, subst, ◌∙◌, inl, inr, ◌==◌, Bool-cases, ne→==, none, some,
  List, [], ◌∷◌, ◌++◌,
}
use xplain_software_framewor.Win.{
  assign, Windows, event_raise, event_unraise, handle_event, win_raise, win_lower,
}
use xplain_software_framewor.Win.Ring.{
  assign-eq, assign-ne, Away, Distinct, Chain-append, Chain-split, prev-Away, Away-split,
  Away-append, Distinct-split,
}
use xplain_software_framewor.Win.Tree.{Circle, Siblings, Tree, All-append}
use xplain_software_framewor.Win.Links.{Tree-assign}
use xplain_software_framewor.Win.Stacking.{
  Rooted, Rooted-ext, handle_event-act, log-Tree, redraw-log, parent_of, restacked, restack,
  restacked-parent,
}

-- A window under others is not the top one.
top-ne :
    (w : Windows) (p x : ℕ) (xs : List ℕ) (win : ℕ) (post : List ℕ)
    → Siblings w p (x ∷ (xs ++ win ∷ post))
    → w.top_child p ≢ win
top-ne w p x xs win post s =
    λ e. (Away-split x xs (win ∷ post) s.distinct.0).1.0 (sym s.circle.0 ∙ e)

-- A window above others is not the bottom one.
bottom-ne :
    (w : Windows) (p win : ℕ) (pre : List ℕ) (y : ℕ) (ys : List ℕ)
    → Siblings w p (pre ++ win ∷ y ∷ ys)
    → w.prev_sibling (w.top_child p) ≢ win
bottom-ne w p win [] y ys s =
    let (n, q, rest) = s.circle.1 in
    rw s.circle.0 (λ e.
      prev-Away w.next_sibling w.prev_sibling win y ys win s.distinct.0.0 s.distinct.0.1 rest
        (sym e))
bottom-ne w p win (x ∷ xs) y ys s =
    let (left, (n, q, rest)) =
      Chain-split w.next_sibling w.prev_sibling x xs win (y ∷ ys) x s.circle.1 in
    let after = (Distinct-split xs (win ∷ y ∷ ys) s.distinct.1).1 in
    rw s.circle.0
      (λ e. prev-Away w.next_sibling w.prev_sibling win y ys x after.0.0 after.0.1 rest (sym e))

-- For a tree of windows: `win_raise` of a window other than the root that is under at least one
-- sibling, that has a child, and that is on the way from itself to the root within `depth`
-- windows, puts it on top of its siblings, which keep their order. The children of all other
-- windows stay as they are.
pub raise-Tree :
    (depth : ℕ) (w : Windows) (children : ℕ → List ℕ) (win p x : ℕ) (xs post : List ℕ)
    → Tree w children
    → p ≢ 0
    → win ≢ 0
    → win ≢ w.root
    → children p ≡ x ∷ (xs ++ win ∷ post)
    → w.top_child win ≢ 0
    → Rooted w.parent depth win
    → (w' : Windows) × (win_raise depth win w ≡ some w')
      × Tree w' (assign children p (win ∷ x ∷ (xs ++ post)))
unfolding win_raise
raise-Tree depth w children win p x xs post tree proper ok below e child rooted =
    let s = subst (λ (cs : List ℕ). Siblings w p cs) e (tree p proper) in
    let owner = parent_of w p win (x ∷ xs) post (children p) (tree p proper) e in
    let (log1, told1) = handle_event-act (w.top_child win) event_unraise w child in
    let w1 = record w { log = log1 } in
    let w2 = restacked win w1 in
    let (log2, told2) = handle_event-act win event_raise w2 ok in
    let w3 = record w2 { log = log2 } in
    let (log3, drawn) =
      redraw-log depth win w3
        (Rooted-ext w.parent w3.parent depth win (λ a. sym (restacked-parent w1 win a)) rooted) in
    (
      record w3 { log = log3 },
      rw
          (
            ne→== win 0 ok,
            ne→== win w.root below,
            ne→== (w.top_child (w.parent win)) win
                (λ same. top-ne w p x xs win post s (ap w.top_child (sym owner) ∙ same)),
            told1,
          )
          (rw told2 drawn),
      log-Tree log3 w2 _
          (restack w1 children win p (x ∷ xs) post (log-Tree log1 w children tree) proper ok e),
    )

-- `win_raise` of a window that is neither the root nor on top of its siblings and has no child of
-- its own sends an event to a null pointer.
pub raise-childless :
    (depth : ℕ) (w : Windows) (win : ℕ)
    → w.top_child (w.parent win) ≢ win
    → w.top_child win ≡ 0
    → win_raise depth win w ≡ none
unfolding win_raise handle_event
raise-childless depth w win under none_is = elim (Bool-cases (win == 0)) [
  | inl e ↦ rw e refl
  | inr e ↦ elim (Bool-cases (win == w.root)) [
    | inl f ↦ rw (e, f) refl
    | inr f ↦ rw (e, f, ne→== _ _ under, none_is) refl
  ]
]

Distinct-snoc : (xs : List ℕ) (y : ℕ) → Distinct xs → Away y xs → Distinct (xs ++ y ∷ [])
Distinct-snoc [] y d h = (tt, tt)
Distinct-snoc (x ∷ xs) y (k, d) (h, hs) =
    (Away-append x xs (y ∷ []) k ((λ e. h (sym e)), tt), Distinct-snoc xs y d hs)

-- The top child is passed on to the next one.
abbrev rotated : ℕ → ℕ → Windows → Windows
rotated p a w = record w { top_child = assign w.top_child p (w.next_sibling a) }

rotate-Siblings :
    (w : Windows) (p a z : ℕ) (zs : List ℕ)
    → Siblings w p (a ∷ z ∷ zs)
    → Siblings (rotated p a w) p (z ∷ (zs ++ a ∷ []))
rotate-Siblings w p a z zs s =
    let (n, q, rest) = s.circle.1 in
    record {
      circle = (
        assign-eq w.top_child p (w.next_sibling a) ∙ n,
        Chain-append w.next_sibling w.prev_sibling z zs a [] z rest (n, q),
      );
      distinct = Distinct-snoc (z ∷ zs) a s.distinct.1 s.distinct.0;
      proper = Away-append 0 (z ∷ zs) (a ∷ []) s.proper.1 (s.proper.0, tt);
      owned = All-append (λ c. w.parent c ≡ p) (z ∷ zs) (a ∷ []) s.owned.1 (s.owned.0, tt);
    }

rotate-Tree :
    (w : Windows) (children : ℕ → List ℕ) (p a z : ℕ) (zs : List ℕ)
    → p ≢ 0
    → Tree w (assign children p (a ∷ z ∷ zs))
    → Tree (rotated p a w) (assign children p (z ∷ (zs ++ a ∷ [])))
rotate-Tree w children p a z zs proper tree =
    Tree-assign (rotated p a w) children p (z ∷ (zs ++ a ∷ []))
      (rotate-Siblings w p a z zs (
        subst (λ (cs : List ℕ). Siblings w p cs) (assign-eq children p (a ∷ z ∷ zs))
          (tree p proper)))
      (λ q ok apart.
        let s =
          subst (λ (cs : List ℕ). Siblings w q cs)
            (assign-ne children p (a ∷ z ∷ zs) q (λ e. apart (sym e))) (tree q ok) in
        record {
          circle =
              subst (λ (t : ℕ). Circle w.next_sibling w.prev_sibling t (children q))
                (sym (assign-ne w.top_child p (w.next_sibling a) q (λ e. apart (sym e)))) s.circle;
          distinct = s.distinct;
          proper = s.proper;
          owned = s.owned;
        })

-- A list with one window taken out is not empty, if the window is not the last one.
next_first :
    (pre : List ℕ) (y : ℕ) (ys : List ℕ) → (z : ℕ) × (zs : List ℕ) × (pre ++ y ∷ ys ≡ z ∷ zs)
next_first [] y ys = (y, ys, refl)
next_first (x ∷ xs) y ys = (x, xs ++ y ∷ ys, refl)

-- A window with a way to the root is not its own parent.
Rooted-self : (f : ℕ → ℕ) (n win : ℕ) → f win ≡ win → win ≢ 0 → Rooted f n win → ⊥
Rooted-self f zero win same ok r = r
Rooted-self f (suc n) win same ok (inl e) = ok (sym same ∙ e)
Rooted-self f (suc n) win same ok (inr r) =
    Rooted-self f n win same ok (subst (λ (a : ℕ). Rooted f n a) same r)

-- The top child of a window that has children.
top_of :
    (w : Windows) (children : ℕ → List ℕ) (win c : ℕ) (cs : List ℕ)
    → Tree w children
    → win ≢ 0
    → children win ≡ c ∷ cs
    → w.top_child win ≢ 0
top_of w children win c cs tree ok e =
    let s = subst (λ (l : List ℕ). Siblings w win l) e (tree win ok) in
    λ none_is. s.proper.0 (sym none_is ∙ s.circle.0)

-- For a tree of windows: `win_lower` of a window other than the root that is above at least one
-- sibling, that has children, and that is on the way from itself to the root within `depth`
-- windows, puts it below its siblings, which keep their order. The children of all other windows
-- stay as they are.
pub lower-Tree :
    (depth : ℕ) (w : Windows) (children : ℕ → List ℕ) (win p y c : ℕ) (pre ys cs : List ℕ)
    → Tree w children
    → p ≢ 0
    → win ≢ 0
    → win ≢ w.root
    → children p ≡ pre ++ win ∷ y ∷ ys
    → children win ≡ c ∷ cs
    → Rooted w.parent depth win
    → (w' : Windows) × (win_lower depth win w ≡ some w')
      × Tree w' (assign children p ((pre ++ y ∷ ys) ++ win ∷ []))
unfolding win_lower
lower-Tree depth w children win p y c pre ys cs tree proper ok below e mine rooted =
    let s = subst (λ (l : List ℕ). Siblings w p l) e (tree p proper) in
    let owner = parent_of w p win pre (y ∷ ys) (children p) (tree p proper) e in
    let (z, zs, split) = next_first pre y ys in
    let (log1, told1) =
      handle_event-act (w.top_child win) event_unraise w
        (top_of w children win c cs tree ok mine) in
    let w1 = record w { log = log1 } in
    let w2 = restacked win w1 in
    let stacked : Tree w2 (assign children p (win ∷ z ∷ zs)) =
      subst (λ (l : List ℕ). Tree w2 (assign children p (win ∷ l))) split
        (restack w1 children win p pre (y ∷ ys) (log-Tree log1 w children tree) proper ok e) in
    let w3 = rotated (w.parent win) win w2 in
    let turned : Tree w3 (assign children p (z ∷ (zs ++ win ∷ []))) =
      subst (λ (q : ℕ). Tree (rotated q win w2) (assign children p (z ∷ (zs ++ win ∷ []))))
        (sym owner) (rotate-Tree w2 children p win z zs proper stacked) in
    let other : win ≢ p = λ same. Rooted-self w.parent depth win (owner ∙ sym same) ok rooted in
    let (log2, told2) = handle_event-act (w3.top_child win) event_raise w3 (
      top_of w3 (assign children p (z ∷ (zs ++ win ∷ []))) win c cs turned ok
        (assign-ne children p (z ∷ (zs ++ win ∷ [])) win other ∙ mine)) in
    let w4 = record w3 { log = log2 } in
    let (log3, drawn) =
      redraw-log depth win w4
        (Rooted-ext w.parent w4.parent depth win (λ a. sym (restacked-parent w1 win a)) rooted) in
    (
      record w4 { log = log3 },
      rw
          (
            ne→== win 0 ok,
            ne→== win w.root below,
            ne→== (w.prev_sibling (w.top_child (w.parent win))) win (λ same.
                bottom-ne w p win pre y ys s
                  (ap (λ (q : ℕ). w.prev_sibling (w.top_child q)) (sym owner) ∙ same)),
            told1,
          )
          (rw told2 drawn),
      log-Tree log3 w3 _
          (subst (λ (l : List ℕ). Tree w3 (assign children p (l ++ win ∷ []))) (sym split) turned),
    )
