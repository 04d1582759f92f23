-- ===== src/Win/Links.antt =====
-- `win_unlink` and `win_add_top_child` on the children of all windows.
use xplain_software_framewor.Base.{
  ℕ, ◌≡◌, ◌≢◌, refl, sym, ap, subst, ◌∙◌, inl, inr, ◌==◌, Bool-cases, ==→eq, ==_false→ne, ne→==,
  eq→==, List, [], ◌∷◌, ◌++◌, All, if◌then◌else◌,
}
use xplain_software_framewor.Win.{assign, Windows, win_unlink}
use xplain_software_framewor.Win.Ring.{assign-eq, assign-ne, Away}
use xplain_software_framewor.Win.Tree.{
  Circle, Siblings, Tree, Circle-next-Away, Circle-prev-Away, All-split, All-without,
  Distinct-without, Away-without, neighbours, next_other, unlink-Circle,
}

-- What belongs to one window is none of what belongs to another.
pub owned-Away :
    (parent : ℕ → ℕ) (z p q : ℕ) (cs : List ℕ)
    → parent z ≡ p
    → p ≢ q
    → All (λ c. parent c ≡ q) cs
    → Away z cs
owned-Away parent z p q [] e ne h = tt
owned-Away parent z p q (c ∷ cs) e ne (h, hs) =
    ((λ same. ne (sym e ∙ ap parent same ∙ h)), owned-Away parent z p q cs e ne hs)

-- A write of the parent of another window.
pub owned-assign :
    (parent : ℕ → ℕ) (z v q : ℕ) (cs : List ℕ)
    → Away z cs
    → All (λ c. parent c ≡ q) cs
    → All (λ c. assign parent z v c ≡ q) cs
owned-assign parent z v q [] a h = tt
owned-assign parent z v q (c ∷ cs) (a, as') (h, hs) =
    (assign-ne parent z v c (λ e. a (sym e)) ∙ h, owned-assign parent z v q cs as' hs)

module _ (w : Windows) (win : ℕ) where
  -- The branches of `win_unlink`.
  abbrev cleared : Windows → Windows
  cleared w1 = record w1 {
    parent = assign w1.parent win 0;
    next_sibling = assign w1.next_sibling win 0;
    prev_sibling = assign w1.prev_sibling win 0;
  }

  abbrev only : Windows
  only = cleared (record w { top_child = assign w.top_child (w.parent win) 0 })

  abbrev among : Windows
  among =
      let p = w.parent win in
      let next = w.next_sibling win in
      let prev = w.prev_sibling win in
      cleared (record w {
        top_child = if w.top_child p == win then assign w.top_child p next else w.top_child;
        prev_sibling = assign w.prev_sibling next prev;
        next_sibling = assign w.next_sibling prev next;
      })

  unlink-only : w.next_sibling win ≡ win → win_unlink win w ≡ only
  unfolding win_unlink
  unlink-only e = rw (eq→== _ _ e) refl

  unlink-among : w.next_sibling win ≢ win → win_unlink win w ≡ among
  unfolding win_unlink
  unlink-among ne = rw (ne→== _ _ ne) refl

  module _ (p q : ℕ) (pre post cs : List ℕ) (here : Siblings w p (pre ++ win ∷ post))
      (there : Siblings w q cs) (apart : p ≢ q) where
    owner : w.parent win ≡ p
    owner = (All-split (λ c. w.parent c ≡ p) pre (win ∷ post) here.owned).1.0

    away : Away win cs
    away = owned-Away w.parent win p q cs owner apart there.owned

    other-only : Siblings only q cs
    other-only = record {
      circle = Circle-next-Away w.next_sibling _ _ win 0 cs away (
          Circle-prev-Away w.next_sibling w.prev_sibling _ win 0 cs away (
            subst (λ (t : ℕ). Circle w.next_sibling w.prev_sibling t cs)
              (sym (assign-ne w.top_child (w.parent win) 0 q (λ e. apart (sym owner ∙ sym e))))
              there.circle));
      distinct = there.distinct;
      proper = there.proper;
      owned = owned-assign w.parent win 0 q cs away there.owned;
    }

    near : (w.parent (w.prev_sibling win) ≡ p) × (w.parent (w.next_sibling win) ≡ p)
    near =
        neighbours (λ c. w.parent c ≡ p) w.next_sibling w.prev_sibling (w.top_child p) pre win post
          here.owned here.circle

    other_top : among.top_child q ≡ w.top_child q
    other_top = elim (Bool-cases (w.top_child (w.parent win) == win)) [
      | inl e ↦ rw e (
          assign-ne w.top_child (w.parent win) (w.next_sibling win) q
            (λ same. apart (sym owner ∙ sym same)))
      | inr e ↦ rw e refl
    ]

    other-among : Siblings among q cs
    other-among = record {
      circle = Circle-next-Away _ _ _ win 0 cs away (
          Circle-prev-Away _ _ _ win 0 cs away (
            Circle-next-Away w.next_sibling _ _ (w.prev_sibling win) (w.next_sibling win) cs
              (owned-Away w.parent (w.prev_sibling win) p q cs near.0 apart there.owned)
              (Circle-prev-Away w.next_sibling w.prev_sibling _ (w.next_sibling win)
                (w.prev_sibling win) cs
                (owned-Away w.parent (w.next_sibling win) p q cs near.1 apart there.owned)
                (subst (λ (t : ℕ). Circle w.next_sibling w.prev_sibling t cs) (sym other_top)
                  there.circle))));
      distinct = there.distinct;
      proper = there.proper;
      owned = owned-assign w.parent win 0 q cs away there.owned;
    }

  module _ (p : ℕ) (pre post : List ℕ) (here : Siblings w p (pre ++ win ∷ post)) where
    its_parent : w.parent win ≡ p
    its_parent = (All-split (λ c. w.parent c ≡ p) pre (win ∷ post) here.owned).1.0

    itself-Away : Away win (pre ++ post)
    itself-Away = Away-without pre win post here.distinct

    left_owned : All (λ c. assign w.parent win 0 c ≡ p) (pre ++ post)
    left_owned =
        owned-assign w.parent win 0 p (pre ++ post) itself-Away
          (All-without (λ c. w.parent c ≡ p) pre win post here.owned)

    left_top :
        among.top_child p ≡ (if w.top_child p == win then w.next_sibling win else w.top_child p)
    left_top =
        ap
          (λ (q : ℕ).
            (if w.top_child q == win
                then assign w.top_child q (w.next_sibling win)
                else w.top_child)
              p)
          its_parent
        ∙ elim (Bool-cases (w.top_child p == win)) [
          | inl e ↦ rw e (assign-eq w.top_child p (w.next_sibling win))
          | inr e ↦ rw e refl
        ]

    left-among : pre ++ post ≢ [] → Siblings among p (pre ++ post)
    left-among some_other = record {
      circle = Circle-next-Away _ _ _ win 0 (pre ++ post) itself-Away (
          Circle-prev-Away _ _ _ win 0 (pre ++ post) itself-Away (
            subst
              (λ (t : ℕ).
                Circle (assign w.next_sibling (w.prev_sibling win) (w.next_sibling win))
                  (assign w.prev_sibling (w.next_sibling win) (w.prev_sibling win)) t (pre ++ post))
              (sym left_top)
              (unlink-Circle w.next_sibling w.prev_sibling (w.top_child p) pre win post
                here.distinct some_other here.circle)));
      distinct = Distinct-without pre win post here.distinct;
      proper = All-without (λ b. 0 ≢ b) pre win post here.proper;
      owned = left_owned;
    }

-- The only child is unlinked.
left-only : (w : Windows) (win p : ℕ) → w.parent win ≡ p → Siblings (only w win) p []
left-only w win p e = record {
  circle = ap (λ (q : ℕ). assign w.top_child q 0 p) e ∙ assign-eq w.top_child p 0;
  distinct = tt;
  proper = tt;
  owned = tt;
}

-- The children of `p` become `cs`, and all others stay as they are.
pub Tree-assign :
    (w' : Windows) (children : ℕ → List ℕ) (p : ℕ) (cs : List ℕ)
    → Siblings w' p cs
    → ((q : ℕ) → q ≢ 0 → p ≢ q → Siblings w' q (children q))
    → Tree w' (assign children p cs)
Tree-assign w' children p cs here others q proper = elim (Bool-cases (q == p)) [
  | inl e ↦ rw e (subst (λ (r : ℕ). Siblings w' r cs) (sym (==→eq q p e)) here)
  | inr e ↦ rw e (others q proper (λ same. ==_false→ne q p e (sym same)))
]

-- For a tree of windows: `win_unlink` takes a window out of the children of its parent, the order
-- of which it keeps, whether it is the only, the top or another child. The children of all other
-- windows stay as they are, and the window has no parent from then on.
pub unlink-Tree :
    (w : Windows) (children : ℕ → List ℕ) (win p : ℕ) (pre post : List ℕ)
    → Tree w children
    → p ≢ 0
    → children p ≡ pre ++ win ∷ post
    → Tree (win_unlink win w) (assign children p (pre ++ post))
      × ((win_unlink win w).parent win ≡ 0)
unlink-Tree w children win p [] [] tree proper e =
    let here = subst (λ (cs : List ℕ). Siblings w p cs) e (tree p proper) in
    rw (unlink-only w win here.circle.1.0) (
      Tree-assign (only w win) children p [] (left-only w win p here.owned.0)
          (λ q ok apart. other-only w win p q [] [] (children q) here (tree q ok) apart),
      assign-eq w.parent win 0,
    )
unlink-Tree w children win p [] (y ∷ ys) tree proper e =
    let here = subst (λ (cs : List ℕ). Siblings w p cs) e (tree p proper) in
    rw
      (unlink-among w win (
        next_other w.next_sibling w.prev_sibling (w.top_child p) [] win (y ∷ ys) here.distinct
          (λ nil. cc) here.circle))
      (
        Tree-assign (among w win) children p (y ∷ ys)
            (left-among w win p [] (y ∷ ys) here (λ nil. cc))
            (λ q ok apart. other-among w win p q [] (y ∷ ys) (children q) here (tree q ok) apart),
        assign-eq w.parent win 0,
      )
unlink-Tree w children win p (x ∷ xs) post tree proper e =
    let here = subst (λ (cs : List ℕ). Siblings w p cs) e (tree p proper) in
    rw
      (unlink-among w win (
        next_other w.next_sibling w.prev_sibling (w.top_child p) (x ∷ xs) win post here.distinct
          (λ nil. cc) here.circle))
      (
        Tree-assign (among w win) children p (x ∷ (xs ++ post))
            (left-among w win p (x ∷ xs) post here (λ nil. cc))
            (λ q ok apart. other-among w win p q (x ∷ xs) post (children q) here (tree q ok) apart),
        assign-eq w.parent win 0,
      )

pub unlink-parent :
    (w : Windows) (win a : ℕ) → (win_unlink win w).parent a ≡ assign w.parent win 0 a
unfolding win_unlink
unlink-parent w win a = elim (Bool-cases (w.next_sibling win == win)) [
  | inl e ↦ rw e refl
  | inr e ↦ rw e refl
]
