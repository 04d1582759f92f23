-- ===== src/Win/Stacking.antt =====
-- `win_raise`, `win_lower` and `win_reparent`: the order of the children.
use xplain_software_framewor.Base.{
  ℕ, zero, suc, ◌≡◌, ◌≢◌, refl, sym, ap, subst, ◌∙◌, ◌⊎◌, inl, inr, ◌==◌, true, false, Bool-cases,
  ==→eq, ==_false→ne, ne→==, some, List, [], ◌∷◌, ◌++◌, All,
}
use xplain_software_framewor.Win.{
  assign, Windows, WinEventType, Action, act, event, draw, handle_event, is_visible, win_unlink,
  win_add_top_child, win_redraw,
}
use xplain_software_framewor.Win.Ring.{assign-eq}
use xplain_software_framewor.Win.Tree.{Siblings, Tree, All-split}
use xplain_software_framewor.Win.Links.{unlink-Tree, unlink-parent}
use xplain_software_framewor.Win.Adding.{add-Tree, add-parent}

-- The way from a window to the root has fewer windows than the number says.
abbrev pub Rooted : (ℕ → ℕ) → ℕ → ℕ → Type 0
Rooted parent zero win = ⊥
Rooted parent (suc n) win = (parent win ≡ 0) ⊎ Rooted parent n (parent win)

-- All windows on the way to the root, the window included, are mapped.
abbrev pub AllMapped : Windows → ℕ → ℕ → Type 0
AllMapped w zero win = ⊥
AllMapped w (suc n) win =
    (w.is_mapped win ≡ true) × ((w.parent win ≡ 0) ⊎ AllMapped w n (w.parent win))

-- `win_is_visible` returns for a window with a way to the root, and tells whether all windows on
-- it are mapped.
pub is_visible_lem :
    (n win : ℕ) (w : Windows)
    → Rooted w.parent n win
    → ((is_visible n win w ≡ some true) × AllMapped w n win)
      ⊎ ((is_visible n win w ≡ some false) × ¬ AllMapped w n win)
unfolding is_visible
is_visible_lem zero win w r = absurd r
is_visible_lem (suc n) win w r = elim (Bool-cases (w.is_mapped win)) [
  | inr hidden ↦ inr (rw hidden refl, λ all. cc all.0)
  | inl mapped ↦ elim (Bool-cases (w.parent win == 0)) [
    | inl top ↦ inl (rw (mapped, top) refl, (mapped, inl (==→eq _ _ top)))
    | inr below ↦
        let ne : w.parent win ≢ 0 = ==_false→ne _ _ below in
        elim r [
          | inl at_root ↦ absurd (ne at_root)
          | inr further ↦ elim (is_visible_lem n (w.parent win) w further) [
            | inl (eq, all) ↦ inl (rw (mapped, below) eq, (mapped, inr all))
            | inr (eq, not_all) ↦ inr (
              rw (mapped, below) eq,
              λ all. elim all.1 [ inl at_root ↦ ne at_root | inr more ↦ not_all more ],
            )
          ]
        ]
  ]
]

-- Writes of the parent that restore it do not change the ways to the root.
pub Rooted-ext : (f g : ℕ → ℕ) (n win : ℕ) → ((a : ℕ) → f a ≡ g a) → Rooted f n win → Rooted g n win
Rooted-ext f g zero win same r = r
Rooted-ext f g (suc n) win same (inl e) = inl (sym (same win) ∙ e)
Rooted-ext f g (suc n) win same (inr r) =
    inr (subst (λ (a : ℕ). Rooted g n a) (same win) (Rooted-ext f g n (f win) same r))

-- An action leaves the windows as they are.
act-Tree :
    (a : Action) (w : Windows) (children : ℕ → List ℕ) → Tree w children → Tree (act a w) children
act-Tree a w children tree p ok =
    let s = tree p ok in
    record { circle = s.circle; distinct = s.distinct; proper = s.proper; owned = s.owned }

-- An event of a window leaves all as it is, but for the log.
pub handle_event-act :
    (win : ℕ) (type : WinEventType) (w : Windows)
    → win ≢ 0
    → (log : List Action) × (handle_event win type w ≡ some (record w { log = log }))
unfolding handle_event
handle_event-act win type w ne = elim (Bool-cases ((w.attributes win).event_handler == 0)) [
  | inl e ↦ (w.log, rw (ne→== win 0 ne, e) refl)
  | inr e ↦ (w.log ++ (event win type ∷ []), rw (ne→== win 0 ne, e) refl)
]

pub log-Tree :
    (log : List Action) (w : Windows) (children : ℕ → List ℕ)
    → Tree w children
    → Tree (record w { log = log }) children
log-Tree log w children tree p ok =
    let s = tree p ok in
    record { circle = s.circle; distinct = s.distinct; proper = s.proper; owned = s.owned }

pub redraw-log :
    (depth win : ℕ) (w : Windows)
    → Rooted w.parent depth win
    → (log : List Action) × (win_redraw depth win w ≡ some (record w { log = log }))
unfolding win_redraw
redraw-log depth win w r = elim (is_visible_lem depth win w r) [
  | inl (e, _) ↦ (w.log ++ (draw win (w.attributes win).area ∷ []), rw e refl)
  | inr (e, _) ↦ (w.log, rw e refl)
]

-- A window is taken out and put on top again.
abbrev pub restacked : ℕ → Windows → Windows
restacked win w = win_add_top_child (w.parent win) win (win_unlink win w)

Tree-ext : (w : Windows) (f g : ℕ → List ℕ) → ((p : ℕ) → f p ≡ g p) → Tree w f → Tree w g
Tree-ext w f g same tree p ok = subst (λ (cs : List ℕ). Siblings w p cs) (same p) (tree p ok)

assign-assign {ℓ} :
    {A : Type ℓ} (f : ℕ → A) (p : ℕ) (u v : A) (a : ℕ)
    → assign (assign f p u) p v a ≡ assign f p v a
assign-assign f p u v a = elim (Bool-cases (a == p)) [ inl e ↦ rw e refl | inr e ↦ rw e refl ]

pub parent_of :
    (w : Windows) (p win : ℕ) (pre post : List ℕ) (cs : List ℕ)
    → Siblings w p cs
    → cs ≡ pre ++ win ∷ post
    → w.parent win ≡ p
parent_of w p win pre post cs s e =
    (All-split (λ c. w.parent c ≡ p) pre (win ∷ post)
      (subst (λ (l : List ℕ). All (λ c. w.parent c ≡ p) l) e s.owned)).1.0

pub restack :
    (w : Windows) (children : ℕ → List ℕ) (win p : ℕ) (pre post : List ℕ)
    → Tree w children
    → p ≢ 0
    → win ≢ 0
    → children p ≡ pre ++ win ∷ post
    → Tree (restacked win w) (assign children p (win ∷ (pre ++ post)))
restack w children win p pre post tree proper ok e =
    let (tree', loose) = unlink-Tree w children win p pre post tree proper e in
    let owner = parent_of w p win pre post (children p) (tree p proper) e in
    rw owner (
      Tree-ext (win_add_top_child p win (win_unlink win w))
        (assign (assign children p (pre ++ post)) p (win ∷ assign children p (pre ++ post) p))
        (assign children p (win ∷ (pre ++ post)))
        (λ q.
          assign-assign children p (pre ++ post) _ q
          ∙ ap (λ (l : List ℕ). assign children p (win ∷ l) q) (assign-eq children p (pre ++ post)))
        (add-Tree (win_unlink win w) (assign children p (pre ++ post)) p win tree' proper ok loose))

pub restacked-parent : (w : Windows) (win : ℕ) (a : ℕ) → (restacked win w).parent a ≡ w.parent a
restacked-parent w win a =
    add-parent (win_unlink win w) (w.parent win) win a ∙ elim (Bool-cases (a == win)) [
      | inl e ↦ rw e (ap w.parent (sym (==→eq a win e)))
      | inr e ↦ rw e (unlink-parent w win a ∙ rw e refl)
    ]
