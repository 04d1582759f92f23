-- ===== src/Win/Events/Routing.antt =====
-- Which windows an event is handed to, against the lists of children and the way to the root.
use xplain_software_framewor.Base.{
  All, ℕ, zero, suc, ◌≤◌, ◌≡◌, ◌≢◌, refl, sym, subst, ◌∙◌, inl, inr, arith, ◌==◌, Bool, true, false,
  Bool-cases, ==_false→ne, ne→==, eq→==, some, List, [], ◌∷◌, ◌++◌, length, if◌then◌else◌,
}
use xplain_software_framewor.Win.{WinPoint, Windows}
use xplain_software_framewor.Win.Ring.{Away, Chain}
use xplain_software_framewor.Win.Tree.{Siblings, Tree, Levels}
use xplain_software_framewor.Win.Events.{
  WinPointerEvent, is_press, asked, accepted, takes, find_child, local_to, handle_pointer_event,
}

-- The first window of a list that is mapped and contains the point, or 0.
pub topmost : Windows → WinPoint → List ℕ → ℕ
topmost w local_pos [] = 0
topmost w local_pos (c ∷ cs) = if takes w local_pos c then c else topmost w local_pos cs

topmost_nil : (w : Windows) (local_pos : WinPoint) → topmost w local_pos [] ≡ 0
unfolding topmost
topmost_nil w local_pos = refl

find_from :
    (w : Windows) (local_pos : WinPoint) (win siblings a : ℕ) (cs : List ℕ)
    → Away (w.top_child win) cs
    → Chain w.next_sibling w.prev_sibling a cs (w.top_child win)
    → length (a ∷ cs) ≤ siblings
    → find_child w local_pos win siblings a ≡ some (topmost w local_pos (a ∷ cs))
unfolding find_child topmost
find_from w local_pos win zero a cs away chain le = absurd (omega arith)
find_from w local_pos win (suc siblings) a [] away (n, p) le =
    elim (Bool-cases (takes w local_pos a)) [ inl e ↦ rw e refl | inr e ↦ rw (e, eq→== _ _ n) refl ]
find_from w local_pos win (suc siblings) a (c ∷ cs) (ne, away) (n, p, chain) le =
    elim (Bool-cases (takes w local_pos a)) [
      | inl e ↦ rw e refl
      | inr e ↦
          rw (e, n, ne→== c (w.top_child win) (λ f. ne (sym f)))
            (find_from w local_pos win siblings c cs away chain (omega arith))
    ]

-- For the children of a window, of which there are no more than `siblings`: the search of
-- `win_handle_pointer_event` finds the topmost one that is mapped and contains the point, or none
-- if there is no such child.
pub find_child_lem :
    (w : Windows) (local_pos : WinPoint) (win siblings c : ℕ) (cs : List ℕ)
    → Siblings w win (c ∷ cs)
    → length (c ∷ cs) ≤ siblings
    → find_child w local_pos win siblings (w.top_child win) ≡ some (topmost w local_pos (c ∷ cs))
find_child_lem w local_pos win siblings c cs s le =
    let (top, chain) = s.circle in
    rw top (
      find_from w local_pos win siblings c cs (subst (λ (t : ℕ). Away t cs) (sym top) s.distinct.0)
        (subst (λ (t : ℕ). Chain w.next_sibling w.prev_sibling c cs t) (sym top) chain) le)

topmost-All :
    (P : ℕ → Type 0) (w : Windows) (local_pos : WinPoint) (cs : List ℕ)
    → All P cs
    → topmost w local_pos cs ≢ 0
    → P (topmost w local_pos cs)
unfolding topmost
topmost-All P w local_pos [] h found = absurd (found refl)
topmost-All P w local_pos (c ∷ cs) (here, h) found = elim (Bool-cases (takes w local_pos c)) [
  | inl e ↦ rw e here
  | inr e ↦ rw e (topmost-All P w local_pos cs h (λ z. found (rw e z)))
]

module _ (accepts : ℕ → Bool) (w : Windows) (children : ℕ → List ℕ) where
  -- A pointer event on the lists of children: whether it is accepted, and the windows whose
  -- handlers are called.
  pub route : ℕ → ℕ → WinPoint → Bool × List ℕ
  route zero win pos = (false, [])
  route (suc levels) win pos =
      let local_pos = local_to (w.attributes win).area pos in
      let child = topmost w local_pos (children win) in
      let (taken, wins) = route levels child local_pos in
      if child == 0
      then (accepted accepts w win, asked accepts w win)
      else if taken
      then (true, wins)
      else (accepted accepts w win, wins ++ asked accepts w win)

  abbrev pub with_windows : Bool × List ℕ → Bool × List ℕ × Windows
  with_windows (taken, wins) = (taken, wins, w)

  module _ (depth siblings : ℕ) (event : WinPointerEvent) (no_press : is_press event.type ≡ false)
      (tree : Tree w children) (few : (p : ℕ) → length (children p) ≤ siblings) where
    -- For a tree of windows with no more than `siblings` children each, a window with at most `levels`
    -- levels below, and an event that is not a press: `win_handle_pointer_event` returns. It hands
    -- the event to the topmost mapped child under the pointer, which does the same with its
    -- children, and to the window itself if no child accepts it. It leaves the windows as they are.
    pub handle_pointer_event_lem :
        (levels win : ℕ) (pos : WinPoint)
        → win ≢ 0
        → Levels children levels win
        → handle_pointer_event accepts depth siblings levels win event pos w
          ≡ some (with_windows (route levels win pos))
    unfolding handle_pointer_event route
    handle_pointer_event_lem zero win pos ok deep = absurd deep
    handle_pointer_event_lem (suc levels) win pos ok deep =
        go (handle_pointer_event_lem levels) (children win) (tree win ok) refl
      where
        local_pos : WinPoint
        local_pos = local_to (w.attributes win).area pos

        go :
            ((child : ℕ) (pos : WinPoint)
              → child ≢ 0
              → Levels children levels child
              → handle_pointer_event accepts depth siblings levels child event pos w
                ≡ some (with_windows (route levels child pos)))
            → (cs : List ℕ) → Siblings w win cs
            → children win ≡ cs
            → handle_pointer_event accepts depth siblings (suc levels) win event pos w
              ≡ some (with_windows (route (suc levels) win pos))
        go child [] s e = rw (eq→== (w.top_child win) 0 s.circle, e, topmost_nil w local_pos) refl
        go child (c ∷ cs) s e =
            let t = topmost w local_pos (c ∷ cs) in
            rw
              (
                e,
                ne→== (w.top_child win) 0 (λ z. s.proper.0 (sym z ∙ s.circle.0)),
                find_child_lem w local_pos win siblings c cs s
                    (subst (λ (l : List ℕ). length l ≤ siblings) e (few win)),
              )
              (elim (Bool-cases (t == 0)) [
                | inl z ↦ rw z refl
                | inr z ↦
                    let found = ==_false→ne t 0 z in
                    let fits =
                      topmost-All (Levels children levels) w local_pos (c ∷ cs)
                        (subst (All (Levels children levels)) e deep) found in
                    rw (z, no_press, child t local_pos found fits)
                      (elim (Bool-cases (route levels t local_pos).0) [
                        | inl taken ↦ rw taken refl
                        | inr refused ↦ rw refused refl
                      ])
              ])
