-- ===== src/Win/Events/Bubbling.antt =====
-- Which windows a keyboard or command event is handed to, on the way from a window to the root.
use xplain_software_framewor.Base.{
  ℕ, suc, ◌≡◌, ◌≢◌, refl, inl, inr, Bool, Bool-cases, ne→==, eq→==, some, List, [], ◌∷◌, ◌++◌,
  length, append-nil, if◌then◌else◌,
}
use xplain_software_framewor.Win.{Windows}
use xplain_software_framewor.Win.Events.{
  WinCommandEvent, asked, accepted, bubble, process_keyboard_event, process_command_event,
}

-- The ancestors of a window, up to one without a parent.
abbrev pub Lineage : (ℕ → ℕ) → ℕ → List ℕ → Type 0
Lineage parent win [] = parent win ≡ 0
Lineage parent win (p ∷ ps) = (parent win ≡ p) × (p ≢ 0) × Lineage parent p ps

module _ (accepts : ℕ → Bool) (w : Windows) where
  -- The handlers of a list of windows, up to the first that accepts.
  pub asked_along : List ℕ → List ℕ
  asked_along [] = []
  asked_along (win ∷ wins) =
      if accepted accepts w win
      then asked accepts w win
      else asked accepts w win ++ asked_along wins

  bubble_lem :
      (win : ℕ) (ps : List ℕ)
      → Lineage w.parent win ps
      → bubble accepts w (suc (length ps)) win ≡ some (asked_along (win ∷ ps))
  unfolding bubble asked_along
  bubble_lem win [] top = elim (Bool-cases (accepted accepts w win)) [
    | inl e ↦ rw e refl
    | inr e ↦ rw (e, eq→== (w.parent win) 0 top, append-nil (asked accepts w win)) refl
  ]
  bubble_lem win (p ∷ ps) (up, ne, rest) = elim (Bool-cases (accepted accepts w win)) [
    | inl e ↦ rw e refl
    | inr e ↦ rw (e, up, ne→== p 0 ne, bubble_lem p ps rest) refl
  ]

  -- For a window with a way to the root: a keyboard event in focus, and a command event for the
  -- window, are handed to it and then to its ancestors, from the nearest on, up to the first that
  -- accepts. With one step for each of them the loops of `win_process_keyboard_event` and
  -- `win_process_command_event` end.
  pub bubbling_lem :
      (win : ℕ) (ps : List ℕ) (event : WinCommandEvent)
      → win ≢ 0
      → Lineage w.parent win ps
      → (w.keyboard_focus ≡ win
          → process_keyboard_event accepts w (suc (length ps)) ≡ some (asked_along (win ∷ ps)))
        × (event.recipient ≡ win
            → process_command_event accepts w (suc (length ps)) event
              ≡ some (asked_along (win ∷ ps)))
  unfolding process_keyboard_event process_command_event
  bubbling_lem win ps event ok up = (
    λ e. simp (e, ne→== win 0 ok, bubble_lem win ps up),
    λ e. rw (e, ne→== win 0 ok) (bubble_lem win ps up),
  )
