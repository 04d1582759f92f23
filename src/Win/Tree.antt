-- ===== src/Win/Tree.antt =====
-- The children of each window as a list, from the top down, and what `win_unlink` and
-- `win_add_top_child` do to it.
use xplain_software_framewor.Base.{
  zero, suc, ℕ, ◌≡◌, ◌≢◌, refl, sym, subst, ◌∙◌, ◌==◌, ne→==, eq→==, List, [], ◌∷◌, ◌++◌, All,
  if◌then◌else◌,
}
use xplain_software_framewor.Win.{assign, Windows}
use xplain_software_framewor.Win.Ring.{
  Away, Distinct, Chain, Chain-split, Chain-next-Away, Chain-prev-Away, relink, unchain, Away-split,
  Distinct-split,
}

-- The siblings in a circle, from the top one on.
abbrev pub Circle : (ℕ → ℕ) → (ℕ → ℕ) → ℕ → List ℕ → Type 0
Circle nx pv top [] = top ≡ 0
Circle nx pv top (c ∷ cs) = (top ≡ c) × Chain nx pv c cs c

-- The children of `p`.
pub record Siblings (w : Windows) (p : ℕ) (cs : List ℕ) : Type 0 where
  pub circle : Circle w.next_sibling w.prev_sibling (w.top_child p) cs
  pub distinct : Distinct cs
  pub proper : Away 0 cs
  pub owned : All (λ c. w.parent c ≡ p) cs

abbrev pub Tree : Windows → (ℕ → List ℕ) → Type 0
Tree w children = (p : ℕ) → p ≢ 0 → Siblings w p (children p)

-- The tree below a window has at most so many levels.
abbrev pub Levels : (ℕ → List ℕ) → ℕ → ℕ → Type 0
Levels children zero win = ⊥
Levels children (suc n) win = All (Levels children n) (children win)

pub Circle-next-Away :
    (nx pv : ℕ → ℕ) (top q v : ℕ) (cs : List ℕ)
    → Away q cs
    → Circle nx pv top cs
    → Circle (assign nx q v) pv top cs
Circle-next-Away nx pv top q v [] h e = e
Circle-next-Away nx pv top q v (c ∷ cs) (h, hs) (e, chain) =
    (e, Chain-next-Away nx pv q v c cs c h hs chain)

pub Circle-prev-Away :
    (nx pv : ℕ → ℕ) (top q v : ℕ) (cs : List ℕ)
    → Away q cs
    → Circle nx pv top cs
    → Circle nx (assign pv q v) top cs
Circle-prev-Away nx pv top q v [] h e = e
Circle-prev-Away nx pv top q v (c ∷ cs) (h, hs) (e, chain) =
    (e, Chain-prev-Away nx pv q v c cs c h hs chain)

-- The neighbours of a window have what all the siblings have.
pub Chain-prev_has {ℓ} :
    (P : ℕ → Type ℓ) (nx pv : ℕ → ℕ) (a : ℕ) (xs : List ℕ) (b : ℕ)
    → P a
    → All P xs
    → Chain nx pv a xs b
    → P (pv b)
Chain-prev_has P nx pv a [] b pa h (n, p) = subst P (sym p) pa
Chain-prev_has P nx pv a (x ∷ xs) b pa (px, h) (n, p, rest) =
    Chain-prev_has P nx pv x xs b px h rest

Chain-next_has {ℓ} :
    (P : ℕ → Type ℓ) (nx pv : ℕ → ℕ) (a : ℕ) (xs : List ℕ) (b : ℕ)
    → P b
    → All P xs
    → Chain nx pv a xs b
    → P (nx a)
Chain-next_has P nx pv a [] b pb h (n, p) = subst P (sym n) pb
Chain-next_has P nx pv a (x ∷ xs) b pb (px, h) (n, p, rest) = subst P (sym n) px

pub All-split {ℓ} : (P : ℕ → Type ℓ) (xs ys : List ℕ) → All P (xs ++ ys) → All P xs × All P ys
All-split P [] ys h = (tt, h)
All-split P (x ∷ xs) ys (h, hs) = let (l, r) = All-split P xs ys hs in ((h, l), r)

pub All-append {ℓ} : (P : ℕ → Type ℓ) (xs ys : List ℕ) → All P xs → All P ys → All P (xs ++ ys)
All-append P [] ys h k = k
All-append P (x ∷ xs) ys (h, hs) k = (h, All-append P xs ys hs k)

-- A member without its element.
pub All-without {ℓ} :
    (P : ℕ → Type ℓ) (xs : List ℕ) (w : ℕ) (ys : List ℕ) → All P (xs ++ w ∷ ys) → All P (xs ++ ys)
All-without P xs w ys h = let (l, r) = All-split P xs (w ∷ ys) h in All-append P xs ys l r.1

pub Distinct-without :
    (xs : List ℕ) (w : ℕ) (ys : List ℕ) → Distinct (xs ++ w ∷ ys) → Distinct (xs ++ ys)
Distinct-without [] w ys d = d.1
Distinct-without (x ∷ xs) w ys (h, d) =
    (All-without (λ b. x ≢ b) xs w ys h, Distinct-without xs w ys d)

-- A member of a list of distinct windows differs from the others.
pub Away-without : (xs : List ℕ) (w : ℕ) (ys : List ℕ) → Distinct (xs ++ w ∷ ys) → Away w (xs ++ ys)
Away-without [] w ys d = d.0
Away-without (x ∷ xs) w ys (h, d) =
    ((λ e. (Away-split x xs (w ∷ ys) h).1.0 (sym e)), Away-without xs w ys d)

pub neighbours {ℓ} :
    (P : ℕ → Type ℓ) (nx pv : ℕ → ℕ) (top : ℕ) (xs : List ℕ) (w : ℕ) (ys : List ℕ)
    → All P (xs ++ w ∷ ys)
    → Circle nx pv top (xs ++ w ∷ ys)
    → P (pv w) × P (nx w)
neighbours P nx pv top [] w ys h (e, chain) =
    (Chain-prev_has P nx pv w ys w h.0 h.1 chain, Chain-next_has P nx pv w ys w h.0 h.1 chain)
neighbours P nx pv top (x ∷ xs) w ys (px, h) (e, chain) =
    let (left, right) = Chain-split nx pv x xs w ys x chain in
    let (hl, hr) = All-split P xs (w ∷ ys) h in
    (Chain-prev_has P nx pv x xs w px hl left, Chain-next_has P nx pv w ys x px hr.1 right)

backwards : (a : ℕ) (zs : List ℕ) → Away a zs → All (λ b. b ≢ a) zs
backwards a [] k = tt
backwards a (z ∷ zs) (k, ks) = ((λ e. k (sym e)), backwards a zs ks)

-- Where a window has a sibling, its next sibling is another window.
pub next_other :
    (nx pv : ℕ → ℕ) (top : ℕ) (xs : List ℕ) (w : ℕ) (ys : List ℕ)
    → Distinct (xs ++ w ∷ ys)
    → xs ++ ys ≢ []
    → Circle nx pv top (xs ++ w ∷ ys)
    → nx w ≢ w
next_other nx pv top [] w [] d some_other c = absurd (some_other refl)
next_other nx pv top [] w (y ∷ ys) d some_other (e, (n, p, rest)) = λ same. d.0.0 (sym same ∙ n)
next_other nx pv top (x ∷ xs) w ys (h, d) some_other (e, chain) =
    let (left, right) = Chain-split nx pv x xs w ys x chain in
    Chain-next_has (λ b. b ≢ w) nx pv w ys x (Away-split x xs (w ∷ ys) h).1.0
      (backwards w ys (Distinct-split xs (w ∷ ys) d).1.0) right

pub unlink-Circle :
    (nx pv : ℕ → ℕ) (top : ℕ) (xs : List ℕ) (w : ℕ) (ys : List ℕ)
    → Distinct (xs ++ w ∷ ys)
    → xs ++ ys ≢ []
    → Circle nx pv top (xs ++ w ∷ ys)
    → Circle
        (assign nx (pv w) (nx w))
        (assign pv (nx w) (pv w))
        (if top == w then nx w else top)
        (xs ++ ys)
unlink-Circle nx pv top [] w [] d some_other c = absurd (some_other refl)
unlink-Circle nx pv top [] w (y ∷ ys) d some_other (e, (n, p, rest)) =
    rw (eq→== top w e, n) (refl, relink nx pv y ys w y d.1 d.1.0 rest)
unlink-Circle nx pv top (x ∷ xs) w ys d some_other (e, chain) =
    let (left, right) = Chain-split nx pv x xs w ys x chain in
    rw (ne→== top w (λ same. (Away-split x xs (w ∷ ys) d.0).1.0 (sym e ∙ same)))
      (e, unchain nx pv x xs w ys x d d.0 left right)
