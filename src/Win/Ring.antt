-- ===== src/Win/Ring.antt =====
-- Doubly linked chains of windows, and how a chain is closed and opened.
use xplain_software_framewor.Base.{
  ℕ, ◌≡◌, ◌≢◌, refl, sym, ap, ◌∙◌, ne→==, ==_self, List, [], ◌∷◌, ◌++◌, All, append-nil,
}
use xplain_software_framewor.Win.{assign}

pub assign-eq {ℓ} : {A : Type ℓ} (f : ℕ → A) (p : ℕ) (v : A) → assign f p v p ≡ v
assign-eq f p v = rw (==_self p) refl

pub assign-ne {ℓ} : {A : Type ℓ} (f : ℕ → A) (p : ℕ) (v : A) (a : ℕ) → a ≢ p → assign f p v a ≡ f a
assign-ne f p v a h = rw (ne→== a p h) refl

-- `a` is none of the windows.
abbrev pub Away : ℕ → List ℕ → Type 0
Away a = All (λ b. a ≢ b)

abbrev pub Distinct : List ℕ → Type 0
Distinct [] = Unit
Distinct (x ∷ xs) = Away x xs × Distinct xs

module _ (nx pv : ℕ → ℕ) where
  -- From `a` over the windows to `b`, forth and back.
  abbrev pub Chain : ℕ → List ℕ → ℕ → Type 0
  Chain a [] b = (nx a ≡ b) × (pv b ≡ a)
  Chain a (x ∷ xs) b = (nx a ≡ x) × (pv x ≡ a) × Chain x xs b

pub Chain-append :
    (nx pv : ℕ → ℕ) (a : ℕ) (xs : List ℕ) (y : ℕ) (ys : List ℕ) (b : ℕ)
    → Chain nx pv a xs y
    → Chain nx pv y ys b
    → Chain nx pv a (xs ++ y ∷ ys) b
Chain-append nx pv a [] y ys b (n, p) rest = (n, p, rest)
Chain-append nx pv a (x ∷ xs) y ys b (n, p, more) rest =
    (n, p, Chain-append nx pv x xs y ys b more rest)

pub Chain-split :
    (nx pv : ℕ → ℕ) (a : ℕ) (xs : List ℕ) (y : ℕ) (ys : List ℕ) (b : ℕ)
    → Chain nx pv a (xs ++ y ∷ ys) b
    → Chain nx pv a xs y × Chain nx pv y ys b
Chain-split nx pv a [] y ys b (n, p, rest) = ((n, p), rest)
Chain-split nx pv a (x ∷ xs) y ys b (n, p, more) =
    let (left, right) = Chain-split nx pv x xs y ys b more in ((n, p, left), right)

-- A write of a link that is not part of the chain.
pub Chain-next-Away :
    (nx pv : ℕ → ℕ) (q v a : ℕ) (xs : List ℕ) (b : ℕ)
    → q ≢ a
    → Away q xs
    → Chain nx pv a xs b
    → Chain (assign nx q v) pv a xs b
Chain-next-Away nx pv q v a [] b ne h (n, p) = (assign-ne nx q v a (λ e. ne (sym e)) ∙ n, p)
Chain-next-Away nx pv q v a (x ∷ xs) b ne (h, hs) (n, p, rest) =
    (assign-ne nx q v a (λ e. ne (sym e)) ∙ n, p, Chain-next-Away nx pv q v x xs b h hs rest)

pub Chain-prev-Away :
    (nx pv : ℕ → ℕ) (q v a : ℕ) (xs : List ℕ) (b : ℕ)
    → q ≢ b
    → Away q xs
    → Chain nx pv a xs b
    → Chain nx (assign pv q v) a xs b
Chain-prev-Away nx pv q v a [] b ne h (n, p) = (n, assign-ne pv q v b (λ e. ne (sym e)) ∙ p)
Chain-prev-Away nx pv q v a (x ∷ xs) b ne (h, hs) (n, p, rest) =
    (n, assign-ne pv q v x (λ e. h (sym e)) ∙ p, Chain-prev-Away nx pv q v x xs b ne hs rest)

-- The last window before the end.
pub prev-Away :
    (nx pv : ℕ → ℕ) (q a : ℕ) (xs : List ℕ) (b : ℕ)
    → q ≢ a
    → Away q xs
    → Chain nx pv a xs b
    → q ≢ pv b
prev-Away nx pv q a [] b ne h (n, p) = λ e. ne (e ∙ p)
prev-Away nx pv q a (x ∷ xs) b ne (h, hs) (n, p, rest) = prev-Away nx pv q x xs b h hs rest

-- The end of a chain is moved from `w` to `b`.
pub relink :
    (nx pv : ℕ → ℕ) (a : ℕ) (xs : List ℕ) (w b : ℕ)
    → Distinct (a ∷ xs)
    → Away b xs
    → Chain nx pv a xs w
    → Chain (assign nx (pv w) b) (assign pv b (pv w)) a xs b
relink nx pv a [] w b d h (n, p) =
    (ap (λ (q : ℕ). assign nx q b a) p ∙ assign-eq nx a b, assign-eq pv b (pv w) ∙ p)
relink nx pv a (x ∷ xs) w b ((ne, nes), d) (h, hs) (n, p, rest) = (
  assign-ne nx (pv w) b a (prev-Away nx pv a x xs w ne nes rest) ∙ n,
  assign-ne pv b (pv w) x (λ e. h (sym e)) ∙ p,
  relink nx pv x xs w b d hs rest,
)

-- The last window before the end, seen from one that is in no chain.
pub Away-append : (q : ℕ) (xs ys : List ℕ) → Away q xs → Away q ys → Away q (xs ++ ys)
Away-append q [] ys h k = k
Away-append q (x ∷ xs) ys (h, hs) k = (h, Away-append q xs ys hs k)

pub Away-split : (q : ℕ) (xs ys : List ℕ) → Away q (xs ++ ys) → Away q xs × Away q ys
Away-split q [] ys h = (tt, h)
Away-split q (x ∷ xs) ys (h, hs) = let (l, r) = Away-split q xs ys hs in ((h, l), r)

pub Distinct-split : (xs ys : List ℕ) → Distinct (xs ++ ys) → Distinct xs × Distinct ys
Distinct-split [] ys d = (tt, d)
Distinct-split (x ∷ xs) ys (h, d) =
    let (l, r) = Distinct-split xs ys d in (((Away-split x xs ys h).0, l), r)

-- No window of a first part is one of the second part.
Apart-nil : (ys : List ℕ) → All (λ y. Away y []) ys
Apart-nil [] = tt
Apart-nil (y ∷ ys) = (tt, Apart-nil ys)

Apart-cons :
    (x : ℕ) (xs ys : List ℕ) → Away x ys → All (λ y. Away y xs) ys → All (λ y. Away y (x ∷ xs)) ys
Apart-cons x xs [] h k = tt
Apart-cons x xs (y ∷ ys) (h, hs) (k, ks) = (((λ e. h (sym e)), k), Apart-cons x xs ys hs ks)

pub Distinct-Apart : (xs ys : List ℕ) → Distinct (xs ++ ys) → All (λ y. Away y xs) ys
Distinct-Apart [] ys d = Apart-nil ys
Distinct-Apart (x ∷ xs) ys (h, d) =
    Apart-cons x xs ys (Away-split x xs ys h).1 (Distinct-Apart xs ys d)

prev-Apart :
    (nx pv : ℕ → ℕ) (a : ℕ) (xs : List ℕ) (b : ℕ) (ys : List ℕ)
    → Chain nx pv a xs b
    → All (λ y. Away y (a ∷ xs)) ys
    → Away (pv b) ys
prev-Apart nx pv a xs b [] c h = tt
prev-Apart nx pv a xs b (y ∷ ys) c ((ne, nes), hs) =
    ((λ e. prev-Away nx pv y a xs b ne nes c (sym e)), prev-Apart nx pv a xs b ys c hs)

-- The window `w` is taken out of a chain.
pub unchain :
    (nx pv : ℕ → ℕ) (a : ℕ) (xs : List ℕ) (w : ℕ) (ys : List ℕ) (b : ℕ)
    → Distinct (a ∷ (xs ++ w ∷ ys))
    → Away b (xs ++ w ∷ ys)
    → Chain nx pv a xs w
    → Chain nx pv w ys b
    → Chain (assign nx (pv w) (nx w)) (assign pv (nx w) (pv w)) a (xs ++ ys) b
unchain nx pv a xs w [] b d h left (n, p) =
    rw (append-nil xs, n)
      (relink nx pv a xs w b (Distinct-split (a ∷ xs) (w ∷ []) d).0 (Away-split b xs (w ∷ []) h).0
        left)
unchain nx pv a xs w (y ∷ ys) b d h left (n, p, right) =
    let all = Distinct-Apart (a ∷ xs) (w ∷ y ∷ ys) d in
    let (before, after) = Distinct-split (a ∷ xs) (w ∷ y ∷ ys) d in
    let others = prev-Apart nx pv a xs w (y ∷ ys) left all.1 in
    rw n (
      Chain-append (assign nx (pv w) y) (assign pv y (pv w)) a xs y ys b
        (relink nx pv a xs w y before all.1.0.1 left)
        (Chain-next-Away nx (assign pv y (pv w)) (pv w) y y ys b others.0 others.1 (
          Chain-prev-Away nx pv y (pv w) y ys b
            (λ e. (Away-split b xs (w ∷ y ∷ ys) h).1.1.0 (sym e)) after.1.0 right)))
