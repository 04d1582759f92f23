-- ===== src/Slist/Links.antt =====
-- A list of nodes in the heap.
use xplain_software_framewor.Base.{
  ℕ, ◌≡◌, ◌≢◌, refl, sym, ◌∙◌, List, [], ◌∷◌, ◌++◌, ne→==, ==_self, All,
}
use xplain_software_framewor.Slist.{Heap, put, set_next}

abbrev pub Apart : ℕ → List ℕ → Type 0
Apart a xs = All (λ x. x ≢ a) xs

-- No node occurs twice.
abbrev pub Distinct : List ℕ → Type 0
Distinct [] = Unit
Distinct (x ∷ xs) = Apart x xs × Distinct xs

-- The links lead from `p` through exactly these nodes to `e`.
abbrev pub Links : (ℕ → ℕ) → ℕ → List ℕ → ℕ → Type 0
Links next p [] e = next p ≡ e
Links next p (x ∷ xs) e = (next p ≡ x) × Links next x xs e

-- the last of the nodes `p` and `xs`
abbrev pub last_of : ℕ → List ℕ → ℕ
last_of p [] = p
last_of p (x ∷ xs) = last_of x xs

-- `list` is the list of exactly these nodes, which are all different and not its sentinel.
pub record IsList (h : Heap) (list : ℕ) (xs : List ℕ) : Type 0 where
  pub links : Links h.next list xs list
  pub last_node : h.last list ≡ last_of list xs
  pub fresh : Apart list xs
  pub distinct : Distinct xs

pub put_self : (f : ℕ → ℕ) (p v : ℕ) → put f p v p ≡ v
put_self f p v = rw (==_self p)

pub put_other : (f : ℕ → ℕ) (p v a : ℕ) → p ≢ a → put f p v a ≡ f a
put_other f p v a ne = rw (ne→== a p (λ e. ne (sym e)))

-- A link of another node may change.
pub Links-put :
    (f : ℕ → ℕ) (a v p : ℕ) (xs : List ℕ) (e : ℕ)
    → a ≢ p
    → Apart a xs
    → Links f p xs e
    → Links (put f a v) p xs e
Links-put f a v p [] e ne out l = put_other f a v p ne ∙ l
Links-put f a v p (x ∷ xs) e ne out l =
    (put_other f a v p ne ∙ l.0, Links-put f a v x xs e (λ z. out.0 (sym z)) out.1 l.1)

pub last_of-ne : (a p : ℕ) (xs : List ℕ) → Apart a (p ∷ xs) → last_of p xs ≢ a
last_of-ne a p [] out = out.0
last_of-ne a p (x ∷ xs) out = last_of-ne a x xs out.1

-- The last link can be turned elsewhere.
pub Links-turn :
    (f : ℕ → ℕ) (v p : ℕ) (xs : List ℕ) (e : ℕ)
    → Apart p xs
    → Distinct xs
    → Links f p xs e
    → Links (put f (last_of p xs) v) p xs v
Links-turn f v p [] e out d l = put_self f p v
Links-turn f v p (x ∷ xs) e out d l = (
  put_other f (last_of x xs) v p (last_of-ne p x xs out) ∙ l.0,
  Links-turn f v x xs e d.0 d.1 l.1,
)

-- Two stretches of links make one.
pub Links-append :
    (f : ℕ → ℕ) (p : ℕ) (xs : List ℕ) (y : ℕ) (ys : List ℕ) (e : ℕ)
    → Links f p xs y
    → Links f y ys e
    → Links f p (xs ++ y ∷ ys) e
Links-append f p [] y ys e l m = (l, m)
Links-append f p (x ∷ xs) y ys e l m = (l.0, Links-append f x xs y ys e l.1 m)

pub last_of-append :
    (p : ℕ) (xs : List ℕ) (y : ℕ) (ys : List ℕ) → last_of p (xs ++ y ∷ ys) ≡ last_of y ys
last_of-append p [] y ys = refl
last_of-append p (x ∷ xs) y ys = last_of-append x xs y ys

pub Apart-append : (a : ℕ) (xs ys : List ℕ) → Apart a xs → Apart a ys → Apart a (xs ++ ys)
Apart-append a [] ys h k = k
Apart-append a (x ∷ xs) ys h k = (h.0, Apart-append a xs ys h.1 k)

-- No node is in both lists.
abbrev pub Separate : List ℕ → List ℕ → Type 0
Separate xs ys = All (λ y. Apart y xs) ys

pub Separate-uncons : (x : ℕ) (xs ys : List ℕ) → Separate (x ∷ xs) ys → Apart x ys × Separate xs ys
Separate-uncons x xs [] h = (tt, tt)
Separate-uncons x xs (y ∷ ys) h =
    let (out, rest) = Separate-uncons x xs ys h.1 in (((λ e. h.0.0 (sym e)), out), (h.0.1, rest))

pub Distinct-append :
    (xs ys : List ℕ) → Distinct xs → Distinct ys → Separate xs ys → Distinct (xs ++ ys)
Distinct-append [] ys d e s = e
Distinct-append (x ∷ xs) ys d e s =
    let (out, rest) = Separate-uncons x xs ys s in
    (Apart-append x xs ys d.0 out, Distinct-append xs ys d.1 e rest)

-- A second head can be put before the links that follow the first.
pub Links-behead :
    (f : ℕ → ℕ) (p x : ℕ) (xs : List ℕ) (e : ℕ)
    → Apart p xs
    → Links f x xs e
    → Links (put f p (f x)) p xs e
Links-behead f p x [] e out l = put_self f p (f x) ∙ l
Links-behead f p x (y ∷ ys) e out l =
    (put_self f p (f x) ∙ l.0, Links-put f p (f x) y ys e (λ z. out.0 (sym z)) out.1 l.1)

-- The last of some nodes is apart from whatever they are separate from.
pub Separate-last : (p : ℕ) (xs ys : List ℕ) → Separate (p ∷ xs) ys → Apart (last_of p xs) ys
Separate-last p [] ys s = (Separate-uncons p [] ys s).0
Separate-last p (x ∷ xs) ys s = Separate-last x xs ys (Separate-uncons p (x ∷ xs) ys s).1

pub Separate-sym : (xs ys : List ℕ) → Separate xs ys → Separate ys xs
Separate-sym [] ys s = tt
Separate-sym (x ∷ xs) ys s =
    let (out, rest) = Separate-uncons x xs ys s in (out, Separate-sym xs ys rest)

pub Separate-cons : (x : ℕ) (xs ys : List ℕ) → Apart x ys → Separate xs ys → Separate (x ∷ xs) ys
Separate-cons x xs [] out s = tt
Separate-cons x xs (y ∷ ys) out s = (((λ e. out.0 (sym e)), s.0), Separate-cons x xs ys out.1 s.1)

pub Separate-snoc :
    (x : ℕ) (xs ys : List ℕ) → Apart x ys → Separate xs ys → Separate (xs ++ x ∷ []) ys
Separate-snoc x xs [] out s = tt
Separate-snoc x xs (y ∷ ys) out s =
    (Apart-append y xs (x ∷ []) s.0 ((λ e. out.0 (sym e)), tt), Separate-snoc x xs ys out.1 s.1)

-- A list stays what it is when another node's link changes,
pub IsList-set_next :
    {h : Heap} {list : ℕ} {xs : List ℕ} (a v : ℕ)
    → Apart a (list ∷ xs)
    → IsList h list xs
    → IsList (set_next h a v) list xs
IsList-set_next {h} {list} {xs} a v out l = record {
  links = Links-put h.next a v list xs list (λ e. out.0 (sym e)) out.1 l.links;
  last_node = l.last_node;
  fresh = l.fresh;
  distinct = l.distinct;
}

-- or another list's tail.
pub IsList-last :
    {h : Heap} {list : ℕ} {xs : List ℕ} (last' : ℕ → ℕ)
    → last' list ≡ h.last list
    → IsList h list xs
    → IsList (record { next = h.next; last = last' }) list xs
IsList-last last' same l = record {
  links = l.links;
  last_node = same ∙ l.last_node;
  fresh = l.fresh;
  distinct = l.distinct;
}
