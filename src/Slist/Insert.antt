-- ===== src/Slist/Insert.antt =====
-- Inserting a node at either end of a list, and taking the first one.
use xplain_software_framewor.Base.{
  ℕ, ◌≡◌, ◌⊎◌, inl, inr, refl, sym, ◌∙◌, subst, none, some, List, [], ◌∷◌, ◌++◌, eq→==, ne→==,
  length, ◌==◌, false, arith,
}
use xplain_software_framewor.Slist.{
  Heap, put, set_next, set_last, init, is_empty, insert_head, insert_tail, pop_head_node,
}
use xplain_software_framewor.Slist.Links.{
  Apart, Links, last_of, IsList, put_self, put_other, Links-put, last_of-ne, Links-turn,
  Links-append, last_of-append, Apart-append, Distinct-append, Links-behead,
}

-- `slist_init` makes the empty list.
pub init-IsList : (h : Heap) (list : ℕ) → IsList (init h list) list []
unfolding init
init-IsList h list = record {
  links = put_self h.next list list;
  last_node = put_self h.last list list;
  fresh = tt;
  distinct = tt;
}

pub is_empty_lem :
    {h : Heap} {list : ℕ} (xs : List ℕ) → IsList h list xs → is_empty h list ≡ (length xs == 0)
unfolding is_empty
is_empty_lem {list = list} [] l = eq→== _ list l.links
is_empty_lem {list = list} (x ∷ xs) l = rw (l.links.0, ne→== x list l.fresh.0) (ground arith)

last_false :
    {h : Heap} {list : ℕ} (x : ℕ) (xs : List ℕ)
    → IsList h list (x ∷ xs)
    → (h.last list == list) ≡ false
last_false {list = list} x xs l =
    rw l.last_node (ne→== (last_of x xs) list (last_of-ne list x xs l.fresh))

module _ {h : Heap} {list : ℕ} {xs : List ℕ} (l : IsList h list xs) (node : ℕ)
    (out : Apart node (list ∷ xs)) where
  -- `slist_insert_tail` of a node that is not in the list appends it.
  pub insert_tail-IsList : IsList (insert_tail h list node) list (xs ++ node ∷ [])
  unfolding insert_tail
  insert_tail-IsList = record {
    links =
        Links-append _ list xs node [] list
          (subst (λ q. Links (put (put h.next node list) q node) list xs node) (sym l.last_node)
            (Links-turn (put h.next node list) node list xs list l.fresh l.distinct
              (Links-put h.next node list list xs list (λ e. out.0 (sym e)) out.1 l.links)))
          (put_other (put h.next node list) (h.last list) node node
              (λ e. last_of-ne node list xs out (sym l.last_node ∙ e))
            ∙ put_self h.next node list);
    last_node = put_self h.last list node ∙ sym (last_of-append list xs node []);
    fresh = Apart-append list xs (node ∷ []) l.fresh ((λ e. out.0 (sym e)), tt);
    distinct = Distinct-append xs (node ∷ []) l.distinct (tt, tt) (out.1, tt);
  }

head-Links :
    {h : Heap} {list : ℕ} {xs : List ℕ} (node : ℕ)
    → IsList h list xs
    → Apart node (list ∷ xs)
    → Links (put (put h.next node (h.next list)) list node) list (node ∷ xs) list
head-Links {h} {list} {xs} node l out = (
  put_self (put h.next node (h.next list)) list node,
  Links-put (put h.next node (h.next list)) list node node xs list out.0 l.fresh
      (Links-behead h.next node list xs list out.1 l.links),
)

-- `slist_insert_head` of a node that is not in the list puts it in front.
pub insert_head-IsList :
    {h : Heap} {list : ℕ} (xs : List ℕ) (node : ℕ)
    → IsList h list xs
    → Apart node (list ∷ xs)
    → IsList (insert_head h list node) list (node ∷ xs)
unfolding insert_head
insert_head-IsList {h} {list} [] node l out = rw (eq→== _ list l.last_node) (record {
  links = head-Links node l out;
  last_node = put_self h.last list node;
  fresh = ((λ e. out.0 (sym e)), tt);
  distinct = (tt, tt);
})
insert_head-IsList {h} {list} (x ∷ xs) node l out = rw (last_false x xs l) (record {
  links = head-Links node l out;
  last_node = l.last_node;
  fresh = ((λ e. out.0 (sym e)), l.fresh);
  distinct = (out.1, l.distinct);
})

-- The first node can be taken from a list that has one.
pub pop_head_cons :
    {h : Heap} {list : ℕ} (x : ℕ) (rest : List ℕ)
    → IsList h list (x ∷ rest)
    → (h' : Heap) × (pop_head_node h list ≡ some (x, h')) × IsList h' list rest
unfolding pop_head_node
pop_head_cons {h} {list} x [] l = (
  set_last (set_next h list (h.next x)) list list,
  rw (l.links.0, ne→== x list l.fresh.0, eq→== _ x l.last_node),
  record {
    links = Links-behead h.next list x [] list tt l.links.1;
    last_node = put_self h.last list list;
    fresh = tt;
    distinct = tt;
  },
)
pop_head_cons {h} {list} x (y ∷ ys) l = (
  set_next h list (h.next x),
  rw (
    l.links.0,
    ne→== x list l.fresh.0,
    l.last_node,
    ne→== (last_of y ys) x (last_of-ne x y ys l.distinct.0),
  ),
  record {
    links = Links-behead h.next list x (y ∷ ys) list l.fresh.1 l.links.1;
    last_node = l.last_node;
    fresh = l.fresh.1;
    distinct = l.distinct.1;
  },
)

-- `slist_pop_head_node` fails its assertion on the empty list, and takes the first node of any
-- other.
pub pop_head_lem :
    {h : Heap} {list : ℕ} (xs : List ℕ)
    → IsList h list xs
    → (xs ≡ []) × (pop_head_node h list ≡ none)
      ⊎ ((x : ℕ) × (rest : List ℕ) × (h' : Heap) × (xs ≡ x ∷ rest)
          × (pop_head_node h list ≡ some (x, h'))
          × IsList h' list rest)
unfolding pop_head_node
pop_head_lem {list = list} [] l = inl (refl, rw (eq→== _ list l.links))
pop_head_lem (x ∷ rest) l =
    let (h', e, l') = pop_head_cons x rest l in inr (x, rest, h', refl, e, l')
