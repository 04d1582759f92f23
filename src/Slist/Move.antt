-- ===== src/Slist/Move.antt =====
-- Moving all the nodes of one list to another, and what an operation leaves alone.
use xplain_software_framewor.Base.{
  ℕ, ◌≡◌, ◌≢◌, ap, sym, ◌∙◌, subst, some, List, [], ◌∷◌, ◌++◌, ne→==,
}
use xplain_software_framewor.Slist.{
  Heap, put, init, init_after, is_empty, borrow_to_tail, move_to_tail, insert_tail,
}
use xplain_software_framewor.Slist.Links.{
  Apart, Links, last_of, IsList, put_self, put_other, Links-put, last_of-ne, Links-turn,
  Links-append, last_of-append, Apart-append, Distinct-append, Separate, Separate-uncons,
  Separate-last, Separate-sym, IsList-set_next, IsList-last,
}
use xplain_software_framewor.Slist.Insert.{init-IsList}

module _ {h : Heap} {list other : ℕ} {xs ys : List ℕ} (l : IsList h list xs) (m : IsList h other ys)
    (apart : Separate (list ∷ xs) (other ∷ ys)) where
  -- Another list stays as it is when a node is appended,
  pub insert_tail-frame :
      (node : ℕ) → Apart node (other ∷ ys) → IsList (insert_tail h list node) other ys
  unfolding insert_tail
  insert_tail-frame node out =
      let last_apart : Apart (h.last list) (other ∷ ys) =
        subst (λ q. Apart q (other ∷ ys)) (sym l.last_node)
          (Separate-last list xs (other ∷ ys) apart) in
      record {
        links =
            Links-put (put h.next node list) (h.last list) node other ys other
              (λ e. last_apart.0 (sym e)) last_apart.1
              (Links-put h.next node list other ys other (λ e. out.0 (sym e)) out.1 m.links);
        last_node = put_other h.last list node other (λ e. apart.0.0 e) ∙ m.last_node;
        fresh = m.fresh;
        distinct = m.distinct;
      }

module _ {h : Heap} {list other y : ℕ} {xs ys : List ℕ} (l : IsList h list xs)
    (m : IsList h other (y ∷ ys)) (apart : Separate (list ∷ xs) (other ∷ y ∷ ys)) where
  lists_differ : list ≢ other
  lists_differ e = apart.0.0 e

  moved_apart : Separate (other ∷ y ∷ ys) (list ∷ xs)
  moved_apart = Separate-sym (list ∷ xs) (other ∷ y ∷ ys) apart

  -- the nodes of both lists, those of `other` last
  abbrev pub borrowed : Heap
  borrowed = record {
    next = put (put h.next (last_of y ys) list) (last_of list xs) y;
    last = put h.last list (last_of y ys);
  }

  front-Links : Links borrowed.next list xs y
  front-Links = Links-turn (put h.next (last_of y ys) list) y list xs list l.fresh l.distinct (
      Links-put h.next (last_of y ys) list list xs list
        (λ e. (Separate-last other (y ∷ ys) (list ∷ xs) moved_apart).0 (sym e))
        (Separate-last other (y ∷ ys) (list ∷ xs) moved_apart).1 l.links)

  pub lent-Links : Links borrowed.next other (y ∷ ys) list
  lent-Links =
      let tail_apart = Separate-last list xs (other ∷ y ∷ ys) apart in
      Links-put (put h.next (last_of y ys) list) (last_of list xs) y other (y ∷ ys) list
        (λ e. tail_apart.0 (sym e)) tail_apart.1
        (Links-turn h.next list other (y ∷ ys) other m.fresh m.distinct m.links)

  pub borrowed-IsList : IsList borrowed list (xs ++ y ∷ ys)
  borrowed-IsList = record {
    links = Links-append borrowed.next list xs y ys list front-Links lent-Links.1;
    last_node = put_self h.last list (last_of y ys) ∙ sym (last_of-append list xs y ys);
    fresh = Apart-append list xs (y ∷ ys) l.fresh (Separate-uncons list xs (y ∷ ys) apart.1).0;
    distinct =
        Distinct-append xs (y ∷ ys) l.distinct m.distinct
          (Separate-uncons list xs (y ∷ ys) apart.1).1;
  }

  -- The assertion passes.
  pub borrow_to_tail_lem : borrow_to_tail h list other ≡ some borrowed
  unfolding borrow_to_tail is_empty
  borrow_to_tail_lem = rw (
    m.links.0,
    ne→== y other m.fresh.0,
    m.last_node,
    l.last_node,
    ne→== other (last_of y ys) (λ e. last_of-ne other y ys m.fresh (sym e)),
  )

  -- `slist_move_to_tail` appends the nodes of a non-empty list to those of another list, which shares
  -- no node with it, and leaves the first one empty.
  pub move_to_tail-IsList :
      (h' : Heap) × (move_to_tail h list other ≡ some h')
      × IsList h' list (xs ++ y ∷ ys)
      × IsList h' other []
  unfolding move_to_tail init
  move_to_tail-IsList =
      let outside : Apart other (list ∷ xs ++ y ∷ ys) =
        Apart-append other (list ∷ xs) (y ∷ ys)
          (Separate-uncons other (y ∷ ys) (list ∷ xs) moved_apart).0 m.fresh in
      (
        init borrowed other,
        ap (λ o. init_after o other) borrow_to_tail_lem,
        IsList-last (put borrowed.last other other)
            (put_other borrowed.last other other list (λ e. lists_differ (sym e)))
            (IsList-set_next other other outside borrowed-IsList),
        init-IsList borrowed other,
      )
