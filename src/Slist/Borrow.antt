-- ===== src/Slist/Borrow.antt =====
-- Nodes that are lent to another list, and given back.
use xplain_software_framewor.Base.{ℕ, ◌≡◌, sym, ◌∙◌, subst, some, List, [], ◌∷◌, ◌++◌, eq→==, ne→==}
use xplain_software_framewor.Slist.{Heap, put, borrow_to_tail, give_back_head}
use xplain_software_framewor.Slist.Links.{
  Apart, Distinct, Links, last_of, IsList, put_self, put_other, Links-put, last_of-ne, Links-turn,
  Separate, Separate-last, Separate-sym,
}
use xplain_software_framewor.Slist.Move.{borrowed, lent-Links, borrowed-IsList, borrow_to_tail_lem}

-- `owner` has lent its nodes `y ∷ ys` to `borrower`, in which `rest` follows them; some of them may
-- have been taken from the borrower's front since.
pub record Lent (h : Heap) (owner borrower y : ℕ) (ys rest : List ℕ) : Type 0 where
  pub own : Links h.next owner (y ∷ ys) (h.next (last_of y ys))
  pub own_last : h.last owner ≡ last_of y ys
  pub behind : Links h.next (last_of y ys) rest borrower
  pub behind_last : h.last borrower ≡ last_of (last_of y ys) rest
  pub own_fresh : Apart owner (y ∷ ys)
  pub own_distinct : Distinct (y ∷ ys)
  pub fresh : Apart borrower rest
  pub distinct : Distinct rest
  pub apart : Separate (owner ∷ y ∷ ys) (borrower ∷ rest)

own-Links :
    {h : Heap} {owner borrower y : ℕ} {ys rest : List ℕ}
    → Lent h owner borrower y ys rest
    → Links
        (put (put h.next borrower (h.next (last_of y ys))) (last_of y ys) owner)
        owner
        (y ∷ ys)
        owner
own-Links {h} {owner} {borrower} {y} {ys} l =
    let v = h.next (last_of y ys) in
    Links-turn (put h.next borrower v) owner owner (y ∷ ys) v l.own_fresh l.own_distinct
      (Links-put h.next borrower v owner (y ∷ ys) v (λ e. l.apart.0.0 (sym e)) l.apart.0.1 l.own)

-- `slist_give_back_head` makes the owner the list of the nodes that it had lent, and leaves the
-- borrower with those behind them.
pub give_back_head-IsList :
    {h : Heap} {owner borrower y : ℕ} {ys : List ℕ} (rest : List ℕ)
    → Lent h owner borrower y ys rest
    → IsList (give_back_head h owner borrower) owner (y ∷ ys)
      × IsList (give_back_head h owner borrower) borrower rest
unfolding give_back_head
give_back_head-IsList {h} {owner} {borrower} {y} {ys} [] l =
    let p = last_of y ys in
    let v = h.next p in
    let last_apart = Separate-last owner (y ∷ ys) (borrower ∷ []) l.apart in
    rw
      (
        put_self h.next borrower (h.next (h.last owner)),
        l.own_last,
        eq→== v borrower l.behind,
        ne→== owner borrower l.apart.0.0,
        l.own_last,
      )
      (
        record {
          links = own-Links l;
          last_node =
              put_other h.last borrower borrower owner (λ e. l.apart.0.0 (sym e)) ∙ l.own_last;
          fresh = l.own_fresh;
          distinct = l.own_distinct;
        },
        record {
          links =
              put_other (put h.next borrower v) p owner borrower (λ e. last_apart.0 (sym e))
              ∙ put_self h.next borrower v
              ∙ l.behind;
          last_node = put_self h.last borrower borrower;
          fresh = tt;
          distinct = tt;
        },
      )
give_back_head-IsList {h} {owner} {borrower} {y} {ys} (r ∷ rs) l =
    let p = last_of y ys in
    let v = h.next p in
    let last_apart = Separate-last owner (y ∷ ys) (borrower ∷ r ∷ rs) l.apart in
    rw
      (
        put_self h.next borrower (h.next (h.last owner)),
        l.own_last,
        ne→== v borrower (λ e. l.fresh.0 (sym l.behind.0 ∙ e)),
        l.own_last,
      )
      (
        record {
          links = own-Links l;
          last_node = l.own_last;
          fresh = l.own_fresh;
          distinct = l.own_distinct;
        },
        record {
          links = (
            put_other (put h.next borrower v) p owner borrower (λ e. last_apart.0 (sym e))
                ∙ put_self h.next borrower v
                ∙ l.behind.0,
            Links-put (put h.next borrower v) p owner r rs borrower (λ e. last_apart.1.0 (sym e))
                last_apart.1.1
                (Links-put h.next borrower v r rs borrower (λ e. l.fresh.0 (sym e)) l.fresh.1
                  l.behind.1),
          );
          last_node = l.behind_last;
          fresh = l.fresh;
          distinct = l.distinct;
        },
      )

module _ {h : Heap} {to from y : ℕ} {xs ys : List ℕ} (l : IsList h to xs)
    (m : IsList h from (y ∷ ys)) (apart : Separate (to ∷ xs) (from ∷ y ∷ ys)) where
  borrowed-Lent : Lent (borrowed l m apart) from to y ys []
  borrowed-Lent =
      let tail_apart = Separate-last to xs (from ∷ y ∷ ys) apart in
      let end_link : (borrowed l m apart).next (last_of y ys) ≡ to =
        put_other (put h.next (last_of y ys) to) (last_of to xs) y (last_of y ys)
          (λ e. last_of-ne (last_of to xs) y ys tail_apart.1 (sym e))
        ∙ put_self h.next (last_of y ys) to in
      record {
        own =
            subst (Links (borrowed l m apart).next from (y ∷ ys)) (sym end_link)
              (lent-Links l m apart);
        own_last = put_other h.last to (last_of y ys) from (λ e. apart.0.0 e) ∙ m.last_node;
        behind = end_link;
        behind_last = put_self h.last to (last_of y ys);
        own_fresh = m.fresh;
        own_distinct = m.distinct;
        fresh = tt;
        distinct = tt;
        apart = ((Separate-sym (to ∷ xs) (from ∷ y ∷ ys) apart).0, tt);
      }

  -- `slist_borrow_to_tail` appends the nodes of a non-empty list to those of another list, which
  -- shares no node with it; from then on they are lent, as `slist_give_back_head` needs them.
  pub borrow_to_tail-Lent :
      (h' : Heap) × (borrow_to_tail h to from ≡ some h')
      × IsList h' to (xs ++ y ∷ ys)
      × Lent h' from to y ys []
  borrow_to_tail-Lent =
      (borrowed l m apart, borrow_to_tail_lem l m apart, borrowed-IsList l m apart, borrowed-Lent)
