-- ===== src/Win/Adding.antt =====
-- `win_add_top_child` on the children of all windows.
use xplain_software_framewor.Base.{
  ℕ, ◌≡◌, ◌≢◌, refl, sym, subst, ◌∙◌, ◌==◌, Bool-cases, inl, inr, ne→==, eq→==, List, [], ◌∷◌,
}
use xplain_software_framewor.Win.{assign, Windows, win_add_top_child}
use xplain_software_framewor.Win.Ring.{
  assign-eq, assign-ne, Away, Chain, Chain-next-Away, Chain-prev-Away, prev-Away, relink,
}
use xplain_software_framewor.Win.Tree.{
  Circle, Siblings, Tree, Circle-next-Away, Circle-prev-Away, Chain-prev_has,
}
use xplain_software_framewor.Win.Links.{owned-Away, owned-assign, Tree-assign}

module _ (w : Windows) (p child : ℕ) where
  abbrev attached : Windows → Windows
  attached w1 = record w1 {
    top_child = assign w1.top_child p child;
    parent = assign w1.parent child p;
  }

  abbrev first : Windows
  first = attached (record w {
    next_sibling = assign w.next_sibling child child;
    prev_sibling = assign w.prev_sibling child child;
  })

  abbrev on_top : Windows
  on_top =
      let top = w.top_child p in
      let last = w.prev_sibling top in
      attached (record w {
        next_sibling = assign (assign w.next_sibling child top) last child;
        prev_sibling = assign (assign w.prev_sibling child last) top child;
      })

  add-first : w.top_child p ≡ 0 → win_add_top_child p child w ≡ first
  unfolding win_add_top_child
  add-first e = rw (eq→== _ _ e) refl

  add-on_top : w.top_child p ≢ 0 → win_add_top_child p child w ≡ on_top
  unfolding win_add_top_child
  add-on_top ne = rw (ne→== _ _ ne) refl

  module _ (loose : w.parent child ≡ 0) where
    child-Away : (q : ℕ) (cs : List ℕ) → q ≢ 0 → Siblings w q cs → Away child cs
    child-Away q cs ok s = owned-Away w.parent child 0 q cs loose (λ e. ok (sym e)) s.owned

    other-first : (q : ℕ) (cs : List ℕ) → q ≢ 0 → p ≢ q → Siblings w q cs → Siblings first q cs
    other-first q cs ok apart s = record {
      circle = Circle-next-Away _ _ _ child child cs (child-Away q cs ok s) (
          Circle-prev-Away _ _ _ child child cs (child-Away q cs ok s) (
            subst (λ (t : ℕ). Circle w.next_sibling w.prev_sibling t cs)
              (sym (assign-ne w.top_child p child q (λ e. apart (sym e)))) s.circle));
      distinct = s.distinct;
      proper = s.proper;
      owned = owned-assign w.parent child p q cs (child-Away q cs ok s) s.owned;
    }

    here-first : child ≢ 0 → Siblings first p (child ∷ [])
    here-first ok = record {
      circle = (
        assign-eq w.top_child p child,
        (assign-eq w.next_sibling child child, assign-eq w.prev_sibling child child),
      );
      distinct = (tt, tt);
      proper = ((λ e. ok (sym e)), tt);
      owned = (assign-eq w.parent child p, tt);
    }

    module _ (t : ℕ) (cs : List ℕ) (here : Siblings w p (t ∷ cs)) (proper : p ≢ 0) where
      its-Away : Away child (t ∷ cs)
      its-Away = child-Away p (t ∷ cs) proper here

      last_owned : w.parent (w.prev_sibling (w.top_child p)) ≡ p
      last_owned = rw here.circle.0 (
          Chain-prev_has (λ c. w.parent c ≡ p) w.next_sibling w.prev_sibling t cs t here.owned.0
            here.owned.1 here.circle.1)

      top_owned : w.parent (w.top_child p) ≡ p
      top_owned = rw here.circle.0 here.owned.0

      other-on_top : (q : ℕ) (ds : List ℕ) → q ≢ 0 → p ≢ q → Siblings w q ds → Siblings on_top q ds
      other-on_top q ds ok apart s = record {
        circle =
            Circle-next-Away _ _ _ _ child ds
              (owned-Away w.parent _ p q ds last_owned apart s.owned)
              (Circle-next-Away _ _ _ child _ ds (child-Away q ds ok s) (
                Circle-prev-Away _ _ _ _ child ds
                  (owned-Away w.parent _ p q ds top_owned apart s.owned)
                  (Circle-prev-Away _ _ _ child _ ds (child-Away q ds ok s) (
                    subst (λ (u : ℕ). Circle w.next_sibling w.prev_sibling u ds)
                      (sym (assign-ne w.top_child p child q (λ e. apart (sym e)))) s.circle))));
        distinct = s.distinct;
        proper = s.proper;
        owned = owned-assign w.parent child p q ds (child-Away q ds ok s) s.owned;
      }

      closed :
          Chain
            (assign (assign w.next_sibling child t) (w.prev_sibling t) child)
            (assign (assign w.prev_sibling child (w.prev_sibling t)) t child)
            child
            (t ∷ cs)
            child
      closed = (
        assign-ne (assign w.next_sibling child t) (w.prev_sibling t) child child (
              prev-Away w.next_sibling w.prev_sibling child t cs t its-Away.0 its-Away.1
                here.circle.1)
            ∙ assign-eq w.next_sibling child t,
        assign-eq (assign w.prev_sibling child (w.prev_sibling t)) t child,
        Chain-prev-Away _ _ t child t cs child (λ e. its-Away.0 (sym e)) here.distinct.0
            (relink (assign w.next_sibling child t) w.prev_sibling t cs t child here.distinct
              its-Away.1
              (Chain-next-Away w.next_sibling w.prev_sibling child t t cs t its-Away.0 its-Away.1
                here.circle.1)),
      )

      here-on_top : child ≢ 0 → Siblings on_top p (child ∷ t ∷ cs)
      here-on_top ok = record {
        circle = (
          assign-eq w.top_child p child,
          subst
              (λ (u : ℕ).
                Chain (assign (assign w.next_sibling child u) (w.prev_sibling u) child)
                  (assign (assign w.prev_sibling child (w.prev_sibling u)) u child) child (t ∷ cs)
                  child)
              (sym here.circle.0) closed,
        );
        distinct = (its-Away, here.distinct);
        proper = ((λ e. ok (sym e)), here.proper);
        owned = (
          assign-eq w.parent child p,
          owned-assign w.parent child p p (t ∷ cs) its-Away here.owned,
        );
      }

-- `win_add_top_child` puts a window that has no parent on top of the children of a parent, whether
-- it has other children or not; the children of all other windows stay as they are.
pub add-Tree :
    (w : Windows) (children : ℕ → List ℕ) (p child : ℕ)
    → Tree w children
    → p ≢ 0
    → child ≢ 0
    → w.parent child ≡ 0
    → Tree (win_add_top_child p child w) (assign children p (child ∷ children p))
add-Tree w children p child tree proper ok loose = added (children p) (tree p proper)
  where
    added :
        (cs : List ℕ)
        → Siblings w p cs
        → Tree (win_add_top_child p child w) (assign children p (child ∷ cs))
    added [] here = rw (add-first w p child here.circle) (
        Tree-assign (first w p child) children p (child ∷ []) (here-first w p child loose ok)
          (λ q okq apart. other-first w p child loose q (children q) okq apart (tree q okq)))
    added (t ∷ cs) here =
        rw (add-on_top w p child (λ e. here.proper.0 (sym (sym here.circle.0 ∙ e)))) (
          Tree-assign (on_top w p child) children p (child ∷ t ∷ cs)
            (here-on_top w p child loose t cs here proper ok)
            (λ q okq apart.
              other-on_top w p child loose t cs here proper q (children q) okq apart (tree q okq)))

pub add-parent :
    (w : Windows) (p child a : ℕ)
    → (win_add_top_child p child w).parent a ≡ assign w.parent child p a
unfolding win_add_top_child
add-parent w p child a = elim (Bool-cases (w.top_child p == 0)) [
  | inl e ↦ rw e refl
  | inr e ↦ rw e refl
]
