-- ===== src/Slist/Tests.antt =====
-- Two lists: the one at 8 has the nodes 24 and 32, and the one at 16 the node 40.
use xplain_software_framewor.Base.{ℕ, ◌≡◌, refl, some, List, [], ◌∷◌, ◌++◌, arith}
use xplain_software_framewor.Slist.{Heap, put, move_to_tail, give_back_head}
use xplain_software_framewor.Slist.Links.{IsList, Separate}
use xplain_software_framewor.Slist.Borrow.{Lent, give_back_head-IsList}
use xplain_software_framewor.Slist.Move.{move_to_tail-IsList}

abbrev heap : Heap
heap = record {
  next = put (put (put (put (put (λ a. 0) 8 24) 24 32) 32 8) 16 40) 40 16;
  last = put (put (λ a. 0) 8 32) 16 40;
}

abbrev nodes : List ℕ
nodes = 24 ∷ 32 ∷ []

at_8 : IsList heap 8 nodes
at_8 = record {
  links = (refl, (refl, refl));
  last_node = refl;
  fresh = ((λ e. omega arith), ((λ e. omega arith), tt));
  distinct = (((λ e. omega arith), tt), (tt, tt));
}

at_16 : IsList heap 16 (40 ∷ [])
at_16 = record {
  links = (refl, refl);
  last_node = refl;
  fresh = ((λ e. omega arith), tt);
  distinct = (tt, tt);
}

lists_apart : Separate (8 ∷ nodes) (16 ∷ 40 ∷ [])
lists_apart = (
  ((λ e. omega arith), ((λ e. omega arith), ((λ e. omega arith), tt))),
  (((λ e. omega arith), ((λ e. omega arith), ((λ e. omega arith), tt))), tt),
)

move_to_tail_example :
    (h' : Heap) × (move_to_tail heap 8 16 ≡ some h')
    × IsList h' 8 (nodes ++ 40 ∷ [])
    × IsList h' 16 []
move_to_tail_example = move_to_tail-IsList at_8 at_16 lists_apart

-- The list at 16 has lent 40 to the one at 8, which has taken its other nodes and got 48.
abbrev lending : Heap
lending = record {
  next = put (put (put (put (λ a. 0) 8 40) 40 48) 48 8) 16 40;
  last = put (put (λ a. 0) 8 48) 16 40;
}

lending-Lent : Lent lending 16 8 40 [] (48 ∷ [])
lending-Lent = record {
  own = (refl, refl);
  own_last = refl;
  behind = (refl, refl);
  behind_last = refl;
  own_fresh = ((λ e. omega arith), tt);
  own_distinct = (tt, tt);
  fresh = ((λ e. omega arith), tt);
  distinct = (tt, tt);
  apart = (
    ((λ e. omega arith), ((λ e. omega arith), tt)),
    (((λ e. omega arith), ((λ e. omega arith), tt)), tt),
  );
}

give_back_head_example :
    IsList (give_back_head lending 16 8) 16 (40 ∷ [])
    × IsList (give_back_head lending 16 8) 8 (48 ∷ [])
give_back_head_example = give_back_head-IsList (48 ∷ []) lending-Lent
