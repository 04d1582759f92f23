-- ===== src/Slist.antt =====
-- include/slist.h: singly linked lists with a sentinel. A node is its address, the sentinel of a
-- list is the address of the list itself, and a null pointer is 0.
pub mod Links
pub mod Insert
pub mod Move
pub mod Borrow
mod Tests
use xplain_software_framewor.Base.{ℕ, Bool, not, Option, none, some, ◌==◌, if◌then◌else◌}

-- The memory of all nodes and lists: `next` of each node, sentinels included, and `last` of each
-- list.
pub record Heap : Type 0 where
  pub next : ℕ → ℕ
  pub last : ℕ → ℕ

-- `p->next = v` and `list->last = v`, as a change of one entry
abbrev pub put : (ℕ → ℕ) → ℕ → ℕ → ℕ → ℕ
put f p v a = if a == p then v else f a

abbrev pub set_next : Heap → ℕ → ℕ → Heap
set_next h p v = record { next = put h.next p v; last = h.last }

abbrev pub set_last : Heap → ℕ → ℕ → Heap
set_last h list v = record { next = h.next; last = put h.last list v }

unfoldable pub init : Heap → ℕ → Heap
init h list = set_last (set_next h list list) list list

unfoldable pub is_empty : Heap → ℕ → Bool
is_empty h list = h.next list == list

pub node_is_last : Heap → ℕ → ℕ → Bool
node_is_last h list node = node == h.last list

pub node_is_valid : ℕ → ℕ → Bool
node_is_valid list node = not (node == list)

pub insert_head : Heap → ℕ → ℕ → Heap
insert_head h list node =
    let h1 = set_next h node (h.next list) in
    let h2 = if h1.last list == list then set_last h1 list node else h1 in set_next h2 list node

unfoldable pub insert_tail : Heap → ℕ → ℕ → Heap
insert_tail h list node =
    let h1 = set_next h node list in
    let h2 = set_next h1 (h1.last list) node in set_last h2 list node

-- `none` is a failed assertion.
pub borrow_to_tail : Heap → ℕ → ℕ → Option Heap
borrow_to_tail h to from =
    if is_empty h from
    then none
    else (let h1 = set_next h (h.last from) to in
        let h2 = set_next h1 (h1.last to) (h1.next from) in some (set_last h2 to (h2.last from)))

pub give_back_head : Heap → ℕ → ℕ → Heap
give_back_head h to from =
    let h1 = set_next h from (h.next (h.last to)) in
    let h2 = if h1.next from == from then set_last h1 from from else h1 in
    set_next h2 (h2.last to) to

abbrev pub init_after : Option Heap → ℕ → Option Heap
init_after none from = none
init_after (some h) from = some (init h from)

pub move_to_tail : Heap → ℕ → ℕ → Option Heap
move_to_tail h to from = init_after (borrow_to_tail h to from) from

pub move_to_head : Heap → ℕ → ℕ → Option Heap
move_to_head h to from =
    if is_empty h from
    then none
    else (let h1 = set_next h (h.last from) (h.next to) in
        let h2 = set_next h1 to (h1.next from) in
        let h3 = if h2.last to == to then set_last h2 to (h2.last from) else h2 in
        some (init h3 from))

pub peek_head_node : Heap → ℕ → ℕ
peek_head_node h list = h.next list

pub peek_tail_node : Heap → ℕ → ℕ
peek_tail_node h list = h.last list

pub peek_next_node : Heap → ℕ → ℕ
peek_next_node h node = h.next node

unfoldable pub pop_head_node : Heap → ℕ → Option (ℕ × Heap)
pop_head_node h list =
    if h.next list == list
    then none
    else (let node = h.next list in
        let h1 = set_next h list (h.next node) in
        some (node, if h1.last list == node then set_last h1 list list else h1))
