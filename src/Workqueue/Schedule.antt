-- ===== src/Workqueue/Schedule.antt =====
-- Two queues that share no task, and a flag in each task that says whether it is queued.
use xplain_software_framewor.Base.{
  ℕ, ◌≡◌, ◌≢◌, sym, ◌∙◌, ap, subst, Option, none, some, List, [], ◌∷◌, ◌++◌, All, Bool-cases, ◌==◌,
  inl, inr,
}
use xplain_software_framewor.Slist.{Heap, put, pop_head_node}
use xplain_software_framewor.Slist.Links.{
  IsList-set_next, IsList-last, Apart, Links, IsList, put_other, Separate, Separate-sym,
}
use xplain_software_framewor.Workqueue.{Queues}

-- A schedule: the queue `q` has the tasks `xs`, and `r` has `ys`, in order. No task is in both or twice, every
-- queued task has a work function, and exactly the tasks that are not queued have a null link.
pub record Schedules (q r : ℕ) (s : Queues) (xs ys : List ℕ) : Type 0 where
  pub first : IsList s.heap q xs
  pub second : IsList s.heap r ys
  pub apart : Separate (q ∷ xs) (r ∷ ys)
  pub first_proper : Apart 0 (q ∷ xs)
  pub second_proper : Apart 0 (r ∷ ys)
  pub first_ready : All (λ t. s.worker t ≢ 0) xs
  pub second_ready : All (λ t. s.worker t ≢ 0) ys
  pub idle : (t : ℕ) → Apart t (q ∷ xs) → Apart t (r ∷ ys) → s.heap.next t ≡ 0

pub Schedules-swap :
    {q r : ℕ} {s : Queues} {xs ys : List ℕ} → Schedules q r s xs ys → Schedules r q s ys xs
Schedules-swap {q} {r} {xs = xs} {ys = ys} w = record {
  first = w.second;
  second = w.first;
  apart = Separate-sym (q ∷ xs) (r ∷ ys) w.apart;
  first_proper = w.second_proper;
  second_proper = w.first_proper;
  first_ready = w.second_ready;
  second_ready = w.first_ready;
  idle = λ t out out'. w.idle t out' out;
}

-- A task with a null link is in no queue.
pub null-Apart :
    (next : ℕ → ℕ) (t p : ℕ) (xs : List ℕ) (e : ℕ)
    → Links next p xs e
    → e ≢ 0
    → Apart 0 xs
    → next t ≡ 0
    → Apart t (p ∷ xs)
null-Apart next t p [] e l ne proper z = ((λ same. ne (sym l ∙ ap next same ∙ z)), tt)
null-Apart next t p (x ∷ xs) e l ne proper z =
    ((λ same. proper.0 (sym l.0 ∙ ap next same ∙ z)), null-Apart next t x xs e l.1 ne proper.1 z)

pub Apart-split : (a : ℕ) (xs ys : List ℕ) → Apart a (xs ++ ys) → Apart a xs × Apart a ys
Apart-split a [] ys out = (tt, out)
Apart-split a (x ∷ xs) ys out =
    let (here, there) = Apart-split a xs ys out.1 in ((out.0, here), there)

pub All-snoc : (P : ℕ → Type 0) (xs : List ℕ) (y : ℕ) → All P xs → P y → All P (xs ++ y ∷ [])
All-snoc P [] y all last = (last, tt)
All-snoc P (x ∷ xs) y all last = (all.0, All-snoc P xs y all.1 last)

abbrev heap_of : Heap → Option (ℕ × Heap) → Heap
heap_of h none = h
heap_of h (some (x, h')) = h'

-- Taking the first node changes only its own list,
frame_popped :
    {h : Heap} {list other : ℕ} {ys : List ℕ}
    → Apart list (other ∷ ys)
    → IsList h other ys
    → IsList (heap_of h (pop_head_node h list)) other ys
unfolding pop_head_node
frame_popped {h} {list} {other} {ys} out m = elim (Bool-cases (h.next list == list)) [
  | inl none_left ↦ rw none_left m
  | inr more ↦
      let kept = IsList-set_next list (h.next (h.next list)) out m in
      elim (Bool-cases (h.last list == h.next list)) [
        | inl last ↦
            rw (more, last)
              (IsList-last (put h.last list list)
                (put_other h.last list list other (λ e. out.0 (sym e))) kept)
        | inr inner ↦ rw (more, inner) kept
      ]
]

-- and only the link of its sentinel.
next_popped :
    (h : Heap) (list t : ℕ) → list ≢ t → (heap_of h (pop_head_node h list)).next t ≡ h.next t
unfolding pop_head_node
next_popped h list t ne = elim (Bool-cases (h.next list == list)) [
  | inl none_left ↦ rw none_left
  | inr more ↦ elim (Bool-cases (h.last list == h.next list)) [
    | inl last ↦ rw (more, last) (put_other h.next list (h.next (h.next list)) t ne)
    | inr inner ↦ rw (more, inner) (put_other h.next list (h.next (h.next list)) t ne)
  ]
]

module _ (h h' : Heap) (list x : ℕ) (e : pop_head_node h list ≡ some (x, h')) where
  pub pop_head-frame :
      {other : ℕ} {ys : List ℕ} → Apart list (other ∷ ys) → IsList h other ys → IsList h' other ys
  pop_head-frame {other} {ys} out m =
      subst (λ k. IsList k other ys) (ap (heap_of h) e) (frame_popped out m)

  pub pop_head-next : (t : ℕ) → list ≢ t → h'.next t ≡ h.next t
  pop_head-next t ne = ap (λ o. (heap_of h o).next t) (sym e) ∙ next_popped h list t ne
