-- ===== src/Workqueue/Tasks.antt =====
-- Adding a task to one of two queues, and taking the first one.
use xplain_software_framewor.Base.{
  ℕ, ◌≡◌, ◌≢◌, ◌⊎◌, inl, inr, refl, sym, ◌∙◌, some, true, false, List, [], ◌∷◌, ◌++◌, Bool-cases,
  ◌==◌, eq→==, ne→==, ==→eq, ==_false→ne,
}
use xplain_software_framewor.Slist.{Heap, put, set_next, insert_tail, is_empty, pop_head_node}
use xplain_software_framewor.Slist.Links.{
  IsList-set_next, Apart, IsList, put_other, last_of-ne, Separate-uncons, Apart-append,
  Separate-cons, Separate-snoc,
}
use xplain_software_framewor.Slist.Insert.{insert_tail-IsList, pop_head_cons}
use xplain_software_framewor.Slist.Move.{insert_tail-frame}
use xplain_software_framewor.Workqueue.{
  Queues, add_task, task_is_queued, pop_task, workqueue_is_empty,
}
use xplain_software_framewor.Workqueue.Schedule.{
  Schedules, null-Apart, Apart-split, All-snoc, pop_head-frame, pop_head-next,
}

module _ {q r : ℕ} {s : Queues} {xs ys : List ℕ} (w : Schedules q r s xs ys) (task : ℕ)
    (other : Apart task (q ∷ r ∷ [])) (proper : task ≢ 0) (works : s.worker task ≢ 0) where
  insert_tail-next :
      (t : ℕ) → task ≢ t → Apart t (q ∷ xs) → (insert_tail s.heap q task).next t ≡ s.heap.next t
  unfolding insert_tail
  insert_tail-next t ne out =
      put_other (put s.heap.next task q) (s.heap.last q) task t
        (λ e. last_of-ne t q xs out (sym w.first.last_node ∙ e))
      ∙ put_other s.heap.next task q t ne

  abbrev appended : Queues
  appended = record s { heap = insert_tail s.heap q task }

  appended-Schedules :
      Apart task (q ∷ xs) → Apart task (r ∷ ys) → Schedules q r appended (xs ++ task ∷ []) ys
  appended-Schedules out out' = record {
    first = insert_tail-IsList w.first task out;
    second = insert_tail-frame w.first w.second w.apart task out';
    apart = Separate-snoc task (q ∷ xs) (r ∷ ys) out' w.apart;
    first_proper = Apart-append 0 (q ∷ xs) (task ∷ []) w.first_proper (proper, tt);
    second_proper = w.second_proper;
    first_ready = All-snoc (λ t. s.worker t ≢ 0) xs task w.first_ready works;
    second_ready = w.second_ready;
    idle = λ t free free'.
        let (kept, new) = Apart-split t xs (task ∷ []) free.1 in
        insert_tail-next t new.0 (free.0, kept) ∙ w.idle t (free.0, kept) free';
  }

  -- Where two queues share no task and the link of a task is null exactly if it is in neither:
  -- `workqueue_add_task` of a proper task with a work function puts it at the end of its queue if
  -- it is in neither queue, and keeps this invariant; it leaves everything as it is for a task
  -- that is in one of them.
  pub add_task_lem :
      (Apart task xs
        × Apart task ys
        × ((s' : Queues) × (add_task s q task ≡ some (true, s'))
            × Schedules q r s' (xs ++ task ∷ []) ys))
      ⊎ (¬ (Apart task xs × Apart task ys)) × (add_task s q task ≡ some (false, s))
  unfolding add_task task_is_queued
  add_task_lem = elim (Bool-cases (s.heap.next task == 0)) [
    | inl null ↦
        let z : s.heap.next task ≡ 0 = ==→eq _ 0 null in
        let out =
          null-Apart s.heap.next task q xs q w.first.links (λ e. w.first_proper.0 e)
            w.first_proper.1 z in
        let out' =
          null-Apart s.heap.next task r ys r w.second.links (λ e. w.second_proper.0 e)
            w.second_proper.1 z in
        inl (
          out.1,
          out'.1,
          (
            appended,
            rw (
              ne→== q 0 w.first_proper.0,
              ne→== task 0 proper,
              ne→== (s.worker task) 0 works,
              null,
            ),
            appended-Schedules out out',
          ),
        )
    | inr queued ↦ inr (
      (λ (out, out').
          ==_false→ne _ 0 queued (w.idle task ((λ e. other.0 e), out) ((λ e. other.1.0 e), out'))),
      rw (ne→== q 0 w.first_proper.0, ne→== task 0 proper, ne→== (s.worker task) 0 works, queued),
    )
  ]

module _ {q r x : ℕ} {s : Queues} {rest ys : List ℕ} (w : Schedules q r s (x ∷ rest) ys) where
  popped-Schedules :
      (h' : Heap)
      → pop_head_node s.heap q ≡ some (x, h')
      → IsList h' q rest
      → Schedules q r (record s { heap = set_next h' x 0 }) rest ys
  popped-Schedules h' e list =
      let (out, rest_apart) = Separate-uncons q (x ∷ rest) (r ∷ ys) w.apart in
      let (out', apart') = Separate-uncons x rest (r ∷ ys) rest_apart in
      record {
        first = IsList-set_next x 0 ((λ z. w.first.fresh.0 (sym z)), w.first.distinct.0) list;
        second = IsList-set_next x 0 out' (pop_head-frame s.heap h' q x e out w.second);
        apart = Separate-cons q rest (r ∷ ys) out apart';
        first_proper = (w.first_proper.0, w.first_proper.1.1);
        second_proper = w.second_proper;
        first_ready = w.first_ready.1;
        second_ready = w.second_ready;
        idle = λ t free free'. elim (Bool-cases (t == x)) [
          | inl same ↦ rw same
          | inr different ↦ rw different (
              pop_head-next s.heap h' q x e t free.0
              ∙ w.idle t (free.0, ((λ z. ==_false→ne t x different (sym z)), free.1)) free')
        ];
      }

  pub pop_task_cons :
      (s' : Queues) × (pop_task s q ≡ some (x, s'))
      × (s'.worker ≡ s.worker)
      × Schedules q r s' rest ys
  unfolding pop_task workqueue_is_empty is_empty
  pop_task_cons =
      let (h', e, list) = pop_head_cons x rest w.first in
      (
        record s { heap = set_next h' x 0 },
        rw (ne→== q 0 w.first_proper.0, w.first.links.0, ne→== x q w.first.fresh.0, e),
        refl,
        popped-Schedules h' e list,
      )

-- Where two queues share no task and the link of a task is null exactly if it is in neither:
-- `workqueue_pop_task` takes the first task of its queue, marks it as not queued, and keeps this
-- invariant; on the empty queue it returns a null pointer and changes nothing.
pub pop_task_lem :
    {q r : ℕ} {s : Queues} (xs : List ℕ) {ys : List ℕ}
    → Schedules q r s xs ys
    → (xs ≡ []) × (pop_task s q ≡ some (0, s))
      ⊎ ((x : ℕ) × (rest : List ℕ) × (s' : Queues) × (xs ≡ x ∷ rest)
          × (pop_task s q ≡ some (x, s'))
          × Schedules q r s' rest ys)
unfolding pop_task workqueue_is_empty is_empty
pop_task_lem {q} [] w = inl (refl, rw (ne→== q 0 w.first_proper.0, eq→== _ q w.first.links))
pop_task_lem (x ∷ rest) w =
    let (s', e, same, w') = pop_task_cons w in inr (x, rest, s', refl, e, w')
