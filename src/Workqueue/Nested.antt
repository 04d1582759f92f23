-- ===== src/Workqueue/Nested.antt =====
-- A queue nested in the main one.
use xplain_software_framewor.Base.{
  ℕ, ◌≡◌, ◌≢◌, ◌⊎◌, inl, inr, refl, sym, ◌∙◌, ap, subst, some, true, false, List, [], ◌∷◌, ◌++◌,
  Bool-cases, ◌==◌, if◌then◌else◌, ne→==, ==→eq, ==_false→ne,
}
use xplain_software_framewor.Slist.Links.{Apart, Separate-uncons}
use xplain_software_framewor.Workqueue.{
  Queues, add_task, nested_add_task, nested_next_task, with_current, activate,
}
use xplain_software_framewor.Workqueue.Schedule.{Schedules, Schedules-swap}
use xplain_software_framewor.Workqueue.Tasks.{add_task_lem, pop_task_lem, pop_task_cons}

module _ {main wq : ℕ} {s : Queues} {xs ys : List ℕ} (w : Schedules main wq s xs ys) where
  module _ (task : ℕ) (other : Apart task (main ∷ wq ∷ [])) (proper : task ≢ 0)
      (works : s.worker task ≢ 0) where
    to_main :
        Apart task xs
        → Apart task ys
        → (s' : Queues) × (add_task s main task ≡ some (true, s'))
          × Schedules main wq s' (xs ++ task ∷ []) ys
    to_main out out' = elim (add_task_lem w task other proper works) [
      | inl (_, _, done) ↦ done
      | inr (queued, _) ↦ absurd (queued (out, out'))
    ]

    to_nested :
        Apart task xs
        → Apart task ys
        → (s' : Queues) × (add_task s wq task ≡ some (true, s'))
          × Schedules main wq s' xs (ys ++ task ∷ [])
    to_nested out out' =
        elim (add_task_lem (Schedules-swap w) task (other.1.0, (other.0, tt)) proper works) [
          | inl (_, _, (s', e, w')) ↦ (s', e, Schedules-swap w')
          | inr (queued, _) ↦ absurd (queued (out', out))
        ]

    -- Where the main and the nested queue are a schedule, `nested_workqueue_add_task` of a proper
    -- task with a work function that is in neither queue makes it current and appends it to the
    -- main queue if no task is current, and otherwise appends it to the nested queue; they are a
    -- schedule again.
    pub nested_add_task_lem :
        (current : ℕ)
        → Apart task xs
        → Apart task ys
        → (current ≡ 0)
            × ((s' : Queues) × (nested_add_task main wq current s task ≡ some (true, task, s'))
                × Schedules main wq s' (xs ++ task ∷ []) ys)
          ⊎ (current ≢ 0)
            × ((s' : Queues) × (nested_add_task main wq current s task ≡ some (true, current, s'))
                × Schedules main wq s' xs (ys ++ task ∷ []))
    unfolding nested_add_task
    nested_add_task_lem current out out' = elim (Bool-cases (current == 0)) [
      | inl free ↦
          let (s', e, w') = to_main out out' in
          inl (==→eq current 0 free, (s', rw free (ap (with_current task) e), w'))
      | inr busy ↦
          let (s', e, w') = to_nested out out' in
          inr (==_false→ne current 0 busy, (s', rw busy (ap (with_current current) e), w'))
    ]

    -- Where the main and the nested queue are a schedule, `nested_workqueue_add_task` of a task
    -- that is already queued reports that it did nothing; but if no task was current, the task is
    -- current afterwards.
    pub nested_add_task-again :
        (current : ℕ)
        → ¬ (Apart task xs × Apart task ys)
        → nested_add_task main wq current s task
          ≡ some (false, (if current == 0 then task else current), s)
    unfolding nested_add_task
    nested_add_task-again current queued = elim (Bool-cases (current == 0)) [
      | inl free ↦ rw free (elim (add_task_lem w task other proper works) [
        | inl (out, out', _) ↦ absurd (queued (out, out'))
        | inr (_, e) ↦ ap (with_current task) e
      ])
      | inr busy ↦
          rw busy
            (elim (add_task_lem (Schedules-swap w) task (other.1.0, (other.0, tt)) proper works) [
              | inl (out', out, _) ↦ absurd (queued (out, out'))
              | inr (_, e) ↦ ap (with_current current) e
            ])
    ]

module _ {main wq y : ℕ} {s : Queues} {xs rest : List ℕ}
    (w : Schedules main wq s xs (y ∷ rest)) where
  next_cons :
      (s' : Queues) × (nested_next_task main wq s ≡ some (y, s'))
      × Schedules main wq s' (xs ++ y ∷ []) rest
  unfolding nested_next_task
  next_cons =
      let (s1, e1, same, w1) = pop_task_cons (Schedules-swap w) in
      let (out, out') = Separate-uncons main xs (wq ∷ y ∷ rest) w.apart in
      let works : s1.worker y ≢ 0 = subst (λ f. f y ≢ 0) (sym same) w.second_ready.0 in
      let (s2, e2, w2) =
        to_main (Schedules-swap w1) y
          ((λ z. out.1.0 (sym z)), ((λ z. w.second.fresh.0 (sym z)), tt)) w.second_proper.1.0 works
          out'.1.0 w.second.distinct.0 in
      (s2, ap (activate main wq) e1 ∙ rw (ne→== y 0 w.second_proper.1.0, e2), w2)

-- Where the main and the nested queue are a schedule, `nested_workqueue_next_task` moves the first
-- task of the nested queue to the end of the main queue and makes it current, and they are a
-- schedule again; if the nested queue is empty, no task is current and nothing else changes.
pub nested_next_task_lem :
    {main wq : ℕ} {s : Queues} {xs : List ℕ} (ys : List ℕ)
    → Schedules main wq s xs ys
    → (ys ≡ []) × (nested_next_task main wq s ≡ some (0, s))
      ⊎ ((y : ℕ) × (rest : List ℕ) × (s' : Queues) × (ys ≡ y ∷ rest)
          × (nested_next_task main wq s ≡ some (y, s'))
          × Schedules main wq s' (xs ++ y ∷ []) rest)
unfolding nested_next_task
nested_next_task_lem {main} {wq} [] w = elim (pop_task_lem [] (Schedules-swap w)) [
  | inl (none_left, e) ↦ inl (refl, ap (activate main wq) e)
  | inr (y, rest, s', same, _, _) ↦ absurd (cc same)
]
nested_next_task_lem (y ∷ rest) w = let (s', e, w') = next_cons w in inr (y, rest, s', refl, e, w')
