-- ===== src/Workqueue/Tests.antt =====
-- The main queue at 8 has the tasks 24 and 32, and the nested one at 16 has 40.
use xplain_software_framewor.Base.{
  ℕ, ◌≡◌, ◌≢◌, ◌⊎◌, refl, ◌∙◌, true, false, some, List, [], ◌∷◌, ◌++◌, arith,
}
use xplain_software_framewor.Slist.{put}
use xplain_software_framewor.Slist.Links.{Apart, put_other}
use xplain_software_framewor.Workqueue.{
  Queues, add_task, pop_task, nested_add_task, nested_next_task,
}
use xplain_software_framewor.Workqueue.Schedule.{Schedules}
use xplain_software_framewor.Workqueue.Tasks.{add_task_lem, pop_task_lem}
use xplain_software_framewor.Workqueue.Nested.{nested_add_task_lem, nested_next_task_lem}

abbrev none_queued : Queues
none_queued = record { heap = record { next = λ a. 0; last = λ a. 0 }; worker = λ a. 1 }

abbrev queues : Queues
queues = record {
  heap = record {
    next = put (put (put (put (put (λ a. 0) 8 24) 24 32) 32 8) 16 40) 40 16;
    last = put (put (λ a. 0) 8 32) 16 40;
  };
  worker = λ a. 1;
}

abbrev nested : List ℕ
nested = 40 ∷ []

abbrev busy : ℕ
busy = 56

abbrev tasks : List ℕ
tasks = 24 ∷ 32 ∷ []

-- no other link is set
others_idle : (t : ℕ) → Apart t (8 ∷ tasks) → Apart t (16 ∷ 40 ∷ []) → queues.heap.next t ≡ 0
others_idle t out out' =
    put_other (put (put (put (put (λ a. 0) 8 24) 24 32) 32 8) 16 40) 40 16 t out'.1.0
    ∙ put_other (put (put (put (λ a. 0) 8 24) 24 32) 32 8) 16 40 t out'.0
    ∙ put_other (put (put (λ a. 0) 8 24) 24 32) 32 8 t out.1.1.0
    ∙ put_other (put (λ a. 0) 8 24) 24 32 t out.1.0
    ∙ put_other (λ a. 0) 8 24 t out.0

queues-Schedules : Schedules 8 16 queues tasks (40 ∷ [])
queues-Schedules = record {
  first = record {
    links = (refl, (refl, refl));
    last_node = refl;
    fresh = ((λ e. omega arith), ((λ e. omega arith), tt));
    distinct = (((λ e. omega arith), tt), (tt, tt));
  };
  second = record {
    links = (refl, refl);
    last_node = refl;
    fresh = ((λ e. omega arith), tt);
    distinct = (tt, tt);
  };
  apart = (
    ((λ e. omega arith), ((λ e. omega arith), ((λ e. omega arith), tt))),
    (((λ e. omega arith), ((λ e. omega arith), ((λ e. omega arith), tt))), tt),
  );
  first_proper = ((λ e. omega arith), ((λ e. omega arith), ((λ e. omega arith), tt)));
  second_proper = ((λ e. omega arith), ((λ e. omega arith), tt));
  first_ready = ((λ e. omega arith), ((λ e. omega arith), tt));
  second_ready = ((λ e. omega arith), tt);
  idle = others_idle;
}

add_task_example :
    (Apart 48 tasks
      × Apart 48 (40 ∷ [])
      × ((s' : Queues) × (add_task queues 8 48 ≡ some (true, s'))
          × Schedules 8 16 s' (tasks ++ 48 ∷ []) (40 ∷ [])))
    ⊎ (¬ (Apart 48 tasks × Apart 48 (40 ∷ []))) × (add_task queues 8 48 ≡ some (false, queues))
add_task_example =
    add_task_lem queues-Schedules 48 ((λ e. omega arith), ((λ e. omega arith), tt))
      (λ e. omega arith) (λ e. omega arith)

pop_task_example :
    (tasks ≡ []) × (pop_task queues 8 ≡ some (0, queues))
    ⊎ ((x : ℕ) × (rest : List ℕ) × (s' : Queues) × (tasks ≡ x ∷ rest)
        × (pop_task queues 8 ≡ some (x, s'))
        × Schedules 8 16 s' rest (40 ∷ []))
pop_task_example = pop_task_lem tasks queues-Schedules

nested_add_task_example :
    (busy ≡ 0)
      × ((s' : Queues) × (nested_add_task 8 16 busy queues 48 ≡ some (true, 48, s'))
          × Schedules 8 16 s' (tasks ++ 48 ∷ []) (40 ∷ []))
    ⊎ (busy ≢ 0)
      × ((s' : Queues) × (nested_add_task 8 16 busy queues 48 ≡ some (true, busy, s'))
          × Schedules 8 16 s' tasks (40 ∷ 48 ∷ []))
nested_add_task_example =
    nested_add_task_lem queues-Schedules 48 ((λ e. omega arith), ((λ e. omega arith), tt))
      (λ e. omega arith) (λ e. omega arith) busy ((λ e. omega arith), ((λ e. omega arith), tt))
      ((λ e. omega arith), tt)

nested_next_example :
    (nested ≡ []) × (nested_next_task 8 16 queues ≡ some (0, queues))
    ⊎ ((y : ℕ) × (rest : List ℕ) × (s' : Queues) × (nested ≡ y ∷ rest)
        × (nested_next_task 8 16 queues ≡ some (y, s'))
        × Schedules 8 16 s' (tasks ++ y ∷ []) rest)
nested_next_example = nested_next_task_lem (40 ∷ []) queues-Schedules
