-- ===== src/Workqueue/Setup.antt =====
-- The two queues when they have been initialised.
use xplain_software_framewor.Base.{ℕ, ◌≡◌, ◌≢◌, sym, ◌∙◌, some, [], ne→==}
use xplain_software_framewor.Slist.{put, init}
use xplain_software_framewor.Slist.Links.{IsList-set_next, IsList-last, put_other}
use xplain_software_framewor.Slist.Insert.{init-IsList}
use xplain_software_framewor.Workqueue.{Queues, workqueue_init, nested_init}
use xplain_software_framewor.Workqueue.Schedule.{Schedules}

module _ (main wq : ℕ) (s : Queues) (differ : main ≢ wq) (proper : main ≢ 0)
    (proper' : wq ≢ 0) where
  both : Queues
  both = record s { heap = init (init s.heap main) wq }

  both-Schedules : ((t : ℕ) → s.heap.next t ≡ 0) → Schedules main wq both [] []
  unfolding both init
  both-Schedules idle = record {
    first =
        IsList-last (put (put s.heap.last main main) wq wq)
          (put_other (put s.heap.last main main) wq wq main (λ e. differ (sym e)))
          (IsList-set_next wq wq (differ, tt) (init-IsList s.heap main));
    second = init-IsList (init s.heap main) wq;
    apart = ((differ, tt), tt);
    first_proper = (proper, tt);
    second_proper = (proper', tt);
    first_ready = tt;
    second_ready = tt;
    idle = λ t out out'.
        put_other (put s.heap.next main main) wq wq t out'.0
        ∙ put_other s.heap.next main main t out.0
        ∙ idle t;
  }

  -- `workqueue_init` of the main queue and then `nested_workqueue_init` of another one, where all
  -- links are null, make a schedule of two empty queues, with no current task.
  pub setup-Schedules :
      ((t : ℕ) → s.heap.next t ≡ 0)
      → (s1 : Queues) × (s2 : Queues) × (workqueue_init s main ≡ some s1)
        × (nested_init wq s1 ≡ some (0, s2))
        × Schedules main wq s2 [] []
  unfolding workqueue_init nested_init both
  setup-Schedules idle = (
    record s { heap = init s.heap main },
    both,
    rw (ne→== main 0 proper),
    rw (ne→== wq 0 proper', nested_init),
    both-Schedules idle,
  )
