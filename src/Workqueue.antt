-- ===== src/Workqueue.antt =====
-- include/workqueue.h and util/workqueue.c: queues of tasks, and queues nested in the main one.
-- Interrupts are disabled around every change, so that each operation is one step; the assertion
-- of `workqueue_pop_task` that they are disabled is its caller's duty.
pub mod Schedule
pub mod Tasks
pub mod Nested
pub mod Setup
mod Tests
use xplain_software_framewor.Base.{
  ℕ, Bool, true, false, not, Option, none, some, ◌==◌, if◌then◌else◌,
}
use xplain_software_framewor.Slist
use xplain_software_framewor.Slist.{Heap, put, set_next}

-- All queues and tasks: a task is the address of its node, and `worker` is the work function of
-- each, 0 for a null pointer.
pub record Queues : Type 0 where
  pub heap : Heap
  pub worker : ℕ → ℕ

-- `none` is a failed assertion.
pub workqueue_init : Queues → ℕ → Option Queues
workqueue_init s queue =
    if queue == 0 then none else some (record s { heap = Slist.init s.heap queue })

pub task_set_work_func : Queues → ℕ → ℕ → Queues
task_set_work_func s task worker_func = record s { worker = put s.worker task worker_func }

pub task_init : Queues → ℕ → ℕ → Queues
task_init s task worker_func =
    task_set_work_func (record s { heap = set_next s.heap task 0 }) task worker_func

pub workqueue_is_empty : Queues → ℕ → Bool
workqueue_is_empty s queue = Slist.is_empty s.heap queue

pub task_is_queued : Queues → ℕ → Bool
task_is_queued s task = not (s.heap.next task == 0)

pub add_task : Queues → ℕ → ℕ → Option (Bool × Queues)
add_task s queue task =
    if queue == 0
    then none
    else if task == 0
    then some (false, s)
    else if s.worker task == 0
    then none
    else if task_is_queued s task
    then some (false, s)
    else some (true, record s { heap = Slist.insert_tail s.heap queue task })

abbrev pub mark_ready : Queues → Option (ℕ × Heap) → Option (ℕ × Queues)
mark_ready s none = none
mark_ready s (some (task, h)) = some (task, record s { heap = set_next h task 0 })

-- A null result means that the queue is empty.
pub pop_task : Queues → ℕ → Option (ℕ × Queues)
pop_task s queue =
    if queue == 0
    then none
    else if workqueue_is_empty s queue
    then some (0, s)
    else mark_ready s (Slist.pop_head_node s.heap queue)

-- `struct nested_workqueue` is the address of its queue, and `current`.
abbrev pub with_current : ℕ → Option (Bool × Queues) → Option (Bool × ℕ × Queues)
with_current current none = none
with_current current (some (was_queued, s)) = some (was_queued, current, s)

pub nested_init : ℕ → Queues → Option (ℕ × Queues)
nested_init wq s = elim (workqueue_init s wq) [ none ↦ none | some s' ↦ some (0, s') ]

module _ (main_workqueue wq : ℕ) where
  pub nested_add_task : ℕ → Queues → ℕ → Option (Bool × ℕ × Queues)
  nested_add_task current s task =
      if not (current == 0)
      then with_current current (add_task s wq task)
      else with_current task (add_task s main_workqueue task)

  -- what follows the pop of `task`
  abbrev pub activate : Option (ℕ × Queues) → Option (ℕ × Queues)
  activate none = none
  activate (some (task, s)) =
      if not (task == 0)
      then (elim (add_task s main_workqueue task) [ none ↦ none | some (_, s') ↦ some (task, s') ])
      else some (task, s)

  pub nested_next_task : Queues → Option (ℕ × Queues)
  nested_next_task s = activate (pop_task s wq)
