-- ===== src/Workflows/Scheduler.antt =====
-- `TaskScheduler` of core/application/orchestrators/__init__.py, which only keeps its tasks: nothing
-- runs them. `X` is what a task or a result holds; times are left out.
use self_optimizing_competit.Base.{
  Bool, true, false, Option, none, some, String, List, [], ◌∷◌, ◌++◌, keep, if◌then◌else◌,
}
use self_optimizing_competit.Base.Dict.{Dict, contains, insert, erase, key_eq}

pub record ScheduledTask (X : Type 0) : Type 0 where
  pub agent_type : String
  pub context : X
  pub schedule : String
  pub recurring : Bool

pub record TaskScheduler (X : Type 0) : Type 0 where
  pub scheduled_tasks : Dict (ScheduledTask X)
  pub task_history : List (String × X)

module _ {X : Type 0} where
  unfoldable pub schedule_task : String → ScheduledTask X → TaskScheduler X → TaskScheduler X
  schedule_task task_id task s = record s {
    scheduled_tasks = insert task_id task s.scheduled_tasks;
  }

  abbrev tasks_of : Dict (ScheduledTask X) → List (ScheduledTask X)
  tasks_of [] = []
  tasks_of ((k, t) ∷ d) = t ∷ tasks_of d

  -- No type, and the empty one, ask for all.
  abbrev of_type : Option String → List (ScheduledTask X) → List (ScheduledTask X)
  of_type none ts = ts
  of_type (some a) ts = if key_eq a "" then ts else keep (λ t. key_eq t.agent_type a) ts

  unfoldable pub get_scheduled_tasks : Option String → TaskScheduler X → List (ScheduledTask X)
  get_scheduled_tasks agent_type s = of_type agent_type (tasks_of s.scheduled_tasks)

  unfoldable pub cancel_task : String → TaskScheduler X → Bool × TaskScheduler X
  cancel_task task_id s =
      if contains task_id s.scheduled_tasks
      then (true, record s { scheduled_tasks = erase task_id s.scheduled_tasks })
      else (false, s)

  unfoldable pub record_execution : String → X → TaskScheduler X → TaskScheduler X
  record_execution task_id result s = record s {
    task_history = s.task_history ++ (task_id, result) ∷ [];
  }

  abbrev of_task : Option String → List (String × X) → List (String × X)
  of_task none hs = hs
  of_task (some k) hs = if key_eq k "" then hs else keep (λ h. key_eq h.0 k) hs

  unfoldable pub get_task_history : Option String → TaskScheduler X → List (String × X)
  get_task_history task_id s = of_task task_id s.task_history
