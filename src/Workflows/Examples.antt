-- ===== src/Workflows/Examples.antt =====
-- The workflow of a company, where the strategy fails, with agents that count their calls.
use self_optimizing_competit.Base.{
  ℕ, suc, ◌≡◌, refl, true, false, Option, none, some, String, List, [], ◌∷◌, All, map,
  if◌then◌else◌,
}
use self_optimizing_competit.Base.Dict.{key_eq}
use self_optimizing_competit.Workflows
use self_optimizing_competit.Workflows.{
  AgentExecutionResult, WorkflowTask, WorkflowOrchestrator, TaskStatus, is_completed, task_with,
  competitive_tasks, execute_workflow, execute_task, run_tasks, get_workflow,
}
use self_optimizing_competit.Workflows.Dependencies.{execute_workflow-IsOrdered}

abbrev lower : String → String
lower name = name

abbrev concat : String → String → String
concat a b = a

abbrev act : String → String → ℕ → ℕ → Option (AgentExecutionResult ℕ) × ℕ
act name task context n = (
  some (record {
    agent_id = name;
    success = if key_eq name "strategy" then false else true;
    output = some n;
    error = none;
  }),
  suc n,
)

abbrev empty : WorkflowOrchestrator lower concat act
empty = record { workflows = [] }

abbrev tasks : List (WorkflowTask ℕ ℕ)
tasks = competitive_tasks lower concat act (λ k. 0) "Acme"

-- The report and its critique are not made; two agents have succeeded and one has failed.
ends :
    (map (λ t. t.status) (execute_workflow lower concat act "w" tasks empty 0).0.0.tasks
      ≡ TaskStatus.completed ∷ TaskStatus.completed ∷ TaskStatus.failed ∷ TaskStatus.failed
        ∷ TaskStatus.failed ∷ [])
    × ((execute_workflow lower concat act "w" tasks empty 0).1 ≡ 3)
unfolding execute_workflow run_tasks execute_task
ends = (refl, refl)

-- And the workflow counts as completed.
still_completed :
    (execute_workflow lower concat act "w" tasks empty 0).0.0.status
    ≡ Workflows.WorkflowStatus.completed
unfolding execute_workflow run_tasks execute_task
still_completed = refl

execute_workflow-IsOrdered_example :
    let ((workflow, o'), w') = execute_workflow lower concat act "w" tasks empty 0 in
    (get_workflow lower concat act "w" o' ≡ some workflow)
    × All
        (λ t.
          is_completed t.status ≡ true
          → All
              (λ k.
                (u : WorkflowTask ℕ ℕ)
                → task_with lower concat act k workflow.tasks ≡ some u
                → is_completed u.status ≡ true)
              t.dependencies)
        workflow.tasks
execute_workflow-IsOrdered_example =
    execute_workflow-IsOrdered lower concat act "w" tasks empty 0
      (refl, (refl, (refl, (refl, (refl, tt)))))
