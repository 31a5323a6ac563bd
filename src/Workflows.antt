-- ===== src/Workflows.antt =====
-- `WorkflowOrchestrator`, `TaskScheduler` and `AgentCommunicator` of
-- core/application/orchestrators/__init__.py. What an agent does is a parameter, with the world that
-- it changes; the agents are those that `_initialize_agents` makes. Times are left out.
pub mod Dependencies
pub mod Scheduler
pub mod Communicator
mod Examples
use self_optimizing_competit.Base.{
  ℕ, zero, suc, ◌+◌, ◌*◌, ◌/◌, Bool, true, false, ◌||◌, Option, none, some, String, List, [], ◌∷◌,
  ◌++◌, length, count, ◌>>=◌, if◌then◌else◌, map,
}
use self_optimizing_competit.Base.Dict.{Dict, lookup, insert, key_eq}

pub data WorkflowStatus : Type 0 where
  pending running completed failed paused : WorkflowStatus

pub data TaskStatus : Type 0 where
  pending assigned running completed failed skipped : TaskStatus

-- The output of an agent is `O`; the other fields of the result are left out.
pub record AgentExecutionResult (O : Type 0) : Type 0 where
  pub agent_id : String
  pub success : Bool
  pub output : Option O
  pub error : Option String

pub record WorkflowTask (C O : Type 0) : Type 0 where
  pub task_id : String
  pub agent_type : String
  pub description : String
  pub context : C
  pub dependencies : List String
  pub status : TaskStatus
  pub result : Option (AgentExecutionResult O)

pub record WorkflowExecution (C O : Type 0) : Type 0 where
  pub workflow_id : String
  pub status : WorkflowStatus
  pub tasks : List (WorkflowTask C O)
  pub results : List (AgentExecutionResult O)

abbrev pub is_completed : TaskStatus → Bool
is_completed TaskStatus.completed = true
is_completed TaskStatus.pending = false
is_completed TaskStatus.assigned = false
is_completed TaskStatus.running = false
is_completed TaskStatus.failed = false
is_completed TaskStatus.skipped = false

abbrev pub agent_types : List String
agent_types = "research" ∷ "analysis" ∷ "strategy" ∷ "report" ∷ "critique" ∷ "planner" ∷ []

abbrev pub is_agent : String → List String → Bool
is_agent name [] = false
is_agent name (k ∷ ks) = if key_eq k name then true else is_agent name ks

module _ {C O World : Type 0} (lower : String → String) (concat : String → String → String)
    (act : String → String → C → World → Option (AgentExecutionResult O) × World) where
  abbrev pub Task : Type 0
  Task = WorkflowTask C O

  abbrev pub Answer : Type 0
  Answer = AgentExecutionResult O

  -- `next((t for t in tasks if t.task_id == dep_id), None)`
  abbrev pub task_with : String → List Task → Option Task
  task_with dep_id [] = none
  task_with dep_id (t ∷ ts) = if key_eq t.task_id dep_id then some t else task_with dep_id ts

  -- A dependency that is no task of the workflow does not block.
  abbrev pub blocks : Option Task → Bool
  blocks none = false
  blocks (some t) = if is_completed t.status then false else true

  -- The first dependency that is not completed
  abbrev pub blocking : List String → List Task → Option String
  blocking [] tasks = none
  blocking (dep_id ∷ deps) tasks =
      if blocks (task_with dep_id tasks) then some dep_id else blocking deps tasks

  abbrev pub refusal : Task → String → Answer
  refusal task message = record {
    agent_id = task.agent_type;
    success = false;
    output = none;
    error = some message;
  }

  -- `_execute_task`: the task, its result or `none` for an exception, and the world
  abbrev pub finish_task : Task → Option Answer × World → (Task × Option Answer) × World
  finish_task task (none, w) = ((record task { status = TaskStatus.running }, none), w)
  finish_task task (some r, w) =
      ((record task { status = TaskStatus.running; result = some r }, some r), w)

  abbrev pub run_agent : Task → World → (Task × Option Answer) × World
  run_agent task w =
      if is_agent (lower task.agent_type) agent_types
      then finish_task task (act (lower task.agent_type) task.description task.context w)
      else (
        (task, some (refusal task (concat "Agent type " (concat task.agent_type " not found")))),
        w,
      )

  abbrev pub start_task : Task → Option String → World → (Task × Option Answer) × World
  start_task task (some dep_id) w =
      ((task, some (refusal task (concat "Dependency " (concat dep_id " not completed")))), w)
  start_task task none w = run_agent task w

  unfoldable pub execute_task : Task → List Task → World → (Task × Option Answer) × World
  execute_task task tasks w = start_task task (blocking task.dependencies tasks) w

  -- The status after the task, by its result
  abbrev pub close_task : Task → Answer → Task
  close_task task r = record task {
    status = if r.success then TaskStatus.completed else TaskStatus.failed;
  }

  pub record Progress : Type 0 where
    pub raised : Bool
    pub tasks : List Task
    pub results : List Answer
    pub world : World

  -- The loop over the tasks `todo`, with those before them; an exception leaves the rest as it is.
  abbrev pub go_on :
      List Task
      → List Task
      → (List Task → World → Progress)
      → (Task × Option Answer) × World
      → Progress
  go_on done todo rest ((task, none), w) = record {
    raised = true;
    tasks = done ++ task ∷ todo;
    results = [];
    world = w;
  }
  go_on done todo rest ((task, some r), w) =
      let p = rest (done ++ close_task task r ∷ []) w in record p { results = r ∷ p.results }

  unfoldable pub run_tasks : List Task → List Task → World → Progress
  run_tasks [] done w = record { raised = false; tasks = done; results = []; world = w }
  run_tasks (task ∷ todo) done w =
      go_on done todo (run_tasks todo) (execute_task task (done ++ task ∷ todo) w)

  pub record WorkflowOrchestrator : Type 0 where
    pub workflows : Dict (WorkflowExecution C O)

  abbrev pub close_workflow : String → Progress → WorkflowExecution C O
  close_workflow workflow_id p = record {
    workflow_id = workflow_id;
    status = if p.raised then WorkflowStatus.failed else WorkflowStatus.completed;
    tasks = p.tasks;
    results = p.results;
  }

  unfoldable pub execute_workflow :
      String
      → List Task
      → WorkflowOrchestrator
      → World
      → (WorkflowExecution C O × WorkflowOrchestrator) × World
  execute_workflow workflow_id tasks o w =
      let p = run_tasks tasks [] w in
      let workflow = close_workflow workflow_id p in
      ((workflow, record o { workflows = insert workflow_id workflow o.workflows }), p.world)

  unfoldable pub get_workflow : String → WorkflowOrchestrator → Option (WorkflowExecution C O)
  get_workflow workflow_id o = lookup workflow_id o.workflows

  abbrev list_workflows_of : Dict (WorkflowExecution C O) → List (WorkflowExecution C O)
  list_workflows_of [] = []
  list_workflows_of ((k, x) ∷ d) = x ∷ list_workflows_of d

  unfoldable pub list_workflows : WorkflowOrchestrator → List (WorkflowExecution C O)
  list_workflows o = list_workflows_of o.workflows

  -- What `get_workflow_status` tells, but for the time and the percentage, which is a float.
  pub record WorkflowReport : Type 0 where
    pub status : WorkflowStatus
    pub total_tasks : ℕ
    pub completed_tasks : ℕ
    pub task_statuses : Dict TaskStatus

  abbrev statuses_of : List Task → Dict TaskStatus → Dict TaskStatus
  statuses_of [] d = d
  statuses_of (t ∷ ts) d = statuses_of ts (insert t.task_id t.status d)

  abbrev report_of : WorkflowExecution C O → WorkflowReport
  report_of x = record {
    status = x.status;
    total_tasks = length x.tasks;
    completed_tasks = count (λ r. r.success) x.results;
    task_statuses = statuses_of x.tasks [];
  }

  unfoldable pub get_workflow_status : String → WorkflowOrchestrator → Option WorkflowReport
  get_workflow_status workflow_id o = do
    workflow ← lookup workflow_id o.workflows
    some (report_of workflow)

  abbrev pub new_task : (String → C) → String → String → String → List String → Task
  new_task context task_id agent_type description dependencies = record {
    task_id = task_id;
    agent_type = agent_type;
    description = description;
    context = context task_id;
    dependencies = dependencies;
    status = TaskStatus.pending;
    result = none;
  }

  -- The five tasks, each after the one before, with their contexts
  abbrev pub competitive_tasks : (String → C) → String → List Task
  competitive_tasks context company_name =
      new_task context "task_research" "research" (concat "Research " company_name) []
      ∷ new_task context "task_analysis" "analysis" "Analyze discovered signals"
          ("task_research" ∷ [])
      ∷ new_task context "task_strategy" "strategy" "Develop competitive strategy"
          ("task_analysis" ∷ [])
      ∷ new_task context "task_report" "report" "Generate intelligence report"
          ("task_strategy" ∷ [])
      ∷ new_task context "task_critique" "critique" "Review and validate intelligence"
          ("task_report" ∷ [])
      ∷ []

  unfoldable pub create_competitive_intelligence_workflow :
      (String → C)
      → String
      → String
      → WorkflowOrchestrator
      → World
      → (WorkflowExecution C O × WorkflowOrchestrator) × World
  create_competitive_intelligence_workflow context company_id company_name o w =
      execute_workflow (concat "ci_workflow_" company_id) (competitive_tasks context company_name) o
        w

  -- With the texts of the number of markets and of their list
  abbrev pub market_tasks : (String → C) → String → List Task
  market_tasks context markets =
      new_task context "task_planner" "planner" "Plan market analysis" []
      ∷ new_task context "task_research" "research" (concat "Research markets: " markets)
          ("task_planner" ∷ [])
      ∷ new_task context "task_analysis" "analysis" "Analyze market signals and trends"
          ("task_research" ∷ [])
      ∷ new_task context "task_report" "report" "Generate market overview" ("task_analysis" ∷ [])
      ∷ []

  unfoldable pub create_market_analysis_workflow :
      (String → C)
      → String
      → String
      → WorkflowOrchestrator
      → World
      → (WorkflowExecution C O × WorkflowOrchestrator) × World
  create_market_analysis_workflow context number markets o w =
      execute_workflow (concat "market_workflow_" number) (market_tasks context markets) o w
