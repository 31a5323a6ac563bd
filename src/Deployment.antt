-- ===== src/Deployment.antt =====
-- `PipelineStep` and `DeploymentPipeline` of core/infrastructure/deployment/pipeline.py.
-- What a command does is a parameter, with the world that it changes. A `Deployment` is an object:
-- the records stand in a store under their references, and the deque holds references. Times and
-- durations are left out: they are recorded and never read. Nothing in `execute_deployment` raises,
-- since `execute` catches what a command raises.
pub mod Monitor
pub mod Canary
pub mod Execution
pub mod Rollback
mod Examples
use self_optimizing_competit.Base.{
  ℕ, zero, suc, ◌+◌, ◌-◌, Bool, true, false, Option, none, some, String, List, [], ◌∷◌, ◌++◌,
  length, drop, keep, ltb, ◌==◌, if◌then◌else◌, get_elem?,
}
use self_optimizing_competit.Base.Dict.{key_eq}

pub data DeploymentStatus : Type 0 where
  pending in_progress completed failed rolled_back : DeploymentStatus

pub data DeploymentStage : Type 0 where
  build test security_scan staging_deploy staging_test production_deploy production_verify cleanup :
      DeploymentStage

pub record StageResult : Type 0 where
  pub stage : DeploymentStage
  pub status : DeploymentStatus
  pub output : String
  pub error_message : Option String

-- `rollback_needed` is left out: it is never written.
pub record Deployment : Type 0 where
  pub deployment_id : String
  pub version : String
  pub environment : String
  pub triggered_by : String
  pub status : DeploymentStatus
  pub stages : List StageResult
  pub rollback_version : Option String

pub record PipelineStep : Type 0 where
  pub name : String
  pub stage : DeploymentStage
  pub command : String
  pub timeout_seconds : ℕ

-- What `subprocess.run` does: it returns a code and two outputs, runs out of time, or raises. A code
-- below 0, after a signal, is any code but 0.
pub data Completion : Type 0 where
  returned : ℕ → String → String → Completion
  timed_out : Completion
  raised : String → Completion

-- `objects` are the deployments that were made, and `deployments` the references that are kept.
pub record DeploymentPipeline : Type 0 where
  pub steps : List PipelineStep
  pub objects : List Deployment
  pub deployments : List ℕ
  pub current_deployment : Option ℕ

unfoldable pub init : DeploymentPipeline
init = record { steps = []; objects = []; deployments = []; current_deployment = none }

unfoldable pub add_step : PipelineStep → DeploymentPipeline → DeploymentPipeline
add_step step p = record p { steps = p.steps ++ step ∷ [] }

-- A deque of bounded length, where a new element may push out the oldest.
abbrev pub append_bounded {ℓ} : {A : Type ℓ} → ℕ → A → List A → List A
append_bounded maxlen x xs =
    let longer = xs ++ x ∷ [] in if ltb maxlen (length longer) then drop 1 longer else longer

-- `xs[-limit:]`, which is the whole list for a limit of 0
abbrev pub last_of {ℓ} : {A : Type ℓ} → ℕ → List A → List A
last_of limit xs = if limit == 0 then xs else drop (length xs - limit) xs

abbrev pub new_deployment : String → String → String → String → Deployment
new_deployment deployment_id version environment triggered_by = record {
  deployment_id = deployment_id;
  version = version;
  environment = environment;
  triggered_by = triggered_by;
  status = pending;
  stages = [];
  rollback_version = none;
}

-- The reference of the new record is returned.
unfoldable pub trigger_deployment :
    String → String → String → String → DeploymentPipeline → ℕ × DeploymentPipeline
trigger_deployment deployment_id version environment triggered_by p =
    let deployment = length p.objects in
    (
      deployment,
      record p {
        objects = p.objects ++ new_deployment deployment_id version environment triggered_by ∷ [];
        deployments = append_bounded 1000 deployment p.deployments;
        current_deployment = some deployment;
      },
    )

abbrev pub update : ℕ → (Deployment → Deployment) → List Deployment → List Deployment
update i f [] = []
update zero f (d ∷ ds) = f d ∷ ds
update (suc i) f (d ∷ ds) = d ∷ update i f ds

module _ {World : Type 0} (run : String → ℕ → World → Completion × World) (decimal : ℕ → String)
    (concat : String → String → String) where
  abbrev pub judge : ℕ → Completion → Bool × String × String
  judge timeout_seconds (returned code stdout stderr) = (code == 0, stdout, stderr)
  judge timeout_seconds timed_out =
      (false, "", concat "Timeout after " (concat (decimal timeout_seconds) "s"))
  judge timeout_seconds (raised message) = (false, "", message)

  unfoldable pub execute : PipelineStep → World → (Bool × String × String) × World
  execute step w =
      let (completion, w') = run step.command step.timeout_seconds w in
      (judge step.timeout_seconds completion, w')

  abbrev pub result_of : PipelineStep → Bool × String × String → StageResult
  result_of step (success, stdout, stderr) = record {
    stage = step.stage;
    status = if success then completed else failed;
    output = stdout;
    error_message = if success then none else some stderr;
  }

  -- The loop, with the results that it appends; it stops at the first failure.
  abbrev pub run_steps : List PipelineStep → World → (Bool × List StageResult) × World
  run_steps [] w = ((true, []), w)
  run_steps (step ∷ steps) w =
      let (answer, w') = execute step w in
      let rest = run_steps steps w' in
      if answer.0
      then ((rest.0.0, result_of step answer ∷ rest.0.1), rest.1)
      else ((false, result_of step answer ∷ []), w')

  abbrev pub finish : Bool × List StageResult → Deployment → Deployment
  finish (success, results) d = record d {
    status = if success then completed else failed;
    stages = d.stages ++ results;
  }

  unfoldable pub execute_deployment :
      ℕ → DeploymentPipeline → World → (Bool × DeploymentPipeline) × World
  execute_deployment deployment p w =
      let (outcome, w') = run_steps p.steps w in
      ((outcome.0, record p { objects = update deployment (finish outcome) p.objects }), w')

  abbrev pub mark_rolled_back : String → Deployment → Deployment
  mark_rolled_back rollback_version d = record d {
    status = rolled_back;
    rollback_version = some rollback_version;
  }

  abbrev pub rollback_record : Deployment → String → DeploymentPipeline → ℕ × DeploymentPipeline
  rollback_record d rollback_version p =
      trigger_deployment (concat d.deployment_id "-rollback") rollback_version d.environment
        "system" p

  -- `d` is the record of the reference `deployment`.
  unfoldable pub rollback :
      ℕ → Deployment → String → DeploymentPipeline → World → (Bool × DeploymentPipeline) × World
  rollback deployment d rollback_version p w =
      let (made, p1) = rollback_record d rollback_version p in
      let ((success, p2), w') = execute_deployment made p1 w in
      if success
      then (
        (
          true,
          record p2 { objects = update deployment (mark_rolled_back rollback_version) p2.objects },
        ),
        w',
      )
      else ((false, p2), w')

abbrev pub record_of : DeploymentPipeline → ℕ → Option Deployment
record_of p i = get_elem? p.objects i

-- The records of the deque, the oldest first
abbrev pub records : List ℕ → DeploymentPipeline → List Deployment
records [] p = []
records (i ∷ is) p = elim (record_of p i) [ none ↦ records is p | some d ↦ d ∷ records is p ]

abbrev first_with : String → List Deployment → Option Deployment
first_with deployment_id [] = none
first_with deployment_id (d ∷ ds) =
    if key_eq d.deployment_id deployment_id then some d else first_with deployment_id ds

unfoldable pub get_deployment : String → DeploymentPipeline → Option Deployment
get_deployment deployment_id p = first_with deployment_id (records p.deployments p)

-- No environment, and the empty one, ask for all.
abbrev pub of_environment : Option String → List Deployment → List Deployment
of_environment none ds = ds
of_environment (some environment) ds =
    if key_eq environment "" then ds else keep (λ d. key_eq d.environment environment) ds

unfoldable pub get_deployments : Option String → ℕ → DeploymentPipeline → List Deployment
get_deployments environment limit p =
    last_of limit (of_environment environment (records p.deployments p))
