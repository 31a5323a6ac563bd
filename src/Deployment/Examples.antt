-- ===== src/Deployment/Examples.antt =====
-- A pipeline of two steps in a world that counts the commands, and a canary.
use self_optimizing_competit.Base.{
  ◌==◌, ℕ, suc, ◌+◌, ◌*◌, ◌≡◌, refl, true, false, none, some, String, List, [], ◌∷◌, ◌++◌, arith,
  leb, ltb, drop, length, if◌then◌else◌,
}
use self_optimizing_competit.Base.Dict.{key_eq}
use self_optimizing_competit.Deployment
use self_optimizing_competit.Deployment.{
  StageResult, Deployment, PipelineStep, Completion, returned, DeploymentPipeline, completed,
  failed, pending, build, test, add_step, trigger_deployment, execute_deployment, rollback,
  record_of, update, new_deployment, get_deployment, get_deployments, execute,
}
use self_optimizing_competit.Deployment.Execution.{IsRun, execute_deployment-IsRun}
use self_optimizing_competit.Deployment.Rollback.{made_by, rolled, rollback-IsRun}
use self_optimizing_competit.Deployment.Canary.{
  CanaryDeployment, start_canary, increment_canary, get_traffic_percentage,
}
use self_optimizing_competit.Deployment.Canary
use self_optimizing_competit.Deployment.Canary.Completion.{increments, increments-share}

-- The command "fail" returns 1.
abbrev shell : String → ℕ → ℕ → Completion × ℕ
shell command timeout n = elim (key_eq command "fail") [
  | true ↦ (returned 1 "" "no", suc n)
  | false ↦ (returned 0 "ok" "", suc n)
]

abbrev decimal : ℕ → String
decimal n = "300"

abbrev concat : String → String → String
concat a b = a

abbrev step_of : Deployment.DeploymentStage → String → PipelineStep
step_of stage command = record {
  name = command;
  stage = stage;
  command = command;
  timeout_seconds = 300;
}

abbrev pipeline : DeploymentPipeline
unfolding Deployment.init add_step trigger_deployment
pipeline =
    (trigger_deployment "d1" "2.0" "production" "ann"
      (add_step (step_of test "fail") (add_step (step_of build "make") Deployment.init))).1

abbrev fresh : Deployment.Deployment
fresh = new_deployment "d1" "2.0" "production" "ann"

stops : (execute_deployment shell decimal concat 0 pipeline 0).1 ≡ 2
unfolding pipeline Deployment.init add_step trigger_deployment execute_deployment execute
stops = refl

finds : get_deployment "d1" pipeline ≡ some fresh
unfolding pipeline Deployment.init add_step trigger_deployment get_deployment
finds = refl

-- A limit of 0 asks for all.
lists : get_deployments none 0 pipeline ≡ fresh ∷ []
unfolding pipeline Deployment.init add_step trigger_deployment get_deployments
lists = refl

abbrev canary : CanaryDeployment
unfolding Canary.init start_canary
canary = start_canary "b" 20 (start_canary "a" 5 Canary.init)

half : get_traffic_percentage "a" (increments 2 5 "a" 21 canary) ≡ some 110
unfolding canary Canary.init start_canary increment_canary get_traffic_percentage
half = refl

execute_deployment-IsRun_example :
    let ((success, p'), w') = execute_deployment shell decimal concat 0 pipeline 0 in
    (results : List StageResult) × IsRun shell decimal concat 0 pipeline.steps success results w'
    × ((j : ℕ)
        → record_of p' j ≡ (
            if j == 0
            then some (record fresh {
              status = if success then completed else failed;
              stages = fresh.stages ++ results;
            })
            else record_of pipeline j))
unfolding pipeline Deployment.init add_step trigger_deployment
execute_deployment-IsRun_example =
    execute_deployment-IsRun shell decimal concat 0 fresh pipeline 0 refl

rollback-IsRun_example :
    let ((success, p'), w') = rollback shell decimal concat 0 fresh "1.0" pipeline 0 in
    (results : List StageResult) × IsRun shell decimal concat 0 pipeline.steps success results w'
    × (p'.objects
        ≡ update 0 (rolled shell decimal concat success "1.0") pipeline.objects
          ++ record (made_by shell decimal concat fresh "1.0") {
            status = if success then completed else failed;
            stages = results;
          }
            ∷ [])
    × (p'.deployments
        ≡ (if ltb (length pipeline.deployments) 1000
            then pipeline.deployments
            else drop 1 pipeline.deployments)
          ++ length pipeline.objects ∷ [])
    × (p'.current_deployment ≡ some (length pipeline.objects))
unfolding pipeline Deployment.init add_step trigger_deployment
rollback-IsRun_example = rollback-IsRun shell decimal concat 0 fresh "1.0" pipeline 0 refl

increments-share_example :
    ((n : ℕ) (j : String)
      → get_traffic_percentage j (increments 2 n "a" 21 canary) ≡ (
          if key_eq "a" j
          then (let p = 5 + n * 21 in if leb (100 * 2) p then none else some p)
          else get_traffic_percentage j canary))
    × (get_traffic_percentage "a" (increments 2 (100 * 2) "a" 21 canary) ≡ none)
unfolding canary Canary.init start_canary get_traffic_percentage
increments-share_example =
    increments-share 2 "a" 5 21 canary (refl, (refl, tt)) refl (ground arith) (ground arith)
