-- ===== src/Deployment/Execution.antt =====
-- A deployment runs its steps in order up to the first failure, and a rollback does the same.
use self_optimizing_competit.Base.{
  ◌==◌, ==_iff, ℕ, zero, suc, ◌<◌, ◌≡◌, ◌≢◌, refl, ap, Option, Bool, true, false, none, some,
  String, List, [], ◌∷◌, ◌++◌, length, arith, get_elem?, if◌then◌else◌, Bool-cases, inl, inr,
}
use self_optimizing_competit.Deployment.{
  DeploymentStage, DeploymentStatus, completed, failed, returned, timed_out, raised, StageResult,
  Deployment, PipelineStep, Completion, DeploymentPipeline, update, execute, run_steps, finish,
  execute_deployment, record_of,
}

get_update_self :
    (i : ℕ) (f : Deployment → Deployment) (ds : List Deployment) (d : Deployment)
    → get_elem? ds i ≡ some d
    → get_elem? (update i f ds) i ≡ some (f d)
get_update_self i f [] d e = absurd (ground (arith, e))
get_update_self zero f (x ∷ ds) d e = cc e
get_update_self (suc i) f (x ∷ ds) d e = get_update_self i f ds d e

get_update_other :
    (i j : ℕ) (f : Deployment → Deployment) (ds : List Deployment)
    → j ≢ i
    → get_elem? (update i f ds) j ≡ get_elem? ds j
get_update_other i j f [] other = refl
get_update_other zero zero f (x ∷ ds) other = absurd (other refl)
get_update_other zero (suc j) f (x ∷ ds) other = refl
get_update_other (suc i) zero f (x ∷ ds) other = refl
get_update_other (suc i) (suc j) f (x ∷ ds) other =
    get_update_other i j f ds (λ e. other (ap suc e))

pub get_known :
    (ds : List Deployment) (i : ℕ) (d : Deployment) → get_elem? ds i ≡ some d → i < length ds
get_known [] i d e = absurd (ground (arith, e))
get_known (x ∷ ds) zero d e = ground arith
get_known (x ∷ ds) (suc i) d e = let h = get_known ds i d e in omega arith

-- The records after a change of a known one
get_update :
    (i j : ℕ) (f : Deployment → Deployment) (ds : List Deployment) (d : Deployment)
    → get_elem? ds i ≡ some d
    → get_elem? (update i f ds) j ≡ (if j == i then some (f d) else get_elem? ds j)
get_update i j f ds d known = elim (Bool-cases (j == i)) [
  | inl same ↦ rw (same, (==_iff j i).0 same) (get_update_self i f ds d known)
  | inr other ↦
      rw other (get_update_other i j f ds (λ e. absurd (ground (arith, (==_iff j i).1 e, other))))
]

abbrev pub result : DeploymentStage → DeploymentStatus → String → Option String → StageResult
result stage status output error_message = record {
  stage = stage;
  status = status;
  output = output;
  error_message = error_message;
}

module _ {World : Type 0} (run : String → ℕ → World → Completion × World) (decimal : ℕ → String)
    (concat : String → String → String) where
  -- The results and the world that a list of steps leads to: each step is run after the steps before
  -- it have returned 0, and no step is run after one that returns anything else, runs out of time or
  -- raises. A result keeps the output of its step, and the message of a failed one.
  pub data IsRun : World → List PipelineStep → Bool → List StageResult → World → Type 0 where
    all_passed : {w : World} → IsRun w [] true [] w
    returned_other :
        {step : PipelineStep} {steps : List PipelineStep} {w w' : World} {code : ℕ}
        {stdout stderr : String}
        → run step.command step.timeout_seconds w ≡ (returned (suc code) stdout stderr, w')
        → IsRun w (step ∷ steps) false (result step.stage failed stdout (some stderr) ∷ []) w'
    ran_out_of_time :
        {step : PipelineStep} {steps : List PipelineStep} {w w' : World}
        → run step.command step.timeout_seconds w ≡ (timed_out, w')
        → IsRun w
            (step ∷ steps)
            false
            (result step.stage failed ""
                (some (concat "Timeout after " (concat (decimal step.timeout_seconds) "s")))
              ∷ [])
            w'
    has_raised :
        {step : PipelineStep} {steps : List PipelineStep} {w w' : World} {message : String}
        → run step.command step.timeout_seconds w ≡ (raised message, w')
        → IsRun w (step ∷ steps) false (result step.stage failed "" (some message) ∷ []) w'
    passed :
        {step : PipelineStep} {steps : List PipelineStep} {w w' w'' : World} {success : Bool}
        {stdout stderr : String} {results : List StageResult}
        → run step.command step.timeout_seconds w ≡ (returned 0 stdout stderr, w')
        → IsRun w' steps success results w''
        → IsRun w (step ∷ steps) success (result step.stage completed stdout none ∷ results) w''

  run_step-IsRun :
      (step : PipelineStep) (steps : List PipelineStep) (w : World) (c : Completion) (w' : World)
      → run step.command step.timeout_seconds w ≡ (c, w')
      → (let ((success, results), w'') = run_steps run decimal concat steps w' in
          IsRun w' steps success results w'')
      → let ((success, results), w'') = run_steps run decimal concat (step ∷ steps) w in
        IsRun w (step ∷ steps) success results w''
  unfolding execute
  run_step-IsRun step steps w (returned zero stdout stderr) w' e rest = rw e (passed e rest)
  run_step-IsRun step steps w (returned (suc code) stdout stderr) w' e rest =
      let bad : (suc code == 0) ≡ false = ground arith in rw (e, bad) (returned_other e)
  run_step-IsRun step steps w timed_out w' e rest = rw e (ran_out_of_time e)
  run_step-IsRun step steps w (raised message) w' e rest = rw e (has_raised e)

  pub run_steps-IsRun :
      (steps : List PipelineStep) (w : World)
      → let ((success, results), w') = run_steps run decimal concat steps w in
        IsRun w steps success results w'
  run_steps-IsRun [] w = all_passed
  run_steps-IsRun (step ∷ steps) w = run_step-IsRun step steps w _ _ refl (run_steps-IsRun steps _)

  -- `execute_deployment` of a known record runs the steps in order up to the first one that returns
  -- another code than 0, runs out of time or raises, and answers whether there was none. One result
  -- for each step that it ran stands behind the stages of the record, in order: with the output of
  -- the step, completed without a message, or failed with the error output, the timeout or the
  -- message raised. The status of the record says completed or failed accordingly; the rest of it
  -- stays, and so does every other record.
  pub execute_deployment-IsRun :
      (i : ℕ) (d : Deployment) (p : DeploymentPipeline) (w : World)
      → record_of p i ≡ some d
      → let ((success, p'), w') = execute_deployment run decimal concat i p w in
        (results : List StageResult) × IsRun w p.steps success results w'
        × ((j : ℕ)
            → record_of p' j ≡ (
                if j == i
                then some (record d {
                  status = if success then completed else failed;
                  stages = d.stages ++ results;
                })
                else record_of p j))
  unfolding execute_deployment
  execute_deployment-IsRun i d p w known =
      let r = run_steps run decimal concat p.steps w in
      (
        r.0.1,
        run_steps-IsRun p.steps w,
        λ j. get_update i j (finish run decimal concat r.0) p.objects d known,
      )
