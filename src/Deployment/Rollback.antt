-- ===== src/Deployment/Rollback.antt =====
-- `DeploymentPipeline.rollback` of core/infrastructure/deployment/pipeline.py.
use self_optimizing_competit.Base.{
  ℕ, zero, suc, ◌<◌, ◌≡◌, refl, sym, ap, ◌∙◌, Bool, true, false, ltb, drop, length-append, some,
  String, List, [], ◌∷◌, ◌++◌, length, arith, if◌then◌else◌, Bool-cases, inl, inr,
}
use self_optimizing_competit.Deployment.{
  completed, failed, rolled_back, StageResult, Deployment, Completion, DeploymentPipeline,
  trigger_deployment, append_bounded, update, run_steps, finish, execute_deployment, new_deployment,
  rollback, mark_rolled_back, record_of,
}
use self_optimizing_competit.Deployment.Execution.{IsRun, run_steps-IsRun, get_known}

update_newest :
    (f : Deployment → Deployment) (ds : List Deployment) (d : Deployment)
    → update (length ds) f (ds ++ d ∷ []) ≡ ds ++ f d ∷ []
update_newest f [] d = refl
update_newest f (x ∷ ds) d = ap (λ r. x ∷ r) (update_newest f ds d)

update_older :
    (i : ℕ) (f : Deployment → Deployment) (ds : List Deployment) (d : Deployment)
    → i < length ds
    → update i f (ds ++ d ∷ []) ≡ update i f ds ++ d ∷ []
update_older i f [] d h = absurd (omega arith)
update_older zero f (x ∷ ds) d h = refl
update_older (suc i) f (x ∷ ds) d h = ap (λ r. x ∷ r) (update_older i f ds d (omega arith))

update_same : (i : ℕ) (ds : List Deployment) → update i (λ d. d) ds ≡ ds
update_same i [] = refl
update_same zero (x ∷ ds) = refl
update_same (suc i) (x ∷ ds) = ap (λ r. x ∷ r) (update_same i ds)

drop-append : (x : ℕ) (xs : List ℕ) → 0 < length xs → drop 1 (xs ++ x ∷ []) ≡ drop 1 xs ++ x ∷ []
drop-append x [] h = absurd (omega arith)
drop-append x (y ∷ ys) h = refl

append_bounded_lem :
    (n x : ℕ) (xs : List ℕ)
    → append_bounded (suc n) x xs ≡ (if ltb (length xs) (suc n) then xs else drop 1 xs) ++ x ∷ []
append_bounded_lem n x xs =
    let longer : length (xs ++ x ∷ []) ≡ suc (length xs) =
      length-append xs (x ∷ []) ∙ omega arith in
    elim (Bool-cases (ltb (length xs) (suc n))) [
      | inl fits ↦
          let short : ltb (suc n) (length (xs ++ x ∷ [])) ≡ false = ground (arith, longer, fits) in
          rw (fits, short) refl
      | inr over ↦
          let long : ltb (suc n) (length (xs ++ x ∷ [])) ≡ true = ground (arith, longer, over) in
          rw (over, long) (drop-append x xs (ground arith))
    ]

module _ {World : Type 0} (run : String → ℕ → World → Completion × World) (decimal : ℕ → String)
    (concat : String → String → String) where
  abbrev pub made_by : Deployment → String → Deployment
  made_by d v = new_deployment (concat d.deployment_id "-rollback") v d.environment "system"

  abbrev pub rolled : Bool → String → Deployment → Deployment
  rolled success v d =
      if success then record d { status = rolled_back; rollback_version = some v } else d

  -- `rollback` of a known record runs the steps of the pipeline in order up to the first failure, and
  -- answers whether all succeeded. Afterwards the objects are those of before, the old one marked as
  -- rolled back to the version exactly if all succeeded, and one new object, with the wanted version
  -- and the environment of the old one, the results of the run, and a status that says completed or
  -- failed. The pipeline keeps the new one at the end of its deque, which drops its oldest where it
  -- held 1000 before, and as the current deployment.
  pub rollback-IsRun :
      (i : ℕ) (d : Deployment) (v : String) (p : DeploymentPipeline) (w : World)
      → record_of p i ≡ some d
      → let ((success, p'), w') = rollback run decimal concat i d v p w in
        (results : List StageResult) × IsRun run decimal concat w p.steps success results w'
        × (p'.objects
            ≡ update i (rolled success v) p.objects
              ++ record (made_by d v) {
                status = if success then completed else failed;
                stages = results;
              }
                ∷ [])
        × (p'.deployments
            ≡ (if ltb (length p.deployments) 1000 then p.deployments else drop 1 p.deployments)
              ++ length p.objects ∷ [])
        × (p'.current_deployment ≡ some (length p.objects))
  unfolding rollback execute_deployment trigger_deployment
  rollback-IsRun i d v p w known =
      let r = run_steps run decimal concat p.steps w in
      let ran = run_steps-IsRun run decimal concat p.steps w in
      let made = update_newest (finish run decimal concat r.0) p.objects (made_by d v) in
      let kept = append_bounded_lem 999 (length p.objects) p.deployments in
      let f = mark_rolled_back run decimal concat v in
      elim (Bool-cases r.0.0) [
        | inl good ↦ rw good (
          r.0.1,
          rw good at ran,
          ap (update i f) made
              ∙ update_older i f p.objects _ (get_known p.objects i d known)
              ∙ rw good refl,
          kept,
          refl,
        )
        | inr bad ↦ rw bad (
          r.0.1,
          rw bad at ran,
          (rw bad at made)
              ∙ ap (λ ds. ds ++ finish run decimal concat (false, r.0.1) (made_by d v) ∷ [])
                  (sym (update_same i p.objects)),
          kept,
          refl,
        )
      ]

  -- The version makes no difference to what is run.
  rollback_blind :
      (i j : ℕ) (d e : Deployment) (v u : String) (p : DeploymentPipeline) (w : World)
      → (rollback run decimal concat i d v p w).1 ≡ (execute_deployment run decimal concat j p w).1
  unfolding rollback execute_deployment trigger_deployment
  rollback_blind i j d e v u p w = elim (Bool-cases (run_steps run decimal concat p.steps w).0.0) [
    | inl good ↦ rw good refl
    | inr bad ↦ rw bad refl
  ]
