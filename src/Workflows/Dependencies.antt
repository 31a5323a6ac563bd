-- ===== src/Workflows/Dependencies.antt =====
-- In a workflow no task completes before the tasks that it depends on.
use mathlib.Core.Path.{subst}
use mathlib.Core.List.{append-nil}
use mathlib.Core.Option.{some-injective}
use self_optimizing_competit.Base.{
  ◌≡◌, ◌⊎◌, refl, sym, ◌∙◌, true, false, Option, none, some, String, List, [], ◌∷◌, ◌++◌, All,
  All-append, All-map, arith, Bool-cases, Option-cases, inl, inr,
}
use self_optimizing_competit.Base.Dict.{key_eq, lookup-insert_self}
use self_optimizing_competit.Workflows.{
  AgentExecutionResult, WorkflowTask, is_completed, is_agent, agent_types, task_with, blocks,
  blocking, start_task, finish_task, execute_task, close_task, Progress, go_on, run_tasks,
  execute_workflow, get_workflow, WorkflowOrchestrator,
}

module _ {C O World : Type 0} (lower : String → String) (concat : String → String → String)
    (act : String → String → C → World → Option (AgentExecutionResult O) × World) where
  abbrev T : Type 0
  T = WorkflowTask C O

  abbrev find : String → List T → Option T
  find = task_with lower concat act

  found_append :
      (k : String) (xs ys : List T) (t : T) → find k xs ≡ some t → find k (xs ++ ys) ≡ some t
  found_append k [] ys t h = absurd (ground (arith, h))
  found_append k (x ∷ xs) ys t h = ground (arith, found_append k xs ys t)

  missing_append : (k : String) (xs ys : List T) → find k xs ≡ none → find k (xs ++ ys) ≡ find k ys
  missing_append k [] ys h = refl
  missing_append k (x ∷ xs) ys h = ground (arith, missing_append k xs ys)

  find_all {κ} :
      (P : T → Type κ) (k : String) (xs : List T) (t : T) → All P xs → find k xs ≡ some t → P t
  find_all P k [] t all h = absurd (ground (arith, h))
  find_all P k (x ∷ xs) t all h = elim (Bool-cases (key_eq x.task_id k)) [
    | inl same ↦ subst P (some-injective x t (rw same at h)) all.0
    | inr other ↦ find_all P k xs t all.1 (rw other at h)
  ]

  -- With the tasks that are done, and those to do: the first task of the name is done and completed,
  -- or there is none.
  abbrev IsReady : List T → List T → String → Type 0
  IsReady done todo k =
      ((t : T) × (find k done ≡ some t) × (is_completed t.status ≡ true))
      ⊎ ((find k done ≡ none) × (find k todo ≡ none))

  moved-IsReady :
      (done todo : List T) (x x' : T) (k : String)
      → x'.task_id ≡ x.task_id
      → IsReady done (x ∷ todo) k
      → IsReady (done ++ x' ∷ []) todo k
  moved-IsReady done todo x x' k same (inl (t, found, good)) =
      inl (t, found_append k done (x' ∷ []) t found, good)
  moved-IsReady done todo x x' k same (inr (before, after)) = inr (
    missing_append k done (x' ∷ []) before ∙ ground (arith, after, same),
    ground (arith, after, same),
  )

  -- No dependency blocks the task.
  unblocked :
      (deps : List String) (tasks : List T)
      → blocking lower concat act deps tasks ≡ none
      → All (λ k. blocks lower concat act (find k tasks) ≡ false) deps
  unblocked [] tasks h = tt
  unblocked (k ∷ deps) tasks h = elim (Bool-cases (blocks lower concat act (find k tasks))) [
    | inl blocked ↦ absurd (ground (arith, (rw blocked at h)))
    | inr free ↦ (free, unblocked deps tasks (rw free at h))
  ]

  open_blocks :
      (k : String) (done todo : List T) (u : T)
      → find k done ≡ none
      → find k todo ≡ some u
      → is_completed u.status ≡ false
      → blocks lower concat act (find k (done ++ todo)) ≡ false
      → ⊥
  open_blocks k done todo u missing there waits free =
      ground (arith, waits, (rw (missing_append k done todo missing, there) at free))

  -- A task that is not blocked depends on tasks that are done.
  unblocked-IsReady :
      (k : String) (done todo : List T)
      → All (λ t. is_completed t.status ≡ false) todo
      → blocks lower concat act (find k (done ++ todo)) ≡ false
      → IsReady done todo k
  unblocked-IsReady k done todo fresh free = elim (Option-cases (find k done)) [
    | inr (t, found) ↦
        inl (t, found, ground (arith, (rw (found_append k done todo t found) at free)))
    | inl missing ↦ inr (
      missing,
      elim (Option-cases (find k todo)) [
        | inl absent ↦ absent
        | inr (u, there) ↦ absurd (
            open_blocks k done todo u missing there
              (find_all (λ t. is_completed t.status ≡ false) k todo u fresh there) free)
      ],
    )
  ]

  -- What is known of the tasks that are done
  abbrev IsSettled : List T → List T → T → Type 0
  IsSettled done todo t = is_completed t.status ≡ true → All (IsReady done todo) t.dependencies

  moved-IsSettled :
      (done todo : List T) (x x' t : T)
      → x'.task_id ≡ x.task_id
      → IsSettled done (x ∷ todo) t
      → IsSettled (done ++ x' ∷ []) todo t
  moved-IsSettled done todo x x' t same h good =
      All-map (λ k ready. moved-IsReady done todo x x' k same ready) t.dependencies (h good)

  -- A task that is executed keeps its name and dependencies, and one that was blocked fails.
  abbrev IsExecuted : T → Option String → (T × Option (AgentExecutionResult O)) × World → Type 0
  IsExecuted x o ((x', r), w') =
      (x'.task_id ≡ x.task_id)
      × (x'.dependencies ≡ x.dependencies)
      × (r ≡ none → is_completed x'.status ≡ false)
      × ((a : AgentExecutionResult O) → r ≡ some a → a.success ≡ true → o ≡ none)

  finish-IsExecuted :
      (x : T) (p : Option (AgentExecutionResult O) × World)
      → IsExecuted x none (finish_task lower concat act x p)
  finish-IsExecuted x (none, w) = (refl, refl, λ e. refl, λ a e good. refl)
  finish-IsExecuted x (some r, w) = (refl, refl, λ e. refl, λ a e good. refl)

  start-IsExecuted :
      (x : T) (o : Option String) (w : World) → IsExecuted x o (start_task lower concat act x o w)
  start-IsExecuted x (some k) w =
      (refl, refl, λ e. absurd (ground (arith, e)), λ a e good. absurd (ground (arith, e, good)))
  start-IsExecuted x none w = elim (Bool-cases (is_agent (lower x.agent_type) agent_types)) [
    | inl known ↦
        rw known (finish-IsExecuted x (act (lower x.agent_type) x.description x.context w))
    | inr unknown ↦ rw unknown (refl, refl, λ e. absurd (ground (arith, e)), λ a e good. refl)
  ]

  -- No task completes before those that it depends on.
  abbrev pub IsOrdered : List T → Type 0
  IsOrdered tasks =
      All
        (λ t.
          is_completed t.status ≡ true
          → All (λ k. (u : T) → find k tasks ≡ some u → is_completed u.status ≡ true)
              t.dependencies)
        tasks

  ready_final :
      (done todo : List T) (k : String)
      → IsReady done todo k
      → (u : T) → find k (done ++ todo) ≡ some u
      → is_completed u.status ≡ true
  ready_final done todo k (inl (t, found, good)) u h =
      subst (λ v. is_completed v.status ≡ true)
        (some-injective t u (sym (found_append k done todo t found) ∙ h)) good
  ready_final done todo k (inr (before, after)) u h =
      absurd (ground (arith, after, sym (missing_append k done todo before) ∙ h))

  renamed-IsReady :
      (done todo : List T) (x x' : T) (k : String)
      → x'.task_id ≡ x.task_id
      → IsReady done (x ∷ todo) k
      → IsReady done (x' ∷ todo) k
  renamed-IsReady done todo x x' k same (inl found) = inl found
  renamed-IsReady done todo x x' k same (inr (before, after)) =
      inr (before, ground (arith, after, same))

  settled-IsOrdered :
      (done todo : List T)
      → All (IsSettled done todo) done
      → All (λ t. is_completed t.status ≡ false) todo
      → IsOrdered (done ++ todo)
  settled-IsOrdered done todo settled fresh =
      All-append _ done todo
        (All-map (λ t h good. All-map (ready_final done todo) t.dependencies (h good)) done settled)
        (All-map (λ t waits good. absurd (ground (arith, waits, good))) todo fresh)

  went_on :
      (done todo : List T) (x : T) (rest : List T → World → Progress lower concat act)
      (p : (T × Option (AgentExecutionResult O)) × World)
      → IsExecuted x (blocking lower concat act x.dependencies (done ++ x ∷ todo)) p
      → All (IsSettled done (x ∷ todo)) done
      → All (λ t. is_completed t.status ≡ false) (x ∷ todo)
      → ((done' : List T) (w : World)
          → All (IsSettled done' todo) done'
          → IsOrdered (rest done' w).tasks)
      → IsOrdered (go_on lower concat act done todo rest p).tasks
  went_on done todo x rest ((x', none), w) (name, deps, undone, good) settled fresh ih =
      settled-IsOrdered done (x' ∷ todo)
        (All-map
          (λ t h good. All-map (λ k. renamed-IsReady done todo x x' k name) t.dependencies (h good))
          done settled)
        (undone refl, fresh.1)
  went_on done todo x rest ((x', some r), w) (name, deps, undone, good) settled fresh ih =
      let x'' = close_task lower concat act x' r in
      let closed : IsSettled (done ++ x'' ∷ []) todo x'' = λ completed.
        let succeeded : r.success ≡ true = ground (arith, completed) in
        All-map
          (λ k free.
            moved-IsReady done todo x x'' k name (unblocked-IsReady k done (x ∷ todo) fresh free))
          x'.dependencies
          (rw deps (unblocked x.dependencies (done ++ x ∷ todo) (good r refl succeeded))) in
      ih (done ++ x'' ∷ []) w (
        All-append _ done (x'' ∷ [])
          (All-map (λ t. moved-IsSettled done todo x x'' t name) done settled) (closed, tt))

  run_tasks-IsOrdered :
      (todo done : List T) (w : World)
      → All (IsSettled done todo) done
      → All (λ t. is_completed t.status ≡ false) todo
      → IsOrdered (run_tasks lower concat act todo done w).tasks
  unfolding run_tasks execute_task
  run_tasks-IsOrdered [] done w settled fresh =
      subst IsOrdered (append-nil done) (settled-IsOrdered done [] settled tt)
  run_tasks-IsOrdered (x ∷ todo) done w settled fresh =
      went_on done todo x (run_tasks lower concat act todo)
        (execute_task lower concat act x (done ++ x ∷ todo) w)
        (start-IsExecuted x (blocking lower concat act x.dependencies (done ++ x ∷ todo)) w) settled
        fresh (λ done' w' settled'. run_tasks-IsOrdered todo done' w' settled' fresh.1)

  -- `execute_workflow` with tasks of which none is completed at the start, in whatever order, with
  -- whatever dependencies, and whether the agents succeed, fail or raise: in the workflow that it
  -- returns and stores, a task is completed only if for each of its dependencies the first task of
  -- that name, if there is one, is completed too.
  pub execute_workflow-IsOrdered :
      (workflow_id : String) (tasks : List (WorkflowTask C O))
      (o : WorkflowOrchestrator lower concat act) (w : World)
      → All (λ t. is_completed t.status ≡ false) tasks
      → let ((workflow, o'), w') = execute_workflow lower concat act workflow_id tasks o w in
        (get_workflow lower concat act workflow_id o' ≡ some workflow)
        × All
            (λ t.
              is_completed t.status ≡ true
              → All
                  (λ k.
                    (u : WorkflowTask C O)
                    → task_with lower concat act k workflow.tasks ≡ some u
                    → is_completed u.status ≡ true)
                  t.dependencies)
            workflow.tasks
  unfolding execute_workflow get_workflow
  execute_workflow-IsOrdered workflow_id tasks o w fresh =
      (lookup-insert_self workflow_id _ o.workflows, run_tasks-IsOrdered tasks [] w tt fresh)
