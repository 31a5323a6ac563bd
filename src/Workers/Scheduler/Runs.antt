-- ===== src/Workers/Scheduler/Runs.antt =====
-- How often, and how close together, a job is submitted.
use self_optimizing_competit.Base.{ℕ, false, String, Option-cases, inl, inr}
use self_optimizing_competit.Base.Dict.{lookup}
use self_optimizing_competit.Workers.Scheduler.{
  ScheduledJob, JobScheduler, init, first_run, schedule_job, cancel_job, Readings, scheduler_pass,
}
use self_optimizing_competit.Workers.Scheduler.Paces.{
  IsFresh, first_run-IsPaced, disabled-IsTimed, AllPaced, insert-AllPaced, lookup-AllPaced, IsClock,
  run_due-AllPaced,
}
use self_optimizing_competit.Workers.Scheduler.Spacing.{AllSpaced, run_due-AllSpaced}

pub data Step (s : JobScheduler) : JobScheduler → Type 0 where
  scheduled : (now : ℕ) (j : ScheduledJob) → IsFresh j → Step s (schedule_job now j s)
  cancelled : (id : String) → Step s (cancel_job id s).1
  passed :
      (now : ℕ) (readings : Readings)
      → IsClock now readings
      → Step s (scheduler_pass now readings s).1

pub data Reach : JobScheduler → Type 0 where
  here : Reach init
  next : {s t : JobScheduler} → Reach s → Step s t → Reach t

cancel_step : (id : String) (s : JobScheduler) → AllPaced s.jobs → AllPaced (cancel_job id s).1.jobs
unfolding cancel_job
cancel_step id s h = elim (Option-cases (lookup id s.jobs)) [
  | inl absent ↦ rw (absent, cancel_job) h
  | inr (j, known) ↦
      let p = lookup-AllPaced id s.jobs j h known in
      rw (known, cancel_job)
        (insert-AllPaced id (record j { enabled = false }) s.jobs
          (record { capped = p.capped; timed = disabled-IsTimed j.schedule_type j p.timed }) h)
]

step-AllPaced : {s t : JobScheduler} → Step s t → AllPaced s.jobs → AllPaced t.jobs
unfolding schedule_job scheduler_pass
step-AllPaced {s} (scheduled now j fresh) h =
    insert-AllPaced j.id (first_run j.schedule_type now j) s.jobs (first_run-IsPaced now j fresh) h
step-AllPaced {s} (cancelled id) h = cancel_step id s h
step-AllPaced {s} (passed now readings clock) h = run_due-AllPaced now readings s.jobs clock h

reach_invariant : (s : JobScheduler) → Reach s → AllPaced s.jobs
unfolding init
reach_invariant s here = tt
reach_invariant s (next r st) = step-AllPaced st (reach_invariant _ r)

-- In every history of jobs that are scheduled before their first run, cancellations and passes,
-- where no pass is interrupted by another task and the clock is not set back during one: no job has
-- run more often than its `max_runs`, where that is set and not 0; a job to be run once has run
-- once at most, and not while it is enabled; and the next run of an interval job that has run
-- stands one interval after its last at least. The next pass, at any time, leaves a job as it is,
-- or runs it once: then it is enabled and its time has come, and for an interval job an interval
-- has passed since the run before, if there was one.
pub reach-AllPaced :
    (s : JobScheduler) (now : ℕ) (readings : Readings)
    → Reach s
    → IsClock now readings
    → AllPaced s.jobs × AllSpaced now s.jobs (scheduler_pass now readings s).1.jobs
unfolding scheduler_pass
reach-AllPaced s now readings r clock =
    let paced = reach_invariant s r in (paced, run_due-AllSpaced now readings s.jobs clock paced)
