-- ===== src/Workers/Examples.antt =====
-- Runs on small inputs, and each theorem at an input that meets its hypotheses.
use self_optimizing_competit.Base.{ℕ, ◌*◌, ◌≡◌, refl, true, none, List, [], ◌∷◌, arith}
use self_optimizing_competit.RateLimit.Metrics.{second}
use self_optimizing_competit.Workers
use self_optimizing_competit.Workers.{Task, TaskPriority, JobStatus, WorkerPool, submit, take}
use self_optimizing_competit.Workers.Counts
use self_optimizing_competit.Workers.Counts.{System, IsCounted, reach-IsCounted}
use self_optimizing_competit.Workers.Retries.{IsRetrying, rounds, postponed_by, rounds_never_end}
use self_optimizing_competit.Workers.Scheduler
use self_optimizing_competit.Workers.Scheduler.{
  ScheduleType, ScheduledJob, JobScheduler, Readings, schedule_job, scheduler_pass,
}
use self_optimizing_competit.Workers.Scheduler.Runs
use self_optimizing_competit.Workers.Scheduler.Paces.{AllPaced, IsClock}
use self_optimizing_competit.Workers.Scheduler.Spacing.{AllSpaced}
use self_optimizing_competit.Workers.Scheduler.Runs.{reach-AllPaced}

abbrev crawl : Task
crawl = record {
  id = "t1";
  name = "crawl";
  has_function = true;
  priority = TaskPriority.normal;
  created_at = 0;
  scheduled_for = none;
  max_retries = 3;
  timeout = none;
}

abbrev loaded : WorkerPool
unfolding Workers.init submit
loaded = submit crawl (Workers.init 4)

-- A task is submitted and taken.
busy : System
unfolding Workers.init submit take
busy = record { pool = take [] (submit crawl (Workers.init 4)); executing = 1; settling = 0 }

busy_reached : Counts.Reach 4 1 busy
unfolding busy Workers.init submit take Workers.is_before
busy_reached =
    Counts.next (Counts.next Counts.here (Counts.submitted crawl))
      (Counts.taken crawl [] [] refl (refl, tt))

reach-IsCounted_example : IsCounted 1 busy
reach-IsCounted_example = reach-IsCounted 4 1 busy busy_reached

-- Four executions, one more than `max_retries` allows.
abbrev ends : List ℕ
ends = second ∷ 4 * second ∷ 7 * second ∷ 10 * second ∷ []

rounds_never_end_example : IsRetrying 4 (postponed_by ends crawl) loaded (rounds ends loaded)
unfolding loaded Workers.init submit
rounds_never_end_example = rounds_never_end ends crawl loaded (omega arith) refl

abbrev nightly : ScheduledJob
nightly = record {
  id = "j1";
  name = "nightly";
  task = crawl;
  schedule_type = ScheduleType.once;
  interval_seconds = none;
  next_run = none;
  last_run = none;
  enabled = true;
  max_runs = none;
  runs = 0;
}

-- The submission takes a microsecond.
abbrev quick : Readings
quick id = (6, 7)

quick-IsClock : IsClock 5 quick
quick-IsClock id = (omega arith, omega arith)

after_pass : JobScheduler
unfolding Scheduler.init schedule_job scheduler_pass
after_pass = (scheduler_pass 5 quick (schedule_job 0 nightly Scheduler.init)).1

pass_reached : Runs.Reach after_pass
unfolding after_pass Scheduler.init schedule_job scheduler_pass
pass_reached =
    Runs.next (Runs.next Runs.here (Runs.scheduled 0 nightly (refl, refl)))
      (Runs.passed 5 quick quick-IsClock)

one_submitted : (scheduler_pass 5 quick (schedule_job 0 nightly Scheduler.init)).0 ≡ crawl ∷ []
unfolding Scheduler.init schedule_job scheduler_pass
one_submitted = refl

-- The second pass submits nothing.
none_submitted : (scheduler_pass 6 quick after_pass).0 ≡ []
unfolding after_pass Scheduler.init schedule_job scheduler_pass
none_submitted = refl

reach-AllPaced_example :
    AllPaced after_pass.jobs
    × AllSpaced 5 after_pass.jobs (scheduler_pass 5 quick after_pass).1.jobs
reach-AllPaced_example = reach-AllPaced after_pass 5 quick pass_reached quick-IsClock
