-- ===== src/Workers/Scheduler.antt =====
-- `JobScheduler` of core/infrastructure/scaling/workers.py: scheduling, cancelling and one pass of
-- the loop. The clock is read once for the test of all jobs, and twice for each job that is run:
-- before its task is submitted and after it. The tasks that it submits are listed; no other task
-- changes the jobs during a pass.
pub mod Paces
pub mod Spacing
pub mod Runs
use self_optimizing_competit.Base.{
  ℕ, zero, suc, ◌+◌, ◌*◌, Bool, true, false, ◌&&◌, Option, none, some, String, List, [], ◌∷◌, ltb,
  leb, ◌==◌, if◌then◌else◌,
}
use self_optimizing_competit.Base.Dict.{Dict, lookup, insert}
use self_optimizing_competit.RateLimit.Metrics.{second}
use self_optimizing_competit.Workers.{Task}

pub data ScheduleType : Type 0 where
  once periodic cron interval : ScheduleType

-- `cron_expression` and `last_result` are left out: nothing reads them.
pub record ScheduledJob : Type 0 where
  pub id : String
  pub name : String
  pub task : Task
  pub schedule_type : ScheduleType
  pub interval_seconds : Option ℕ
  pub next_run : Option ℕ
  pub last_run : Option ℕ
  pub enabled : Bool
  pub max_runs : Option ℕ
  pub runs : ℕ

pub record JobScheduler : Type 0 where
  pub jobs : Dict ScheduledJob
  pub scheduled_jobs : ℕ
  pub completed_jobs : ℕ

unfoldable pub init : JobScheduler
init = record { jobs = []; scheduled_jobs = 0; completed_jobs = 0 }

-- `interval_seconds or 60`
abbrev pub interval_of : Option ℕ → ℕ
interval_of none = 60
interval_of (some n) = if n == 0 then 60 else n

abbrev pub or_now : ℕ → Option ℕ → ℕ
or_now now none = now
or_now now (some t) = t

abbrev pub first_run : ScheduleType → ℕ → ScheduledJob → ScheduledJob
first_run ScheduleType.once now j = record j { next_run = some (or_now now j.next_run) }
first_run ScheduleType.interval now j = record j {
  next_run = some (now + interval_of j.interval_seconds * second);
}
first_run _ now j = j

unfoldable pub schedule_job : ℕ → ScheduledJob → JobScheduler → JobScheduler
schedule_job now j s = record s {
  jobs = insert j.id (first_run j.schedule_type now j) s.jobs;
  scheduled_jobs = s.scheduled_jobs + 1;
}

unfoldable pub cancel_job : String → JobScheduler → Bool × JobScheduler
cancel_job id s = elim (lookup id s.jobs) [
  | none ↦ (false, s)
  | some j ↦ (true, record s { jobs = insert id (record j { enabled = false }) s.jobs })
]

abbrev pub has_come : ℕ → Option ℕ → Bool
has_come now none = false
has_come now (some t) = leb t now

-- `not job.max_runs or job.runs < job.max_runs`
abbrev pub has_runs_left : Option ℕ → ℕ → Bool
has_runs_left none runs = true
has_runs_left (some m) runs = if m == 0 then true else ltb runs m

abbrev pub is_due : ℕ → ScheduledJob → Bool
is_due now j = j.enabled && has_come now j.next_run && has_runs_left j.max_runs j.runs

abbrev pub next_of : ScheduleType → ℕ → ScheduledJob → ScheduledJob
next_of ScheduleType.interval now j = record j {
  next_run = some (now + interval_of j.interval_seconds * second);
}
next_of ScheduleType.once now j = record j { enabled = false }
next_of _ now j = j

-- The clock reads `started` before the submission, and `submitted` after it.
abbrev pub run_job : ℕ → ℕ → ScheduledJob → ScheduledJob
run_job started submitted j =
    next_of j.schedule_type submitted (record j { last_run = some started; runs = j.runs + 1 })

abbrev pub completes : ScheduleType → ℕ
completes ScheduleType.once = 1
completes _ = 0

-- What the clock reads before and after the submission of a job, by its key.
abbrev pub Readings : Type 0
Readings = String → ℕ × ℕ

-- The jobs after a pass, the tasks submitted, and how many jobs are completed.
abbrev pub run_due : ℕ → Readings → Dict ScheduledJob → List Task × ℕ × Dict ScheduledJob
run_due now readings [] = ([], 0, [])
run_due now readings ((id, j) ∷ jobs) =
    let (tasks, completed, rest) = run_due now readings jobs in
    if is_due now j
    then (
      j.task ∷ tasks,
      completes j.schedule_type + completed,
      (id, run_job (readings id).0 (readings id).1 j) ∷ rest,
    )
    else (tasks, completed, (id, j) ∷ rest)

-- One pass of `_scheduler_loop`
unfoldable pub scheduler_pass : ℕ → Readings → JobScheduler → List Task × JobScheduler
scheduler_pass now readings s =
    let (tasks, completed, jobs) = run_due now readings s.jobs in
    (tasks, record s { jobs = jobs; completed_jobs = s.completed_jobs + completed })
