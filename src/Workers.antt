-- ===== src/Workers.antt =====
-- `WorkerPool` of core/infrastructure/scaling/workers.py: submission, the worker loop and the
-- execution of a task, cut where a worker suspends. Times are microseconds. Callbacks only log or
-- are outside, and a task that is queued twice is two values here.
pub mod Counts
pub mod Retries
pub mod Scheduler
mod Examples
use self_optimizing_competit.Base.{
  ℕ, zero, ◌+◌, ◌-◌, ◌*◌, ◌^◌, max, Bool, true, false, Option, none, some, String, List, [], ◌∷◌,
  ◌++◌, length, ltb, ◌==◌, if◌then◌else◌,
}
use self_optimizing_competit.Base.Dict.{Dict, insert}
use self_optimizing_competit.RateLimit.Metrics.{second}

pub data JobStatus : Type 0 where
  pending queued running completed failed cancelled retrying : JobStatus

pub data TaskPriority : Type 0 where
  low normal high critical : TaskPriority

-- `priority.value`
abbrev pub value_of : TaskPriority → ℕ
value_of TaskPriority.low = 3
value_of TaskPriority.normal = 2
value_of TaskPriority.high = 1
value_of TaskPriority.critical = 0

-- `has_function` says whether `function` is set.
pub record Task : Type 0 where
  pub id : String
  pub name : String
  pub has_function : Bool
  pub priority : TaskPriority
  pub created_at : ℕ
  pub scheduled_for : Option ℕ
  pub max_retries : ℕ
  pub timeout : Option ℕ

-- `__lt__`
unfoldable pub is_before : Task → Task → Bool
is_before t u =
    if value_of t.priority == value_of u.priority
    then ltb t.created_at u.created_at
    else ltb (value_of t.priority) (value_of u.priority)

pub record JobResult : Type 0 where
  pub job_id : String
  pub status : JobStatus
  pub start_time : ℕ
  pub end_time : Option ℕ
  pub retries : ℕ

pub record WorkerStats : Type 0 where
  pub total_tasks : ℕ
  pub completed_tasks : ℕ
  pub failed_tasks : ℕ
  pub active_workers : ℕ
  pub queued_tasks : ℕ
  pub max_queue_size : ℕ
  pub total_retries : ℕ
  pub scheduled_jobs : ℕ
  pub completed_jobs : ℕ

abbrev pub no_stats : WorkerStats
no_stats = record {
  total_tasks = 0;
  completed_tasks = 0;
  failed_tasks = 0;
  active_workers = 0;
  queued_tasks = 0;
  max_queue_size = 0;
  total_retries = 0;
  scheduled_jobs = 0;
  completed_jobs = 0;
}

-- `queue` holds what is in the heap; its order says nothing.
pub record WorkerPool : Type 0 where
  pub num_workers : ℕ
  pub queue : List Task
  pub results : Dict JobResult
  pub stats : WorkerStats

unfoldable pub init : ℕ → WorkerPool
init n = record { num_workers = n; queue = []; results = []; stats = no_stats }

unfoldable pub submit : Task → WorkerPool → WorkerPool
submit t p =
    let queue = t ∷ p.queue in
    record p {
      queue = queue;
      stats = record p.stats {
        queued_tasks = length queue;
        max_queue_size = max p.stats.max_queue_size (length queue);
        total_tasks = p.stats.total_tasks + 1;
      };
    }

unfoldable pub submit_many : List Task → WorkerPool → WorkerPool
submit_many [] p = p
submit_many (t ∷ ts) p = submit_many ts (submit t p)

-- A worker takes a task: `heappop` gives a least one, and leaves `rest`.
unfoldable pub take : List Task → WorkerPool → WorkerPool
take rest p = record p {
  queue = rest;
  stats = record p.stats {
    active_workers = p.stats.active_workers + 1;
    queued_tasks = length rest;
  };
}

-- How the awaited function ends.
pub data Ending : Type 0 where
  returned : Ending
  timed_out : Ending
  raised : Ending

-- A task without a function raises a ValueError.
abbrev pub ending_of : Task → Ending → Ending
ending_of t e = if t.has_function then e else raised

abbrev pub job_result : Task → JobStatus → ℕ → ℕ → ℕ → JobResult
job_result t status start now retries = record {
  job_id = t.id;
  status = status;
  start_time = start;
  end_time = some now;
  retries = retries;
}

-- The `except`: the count of retries is that of a result that this execution has just made.
abbrev pub retry_or_fail : ℕ → ℕ → Task → WorkerPool → JobResult × WorkerPool
retry_or_fail start now t p =
    let retries : ℕ = 0 in
    let counted = record p {
      stats = record p.stats { total_retries = p.stats.total_retries + 1 };
    } in
    let later = record t { scheduled_for = some (now + 2 ^ (retries + 1) * second) } in
    if ltb retries t.max_retries
    then (job_result t JobStatus.retrying start now (retries + 1), submit later counted)
    else (job_result t JobStatus.failed start now retries, p)

-- `_execute_task`, after the function has ended
abbrev pub execute_ended : Ending → ℕ → ℕ → Task → WorkerPool → JobResult × WorkerPool
execute_ended returned start now t p = (job_result t JobStatus.completed start now 0, p)
execute_ended timed_out start now t p = (job_result t JobStatus.failed start now 0, p)
execute_ended raised start now t p = retry_or_fail start now t p

unfoldable pub execute_task : Ending → ℕ → ℕ → Task → WorkerPool → JobResult × WorkerPool
execute_task e start now t p = execute_ended (ending_of t e) start now t p

abbrev pub is_completed : JobStatus → Bool
is_completed JobStatus.completed = true
is_completed _ = false

-- `_worker`, after `_execute_task`: `active_workers` is positive here.
unfoldable pub settle : JobResult → WorkerPool → WorkerPool
settle r p =
    let done = is_completed r.status in
    record p {
      results = insert r.job_id r p.results;
      stats = record p.stats {
        active_workers = p.stats.active_workers - 1;
        completed_tasks = if done then p.stats.completed_tasks + 1 else p.stats.completed_tasks;
        failed_tasks = if done then p.stats.failed_tasks else p.stats.failed_tasks + 1;
      };
    }

-- `get_stats`
unfoldable pub get_stats : WorkerPool → WorkerStats
get_stats p = record p.stats { scheduled_jobs = 0; completed_jobs = 0 }
