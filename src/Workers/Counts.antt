-- ===== src/Workers/Counts.antt =====
-- Every history of a pool: any submissions, and any number of workers in any order.
use self_optimizing_competit.Base.{
  ℕ, suc, ◌+◌, ◌-◌, max, ◌≤◌, ◌<◌, ◌≡◌, false, List, [], ◌∷◌, ◌++◌, arith, length, length-append,
}
use self_optimizing_competit.Workers.{
  Task, JobResult, WorkerPool, is_before, init, submit, take, Ending, returned, timed_out, raised,
  ending_of, execute_ended, execute_task, settle,
}

-- The pool, and the workers: how many execute a task, and how many have a result to settle.
pub record System : Type 0 where
  pub pool : WorkerPool
  pub executing : ℕ
  pub settling : ℕ

abbrev pub IsLeast : Task → List Task → Type 0
IsLeast t [] = Unit
IsLeast t (u ∷ us) = (is_before u t ≡ false) × IsLeast t us

pub data Step (s : System) : System → Type 0 where
  submitted : (t : Task) → Step s (record s { pool = submit t s.pool })
  taken :
      (t : Task) (before rest : List Task)
      → s.pool.queue ≡ before ++ (t ∷ rest)
      → IsLeast t s.pool.queue
      → Step s (record s { pool = take (before ++ rest) s.pool; executing = suc s.executing })
  executed :
      (e : Ending) (start now : ℕ) (t : Task)
      → 0 < s.executing
      → Step s (record {
        pool = (execute_task e start now t s.pool).1;
        executing = s.executing - 1;
        settling = suc s.settling;
      })
  settled :
      (r : JobResult)
      → 0 < s.settling
      → Step s (record s { pool = settle r s.pool; settling = s.settling - 1 })

-- The histories of a pool of `n` workers, with the length of the longest queue so far.
pub data Reach (n : ℕ) : ℕ → System → Type 0 where
  here : Reach n 0 (record { pool = init n; executing = 0; settling = 0 })
  next :
      {longest : ℕ} {s t : System}
      → Reach n longest s
      → Step s t
      → Reach n (max longest (length t.pool.queue)) t

-- Every task is counted where it is.
pub record IsCounted (longest : ℕ) (s : System) : Type 0 where
  pub total :
      s.pool.stats.total_tasks
      ≡ length s.pool.queue
        + s.executing
        + s.settling
        + s.pool.stats.completed_tasks
        + s.pool.stats.failed_tasks
  pub active : s.pool.stats.active_workers ≡ s.executing + s.settling
  pub queued : s.pool.stats.queued_tasks ≡ length s.pool.queue
  pub bounded : length s.pool.queue ≤ longest
  pub largest : s.pool.stats.max_queue_size ≡ longest

-- The same after a step that leads to `s`.
abbrev IsNext : ℕ → System → Type 0
IsNext longest s = IsCounted (max longest (length s.pool.queue)) s

submit-IsCounted :
    (t : Task) (s : System) (longest : ℕ)
    → IsCounted longest s
    → IsNext longest (record s { pool = submit t s.pool })
unfolding submit
submit-IsCounted t s longest h = ground arith

take-IsCounted :
    (t : Task) (before rest : List Task) (s : System) (longest : ℕ)
    → s.pool.queue ≡ before ++ (t ∷ rest)
    → IsCounted longest s
    → IsNext longest (record s { pool = take (before ++ rest) s.pool; executing = suc s.executing })
unfolding take
take-IsCounted t before rest s longest e h =
    let longer : length s.pool.queue ≡ length before + suc (length rest) =
      rw e (length-append before (t ∷ rest)) in
    ground (arith, length-append before rest, longer)

execute-IsCounted :
    (e : Ending) (start now : ℕ) (t : Task) (s : System) (longest : ℕ)
    → 0 < s.executing
    → IsCounted longest s
    → IsNext longest (record {
      pool = (execute_ended e start now t s.pool).1;
      executing = s.executing - 1;
      settling = suc s.settling;
    })
unfolding submit
execute-IsCounted returned start now t s longest busy h = ground arith
execute-IsCounted timed_out start now t s longest busy h = ground arith
execute-IsCounted raised start now t s longest busy h = ground arith

settle-IsCounted :
    (r : JobResult) (s : System) (longest : ℕ)
    → 0 < s.settling
    → IsCounted longest s
    → IsNext longest (record s { pool = settle r s.pool; settling = s.settling - 1 })
unfolding settle
settle-IsCounted r s longest busy h = ground arith

step-IsCounted : {longest : ℕ} {s t : System} → Step s t → IsCounted longest s → IsNext longest t
unfolding execute_task
step-IsCounted {longest} {s} (submitted t) h = submit-IsCounted t s longest h
step-IsCounted {longest} {s} (taken t before rest e least) h =
    take-IsCounted t before rest s longest e h
step-IsCounted {longest} {s} (executed e start now t busy) h =
    execute-IsCounted (ending_of t e) start now t s longest busy h
step-IsCounted {longest} {s} (settled r busy) h = settle-IsCounted r s longest busy h

-- Whatever is submitted, and however many workers take, execute, retry and settle tasks in whatever
-- order: every submission, retries included, is waiting, being executed, being settled, or counted
-- once as completed or failed; `active_workers` and `queued_tasks` are what they say, and
-- `max_queue_size` is the length of the longest queue of the whole history.
pub reach-IsCounted : (n longest : ℕ) (s : System) → Reach n longest s → IsCounted longest s
unfolding init
reach-IsCounted n longest s here = ground arith
reach-IsCounted n longest s (next r st) = step-IsCounted st (reach-IsCounted n _ _ r)
