-- ===== src/Workers/Retries.antt =====
-- A task whose function always raises something other than a TimeoutError, alone in a pool with one
-- worker.
use self_optimizing_competit.Base.{
  ℕ, ◌+◌, ◌*◌, ◌<◌, ◌≡◌, refl, ap, ◌∙◌, lt→ltb, some, List, [], ◌∷◌, arith, length,
}
use self_optimizing_competit.RateLimit.Metrics.{second}
use self_optimizing_competit.Workers.{
  Task, WorkerPool, submit, take, raised, ending_of, execute_task, settle,
}

-- The worker takes the task, its function raises, and the result is settled.
abbrev pub round : ℕ → Task → List Task → WorkerPool → WorkerPool
round now t rest p = let (r, p') = execute_task raised now now t (take rest p) in settle r p'

abbrev pub round_of : ℕ → List Task → WorkerPool → WorkerPool
round_of now [] p = p
round_of now (t ∷ rest) p = round now t rest p

abbrev pub rounds : List ℕ → WorkerPool → WorkerPool
rounds [] p = p
rounds (now ∷ ts) p = rounds ts (round_of now p.queue p)

-- The task that is queued again.
abbrev pub postponed : ℕ → Task → Task
postponed now t = record t { scheduled_for = some (now + 2 * second) }

abbrev pub postponed_by : List ℕ → Task → Task
postponed_by [] t = t
postponed_by (now ∷ ts) t = postponed_by ts (postponed now t)

-- The pool `n` rounds after `p`.
pub record IsRetrying (n : ℕ) (t : Task) (p p' : WorkerPool) : Type 0 where
  pub waiting : p'.queue ≡ t ∷ []
  pub retries : p'.stats.total_retries ≡ p.stats.total_retries + n
  pub failures : p'.stats.failed_tasks ≡ p.stats.failed_tasks + n
  pub submissions : p'.stats.total_tasks ≡ p.stats.total_tasks + n
  pub completions : p'.stats.completed_tasks ≡ p.stats.completed_tasks

round_step :
    (now : ℕ) (t : Task) (p : WorkerPool)
    → 0 < t.max_retries
    → IsRetrying 1 (postponed now t) p (round now t [] p)
unfolding execute_task take settle submit
round_step now t p h =
    let always : ending_of t raised ≡ raised = ground arith in
    rw (always, lt→ltb 0 t.max_retries h)
      (record {
        waiting = refl;
        retries = refl;
        failures = refl;
        submissions = refl;
        completions = refl;
      })

-- One worker, a pool whose queue holds one task and nothing else, and a function that raises every
-- time something other than a TimeoutError: if the task asks for any retries at all, it is never
-- given up. After every number of rounds, in each of which the worker takes it, executes it and
-- settles the result, it waits in the queue again, alone; each round is counted as a failure, as a
-- retry and as a submission, whatever `max_retries` is, and puts the task off by two seconds.
pub rounds_never_end :
    (ts : List ℕ) (t : Task) (p : WorkerPool)
    → 0 < t.max_retries
    → p.queue ≡ t ∷ []
    → IsRetrying (length ts) (postponed_by ts t) p (rounds ts p)
rounds_never_end [] t p h e = record {
  waiting = e;
  retries = omega arith;
  failures = omega arith;
  submissions = omega arith;
  completions = refl;
}
rounds_never_end (now ∷ ts) t p h e =
    let now_queued : round_of now p.queue p ≡ round now t [] p = ap (λ q. round_of now q p) e in
    let first = round_step now t p h in
    let rest = rounds_never_end ts (postponed now t) (round now t [] p) h first.waiting in
    rw now_queued (record {
      waiting = rest.waiting;
      retries = omega (arith, first.retries, rest.retries);
      failures = omega (arith, first.failures, rest.failures);
      submissions = omega (arith, first.submissions, rest.submissions);
      completions = rest.completions ∙ first.completions;
    })
