-- ===== src/Workers/Scheduler/Paces.antt =====
-- How often a job of the JobScheduler of core/infrastructure/scaling/workers.py has run, and when its
-- next run may come: what each operation keeps.
use mathlib.Core.Path.{subst}
use self_optimizing_competit.Base.{
  ℕ, zero, suc, ◌+◌, ◌*◌, ◌≤◌, ◌≡◌, refl, sym, true, false, Option, none, some, String, [], ◌∷◌,
  arith, All, Bool-cases, inl, inr,
}
use self_optimizing_competit.Base.Dict.{Dict, lookup, insert, key_eq}
use self_optimizing_competit.Workers.Scheduler.{
  ScheduleType, ScheduledJob, interval_of, first_run, is_due, has_runs_left, Readings, next_of,
  run_job, run_due,
}

-- No more runs than `max_runs`, where it is set and not 0.
abbrev pub IsCapped : Option ℕ → ℕ → Type 0
IsCapped none runs = Unit
IsCapped (some zero) runs = Unit
IsCapped (some (suc m)) runs = runs ≤ suc m

-- The seconds between two runs: 60 where no interval is set, or 0.
abbrev pub gap : Option ℕ → ℕ
gap none = 60
gap (some zero) = 60
gap (some (suc n)) = suc n

-- The second time is there, and so many microseconds after the first at least.
abbrev pub IsAfter : ℕ → Option ℕ → Option ℕ → Type 0
IsAfter wait none u = Unit
IsAfter wait (some t) none = ⊥
IsAfter wait (some t) (some u) = t + wait ≤ u

-- For an interval job, a run at `t` is so long after the run before, if there was one.
abbrev pub IsApart : ScheduleType → ℕ → Option ℕ → ℕ → Type 0
IsApart ScheduleType.interval wait (some last) t = last + wait ≤ t
IsApart _ wait last t = Unit

-- By the kind of job: one to be run once is disabled by its run, and the next run of an interval
-- job is an interval after the last at least.
abbrev pub IsTimed : ScheduleType → ScheduledJob → Type 0
IsTimed ScheduleType.once j = (j.runs ≤ 1) × (j.enabled ≡ true → j.runs ≡ 0)
IsTimed ScheduleType.interval j = IsAfter (gap j.interval_seconds * 1000000) j.last_run j.next_run
IsTimed _ j = Unit

pub record IsPaced (j : ScheduledJob) : Type 0 where
  pub capped : IsCapped j.max_runs j.runs
  pub timed : IsTimed j.schedule_type j

IsCapped-step : (o : Option ℕ) (runs : ℕ) → has_runs_left o runs ≡ true → IsCapped o (runs + 1)
IsCapped-step none runs h = tt
IsCapped-step (some zero) runs h = tt
IsCapped-step (some (suc m)) runs h = ground arith

first-IsCapped : (o : Option ℕ) → IsCapped o 0
first-IsCapped none = tt
first-IsCapped (some zero) = tt
first-IsCapped (some (suc m)) = omega arith

gap_lem : (o : Option ℕ) → interval_of o ≡ gap o
gap_lem none = refl
gap_lem (some zero) = refl
gap_lem (some (suc n)) = ground arith

-- A pass runs a due job.
run-IsTimed :
    (k : ScheduleType) (now started submitted : ℕ) (j : ScheduledJob)
    → is_due now j ≡ true
    → started ≤ submitted
    → IsTimed k j
    → IsTimed k (next_of k submitted (record j { last_run = some started; runs = j.runs + 1 }))
run-IsTimed ScheduleType.once now started submitted j due order h = ground arith
run-IsTimed ScheduleType.periodic now started submitted j due order h = tt
run-IsTimed ScheduleType.cron now started submitted j due order h = tt
run-IsTimed ScheduleType.interval now started submitted j due order h =
    omega (arith, gap_lem j.interval_seconds)

next_of-IsCapped :
    (k : ScheduleType) (now : ℕ) (j : ScheduledJob)
    → IsCapped j.max_runs j.runs
    → IsCapped (next_of k now j).max_runs (next_of k now j).runs
next_of-IsCapped ScheduleType.once now j h = h
next_of-IsCapped ScheduleType.periodic now j h = h
next_of-IsCapped ScheduleType.cron now j h = h
next_of-IsCapped ScheduleType.interval now j h = h

next_of-schedule_type :
    (k : ScheduleType) (now : ℕ) (j : ScheduledJob)
    → (next_of k now j).schedule_type ≡ j.schedule_type
next_of-schedule_type ScheduleType.once now j = refl
next_of-schedule_type ScheduleType.periodic now j = refl
next_of-schedule_type ScheduleType.cron now j = refl
next_of-schedule_type ScheduleType.interval now j = refl

run_job-IsPaced :
    (now started submitted : ℕ) (j : ScheduledJob)
    → is_due now j ≡ true
    → started ≤ submitted
    → IsPaced j
    → IsPaced (run_job started submitted j)
run_job-IsPaced now started submitted j due order h =
    let ran = record j { last_run = some started; runs = j.runs + 1 } in
    let left : has_runs_left j.max_runs j.runs ≡ true = ground arith in
    record {
      capped =
          next_of-IsCapped j.schedule_type submitted ran (IsCapped-step j.max_runs j.runs left);
      timed =
          subst (λ k. IsTimed k (next_of j.schedule_type submitted ran))
            (sym (next_of-schedule_type j.schedule_type submitted ran))
            (run-IsTimed j.schedule_type now started submitted j due order h.timed);
    }

first_run-schedule_type :
    (k : ScheduleType) (now : ℕ) (j : ScheduledJob)
    → (first_run k now j).schedule_type ≡ j.schedule_type
first_run-schedule_type ScheduleType.once now j = refl
first_run-schedule_type ScheduleType.periodic now j = refl
first_run-schedule_type ScheduleType.cron now j = refl
first_run-schedule_type ScheduleType.interval now j = refl

-- A job that has not run yet.
abbrev pub IsFresh : ScheduledJob → Type 0
IsFresh j = (j.runs ≡ 0) × (j.last_run ≡ none)

first-IsTimed :
    (k : ScheduleType) (now : ℕ) (j : ScheduledJob) → IsFresh j → IsTimed k (first_run k now j)
first-IsTimed ScheduleType.once now j (z, n) = (omega arith, λ e. z)
first-IsTimed ScheduleType.periodic now j h = tt
first-IsTimed ScheduleType.cron now j h = tt
first-IsTimed ScheduleType.interval now j (z, n) = rw n tt

first_run-IsCapped :
    (k : ScheduleType) (now : ℕ) (j : ScheduledJob)
    → IsFresh j
    → IsCapped (first_run k now j).max_runs (first_run k now j).runs
first_run-IsCapped ScheduleType.once now j (z, n) = rw z (first-IsCapped j.max_runs)
first_run-IsCapped ScheduleType.periodic now j (z, n) = rw z (first-IsCapped j.max_runs)
first_run-IsCapped ScheduleType.cron now j (z, n) = rw z (first-IsCapped j.max_runs)
first_run-IsCapped ScheduleType.interval now j (z, n) = rw z (first-IsCapped j.max_runs)

pub first_run-IsPaced :
    (now : ℕ) (j : ScheduledJob) → IsFresh j → IsPaced (first_run j.schedule_type now j)
first_run-IsPaced now j h = record {
  capped = first_run-IsCapped j.schedule_type now j h;
  timed =
      subst (λ k. IsTimed k (first_run j.schedule_type now j))
        (sym (first_run-schedule_type j.schedule_type now j))
        (first-IsTimed j.schedule_type now j h);
}

pub disabled-IsTimed :
    (k : ScheduleType) (j : ScheduledJob) → IsTimed k j → IsTimed k (record j { enabled = false })
disabled-IsTimed ScheduleType.once j (few, h) = (few, λ e. absurd (ground arith))
disabled-IsTimed ScheduleType.periodic j h = tt
disabled-IsTimed ScheduleType.cron j h = tt
disabled-IsTimed ScheduleType.interval j h = h

abbrev pub AllPaced : Dict ScheduledJob → Type 0
AllPaced jobs = All (λ e. IsPaced e.1) jobs

pub insert-AllPaced :
    (id : String) (j : ScheduledJob) (jobs : Dict ScheduledJob)
    → IsPaced j
    → AllPaced jobs
    → AllPaced (insert id j jobs)
insert-AllPaced id j [] new old = (new, tt)
insert-AllPaced id j ((i, k) ∷ jobs) new old = elim (Bool-cases (key_eq i id)) [
  | inl same ↦ rw same (new, old.1)
  | inr other ↦ rw other (old.0, insert-AllPaced id j jobs new old.1)
]

pub lookup-AllPaced :
    (id : String) (jobs : Dict ScheduledJob) (j : ScheduledJob)
    → AllPaced jobs
    → lookup id jobs ≡ some j
    → IsPaced j
lookup-AllPaced id [] j h e = absurd (ground arith)
lookup-AllPaced id ((i, k) ∷ jobs) j h e = elim (Bool-cases (key_eq i id)) [
  | inl same ↦ let at_j : k ≡ j = ground (arith, e, same) in subst IsPaced at_j h.0
  | inr other ↦ lookup-AllPaced id jobs j h.1 (ground (arith, e, other))
]

-- The clock is not set back during a pass.
abbrev pub IsClock : ℕ → Readings → Type 0
IsClock now readings = (id : String) → (now ≤ (readings id).0) × ((readings id).0 ≤ (readings id).1)

pub run_due-AllPaced :
    (now : ℕ) (readings : Readings) (jobs : Dict ScheduledJob)
    → IsClock now readings
    → AllPaced jobs
    → AllPaced (run_due now readings jobs).2
run_due-AllPaced now readings [] clock h = tt
run_due-AllPaced now readings ((id, j) ∷ jobs) clock h =
    let rest = run_due-AllPaced now readings jobs clock h.1 in
    elim (Bool-cases (is_due now j)) [
      | inl due ↦
          rw due (run_job-IsPaced now (readings id).0 (readings id).1 j due (clock id).1 h.0, rest)
      | inr idle ↦ rw idle (h.0, rest)
    ]
