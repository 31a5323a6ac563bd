-- ===== src/Workers/Scheduler/Spacing.antt =====
-- How far apart a pass of the JobScheduler of core/infrastructure/scaling/workers.py runs a job.
use mathlib.Core.Path.{subst}
use self_optimizing_competit.Base.{
  ℕ, ◌+◌, ◌*◌, ◌≤◌, ◌≡◌, refl, true, Option, none, some, [], ◌∷◌, arith, Bool-cases, inl, inr,
}
use self_optimizing_competit.Base.Dict.{Dict}
use self_optimizing_competit.Workers.Scheduler.{
  ScheduleType, ScheduledJob, is_due, has_come, Readings, next_of, run_job, run_due,
}
use self_optimizing_competit.Workers.Scheduler.Paces.{
  gap, IsAfter, IsApart, IsTimed, IsPaced, AllPaced, IsClock,
}

-- What a pass makes of a job: nothing, or one run of a job that is enabled and whose time has come.
-- The run of an interval job comes an interval after the run before, if there was one, at least.
pub data IsSpaced (now : ℕ) (j : ScheduledJob) : ScheduledJob → Type 0 where
  kept : IsSpaced now j j
  ran :
      {j' : ScheduledJob} (u t : ℕ)
      → j.enabled ≡ true
      → j.next_run ≡ some u
      → u ≤ now
      → j'.last_run ≡ some t
      → now ≤ t
      → j'.runs ≡ j.runs + 1
      → IsApart j.schedule_type (gap j.interval_seconds * 1000000) j.last_run t
      → IsSpaced now j j'

abbrev pub AllSpaced : ℕ → Dict ScheduledJob → Dict ScheduledJob → Type 0
AllSpaced now [] [] = Unit
AllSpaced now ((id, j) ∷ js) ((id', j') ∷ js') =
    (id ≡ id') × IsSpaced now j j' × AllSpaced now js js'
AllSpaced now _ _ = ⊥

next_of-last_run :
    (k : ScheduleType) (now : ℕ) (j : ScheduledJob) → (next_of k now j).last_run ≡ j.last_run
next_of-last_run ScheduleType.once now j = refl
next_of-last_run ScheduleType.periodic now j = refl
next_of-last_run ScheduleType.cron now j = refl
next_of-last_run ScheduleType.interval now j = refl

next_of-runs : (k : ScheduleType) (now : ℕ) (j : ScheduledJob) → (next_of k now j).runs ≡ j.runs
next_of-runs ScheduleType.once now j = refl
next_of-runs ScheduleType.periodic now j = refl
next_of-runs ScheduleType.cron now j = refl
next_of-runs ScheduleType.interval now j = refl

after-IsApart :
    (wait : ℕ) (o : Option ℕ) (u t : ℕ)
    → IsAfter wait o (some u)
    → u ≤ t
    → IsApart ScheduleType.interval wait o t
after-IsApart wait none u t h le = tt
after-IsApart wait (some last) u t h le = omega arith

timed-IsApart :
    (k : ScheduleType) (j : ScheduledJob) (u t : ℕ)
    → IsTimed k j
    → j.next_run ≡ some u
    → u ≤ t
    → IsApart k (gap j.interval_seconds * 1000000) j.last_run t
timed-IsApart ScheduleType.once j u t h e le = tt
timed-IsApart ScheduleType.periodic j u t h e le = tt
timed-IsApart ScheduleType.cron j u t h e le = tt
timed-IsApart ScheduleType.interval j u t h e le =
    let wait = gap j.interval_seconds * 1000000 in
    after-IsApart wait j.last_run u t (subst (IsAfter wait j.last_run) e h) le

has_come-next :
    (now : ℕ) (o : Option ℕ) → has_come now o ≡ true → (u : ℕ) × (o ≡ some u) × (u ≤ now)
has_come-next now none e = absurd (ground (arith, e))
has_come-next now (some u) e = (u, refl, ground arith)

run_job-IsSpaced :
    (now started submitted : ℕ) (j : ScheduledJob)
    → is_due now j ≡ true
    → now ≤ started
    → IsPaced j
    → IsSpaced now j (run_job started submitted j)
run_job-IsSpaced now started submitted j due order h =
    let come : has_come now j.next_run ≡ true = ground arith in
    let on : j.enabled ≡ true = ground arith in
    let (u, e, le) = has_come-next now j.next_run come in
    ran u started on e le (next_of-last_run j.schedule_type submitted _) order
      (next_of-runs j.schedule_type submitted _)
      (timed-IsApart j.schedule_type j u started h.timed e (omega arith))

pub run_due-AllSpaced :
    (now : ℕ) (readings : Readings) (jobs : Dict ScheduledJob)
    → IsClock now readings
    → AllPaced jobs
    → AllSpaced now jobs (run_due now readings jobs).2
run_due-AllSpaced now readings [] clock h = tt
run_due-AllSpaced now readings ((id, j) ∷ jobs) clock h =
    let rest = run_due-AllSpaced now readings jobs clock h.1 in
    elim (Bool-cases (is_due now j)) [
      | inl due ↦
          rw due (
            refl,
            run_job-IsSpaced now (readings id).0 (readings id).1 j due (clock id).0 h.0,
            rest,
          )
      | inr idle ↦ rw idle (refl, kept, rest)
    ]
