-- ===== src/Schedule/Laws.antt =====
-- How often jobs and tasks run.
use emarecloud.Prelude.{
  ℕ, ◌+◌, ◌≤◌, ◌<◌, String, ◌≡◌, refl, sym, ap, ◌∙◌, inl, inr, Bool, true, false, some, List, [],
  ◌∷◌, arith, ltb, if◌then◌else◌, leb→le, Bool-cases, nat_eq, string_eq, pair_eq,
}
use mathlib.Core.Path.{subst}
use emarecloud.Lists.{any}
use emarecloud.Schedule.Cron.{Moment, cron_matches}
use emarecloud.Schedule.Loop.{
  Job, alert_check, metric_collection, backup_check, scheduled_tasks, Timers, run_due, is_due, turn,
  alert_interval, metric_interval, backup_interval, task_interval,
}
use emarecloud.Schedule.Tasks.{ScheduledTask, Run, ended, raised, after_run, run_task}

-- A schedule is not due within 55 seconds of the last run.
recent-not-due :
    (schedule : String) (later : Moment) (last_run : ℕ)
    → later.instant < last_run + 55000000
    → cron_matches schedule later (some last_run) ≡ false
unfolding cron_matches
recent-not-due schedule later last_run h =
    let r : ltb later.instant (last_run + 55000000) ≡ true = ground (arith, h) in ground (arith, r)

after_run_rests :
    (outcome : Run) (end : ℕ) (later : Moment) (t : ScheduledTask)
    → later.instant < end + 55000000
    → cron_matches (after_run outcome end t).schedule later (after_run outcome end t).last_run
      ≡ false
after_run_rests (ended ok out err) end later t h = recent-not-due t.schedule later end h
after_run_rests (raised message) end later t h = recent-not-due t.schedule later end h

module _ (is_connected : String → Bool) (execute_command : (server_id command : String) → Run)
    (finished : ScheduledTask → ℕ) where
  -- A task whose turn has come, whatever becomes of its command, is not due again within 55
  -- seconds of the start of the run, if the run does not end before it starts.
  pub run_task_rests :
      (now later : Moment) (t : ScheduledTask)
      → cron_matches t.schedule now t.last_run ≡ true
      → now.instant ≤ finished t
      → later.instant < now.instant + 55000000
      → let t' = run_task is_connected execute_command finished now t in
        cron_matches t'.schedule later t'.last_run ≡ false
  unfolding run_task
  run_task_rests now later t due order soon = elim (Bool-cases (is_connected t.server_id)) [
    | inl c ↦
        rw (due, c)
          (after_run_rests (execute_command t.server_id t.command) (finished t) later t
            (omega (arith, order, soon)))
    | inr c ↦ rw (due, c) (recent-not-due t.schedule later now.instant soon)
  ]

-- The times at which a job runs in the turns of a list of times, by its interval and its timer.
unfoldable pub runs_of : Job → (interval last : ℕ) → List ℕ → List ℕ
runs_of job interval last [] = []
runs_of job interval last (now ∷ nows) =
    let rest = runs_of job interval (run_due job interval last now).1 nows in
    if is_due interval last now then now ∷ rest else rest

-- Each time is at least the interval after the one before it, the first after `last`.
abbrev pub IsSpaced : (interval last : ℕ) → List ℕ → Type 0
IsSpaced interval last [] = Unit
IsSpaced interval last (t ∷ ts) = (last + interval ≤ t) × IsSpaced interval t ts

runs_of-IsSpaced :
    (job : Job) (interval last : ℕ) (nows : List ℕ)
    → IsSpaced interval last (runs_of job interval last nows)
unfolding runs_of
runs_of-IsSpaced job interval last [] = tt
runs_of-IsSpaced job interval last (now ∷ nows) = elim (Bool-cases (is_due interval last now)) [
  | inl d ↦ rw d (leb→le (last + interval) now d, runs_of-IsSpaced job interval now nows)
  | inr d ↦ rw d (runs_of-IsSpaced job interval last nows)
]

-- The turns at a list of times, with the jobs of each.
unfoldable pub turns : List ℕ → Timers → List (ℕ × List Job)
turns [] t = []
turns (now ∷ nows) t = let (jobs, t') = turn now t in (now, jobs) ∷ turns nows t'

abbrev pub same_job : Job → Job → Bool
same_job alert_check alert_check = true
same_job metric_collection metric_collection = true
same_job backup_check backup_check = true
same_job scheduled_tasks scheduled_tasks = true
same_job a b = false

-- The times of the turns in which a job runs.
unfoldable pub times_of : Job → List (ℕ × List Job) → List ℕ
times_of job [] = []
times_of job ((now, jobs) ∷ rest) =
    let later = times_of job rest in if any (same_job job) jobs then now ∷ later else later

abbrev pub interval_of : Job → ℕ
interval_of alert_check = alert_interval
interval_of metric_collection = metric_interval
interval_of backup_check = backup_interval
interval_of scheduled_tasks = task_interval

abbrev pub timer_of : Job → Timers → ℕ
timer_of alert_check t = t.last_alert
timer_of metric_collection t = t.last_metric
timer_of backup_check t = t.last_backup
timer_of scheduled_tasks t = t.last_task

turn-timer :
    (job : Job) (now : ℕ) (t : Timers)
    → timer_of job (turn now t).1 ≡ (run_due job (interval_of job) (timer_of job t) now).1
unfolding turn
turn-timer alert_check now t = ground arith
turn-timer metric_collection now t = ground arith
turn-timer backup_check now t = ground arith
turn-timer scheduled_tasks now t = ground arith

turn-runs :
    (job : Job) (now : ℕ) (t : Timers)
    → any (same_job job) (turn now t).0 ≡ is_due (interval_of job) (timer_of job t) now
unfolding turn any
turn-runs alert_check now t = ground arith
turn-runs metric_collection now t = ground arith
turn-runs backup_check now t = ground arith
turn-runs scheduled_tasks now t = ground arith

times_of-turns :
    (job : Job) (nows : List ℕ) (t : Timers)
    → times_of job (turns nows t) ≡ runs_of job (interval_of job) (timer_of job t) nows
unfolding times_of turns runs_of
times_of-turns job [] t = refl
times_of-turns job (now ∷ nows) t =
    let k =
      times_of-turns job nows (turn now t).1
      ∙ ap (λ l. runs_of job (interval_of job) l nows) (turn-timer job now t) in
    rw (turn-runs job now t, k) refl

-- In the turns of the loop a job runs exactly in those whose time is at least its interval after
-- its last run, so that two runs of it are at least the interval apart.
pub turns-IsSpaced :
    (job : Job) (nows : List ℕ) (t : Timers)
    → (times_of job (turns nows t) ≡ runs_of job (interval_of job) (timer_of job t) nows)
      × IsSpaced (interval_of job) (timer_of job t) (times_of job (turns nows t))
turns-IsSpaced job nows t =
    let e = times_of-turns job nows t in
    (
      e,
      subst (λ ts. IsSpaced (interval_of job) (timer_of job t) ts) (sym e)
          (runs_of-IsSpaced job (interval_of job) (timer_of job t) nows),
    )
