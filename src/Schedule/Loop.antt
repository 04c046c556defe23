-- ===== src/Schedule/Loop.antt =====
-- The loop of the scheduler (`_scheduler_loop`, scheduler.py). A time is a number of microseconds since
-- the epoch; each job catches its own exceptions.
use emarecloud.Prelude.{
  ℕ, ◌+◌, ◌*◌, Bool, List, [], ◌∷◌, ◌++◌, leb, if◌then◌else◌, nat_eq, string_eq, pair_eq,
}

abbrev pub micros : ℕ
micros = 1000000

abbrev pub metric_interval : ℕ
metric_interval = 300 * micros

abbrev pub alert_interval : ℕ
alert_interval = 120 * micros

abbrev pub backup_interval : ℕ
backup_interval = 60 * micros

abbrev pub task_interval : ℕ
task_interval = 60 * micros

pub data Job : Type 0 where
  alert_check metric_collection backup_check scheduled_tasks : Job

pub record Timers : Type 0 where
  pub last_metric : ℕ
  pub last_alert : ℕ
  pub last_backup : ℕ
  pub last_task : ℕ

-- The timers before the first turn.
abbrev pub start : Timers
start = record { last_metric = 0; last_alert = 0; last_backup = 0; last_task = 0 }

-- `now - last >= interval`
abbrev pub is_due : (interval last now : ℕ) → Bool
is_due interval last now = leb (last + interval) now

-- A job if it is due, with its timer.
abbrev pub run_due : Job → (interval last now : ℕ) → List Job × ℕ
run_due job interval last now = if is_due interval last now then (job ∷ [], now) else ([], last)

-- One turn of the loop: the jobs that run, in order, and the timers.
unfoldable pub turn : (now : ℕ) → Timers → List Job × Timers
turn now t =
    let (a, last_alert) = run_due alert_check alert_interval t.last_alert now in
    let (m, last_metric) = run_due metric_collection metric_interval t.last_metric now in
    let (b, last_backup) = run_due backup_check backup_interval t.last_backup now in
    let (s, last_task) = run_due scheduled_tasks task_interval t.last_task now in
    (
      a ++ m ++ b ++ s,
      record {
        last_metric = last_metric;
        last_alert = last_alert;
        last_backup = last_backup;
        last_task = last_task;
      },
    )
