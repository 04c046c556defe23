-- ===== src/Schedule/Tasks.antt =====
-- The scheduled tasks of a turn (`_run_scheduled_tasks`, scheduler.py). SSH is a parameter, and so is the
-- clock that is read when a task has ended.
use emarecloud.Prelude.{
  ℕ, String, Bool, not, Option, some, List, map, if◌then◌else◌, nat_eq, string_eq, pair_eq,
}
use emarecloud.Text.{is_empty, prefix}
use emarecloud.Schedule.Cron.{Moment, cron_matches}

pub record ScheduledTask : Type 0 where
  pub name : String
  pub server_id : String
  pub command : String
  pub schedule : String
  pub is_active : Bool
  pub last_run : Option ℕ
  pub last_status : String
  pub last_output : String

-- What a command over SSH gives: the triple of `execute_command`, or the text of an exception.
pub data Run : Type 0 where
  ended : (ok : Bool) (out err : String) → Run
  raised : (message : String) → Run

-- `out or err or ''`
abbrev pub out_or_err : (out err : String) → String
out_or_err out err = if is_empty out then err else out

abbrev pub after_run : Run → (finished : ℕ) → ScheduledTask → ScheduledTask
after_run (ended ok out err) finished t = record t {
  last_status = if ok then "success" else "failed";
  last_output = prefix 2000 (out_or_err out err);
  last_run = some finished;
}
after_run (raised message) finished t = record t {
  last_status = "failed";
  last_output = prefix 500 message;
  last_run = some finished;
}

module _ (is_connected : String → Bool) (execute_command : (server_id command : String) → Run)
    (finished : ScheduledTask → ℕ) where
  -- The body of the loop for one task, with the status at its end; it is "running" in between.
  unfoldable pub run_task : Moment → ScheduledTask → ScheduledTask
  run_task now t =
      if not (cron_matches t.schedule now t.last_run)
      then t
      else if not (is_connected t.server_id)
      then record t {
        last_status = "failed";
        last_output = "Sunucu bağlı değil";
        last_run = some now.instant;
      }
      else after_run (execute_command t.server_id t.command) (finished t) t

  -- The loop over the active tasks; the others stay as they are.
  unfoldable pub run_tasks : Moment → List ScheduledTask → List ScheduledTask
  unfolding run_task
  run_tasks now ts = map (λ t. if t.is_active then run_task now t else t) ts
