-- ===== src/Schedule/Tests.antt =====
-- Runs of the scheduler, and its laws at concrete times.
use emarecloud.Prelude.{ℕ, ◌≡◌, refl, true, false, none, List, [], ◌∷◌, nat_eq, string_eq, pair_eq}
use emarecloud.Schedule.Cron.{Moment, cron_matches, should_run}
use emarecloud.Schedule.Loop.{alert_check, start, turn}
use emarecloud.Schedule.Tasks.{ScheduledTask}
use emarecloud.Schedule.Laws.{times_of, turns, runs_of, interval_of, IsSpaced, turns-IsSpaced}

-- Monday, 5 January 2026, 02:00.
abbrev two_o_clock : Moment
two_o_clock = record {
  minute = 0;
  hour = 2;
  day = 5;
  month = 1;
  weekday = 0;
  instant = 1767578400000000;
}

nightly : cron_matches " 0 2 * * * " two_o_clock none ≡ true
unfolding cron_matches emarecloud.Text.is_empty emarecloud.Text.words emarecloud.Text.strip
    emarecloud.Schedule.Cron.field_matches emarecloud.Integers.parse_int
    emarecloud.Text.Digits.is_digit emarecloud.Text.Digits.digit_value
nightly = refl

too_few_fields : cron_matches "0 2 * *" two_o_clock none ≡ false
unfolding cron_matches emarecloud.Text.is_empty emarecloud.Text.words emarecloud.Text.strip
too_few_fields = refl

no_steps : cron_matches "*/5 * * * *" two_o_clock none ≡ false
unfolding cron_matches emarecloud.Text.is_empty emarecloud.Text.words emarecloud.Text.strip
    emarecloud.Schedule.Cron.field_matches emarecloud.Integers.parse_int
    emarecloud.Text.Digits.is_digit
no_steps = refl

-- The day of the week 1 is not a Monday here.
no_cron_monday : cron_matches "0 2 * * 1" two_o_clock none ≡ false
unfolding cron_matches emarecloud.Text.is_empty emarecloud.Text.words emarecloud.Text.strip
    emarecloud.Schedule.Cron.field_matches emarecloud.Integers.parse_int
    emarecloud.Text.Digits.is_digit emarecloud.Text.Digits.digit_value
no_cron_monday = refl

-- A backup profile that has never run is due whatever its schedule says.
first_backup : should_run "30 4 * * *" two_o_clock none ≡ true
unfolding should_run emarecloud.Text.is_empty
first_backup = refl

abbrev task : ScheduledTask
task = record {
  name = "clean";
  server_id = "s1";
  command = "true";
  schedule = "0 2 * * *";
  is_active = true;
  last_run = none;
  last_status = "";
  last_output = "";
}

abbrev finished : ScheduledTask → ℕ
finished t = 1767578401000000

task_is_due : cron_matches task.schedule two_o_clock none ≡ true
unfolding cron_matches emarecloud.Text.is_empty emarecloud.Text.words emarecloud.Text.strip
    emarecloud.Schedule.Cron.field_matches emarecloud.Integers.parse_int
    emarecloud.Text.Digits.is_digit emarecloud.Text.Digits.digit_value
task_is_due = refl

abbrev half_past : Moment
half_past = record two_o_clock { instant = 1767578430000000 }

abbrev nows : List ℕ
nows = 1000000000 ∷ 1030000000 ∷ 1060000000 ∷ 1120000000 ∷ []

turns-IsSpaced_example :
    (times_of alert_check (turns nows start) ≡ runs_of alert_check (interval_of alert_check) 0 nows)
    × IsSpaced (interval_of alert_check) 0 (times_of alert_check (turns nows start))
turns-IsSpaced_example = turns-IsSpaced alert_check nows start

alerts_at : times_of alert_check (turns nows start) ≡ 1000000000 ∷ 1120000000 ∷ []
unfolding times_of turns turn emarecloud.Lists.Filter.any
alerts_at = refl
