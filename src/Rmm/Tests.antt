-- ===== src/Rmm/Tests.antt =====
-- Runs of the store, and its laws at concrete tables.
use emarecloud.Rmm.Devices.{Metric}
use emarecloud.Prelude.{
  ℕ, ◌+◌, ◌-◌, ◌*◌, ◌≤◌, String, ◌≡◌, refl, true, false, none, some, List, [], ◌∷◌, ◌++◌, map,
  arith, leb, nat_eq, string_eq, pair_eq,
}
use emarecloud.Dict
use emarecloud.Integers.{pos}
use emarecloud.Lists.{All, length}
use emarecloud.Rmm.Tasks.{
  Status, pending, running, completed, failed, Task, create_task, get_pending_tasks, complete_task,
  list_tasks,
}
use emarecloud.Rmm.Tasks.Counts.{rows_of}
use emarecloud.Rmm.Tasks.Runs.{Event, creates, polls, completes, handed_out, handed_out_once}
use emarecloud.Rmm.Tasks.Handover.{create_task_reaches}
use emarecloud.Rmm.Tickets.{NewTicket, Change, create_ticket, update_ticket, ticket_stats}
use emarecloud.Rmm.Tickets.Stats.{empty, run, creations, ticket_stats_total}
use emarecloud.Rmm.Tickets.Stats
use emarecloud.Rmm.Alerts.{Reals, Monitor, AlertConfig, Beat, check_thresholds, acknowledge_alert}
use emarecloud.Rmm.Alerts.Spacing.{are_spaced, check_thresholds-are_spaced}
use emarecloud.Rmm.Correlation.{
  Conditions, Engine, create_correlation_rule, toggle_correlation_rule, evaluate_correlation_rules,
}
use emarecloud.Rmm.Correlation.Spacing.{evaluate_correlation_rules-are_spaced}
use emarecloud.Rmm.Correlation.Spacing
use emarecloud.Rmm.Threats.{
  Threat, Threats, Report, add_threat_indicator, check_threat, remove_threat, list_threats,
}
use emarecloud.Rmm.Threats.Laws.{reported, check_threat-add_threat_indicator}
use emarecloud.Rmm.Devices.{
  Presence, Store, Agent, Reading, online, offline, register_device, authenticate_agent,
  record_heartbeat, remove_device, update_statuses,
}
use emarecloud.Rmm.Devices.Sweeps.{IsCurrent, update_statuses-IsCurrent}
use emarecloud.Rmm.Devices.Sweeps
use emarecloud.Rmm.Devices.Removal.{Opens, register_device-remove_device}

-- Tasks.
abbrev task : (id device_id : String) (created_at : ℕ) → Task
task id device_id created_at = record {
  id = id;
  device_id = device_id;
  task_type = "shell_exec";
  payload = "{}";
  status = pending;
  result = "";
  created_at = created_at;
  completed_at = none;
}

abbrev two_tasks : List Task
two_tasks = task "t2" "dev" 8 ∷ task "t1" "dev" 5 ∷ []

oldest_first : map (λ t. t.id) (get_pending_tasks "dev" two_tasks).0 ≡ ("t1" ∷ "t2" ∷ [])
unfolding get_pending_tasks emarecloud.Lists.sort emarecloud.Lists.filter
oldest_first = refl

second_poll_is_empty : (get_pending_tasks "dev" (get_pending_tasks "dev" two_tasks).1).0 ≡ []
unfolding get_pending_tasks emarecloud.Lists.sort emarecloud.Lists.filter
    emarecloud.Rmm.Tasks.mark_running
second_poll_is_empty = refl

-- A task that no agent has is completed without a word.
unknown_task : complete_task "t9" "" true 9 two_tasks ≡ (true, two_tasks)
unfolding complete_task
unknown_task = refl

abbrev events : List Event
events =
    creates "t3" "dev" "custom" "{}" 9
    ∷ polls "dev"
    ∷ completes "t1" "ok" true 12
    ∷ polls "dev"
    ∷ []

handed_out_once_example : rows_of "t1" (handed_out events two_tasks) ≤ 1
handed_out_once_example = handed_out_once "t1" events two_tasks (omega arith)

abbrev others : List Event
others = polls "other" ∷ completes "t1" "" false 10 ∷ creates "t4" "other" "custom" "{}" 11 ∷ []

create_task_reaches_example :
    rows_of "t3" (handed_out (others ++ (polls "dev" ∷ [])) (two_tasks ++ (task "t3" "dev" 9 ∷ [])))
    ≡ 1
unfolding create_task emarecloud.Lists.any
create_task_reaches_example =
    create_task_reaches "t3" "dev" "shell_exec" "{}" 9 two_tasks
      (two_tasks ++ (task "t3" "dev" 9 ∷ [])) others refl refl

-- Tickets.
abbrev broken : NewTicket
broken = record {
  title = "disk";
  description = "";
  priority = "high";
  category = "general";
  device_id = "dev";
  assignee = "";
  created_by = "ali";
}

abbrev to : (status : String) → Change
to status = record { status = status; assignee = none; note = "seen"; added_by = "ayse" }

abbrev ticket_events : List Stats.Event
ticket_events =
    Stats.creates broken 1
    ∷ Stats.creates broken 2
    ∷ Stats.updates 2 (to "closed") 3
    ∷ Stats.updates 1 (to "lost") 4
    ∷ Stats.updates 9 (to "open") 5
    ∷ []

counts_by_status :
    ticket_stats (run ticket_events empty)
    ≡ (("open", 1) ∷ ("in_progress", 0) ∷ ("resolved", 0) ∷ ("closed", 1) ∷ ("total", 2) ∷ [])
unfolding ticket_stats run update_ticket create_ticket
counts_by_status = refl

ticket_stats_total_example : Dict.get "total" (ticket_stats (run ticket_events empty)) ≡ some 2
ticket_stats_total_example = ticket_stats_total ticket_events

-- Alerts, with whole percentages for the real numbers.
abbrev percents : Reals ℕ
percents = record {
  at_least = λ a b. leb b a;
  add = λ a b. a + b;
  of = λ n. n;
  tenths = λ n. "x";
  whole = λ n. "y";
}

abbrev config : AlertConfig ℕ
config = record {
  cpu_warning = 80;
  cpu_critical = 95;
  ram_warning = 80;
  ram_critical = 95;
  disk_warning = 85;
  disk_critical = 95;
  enabled = true;
  cooldown_minutes = 30;
  auto_ticket = true;
}

abbrev beat : (cpu : ℕ) → Beat ℕ
beat cpu = record { device_id = "dev"; name = "web"; cpu = cpu; ram = 10; disk = 90 }

abbrev quiet : Monitor ℕ
quiet = record { alerts = []; alert_sequence = 0; tickets = empty; risks = [] }

abbrev clock : (start : ℕ) → ℕ → ℕ
clock start n = start + n

abbrev warned : Monitor ℕ
warned = check_thresholds percents config (beat 85) (clock 1000) quiet

-- A warning that is open within the cooldown hides a critical value; the risk grows at each heartbeat.
critical_is_hidden :
    map {B = String × String}
      (λ a. (a.alert_type, a.severity))
      (check_thresholds percents config (beat 99) (clock 2000) warned).alerts
    ≡ (("cpu", "warning") ∷ ("disk", "warning") ∷ [])
unfolding check_thresholds emarecloud.Lists.any
critical_is_hidden = refl

tickets_of_alerts : length warned.tickets.rows ≡ 2
unfolding check_thresholds emarecloud.Lists.any
tickets_of_alerts = refl

acknowledged_once :
    ((acknowledge_alert 1 warned).0 ≡ true)
    × ((acknowledge_alert 1 (acknowledge_alert 1 warned).1).0 ≡ false)
unfolding acknowledge_alert emarecloud.Lists.any check_thresholds
acknowledged_once = (refl, refl)

check_thresholds-are_spaced_example :
    are_spaced 30 (check_thresholds percents config (beat 99) (clock 2000) warned).alerts ≡ true
unfolding check_thresholds emarecloud.Lists.any
check_thresholds-are_spaced_example =
    check_thresholds-are_spaced percents config (beat 99) (clock 2000) warned (omega arith)
      (omega arith) (omega arith) refl

-- Threats.
abbrev report : (source reputation : String) → Report
report source reputation = record {
  source = source;
  reputation = reputation;
  tags = "[]";
  raw_details = "{}";
}

abbrev threats : Threats
threats =
    (add_threat_indicator "10.0.0.7" "ip" (report "manual" "suspicious") 5
      (record { rows = []; sequence = 0 })).1

reported_again : (add_threat_indicator "10.0.0.7" "ip" (report "feed" "malicious") 9 threats).0 ≡ 1
unfolding add_threat_indicator emarecloud.Rmm.Threats.find_threat
reported_again = refl

check_threat-add_threat_indicator_example :
    check_threat "10.0.0.7" "ip"
      (add_threat_indicator "10.0.0.7" "ip" (report "feed" "malicious") 9 threats).1
    ≡ some (
        reported 2 "10.0.0.7" "ip"
          (report "feed" "malicious")
          9
          (check_threat "10.0.0.7" "ip" threats))
unfolding add_threat_indicator emarecloud.Rmm.Threats.find_threat
check_threat-add_threat_indicator_example =
    check_threat-add_threat_indicator "10.0.0.7" "ip" "10.0.0.7" "ip" (report "feed" "malicious") 9
      threats

-- Devices.
abbrev agent : (hostname : String) → Agent
agent hostname = record {
  hostname = hostname;
  os_type = "linux";
  os_version = "12";
  ip_address = "10.0.0.2";
  agent_version = "1";
  tenant_id = "";
  tags = "[]";
}

abbrev no_devices : Store ℕ
no_devices = record { devices = []; metrics = []; tasks = [] }

abbrev reading : Reading ℕ
reading = record { cpu = 5; ram = 6; disk = 7; net_in = pos 1; net_out = pos 2; extra = "{}" }

abbrev minute : ℕ
minute = 60000000

abbrev device_events : List (Sweeps.Event ℕ)
device_events =
    Sweeps.registers 0 "a" "11" (agent "web") 0
    ∷ Sweeps.registers 0 "b" "22" (agent "db") 0
    ∷ Sweeps.sweeps 5 (9 * minute)
    ∷ Sweeps.beats "a" reading (8 * minute)
    ∷ []

one_is_silent :
    map {B = String × Presence}
      (λ d. (d.id, d.status))
      (update_statuses 5 (10 * minute) (Sweeps.run device_events no_devices)).devices
    ≡ (("a", online) ∷ ("b", offline) ∷ [])
unfolding update_statuses Sweeps.run record_heartbeat emarecloud.Lists.any
one_is_silent = refl

update_statuses-IsCurrent_example :
    All
      (IsCurrent (10 * minute - 5 * 60000000))
      (update_statuses 5 (10 * minute) (Sweeps.run device_events no_devices)).devices
update_statuses-IsCurrent_example =
    update_statuses-IsCurrent device_events 5 (10 * minute) [] [] refl

abbrev one_device : Store ℕ
one_device = Sweeps.run (Sweeps.registers 0 "a" "11" (agent "web") 0 ∷ []) no_devices

register_device-remove_device_example :
    Opens "eak_11" "a" one_device
    × (authenticate_agent "eak_11" (remove_device "a" one_device).1 ≡ none)
unfolding register_device emarecloud.Lists.any Sweeps.run
register_device-remove_device_example =
    register_device-remove_device 0 "a" "11" "eak_11" (agent "web") 0 no_devices one_device refl

-- Correlation.
abbrev busy : Conditions ℕ
busy = record {
  alert_type = none;
  metric = some "cpu";
  operator = none;
  value = some 80;
  count = some 2;
  window_minutes = none;
}

abbrev sample_at : (ts : ℕ) → Metric ℕ
sample_at ts = record {
  device_id = "dev";
  ts = ts;
  cpu = 90;
  ram = 10;
  disk = 10;
  net_in = pos 0;
  net_out = pos 0;
  custom = "{}";
}

abbrev idle : Engine ℕ
idle = record {
  monitor = quiet;
  metrics = sample_at 1 ∷ sample_at 2 ∷ [];
  rules = [];
  rule_sequence = 0;
  events = [];
  event_sequence = 0;
}

abbrev watched : Engine ℕ
watched = (create_correlation_rule "busy" "" "threshhold" busy "loud" 0 idle).1

abbrev fired : Engine ℕ
fired = evaluate_correlation_rules percents (clock 10) "dev" watched

-- The unknown type and severity of the rule are replaced, and the rule fires once within its window.
fires_once :
    (length fired.events ≡ 1)
    × (length (evaluate_correlation_rules percents (clock 20) "dev" fired).events ≡ 1)
unfolding evaluate_correlation_rules create_correlation_rule toggle_correlation_rule
    emarecloud.Lists.filter emarecloud.Lists.any emarecloud.Dict.set emarecloud.Dict.get
fires_once = (refl, refl)

switched_off :
    length
      (evaluate_correlation_rules percents
        (clock 10)
        "dev"
        (toggle_correlation_rule 1 false watched).1).events
    ≡ 0
unfolding evaluate_correlation_rules create_correlation_rule toggle_correlation_rule
    emarecloud.Lists.filter emarecloud.Lists.any emarecloud.Dict.set emarecloud.Dict.get
switched_off = refl

evaluate_correlation_rules-are_spaced_example :
    Spacing.are_spaced 1 10 (evaluate_correlation_rules percents (clock 20) "dev" fired).events
    ≡ true
unfolding evaluate_correlation_rules create_correlation_rule emarecloud.Lists.filter
    emarecloud.Lists.any
evaluate_correlation_rules-are_spaced_example =
    evaluate_correlation_rules-are_spaced percents 1 10 (clock 20) "dev" fired (λ i. omega arith)
      refl refl
