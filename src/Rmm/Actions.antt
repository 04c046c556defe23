-- ===== src/Rmm/Actions.antt =====
-- The actions of a playbook (_run_playbook_action, emarefirewall/rmm.py). The values of the parameters and of the event
-- that triggers are texts; the JSON text of a command, the random identifier of a task and the time are arguments.
use emarecloud.Prelude.{
  ℕ, String, not, ◌&&◌, Option, none, some, List, if◌then◌else◌, ◌==◌, nat_eq, string_eq, pair_eq,
}
use emarecloud.Dict
use emarecloud.Dict.{Dict}
use emarecloud.Text.{is_empty}
use emarecloud.Rmm.Threats.{Threats, add_threat_indicator}
use emarecloud.Rmm.Tickets.{Tickets, create_ticket}
use emarecloud.Rmm.Tasks.{Task, create_task}

pub record Action : Type 0 where
  pub action_type : String
  pub params : Dict String String

-- The dict that an action answers, one constructor for each form.
pub data Outcome : Type 0 where
  blocked : (ip : String) → Outcome
  no_ip : Outcome
  ticket : (id : ℕ) → Outcome
  threat : (ioc : String) → Outcome
  no_ioc : Outcome
  task : (id : String) → Outcome
  no_task : Outcome
  unknown : (action_type : String) → Outcome

-- The tables that the actions write.
pub record Desk : Type 0 where
  pub threats : Threats
  pub tickets : Tickets
  pub tasks : List Task

-- `d.get(key, default)`
abbrev pub get_text : (key default : String) → Dict String String → String
get_text key default d = or_text default (Dict.get key d)
  where
    or_text : String → Option String → String
    or_text x none = x
    or_text x (some t) = t

-- `a or b`
abbrev pub or_else : (a b : String) → String
or_else a b = if is_empty a then b else a

abbrev pub block_address : (ip : String) (now : ℕ) → Desk → Outcome × Desk
block_address ip now d = if is_empty ip then (no_ip, d) else (
  blocked ip,
  record d {
    threats =
        (add_threat_indicator ip "ip"
          (record {
            source = "playbook-auto";
            reputation = "malicious";
            tags = "[\"auto-blocked\"]";
            raw_details = "{}";
          })
          now d.threats).1;
  },
)

abbrev pub add_ticket : (params trigger : Dict String String) (now : ℕ) → Desk → Outcome × Desk
add_ticket params trigger now d =
    let made =
      create_ticket
        (record {
          title = get_text "title" "Playbook Otomatik Kayıt" params;
          description = get_text "description" "" params;
          priority = get_text "priority" "high" params;
          category = "security";
          device_id = get_text "device_id" "" trigger;
          assignee = "";
          created_by = "";
        })
        now d.tickets in
    (ticket made.0, record d { tickets = made.1 })

abbrev pub add_threat : (ioc ioc_type : String) (now : ℕ) → Desk → Outcome × Desk
add_threat ioc ioc_type now d = if is_empty ioc then (no_ioc, d) else (
  threat ioc,
  record d {
    threats =
        (add_threat_indicator ioc ioc_type
          (record {
            source = "playbook";
            reputation = "suspicious";
            tags = "[\"playbook-added\"]";
            raw_details = "{}";
          })
          now d.threats).1;
  },
)

abbrev pub task_made : Option (String × List Task) → Desk → Option Outcome × Desk
task_made none d = (none, d)
task_made (some (id, tasks)) d = (some (task id), record d { tasks = tasks })

abbrev pub queue_task :
    (secret device_id cmd payload : String) (now : ℕ) → Desk → Option Outcome × Desk
queue_task secret device_id cmd payload now d =
    if not (is_empty device_id) && not (is_empty cmd)
    then task_made (create_task secret device_id "command" payload now d.tasks) d
    else (some no_task, d)

abbrev answered : Outcome × Desk → Option Outcome × Desk
answered (o, d) = (some o, d)

-- `_run_playbook_action`: none where the identifier of the task is in use, which raises.
unfoldable pub run_playbook_action :
    (payload_of : String → String) (secret : String) (now : ℕ)
    → Action
    → (trigger : Dict String String) → Desk
    → Option Outcome × Desk
unfolding is_empty add_threat_indicator create_ticket create_task
run_playbook_action payload_of secret now a trigger d =
    let p = a.params in
    let cmd = get_text "command" "" p in
    if a.action_type == "block_ip"
    then answered
        (block_address (or_else (get_text "ip" "" p) (get_text "source_ip" "" trigger)) now d)
    else if a.action_type == "create_ticket"
    then answered (add_ticket p trigger now d)
    else if a.action_type == "add_threat"
    then answered (
        add_threat (or_else (get_text "ioc" "" p) (get_text "ioc" "" trigger))
          (get_text "ioc_type" "ip" p) now d)
    else if a.action_type == "run_task"
    then queue_task secret (or_else (get_text "device_id" "" p) (get_text "device_id" "" trigger))
        cmd (payload_of cmd) now d
    else (some (unknown a.action_type), d)
