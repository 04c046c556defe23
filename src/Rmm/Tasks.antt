-- ===== src/Rmm/Tasks.antt =====
-- The tasks of the agents (the table `tasks`, emarefirewall/rmm.py). An agent polls for its tasks; the store never
-- calls it. The random identifier and the times are arguments, and the JSON text of a payload is a text.
pub mod Counts
pub mod Handover
pub mod Runs
use emarecloud.Prelude.{
  ℕ, zero, suc, ◌+◌, ◌-◌, ◌*◌, ◌/◌, ◌%◌, ◌≤◌, ◌<◌, min, max, String, ◌≡◌, refl, sym, ap, ◌∙◌, ◌≢◌,
  ◌↔◌, ◌⊎◌, inl, inr, Bool, true, false, not, ◌&&◌, ◌||◌, Option, none, some, List, [], ◌∷◌, ◌++◌,
  map, reverse, arith, eq_iff, ltb, leb, nat_beq, if◌then◌else◌, is_some, nat_beq_iff, ltb→lt,
  leb→le, Bool-cases, Option-cases, Eq, ◌==◌, nat_eq, string_eq, pair_eq, pair_beq,
}
use emarecloud.Dict
use emarecloud.Lists.{filter, any, sort, ascending, descending, take}
use emarecloud.Text.{is_empty}

-- The texts of the column `status`.
pub data Status : Type 0 where
  pending running completed failed : Status

abbrev pub is_pending : Status → Bool
is_pending pending = true
is_pending running = false
is_pending completed = false
is_pending failed = false

pub record Task : Type 0 where
  pub id : String
  pub device_id : String
  pub task_type : String
  pub payload : String
  pub status : Status
  pub result : String
  pub created_at : ℕ
  pub completed_at : Option ℕ

-- The identifier is the primary key: an insertion under one that is in use raises (none).
abbrev pub has_id : String → List Task → Bool
has_id id rows = any (λ t. t.id == id) rows

-- `create_task`: the identifier, beside the new table.
unfoldable pub create_task :
    (id device_id task_type payload : String) (now : ℕ) → List Task → Option (String × List Task)
create_task id device_id task_type payload now rows =
    if has_id id rows
    then none
    else some (
      id,
      rows
          ++ (record {
            id = id;
            device_id = device_id;
            task_type = task_type;
            payload = payload;
            status = pending;
            result = "";
            created_at = now;
            completed_at = none;
          }
              ∷ []),
    )

-- `UPDATE tasks SET status='running' WHERE id=?`
unfoldable pub mark_running : (id : String) → List Task → List Task
mark_running id [] = []
mark_running id (t ∷ rows) =
    (if t.id == id then record t { status = running } else t) ∷ mark_running id rows

-- The loop over the rows that were read.
unfoldable pub mark_each : List Task → List Task → List Task
mark_each [] rows = rows
mark_each (t ∷ found) rows = mark_each found (mark_running t.id rows)

abbrev pub is_due : (device_id : String) → Task → Bool
is_due device_id t = t.device_id == device_id && is_pending t.status

-- The rows of the query, by the time of creation.
unfoldable pub due_tasks : (device_id : String) → List Task → List Task
due_tasks device_id rows = sort (ascending (λ t. t.created_at)) (filter (is_due device_id) rows)

-- `get_pending_tasks`: the rows as they were read, beside the new table.
unfoldable pub get_pending_tasks : (device_id : String) → List Task → List Task × List Task
unfolding due_tasks mark_each
get_pending_tasks device_id rows =
    let found = due_tasks device_id rows in (found, mark_each found rows)

unfoldable pub finish : (id result : String) → Status → (now : ℕ) → List Task → List Task
finish id result st now [] = []
finish id result st now (t ∷ rows) =
    (if t.id == id then record t { status = st; result = result; completed_at = some now } else t)
    ∷ finish id result st now rows

-- `complete_task`: the answer is True whether the task is there or not.
unfoldable pub complete_task :
    (id result : String) (success : Bool) (now : ℕ) → List Task → Bool × List Task
unfolding finish
complete_task id result success now rows =
    (true, finish id result (if success then completed else failed) now rows)

abbrev pub status_text : Status → String
status_text pending = "pending"
status_text running = "running"
status_text completed = "completed"
status_text failed = "failed"

-- `list_tasks`: an empty text asks for all.
unfoldable pub list_tasks : (device_id status : String) (limit : ℕ) → List Task → List Task
list_tasks device_id status limit rows = take limit (
    sort (descending (λ t. t.created_at)) (
      filter
        (λ t.
          (is_empty device_id || t.device_id == device_id)
          && (is_empty status || status_text t.status == status))
        rows))
