-- ===== src/Rmm/Playbooks.antt =====
-- The playbooks and the log of their runs (the tables `playbooks` and `playbook_runs`, emarefirewall/rmm.py). What the
-- tables have as JSON text is kept as it is read.
pub mod Execute
pub mod Counts
pub mod Runs
mod Tests
use emarecloud.Prelude.{
  ℕ, zero, suc, ◌+◌, ◌-◌, ◌*◌, ◌/◌, ◌%◌, ◌≤◌, ◌<◌, min, max, String, ◌≡◌, refl, sym, ap, ◌∙◌, ◌≢◌,
  ◌↔◌, ◌⊎◌, inl, inr, Bool, true, false, not, ◌&&◌, ◌||◌, Option, none, some, List, [], ◌∷◌, ◌++◌,
  map, reverse, arith, eq_iff, ltb, leb, nat_beq, if◌then◌else◌, is_some, nat_beq_iff, ltb→lt,
  leb→le, Bool-cases, Option-cases, Eq, ◌==◌, nat_eq, string_eq, pair_eq, pair_beq,
}
use emarecloud.Dict
use emarecloud.Dict.{Dict}
use emarecloud.Text.{lower}
use emarecloud.Lists.{filter, sort, descending, take, is_in, any, length}
use emarecloud.Rmm.Actions.{Action, Outcome, Desk, run_playbook_action, get_text}

-- What a condition expects: a text, or one of a list.
pub data Expected : Type 0 where
  this : String → Expected
  any_of : List String → Expected

pub record Playbook : Type 0 where
  pub id : ℕ
  pub name : String
  pub description : String
  pub trigger_type : String
  pub trigger_conditions : Dict String Expected
  pub actions : List Action
  pub enabled : Bool
  pub run_count : ℕ
  pub last_run : Option ℕ
  pub created_at : ℕ

pub record Run : Type 0 where
  pub id : ℕ
  pub playbook_id : ℕ
  pub trigger_event : Dict String String
  pub results : List Outcome
  pub status : String
  pub created_at : ℕ

-- The tables, with the last identifiers that AUTOINCREMENT gave, and those that the actions write.
pub record Playbooks : Type 0 where
  pub rows : List Playbook
  pub sequence : ℕ
  pub runs : List Run
  pub run_sequence : ℕ
  pub desk : Desk

-- The arguments of `create_playbook`.
pub record NewPlaybook : Type 0 where
  pub name : String
  pub trigger_type : String
  pub trigger_conditions : Dict String Expected
  pub actions : List Action
  pub description : String

abbrev pub playbook_row : (id : ℕ) → NewPlaybook → (now : ℕ) → Playbook
playbook_row id n now = record {
  id = id;
  name = n.name;
  description = n.description;
  trigger_type = n.trigger_type;
  trigger_conditions = n.trigger_conditions;
  actions = n.actions;
  enabled = true;
  run_count = 0;
  last_run = none;
  created_at = now;
}

-- `create_playbook`: the identifier that it answers, beside the tables.
unfoldable pub create_playbook : NewPlaybook → (now : ℕ) → Playbooks → ℕ × Playbooks
create_playbook n now s =
    let id = s.sequence + 1 in
    (id, record s { rows = s.rows ++ (playbook_row id n now ∷ []); sequence = id })

-- A keyword argument of `update_playbook`; every key but the allowed ones is left out.
pub data Field : Type 0 where
  sets_name : String → Field
  sets_description : String → Field
  sets_trigger_type : String → Field
  sets_trigger_conditions : Dict String Expected → Field
  sets_actions : List Action → Field
  sets_enabled : Bool → Field
  sets_other : (key : String) → Field

abbrev pub is_allowed : Field → Bool
is_allowed (sets_name x) = true
is_allowed (sets_description x) = true
is_allowed (sets_trigger_type x) = true
is_allowed (sets_trigger_conditions x) = true
is_allowed (sets_actions x) = true
is_allowed (sets_enabled x) = true
is_allowed (sets_other key) = false

unfoldable pub set_field : Field → Playbook → Playbook
set_field (sets_name x) p = record p { name = x }
set_field (sets_description x) p = record p { description = x }
set_field (sets_trigger_type x) p = record p { trigger_type = x }
set_field (sets_trigger_conditions x) p = record p { trigger_conditions = x }
set_field (sets_actions x) p = record p { actions = x }
set_field (sets_enabled x) p = record p { enabled = x }
set_field (sets_other key) p = p

unfoldable pub set_fields : List Field → Playbook → Playbook
unfolding set_field
set_fields [] p = p
set_fields (f ∷ fields) p = set_fields fields (set_field f p)

unfoldable pub change_playbook : (id : ℕ) → (Playbook → Playbook) → List Playbook → List Playbook
change_playbook id f [] = []
change_playbook id f (p ∷ rows) = (if p.id == id then f p else p) ∷ change_playbook id f rows

-- `update_playbook`
unfoldable pub update_playbook : (id : ℕ) → List Field → Playbooks → Bool × Playbooks
unfolding change_playbook set_fields
update_playbook id fields s =
    if any is_allowed fields
    then (true, record s { rows = change_playbook id (set_fields fields) s.rows })
    else (false, s)

-- `delete_playbook`
unfoldable pub delete_playbook : (id : ℕ) → Playbooks → Playbooks
delete_playbook id s = record s {
  runs = filter (λ r. not (r.playbook_id == id)) s.runs;
  rows = filter (λ p. not (p.id == id)) s.rows;
}

-- `list_playbooks`
unfoldable pub list_playbooks : Playbooks → List Playbook
list_playbooks s = sort (descending (λ p. p.id)) s.rows

unfoldable pub find_playbook : (id : ℕ) → List Playbook → Option Playbook
find_playbook id [] = none
find_playbook id (p ∷ rows) = if p.id == id then some p else find_playbook id rows

-- `get_playbook`
unfoldable pub get_playbook : (id : ℕ) → Playbooks → Option Playbook
unfolding find_playbook
get_playbook id s = find_playbook id s.rows

-- `list_playbook_runs`, without the names of the playbooks; the identifier 0 is that of a call without one.
unfoldable pub list_playbook_runs : (id limit : ℕ) → Playbooks → List Run
list_playbook_runs id limit s =
    take limit (sort (descending (λ r. r.id)) (filter (λ r. id == 0 || r.playbook_id == id) s.runs))
