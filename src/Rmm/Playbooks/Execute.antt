-- ===== src/Rmm/Playbooks/Execute.antt =====
-- The execution of a playbook and the playbooks that an event triggers (execute_playbook and _trigger_playbooks,
-- emarefirewall/rmm.py). The random identifiers and the times are numbered by the action.
use emarecloud.Prelude.{
  ℕ, ◌+◌, String, Bool, true, false, ◌&&◌, Option, none, some, List, [], ◌∷◌, ◌++◌, if◌then◌else◌,
  is_some, ◌==◌, nat_eq, string_eq, pair_eq,
}
use emarecloud.Dict.{Dict}
use emarecloud.Text.{lower}
use emarecloud.Lists.{filter, is_in, length}
use emarecloud.Rmm.Actions.{Action, Outcome, Desk, run_playbook_action, get_text}
use emarecloud.Rmm.Playbooks.{
  Expected, this, any_of, Playbook, Playbooks, change_playbook, get_playbook,
}

abbrev pub cons_outcome : Option Outcome → Option (List Outcome) → Option (List Outcome)
cons_outcome none rest = none
cons_outcome (some o) none = none
cons_outcome (some o) (some os) = some (o ∷ os)

-- What an execution reads: the identifiers, the clock and the JSON texts of commands.
pub record Means : Type 0 where
  pub secret : ℕ → String
  pub clock : ℕ → ℕ
  pub payload_of : String → String

-- The actions in order, from the k-th; none where one raises, with what the ones before it wrote.
unfoldable pub run_actions :
    Means
    → (k : ℕ) → List Action
    → (trigger : Dict String String) → Desk
    → Option (List Outcome) × Desk
unfolding run_playbook_action
run_actions m k [] trigger d = (some [], d)
run_actions m k (a ∷ actions) trigger d =
    let one = run_playbook_action m.payload_of (m.secret k) (m.clock k) a trigger d in
    let rest = run_actions m (k + 1) actions trigger one.1 in
    (cons_outcome one.0 rest.0, if is_some one.0 then rest.1 else one.1)

abbrev pub counted : (now : ℕ) → Playbook → Playbook
counted now p = record p { run_count = p.run_count + 1; last_run = some now }

-- The row of the run, and the count of its playbook.
unfoldable pub record_run :
    (id : ℕ) (trigger : Dict String String) (now : ℕ) → List Outcome → Playbooks → Playbooks
unfolding change_playbook
record_run id trigger now results s =
    let run_id = s.run_sequence + 1 in
    record s {
      runs =
          s.runs
          ++ (record {
            id = run_id;
            playbook_id = id;
            trigger_event = trigger;
            results = results;
            status = "completed";
            created_at = now;
          }
              ∷ []);
      run_sequence = run_id;
      rows = change_playbook id (counted now) s.rows;
    }

-- What `execute_playbook` answers, or that it raises.
pub data Answer : Type 0 where
  refused raised : Answer
  done : List Outcome → Answer

abbrev pub finish_run :
    (id : ℕ) (trigger : Dict String String) (now : ℕ)
    → Option (List Outcome) × Desk
    → Playbooks
    → Answer × Playbooks
finish_run id trigger now (none, d) s = (raised, record s { desk = d })
finish_run id trigger now (some results, d) s =
    (done results, record_run id trigger now results (record s { desk = d }))

abbrev pub execute_found :
    Means
    → (id : ℕ) (trigger : Dict String String) → Option Playbook
    → Playbooks
    → Answer × Playbooks
execute_found m id trigger none s = (refused, s)
execute_found m id trigger (some p) s =
    if p.enabled
    then finish_run id trigger (m.clock (length p.actions))
        (run_actions m 0 p.actions trigger s.desk) s
    else (refused, s)

-- `execute_playbook`
unfoldable pub execute_playbook :
    Means → (id : ℕ) (trigger : Dict String String) → Playbooks → Answer × Playbooks
unfolding run_actions record_run get_playbook
execute_playbook m id trigger s = execute_found m id trigger (get_playbook id s) s

abbrev pub is_expected : Expected → (actual : String) → Bool
is_expected (this t) actual = lower actual == lower t
is_expected (any_of ts) actual = is_in actual ts

-- `_playbook_conditions_met`
unfoldable pub playbook_conditions_met : Dict String Expected → Dict String String → Bool
unfolding lower is_in
playbook_conditions_met [] event = true
playbook_conditions_met ((key, e) ∷ conditions) event =
    is_expected e (get_text key "" event) && playbook_conditions_met conditions event

abbrev pub is_raised : Answer → Bool
is_raised refused = false
is_raised raised = true
is_raised (done results) = false

-- The playbooks of the query in turn, each with its own means; an exception ends the loop.
unfoldable pub trigger_each :
    (ℕ → Means)
    → (k : ℕ) → List Playbook
    → (event : Dict String String) → Playbooks
    → Bool × Playbooks
unfolding execute_playbook playbook_conditions_met
trigger_each m k [] event s = (false, s)
trigger_each m k (p ∷ ps) event s =
    let one =
      if playbook_conditions_met p.trigger_conditions event
      then execute_playbook (m k) p.id event s
      else (refused, s) in
    let rest = trigger_each m (k + 1) ps event one.1 in
    if is_raised one.0 then (true, one.1) else rest

-- `_trigger_playbooks`: whether it raises.
unfoldable pub trigger_playbooks :
    (ℕ → Means)
    → (trigger_type : String) (event : Dict String String) → Playbooks
    → Bool × Playbooks
unfolding trigger_each
trigger_playbooks m trigger_type event s =
    trigger_each m 0 (filter (λ p. p.trigger_type == trigger_type && p.enabled) s.rows) event s
