-- ===== src/Rmm/Playbooks/Tests.antt =====
-- Runs of the playbooks.
use emarecloud.Prelude.{
  ℕ, ◌+◌, String, ◌≡◌, refl, false, List, [], ◌∷◌, map, if◌then◌else◌, ◌==◌, nat_eq, string_eq,
  pair_eq,
}
use Prim.Native.String.{◌++◌ as join_texts}
use emarecloud.Lists.{All}
use emarecloud.Rmm.Tickets.Stats.{empty as no_tickets}
use emarecloud.Rmm.Actions.{Outcome, Desk, blocked, no_task, task}
use emarecloud.Rmm.Playbooks.{
  NewPlaybook, this, any_of, sets_enabled, sets_other, list_playbooks, list_playbook_runs,
}
use emarecloud.Rmm.Playbooks.Execute.{Means}
use emarecloud.Rmm.Playbooks.Counts.{IsCounted}
use emarecloud.Rmm.Playbooks.Runs.{
  Event, creates, updates, executes, triggers, empty, run, run-IsCounted,
}

abbrev desk : Desk
desk = record { threats = record { rows = []; sequence = 0 }; tickets = no_tickets; tasks = [] }

abbrev means : Means
means = record {
  secret = λ k. if k == 0 then "k0" else "k1";
  clock = λ k. k + 1;
  payload_of = λ cmd. join_texts "{\"command\": \"" (join_texts cmd "\"}");
}

abbrev contain : NewPlaybook
contain = record {
  name = "contain";
  trigger_type = "anomaly";
  trigger_conditions = ("metric", any_of ("cpu" ∷ "ram" ∷ [])) ∷ ("device_id", this "DEV") ∷ [];
  actions =
      record { action_type = "block_ip"; params = ("ip", "10.0.0.9") ∷ [] }
      ∷ record { action_type = "run_task"; params = ("command", "uptime") ∷ [] }
      ∷ [];
  description = "";
}

abbrev anomaly : List (String × String)
anomaly = ("device_id", "dev") ∷ ("metric", "cpu") ∷ []

abbrev events : List Event
events =
    creates contain 1
    ∷ triggers (λ k. means) "anomaly" anomaly
    ∷ triggers (λ k. means) "anomaly" (("device_id", "other") ∷ ("metric", "cpu") ∷ [])
    ∷ executes means 1 []
    ∷ creates contain 2
    ∷ updates 2 (sets_enabled false ∷ sets_other "run_count" ∷ [])
    ∷ executes means 2 anomaly
    ∷ []

run_counts :
    map {B = ℕ × ℕ} (λ p. (p.id, p.run_count)) (list_playbooks (run events (empty desk)))
    ≡ ((2, 0) ∷ (1, 2) ∷ [])
unfolding run list_playbooks emarecloud.Lists.sort emarecloud.Lists.any emarecloud.Lists.filter
    emarecloud.Dict.get
run_counts = refl

logged :
    map {B = ℕ × List Outcome}
      (λ r. (r.playbook_id, r.results))
      (list_playbook_runs 1 5 (run events (empty desk)))
    ≡ ((1, blocked "10.0.0.9" ∷ no_task ∷ []) ∷ (1, blocked "10.0.0.9" ∷ task "k1" ∷ []) ∷ [])
unfolding run list_playbook_runs emarecloud.Lists.take emarecloud.Lists.sort emarecloud.Lists.filter
    emarecloud.Lists.any emarecloud.Dict.get
logged = refl

-- The agent has no tasks of the type that a playbook gives.
type_of_task : map (λ t. t.task_type) (run events (empty desk)).desk.tasks ≡ ("command" ∷ [])
unfolding run emarecloud.Lists.any emarecloud.Lists.filter emarecloud.Dict.get
type_of_task = refl

run-IsCounted_example : let s = run events (empty desk) in All (IsCounted s.runs s.sequence) s.rows
run-IsCounted_example = run-IsCounted events desk
