-- ===== src/Rmm/Playbooks/Runs.antt =====
-- Runs of the operations on playbooks.
use emarecloud.Prelude.{
  ℕ, ◌+◌, String, ◌≡◌, refl, sym, inl, inr, true, ◌&&◌, Option, none, some, List, [], ◌∷◌, arith,
  leb, is_some, Bool-cases, ◌==◌, nat_eq, string_eq, pair_eq,
}
use emarecloud.Dict.{Dict}
use emarecloud.Lists.{All, All-append, filter, any, length}
use emarecloud.Rmm.Actions.{Outcome, Desk}
use emarecloud.Rmm.Playbooks.{
  Playbook, Playbooks, NewPlaybook, Field, playbook_row, create_playbook, is_allowed, set_fields,
  update_playbook, delete_playbook, find_playbook, get_playbook,
}
use emarecloud.Rmm.Playbooks.Execute.{
  Means, run_actions, record_run, finish_run, execute_found, execute_playbook, is_raised,
  trigger_each, trigger_playbooks, playbook_conditions_met,
}
use emarecloud.Rmm.Playbooks.Counts.{
  IsCounted, IsOld, IsKept, runs_of-new, IsOld-deleted, delete-IsCounted, set_fields-Leaves,
  change_playbook-IsCounted, counted-IsCounted, next-IsCounted, next-IsOld, find_playbook-known,
}

pub data Event : Type 0 where
  creates : NewPlaybook → (now : ℕ) → Event
  updates : (id : ℕ) → List Field → Event
  deletes : (id : ℕ) → Event
  executes : Means → (id : ℕ) (trigger : Dict String String) → Event
  triggers : (ℕ → Means) → (trigger_type : String) (event : Dict String String) → Event

create_playbook-IsKept :
    (n : NewPlaybook) (now : ℕ) (s : Playbooks) → IsKept s → IsKept (create_playbook n now s).1
unfolding create_playbook
create_playbook-IsKept n now s (h, o) = (
  All-append (IsCounted s.runs (s.sequence + 1)) s.rows (playbook_row (s.sequence + 1) n now ∷ [])
      (next-IsCounted s.runs s.sequence s.rows h)
      ((sym (runs_of-new s.sequence s.runs o), ground arith), tt),
  next-IsOld s.sequence s.runs o,
)

update_playbook-IsKept :
    (id : ℕ) (fields : List Field) (s : Playbooks)
    → IsKept s
    → IsKept (update_playbook id fields s).1
unfolding update_playbook
update_playbook-IsKept id fields s (h, o) = elim (Bool-cases (any is_allowed fields)) [
  | inl e ↦ rw e (
    change_playbook-IsCounted (set_fields fields) id s.runs s.sequence s.rows
        (set_fields-Leaves fields) h,
    o,
  )
  | inr e ↦ rw e (h, o)
]

delete_playbook-IsKept : (id : ℕ) (s : Playbooks) → IsKept s → IsKept (delete_playbook id s)
unfolding delete_playbook
delete_playbook-IsKept id s (h, o) =
    (delete-IsCounted s.sequence id s.runs s.rows h, IsOld-deleted s.sequence id s.runs o)

finish_run-IsKept :
    (id : ℕ) (trigger : Dict String String) (now : ℕ) (r : Option (List Outcome) × Desk)
    (s : Playbooks)
    → leb id s.sequence ≡ true
    → IsKept s
    → IsKept (finish_run id trigger now r s).1
unfolding record_run
finish_run-IsKept id trigger now (none, d) s q v = v
finish_run-IsKept id trigger now (some results, d) s q (h, o) = (
  counted-IsCounted now _ s.runs s.sequence s.rows h,
  All-append (IsOld s.sequence) s.runs (_ ∷ []) o (q, tt),
)

execute_found-IsKept :
    (m : Means) (id : ℕ) (trigger : Dict String String) (p : Option Playbook) (s : Playbooks)
    → (is_some p ≡ true → leb id s.sequence ≡ true)
    → IsKept s
    → IsKept (execute_found m id trigger p s).1
execute_found-IsKept m id trigger none s q v = v
execute_found-IsKept m id trigger (some p) s q v = elim (Bool-cases p.enabled) [
  | inl e ↦ rw e (
      finish_run-IsKept id trigger (m.clock (length p.actions))
        (run_actions m 0 p.actions trigger s.desk) s (q refl) v)
  | inr e ↦ rw e v
]

execute_playbook-IsKept :
    (m : Means) (id : ℕ) (trigger : Dict String String) (s : Playbooks)
    → IsKept s
    → IsKept (execute_playbook m id trigger s).1
unfolding execute_playbook get_playbook
execute_playbook-IsKept m id trigger s v =
    execute_found-IsKept m id trigger (find_playbook id s.rows) s
      (find_playbook-known id s.runs s.sequence s.rows v.0) v

trigger_each-IsKept :
    (m : ℕ → Means) (k : ℕ) (ps : List Playbook) (event : Dict String String) (s : Playbooks)
    → IsKept s
    → IsKept (trigger_each m k ps event s).1
unfolding trigger_each
trigger_each-IsKept m k [] event s v = v
trigger_each-IsKept m k (p ∷ ps) event s v =
    elim (Bool-cases (playbook_conditions_met p.trigger_conditions event)) [
      | inl e ↦ rw e (
          let one = execute_playbook (m k) p.id event s in
          let kept = execute_playbook-IsKept (m k) p.id event s v in
          elim (Bool-cases (is_raised one.0)) [
            | inl q ↦ rw q kept
            | inr q ↦ rw q (trigger_each-IsKept m (k + 1) ps event one.1 kept)
          ])
      | inr e ↦ rw e (trigger_each-IsKept m (k + 1) ps event s v)
    ]

unfoldable pub run : List Event → Playbooks → Playbooks
unfolding create_playbook update_playbook delete_playbook execute_playbook trigger_playbooks
run [] s = s
run (creates n now ∷ es) s = run es (create_playbook n now s).1
run (updates id fields ∷ es) s = run es (update_playbook id fields s).1
run (deletes id ∷ es) s = run es (delete_playbook id s)
run (executes m id trigger ∷ es) s = run es (execute_playbook m id trigger s).1
run (triggers m trigger_type event ∷ es) s = run es (trigger_playbooks m trigger_type event s).1

run-IsKept : (es : List Event) (s : Playbooks) → IsKept s → IsKept (run es s)
unfolding run trigger_playbooks
run-IsKept [] s v = v
run-IsKept (creates n now ∷ es) s v =
    run-IsKept es (create_playbook n now s).1 (create_playbook-IsKept n now s v)
run-IsKept (updates id fields ∷ es) s v =
    run-IsKept es (update_playbook id fields s).1 (update_playbook-IsKept id fields s v)
run-IsKept (deletes id ∷ es) s v =
    run-IsKept es (delete_playbook id s) (delete_playbook-IsKept id s v)
run-IsKept (executes m id trigger ∷ es) s v =
    run-IsKept es (execute_playbook m id trigger s).1 (execute_playbook-IsKept m id trigger s v)
run-IsKept (triggers m y event ∷ es) s v =
    run-IsKept es (trigger_playbooks m y event s).1
      (trigger_each-IsKept m 0 (filter (λ p. p.trigger_type == y && p.enabled) s.rows) event s v)

abbrev pub empty : Desk → Playbooks
empty desk = record { rows = []; sequence = 0; runs = []; run_sequence = 0; desk = desk }

-- After any run of creations, updates, deletions, executions and triggers from empty tables of
-- playbooks, whatever the actions meet and whichever raise, the count of every playbook is the
-- number of its runs in the log, and its identifier is at most the last that was given.
pub run-IsCounted :
    (es : List Event) (desk : Desk)
    → let s = run es (empty desk) in All (IsCounted s.runs s.sequence) s.rows
run-IsCounted es desk = (run-IsKept es (empty desk) (tt, tt)).0
