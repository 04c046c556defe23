-- ===== src/Rmm/Tasks/Handover.antt =====
-- A task that is created reaches its agent.
use emarecloud.Prelude.{
  ℕ, ◌+◌, ◌≤◌, String, ◌≡◌, refl, ap, ◌∙◌, inl, inr, Bool, true, false, ◌&&◌, some, List, [], ◌∷◌,
  ◌++◌, arith, if◌then◌else◌, Bool-cases, ◌==◌, nat_eq, string_eq, pair_eq,
}
use mathlib.Core.Path.{subst}
use emarecloud.Dict.Laws.{beq_refl}
use emarecloud.Lists.{filter, any, ascending}
use emarecloud.Rmm.Tasks.{
  Status, completed, failed, Task, has_id, create_task, mark_running, mark_each, is_due, due_tasks,
  get_pending_tasks, finish, complete_task,
}
use emarecloud.Rmm.Tasks.Counts.{rows_of, rows_of-append, has_id-rows_of, sort-rows_of}
use emarecloud.Rmm.Tasks.Runs.{
  Event, creates, polls, completes, after_create, step, handed_out, step-budget, handed_out_once,
}

-- How many rows of a device have the identifier and wait to be handed out.
abbrev due_of : (k device_id : String) → List Task → ℕ
due_of k d [] = 0
due_of k d (t ∷ rows) = (if t.id == k && is_due d t then 1 else 0) + due_of k d rows

filter-rows_of :
    (k d : String) (rows : List Task) → rows_of k (filter (is_due d) rows) ≡ due_of k d rows
unfolding filter
filter-rows_of k d [] = refl
filter-rows_of k d (t ∷ rows) = elim (Bool-cases (is_due d t)) [
  | inl e ↦ rw e (ground (arith, e, filter-rows_of k d rows))
  | inr e ↦ rw e (ground (arith, e, filter-rows_of k d rows))
]

due_tasks-rows_of :
    (k d : String) (rows : List Task) → rows_of k (due_tasks d rows) ≡ due_of k d rows
unfolding due_tasks
due_tasks-rows_of k d rows =
    sort-rows_of k (ascending (λ t. t.created_at)) (filter (is_due d) rows)
    ∙ filter-rows_of k d rows

due_of-append : (k d : String) (a b : List Task) → due_of k d (a ++ b) ≡ due_of k d a + due_of k d b
due_of-append k d [] b = omega arith
due_of-append k d (t ∷ a) b = omega (arith, due_of-append k d a b)

-- A row is due to one device only.
due_of-apart :
    (k d c : String) (rows : List Task)
    → (c == d) ≡ false
    → due_of k c rows + due_of k d rows ≤ rows_of k rows
due_of-apart k d c [] h = omega arith
due_of-apart k d c (t ∷ rows) h = ground (
  arith,
  h,
  string_eq.same_iff t.device_id c,
  string_eq.same_iff t.device_id d,
  string_eq.same_iff c d,
  due_of-apart k d c rows h,
)

mark_running-due_of :
    (k d id : String) (rows : List Task)
    → (id == k) ≡ false
    → due_of k d (mark_running id rows) ≡ due_of k d rows
unfolding mark_running
mark_running-due_of k d id [] h = refl
mark_running-due_of k d id (t ∷ rows) h = elim (Bool-cases (t.id == id)) [
  | inl e ↦
      let other : (t.id == k) ≡ false = ground (
        arith,
        h,
        e,
        string_eq.same_iff t.id id,
        string_eq.same_iff t.id k,
        string_eq.same_iff id k,
      ) in
      rw e (ground (arith, other, mark_running-due_of k d id rows h))
  | inr e ↦ rw e (ground (arith, mark_running-due_of k d id rows h))
]

mark_each-due_of :
    (k d : String) (found rows : List Task)
    → rows_of k found ≡ 0
    → due_of k d (mark_each found rows) ≡ due_of k d rows
unfolding mark_each
mark_each-due_of k d [] rows h = refl
mark_each-due_of k d (t ∷ found) rows h =
    let other : (t.id == k) ≡ false = ground (arith, h) in
    let rest : rows_of k found ≡ 0 = ground (arith, h) in
    mark_each-due_of k d found (mark_running t.id rows) rest
    ∙ mark_running-due_of k d t.id rows other

finish-due_of :
    (k d id result : String) (st : Status) (now : ℕ) (rows : List Task)
    → (id == k) ≡ false
    → due_of k d (finish id result st now rows) ≡ due_of k d rows
unfolding finish
finish-due_of k d id result st now [] h = refl
finish-due_of k d id result st now (t ∷ rows) h = elim (Bool-cases (t.id == id)) [
  | inl e ↦
      let other : (t.id == k) ≡ false = ground (
        arith,
        h,
        e,
        string_eq.same_iff t.id id,
        string_eq.same_iff t.id k,
        string_eq.same_iff id k,
      ) in
      rw e (ground (arith, other, finish-due_of k d id result st now rows h))
  | inr e ↦ rw e (ground (arith, finish-due_of k d id result st now rows h))
]

-- An event that may take the task from the device: its poll, or a completion of the task.
abbrev pub disturbs : (id device_id : String) → Event → Bool
disturbs k d (creates id device_id task_type payload now) = false
disturbs k d (polls device_id) = device_id == d
disturbs k d (completes id result success now) = id == k

get_pending_tasks-due_of :
    (k d c : String) (rows : List Task)
    → (c == d) ≡ false
    → rows_of k rows ≤ 1
    → 1 ≤ due_of k d rows
    → 1 ≤ due_of k d (get_pending_tasks c rows).1
unfolding get_pending_tasks
get_pending_tasks-due_of k d c rows h one due =
    let nothing : rows_of k (due_tasks c rows) ≡ 0 =
      omega (arith, due_tasks-rows_of k c rows, due_of-apart k d c rows h) in
    omega (arith, mark_each-due_of k d (due_tasks c rows) rows nothing)

step-due_of :
    (k d : String) (e : Event) (rows : List Task)
    → disturbs k d e ≡ false
    → rows_of k rows ≤ 1
    → 1 ≤ due_of k d rows
    → 1 ≤ due_of k d (step e rows).1
unfolding step create_task complete_task
step-due_of k d (creates id c ty p now) rows h one due = elim (Bool-cases (has_id id rows)) [
  | inl e ↦ rw e due
  | inr e ↦ rw e (omega (arith, due_of-append k d rows _))
]
step-due_of k d (polls c) rows h one due = get_pending_tasks-due_of k d c rows h one due
step-due_of k d (completes id result true now) rows h one due =
    omega (arith, finish-due_of k d id result completed now rows h)
step-due_of k d (completes id result false now) rows h one due =
    omega (arith, finish-due_of k d id result failed now rows h)

handed_out-due_of :
    (k d : String) (es : List Event) (rows : List Task)
    → any (disturbs k d) es ≡ false
    → rows_of k rows ≤ 1
    → 1 ≤ due_of k d rows
    → 1 ≤ rows_of k (handed_out (es ++ (polls d ∷ [])) rows)
unfolding handed_out any step get_pending_tasks
handed_out-due_of k d [] rows h one due =
    omega (arith, rows_of-append k (due_tasks d rows) [], due_tasks-rows_of k d rows)
handed_out-due_of k d (e ∷ es) rows h one due =
    let calm : disturbs k d e ≡ false = ground (arith, h) in
    let rest : any (disturbs k d) es ≡ false = ground (arith, h) in
    let one2 = (step-budget k e rows one).0 in
    let due2 = step-due_of k d e rows calm one due in
    omega (
      arith,
      handed_out-due_of k d es (step e rows).1 rest one2 due2,
      rows_of-append k (step e rows).0 (handed_out (es ++ (polls d ∷ [])) (step e rows).1),
    )

fresh-one :
    (d : String) (t : Task) (rows : List Task)
    → has_id t.id rows ≡ false
    → is_due d t ≡ true
    → (rows_of t.id (rows ++ (t ∷ [])) ≤ 1) × (1 ≤ due_of t.id d (rows ++ (t ∷ [])))
fresh-one d t rows e due =
    let same : (t.id == t.id) ≡ true = beq_refl t.id in
    (
      ground (arith, same, has_id-rows_of t.id rows e, rows_of-append t.id rows (t ∷ [])),
      ground (arith, same, due, due_of-append t.id d rows (t ∷ [])),
    )

create_task-due :
    (id d ty p : String) (now : ℕ) (rows new_rows : List Task)
    → create_task id d ty p now rows ≡ some (id, new_rows)
    → (rows_of id new_rows ≤ 1) × (1 ≤ due_of id d new_rows)
unfolding create_task
create_task-due id d ty p now rows new_rows h = elim (Bool-cases (has_id id rows)) [
  | inl e ↦ cc
  | inr e ↦
      let same : after_create (create_task id d ty p now rows) rows ≡ new_rows =
        ap (λ o. after_create o rows) h in
      subst (λ r. (rows_of id r ≤ 1) × (1 ≤ due_of id d r)) same
        (rw e (fresh-one d _ rows e (ground (arith, beq_refl d))))
]

-- A task that is created is handed out exactly once by the end of the next poll of its device, whatever tasks are created and
-- completed before and whichever other devices poll, if the task itself is not completed before.
pub create_task_reaches :
    (id d ty p : String) (now : ℕ) (rows new_rows : List Task) (es : List Event)
    → create_task id d ty p now rows ≡ some (id, new_rows)
    → any (disturbs id d) es ≡ false
    → rows_of id (handed_out (es ++ (polls d ∷ [])) new_rows) ≡ 1
create_task_reaches id d ty p now rows new_rows es h calm =
    let (one, due) = create_task-due id d ty p now rows new_rows h in
    omega (
      arith,
      handed_out-due_of id d es new_rows calm one due,
      handed_out_once id (es ++ (polls d ∷ [])) new_rows one,
    )
