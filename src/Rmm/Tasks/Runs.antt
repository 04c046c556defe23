-- ===== src/Rmm/Tasks/Runs.antt =====
-- Runs of the table of tasks: which tasks are handed out, and how often.
use emarecloud.Prelude.{
  ℕ, ◌+◌, ◌≤◌, String, ◌≡◌, refl, sym, ap, ◌∙◌, inl, inr, Bool, true, false, Option, none, some,
  List, [], ◌∷◌, ◌++◌, arith, leb, if◌then◌else◌, Bool-cases, ◌==◌, nat_eq, string_eq, pair_eq,
}
use emarecloud.Rmm.Tasks.{
  Status, completed, failed, is_pending, Task, has_id, create_task, get_pending_tasks, finish,
  complete_task,
}
use emarecloud.Rmm.Tasks.Counts.{
  rows_of, pending_of, rows_of-append, pending_of-append, has_id-rows_of, finish-rows_of,
  finish-pending_of-le, get_pending_tasks-rows_of, get_pending_tasks-pending_of, pending_of-le,
}

pub data Event : Type 0 where
  creates : (id device_id task_type payload : String) (now : ℕ) → Event
  polls : (device_id : String) → Event
  completes : (id result : String) (success : Bool) (now : ℕ) → Event

abbrev pub after_create : Option (String × List Task) → List Task → List Task
after_create none rows = rows
after_create (some (id, new_rows)) rows = new_rows

-- The table after an event, and the tasks that the event hands out.
unfoldable pub step : Event → List Task → List Task × List Task
unfolding create_task get_pending_tasks complete_task
step (creates id device_id task_type payload now) rows =
    ([], after_create (create_task id device_id task_type payload now rows) rows)
step (polls device_id) rows = get_pending_tasks device_id rows
step (completes id result success now) rows = ([], (complete_task id result success now rows).1)

-- The tasks that a run hands out, in order.
unfoldable pub handed_out : List Event → List Task → List Task
unfolding step
handed_out [] rows = []
handed_out (e ∷ es) rows = (step e rows).0 ++ handed_out es (step e rows).1

-- How often an identifier may still be handed out: once where it is free.
abbrev pub budget : String → List Task → ℕ
budget k rows = if leb 1 (rows_of k rows) then pending_of k rows else 1

pub append-budget :
    (k : String) (t : Task) (rows : List Task)
    → rows_of k rows ≤ 1
    → has_id t.id rows ≡ false
    → is_pending t.status ≡ true
    → (rows_of k (rows ++ (t ∷ [])) ≤ 1) × (0 + budget k (rows ++ (t ∷ [])) ≤ budget k rows)
append-budget k t rows h fresh p = elim (Bool-cases (t.id == k)) [
  | inl e ↦
      let same : t.id ≡ k = (string_eq.same_iff t.id k).0 e in
      let free : rows_of k rows ≡ 0 =
        has_id-rows_of k rows (ap (λ i. has_id i rows) (sym same) ∙ fresh) in
      (
        ground (arith, e, free, rows_of-append k rows (t ∷ [])),
        ground (
          arith,
          e,
          p,
          free,
          rows_of-append k rows (t ∷ []),
          pending_of-append k rows (t ∷ []),
          pending_of-le k rows,
        ),
      )
  | inr e ↦ (
    ground (arith, e, h, rows_of-append k rows (t ∷ [])),
    ground (
      arith,
      e,
      rows_of-append k rows (t ∷ []),
      pending_of-append k rows (t ∷ []),
      pending_of-le k rows,
    ),
  )
]

finish-budget :
    (k id result : String) (st : Status) (now : ℕ) (rows : List Task)
    → is_pending st ≡ false
    → rows_of k rows ≤ 1
    → (rows_of k (finish id result st now rows) ≤ 1)
      × (0 + budget k (finish id result st now rows) ≤ budget k rows)
finish-budget k id result st now rows p h =
    let same = finish-rows_of k id result st now rows in
    let less = finish-pending_of-le k id result st now rows p in
    (omega (arith, same), ground (arith, same, less))

get_pending_tasks-budget :
    (k d : String) (rows : List Task)
    → rows_of k rows ≤ 1
    → (rows_of k (get_pending_tasks d rows).1 ≤ 1)
      × (rows_of k (get_pending_tasks d rows).0 + budget k (get_pending_tasks d rows).1
          ≤ budget k rows)
get_pending_tasks-budget k d rows h =
    let same = get_pending_tasks-rows_of k d rows in
    let less = get_pending_tasks-pending_of k d rows in
    (omega (arith, same), ground (arith, same, less, pending_of-le k rows))

pub step-budget :
    (k : String) (e : Event) (rows : List Task)
    → rows_of k rows ≤ 1
    → (rows_of k (step e rows).1 ≤ 1)
      × (rows_of k (step e rows).0 + budget k (step e rows).1 ≤ budget k rows)
unfolding step create_task complete_task
step-budget k (creates id d ty p now) rows h = elim (Bool-cases (has_id id rows)) [
  | inl e ↦ rw e (h, omega arith)
  | inr e ↦ rw e (append-budget k _ rows h e refl)
]
step-budget k (polls d) rows h = get_pending_tasks-budget k d rows h
step-budget k (completes id result true now) rows h =
    finish-budget k id result completed now rows refl h
step-budget k (completes id result false now) rows h =
    finish-budget k id result failed now rows refl h

handed_out-budget :
    (k : String) (es : List Event) (rows : List Task)
    → rows_of k rows ≤ 1
    → rows_of k (handed_out es rows) ≤ budget k rows
unfolding handed_out
handed_out-budget k [] rows h = omega arith
handed_out-budget k (e ∷ es) rows h =
    let (h2, b) = step-budget k e rows h in
    omega (
      arith,
      b,
      handed_out-budget k es (step e rows).1 h2,
      rows_of-append k (step e rows).0 (handed_out es (step e rows).1),
    )

-- In every run of creations, polls and completions, from a table in which no two rows share the identifier, a task's
-- identifier is handed out once at most, over all polls of all agents.
pub handed_out_once :
    (k : String) (es : List Event) (rows : List Task)
    → rows_of k rows ≤ 1
    → rows_of k (handed_out es rows) ≤ 1
handed_out_once k es rows h = ground (arith, h, handed_out-budget k es rows h, pending_of-le k rows)
