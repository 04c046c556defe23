-- ===== src/Rmm/Tasks/Counts.antt =====
-- How many rows of the table of tasks have an identifier, under the operations.
use emarecloud.Prelude.{
  ℕ, ◌+◌, ◌≤◌, String, ◌≡◌, refl, ◌∙◌, inl, inr, Bool, false, ◌&&◌, List, [], ◌∷◌, ◌++◌, arith, leb,
  if◌then◌else◌, Bool-cases, ◌==◌, nat_eq, string_eq, pair_eq,
}
use emarecloud.Lists.{filter, any, sort, ascending, insert_sorted}
use emarecloud.Rmm.Tasks.{
  Status, is_pending, Task, has_id, mark_running, mark_each, is_due, due_tasks, get_pending_tasks,
  finish,
}

-- How many rows have the identifier, and how many of them are pending.
abbrev pub rows_of : String → List Task → ℕ
rows_of k [] = 0
rows_of k (t ∷ rows) = (if t.id == k then 1 else 0) + rows_of k rows

abbrev pub pending_of : String → List Task → ℕ
pending_of k [] = 0
pending_of k (t ∷ rows) = (if t.id == k && is_pending t.status then 1 else 0) + pending_of k rows

pub rows_of-append : (k : String) (a b : List Task) → rows_of k (a ++ b) ≡ rows_of k a + rows_of k b
rows_of-append k [] b = omega arith
rows_of-append k (t ∷ a) b = omega (arith, rows_of-append k a b)

pub pending_of-append :
    (k : String) (a b : List Task) → pending_of k (a ++ b) ≡ pending_of k a + pending_of k b
pending_of-append k [] b = omega arith
pending_of-append k (t ∷ a) b = omega (arith, pending_of-append k a b)

pub has_id-rows_of : (k : String) (rows : List Task) → has_id k rows ≡ false → rows_of k rows ≡ 0
unfolding any
has_id-rows_of k [] h = refl
has_id-rows_of k (t ∷ rows) h = ground (arith, h, has_id-rows_of k rows)

-- The rows of one identifier under the operations.
mark_running-rows_of :
    (k id : String) (rows : List Task) → rows_of k (mark_running id rows) ≡ rows_of k rows
unfolding mark_running
mark_running-rows_of k id [] = refl
mark_running-rows_of k id (t ∷ rows) = elim (Bool-cases (t.id == id)) [
  | inl e ↦ rw (e, mark_running-rows_of k id rows) refl
  | inr e ↦ rw (e, mark_running-rows_of k id rows) refl
]

pub mark_each-rows_of :
    (k : String) (found rows : List Task) → rows_of k (mark_each found rows) ≡ rows_of k rows
unfolding mark_each
mark_each-rows_of k [] rows = refl
mark_each-rows_of k (t ∷ found) rows =
    mark_each-rows_of k found (mark_running t.id rows) ∙ mark_running-rows_of k t.id rows

mark_running-pending_of-le :
    (k id : String) (rows : List Task) → pending_of k (mark_running id rows) ≤ pending_of k rows
unfolding mark_running
mark_running-pending_of-le k id [] = omega arith
mark_running-pending_of-le k id (t ∷ rows) = elim (Bool-cases (t.id == id)) [
  | inl e ↦ rw e (ground (arith, mark_running-pending_of-le k id rows))
  | inr e ↦ rw e (ground (arith, mark_running-pending_of-le k id rows))
]

mark_running-pending_of : (k : String) (rows : List Task) → pending_of k (mark_running k rows) ≡ 0
unfolding mark_running
mark_running-pending_of k [] = refl
mark_running-pending_of k (t ∷ rows) = elim (Bool-cases (t.id == k)) [
  | inl e ↦ rw e (ground (arith, mark_running-pending_of k rows))
  | inr e ↦ rw e (ground (arith, mark_running-pending_of k rows, e))
]

mark_each-pending_of-le :
    (k : String) (found rows : List Task) → pending_of k (mark_each found rows) ≤ pending_of k rows
unfolding mark_each
mark_each-pending_of-le k [] rows = omega arith
mark_each-pending_of-le k (t ∷ found) rows = omega (
  arith,
  mark_each-pending_of-le k found (mark_running t.id rows),
  mark_running-pending_of-le k t.id rows,
)

-- A task that is found is no longer pending.
mark_each-pending_of :
    (k : String) (found rows : List Task)
    → 1 ≤ rows_of k found
    → pending_of k (mark_each found rows) ≡ 0
unfolding mark_each
mark_each-pending_of k [] rows h = absurd (omega arith)
mark_each-pending_of k (t ∷ found) rows h = elim (Bool-cases (t.id == k)) [
  | inl e ↦
      let same : t.id ≡ k = (string_eq.same_iff t.id k).0 e in
      let none_left : pending_of k (mark_running t.id rows) ≡ 0 =
        rw same (mark_running-pending_of k rows) in
      omega (arith, none_left, mark_each-pending_of-le k found (mark_running t.id rows))
  | inr e ↦ mark_each-pending_of k found (mark_running t.id rows) (ground (arith, h, e))
]

insert_sorted-rows_of :
    (k : String) (before : Task → Task → Bool) (t : Task) (rows : List Task)
    → rows_of k (insert_sorted before t rows) ≡ rows_of k (t ∷ rows)
unfolding insert_sorted
insert_sorted-rows_of k before t [] = refl
insert_sorted-rows_of k before t (u ∷ rows) = elim (Bool-cases (before u t)) [
  | inl e ↦ rw e (omega (arith, insert_sorted-rows_of k before t rows))
  | inr e ↦ rw e refl
]

pub sort-rows_of :
    (k : String) (before : Task → Task → Bool) (rows : List Task)
    → rows_of k (sort before rows) ≡ rows_of k rows
unfolding sort
sort-rows_of k before [] = refl
sort-rows_of k before (t ∷ rows) =
    omega (arith, insert_sorted-rows_of k before t (sort before rows), sort-rows_of k before rows)

filter-rows_of :
    (k d : String) (rows : List Task) → rows_of k (filter (is_due d) rows) ≤ pending_of k rows
unfolding filter
filter-rows_of k d [] = omega arith
filter-rows_of k d (t ∷ rows) = elim (Bool-cases (is_due d t)) [
  | inl e ↦ rw e (ground (arith, e, filter-rows_of k d rows))
  | inr e ↦ rw e (ground (arith, filter-rows_of k d rows))
]

due_tasks-rows_of-le :
    (k d : String) (rows : List Task) → rows_of k (due_tasks d rows) ≤ pending_of k rows
unfolding due_tasks
due_tasks-rows_of-le k d rows = omega (
  arith,
  sort-rows_of k (ascending (λ t. t.created_at)) (filter (is_due d) rows),
  filter-rows_of k d rows,
)

pub get_pending_tasks-pending_of :
    (k d : String) (rows : List Task)
    → rows_of k (get_pending_tasks d rows).0 + pending_of k (get_pending_tasks d rows).1
      ≤ pending_of k rows
unfolding get_pending_tasks
get_pending_tasks-pending_of k d rows = elim (Bool-cases (leb 1 (rows_of k (due_tasks d rows)))) [
  | inl e ↦
      let found : 1 ≤ rows_of k (due_tasks d rows) = ground (arith, e) in
      omega
        (arith, mark_each-pending_of k (due_tasks d rows) rows found, due_tasks-rows_of-le k d rows)
  | inr e ↦
      let nothing : rows_of k (due_tasks d rows) ≡ 0 = ground (arith, e) in
      omega (arith, nothing, mark_each-pending_of-le k (due_tasks d rows) rows)
]

pub get_pending_tasks-rows_of :
    (k d : String) (rows : List Task) → rows_of k (get_pending_tasks d rows).1 ≡ rows_of k rows
unfolding get_pending_tasks
get_pending_tasks-rows_of k d rows = mark_each-rows_of k (due_tasks d rows) rows

pub finish-rows_of :
    (k id result : String) (st : Status) (now : ℕ) (rows : List Task)
    → rows_of k (finish id result st now rows) ≡ rows_of k rows
unfolding finish
finish-rows_of k id result st now [] = refl
finish-rows_of k id result st now (t ∷ rows) = elim (Bool-cases (t.id == id)) [
  | inl e ↦ rw (e, finish-rows_of k id result st now rows) refl
  | inr e ↦ rw (e, finish-rows_of k id result st now rows) refl
]

pub finish-pending_of-le :
    (k id result : String) (st : Status) (now : ℕ) (rows : List Task)
    → is_pending st ≡ false
    → pending_of k (finish id result st now rows) ≤ pending_of k rows
unfolding finish
finish-pending_of-le k id result st now [] h = omega arith
finish-pending_of-le k id result st now (t ∷ rows) h = elim (Bool-cases (t.id == id)) [
  | inl e ↦ rw e (ground (arith, h, finish-pending_of-le k id result st now rows h))
  | inr e ↦ rw e (ground (arith, finish-pending_of-le k id result st now rows h))
]

pub pending_of-le : (k : String) (rows : List Task) → pending_of k rows ≤ rows_of k rows
pending_of-le k [] = omega arith
pending_of-le k (t ∷ rows) = ground (arith, pending_of-le k rows)
