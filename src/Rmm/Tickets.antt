-- ===== src/Rmm/Tickets.antt =====
-- The tickets (the table `tickets`, emarefirewall/rmm.py). The times are arguments; the notes, which the table has as
-- JSON text, are a list.
pub mod Stats
use emarecloud.Prelude.{
  ℕ, zero, suc, ◌+◌, ◌-◌, ◌*◌, ◌/◌, ◌%◌, ◌≤◌, ◌<◌, min, max, String, ◌≡◌, refl, sym, ap, ◌∙◌, ◌≢◌,
  ◌↔◌, ◌⊎◌, inl, inr, Bool, true, false, not, ◌&&◌, ◌||◌, Option, none, some, List, [], ◌∷◌, ◌++◌,
  map, reverse, arith, eq_iff, ltb, leb, nat_beq, if◌then◌else◌, is_some, nat_beq_iff, ltb→lt,
  leb→le, Bool-cases, Option-cases, Eq, ◌==◌, nat_eq, string_eq, pair_eq, pair_beq,
}
use emarecloud.Lists.{length, filter, sort, descending, take, is_in}
use emarecloud.Text.{is_empty}

pub record Note : Type 0 where
  pub content : String
  pub by : String
  pub ts : ℕ

pub record Ticket : Type 0 where
  pub id : ℕ
  pub title : String
  pub description : String
  pub priority : String
  pub status : String
  pub category : String
  pub device_id : String
  pub assignee : String
  pub created_by : String
  pub created_at : ℕ
  pub updated_at : ℕ
  pub notes : List Note

-- The rows, and the last identifier that AUTOINCREMENT gave.
pub record Tickets : Type 0 where
  pub rows : List Ticket
  pub sequence : ℕ

-- `VALID_TICKET_STATUSES`
abbrev pub valid_ticket_statuses : List String
valid_ticket_statuses = "open" ∷ "in_progress" ∷ "resolved" ∷ "closed" ∷ []

-- The arguments of `create_ticket`.
pub record NewTicket : Type 0 where
  pub title : String
  pub description : String
  pub priority : String
  pub category : String
  pub device_id : String
  pub assignee : String
  pub created_by : String

abbrev pub ticket_row : (id : ℕ) → NewTicket → (now : ℕ) → Ticket
ticket_row id n now = record {
  id = id;
  title = n.title;
  description = n.description;
  priority = n.priority;
  status = "open";
  category = n.category;
  device_id = n.device_id;
  assignee = n.assignee;
  created_by = n.created_by;
  created_at = now;
  updated_at = now;
  notes = [];
}

-- `create_ticket`
unfoldable pub create_ticket : NewTicket → (now : ℕ) → Tickets → ℕ × Tickets
create_ticket n now t =
    let id = t.sequence + 1 in
    (id, record { rows = t.rows ++ (ticket_row id n now ∷ []); sequence = id })

-- `get_ticket`
unfoldable pub find_ticket : (id : ℕ) → List Ticket → Option Ticket
find_ticket id [] = none
find_ticket id (t ∷ rows) = if t.id == id then some t else find_ticket id rows

unfoldable pub get_ticket : (id : ℕ) → Tickets → Option Ticket
unfolding find_ticket
get_ticket id t = find_ticket id t.rows

-- The arguments of `update_ticket`.
pub record Change : Type 0 where
  pub status : String
  pub assignee : Option String
  pub note : String
  pub added_by : String

abbrev pub or_old : Option String → (old : String) → String
or_old none old = old
or_old (some new) old = new

-- The row that is written: a status that is not valid is left out without a word.
unfoldable pub changed : Change → (now : ℕ) → (old_notes : List Note) → Ticket → Ticket
unfolding is_in is_empty
changed c now old_notes t = record t {
  updated_at = now;
  status =
      (if not (is_empty c.status) && is_in c.status valid_ticket_statuses
        then c.status
        else t.status);
  assignee = or_old c.assignee t.assignee;
  notes =
      (if is_empty c.note
        then t.notes
        else old_notes ++ (record { content = c.note; by = c.added_by; ts = now } ∷ []));
}

unfoldable pub change_rows : (id : ℕ) → (Ticket → Ticket) → List Ticket → List Ticket
change_rows id f [] = []
change_rows id f (t ∷ rows) = (if t.id == id then f t else t) ∷ change_rows id f rows

abbrev pub update_found : (id : ℕ) → Change → (now : ℕ) → Option Ticket → Tickets → Bool × Tickets
update_found id c now none t = (false, t)
update_found id c now (some old) t =
    (true, record t { rows = change_rows id (changed c now old.notes) t.rows })

-- `update_ticket`
unfoldable pub update_ticket : (id : ℕ) → Change → (now : ℕ) → Tickets → Bool × Tickets
unfolding get_ticket change_rows changed
update_ticket id c now t = update_found id c now (get_ticket id t) t

abbrev pub wants : (value column : String) → Bool
wants value column = is_empty value || column == value

-- `list_tickets`
unfoldable pub list_tickets :
    (status priority category : String) (limit : ℕ) → Tickets → List Ticket
list_tickets status priority category limit t = take limit (
    sort (descending (λ r. r.id)) (
      filter (λ r. wants status r.status && wants priority r.priority && wants category r.category)
        t.rows))

unfoldable pub count_status : (status : String) → List Ticket → ℕ
count_status status [] = 0
count_status status (t ∷ rows) = (if t.status == status then 1 else 0) + count_status status rows

abbrev pub sum_counts : List (String × ℕ) → ℕ
sum_counts [] = 0
sum_counts ((s, n) ∷ stats) = n + sum_counts stats

-- `ticket_stats`: the number of each valid status, and their sum under "total".
unfoldable pub ticket_stats : Tickets → List (String × ℕ)
unfolding count_status
ticket_stats t =
    let stats = map (λ s. (s, count_status s t.rows)) valid_ticket_statuses in
    stats ++ (("total", sum_counts stats) ∷ [])
