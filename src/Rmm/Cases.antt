-- ===== src/Rmm/Cases.antt =====
-- The cases of incidents with their evidence and their history (the tables `cases`, `case_evidence` and `case_timeline`,
-- emarefirewall/rmm.py). The times are arguments; the data of an evidence, which the table has as JSON text, is a dict.
pub mod History
mod Tests
use emarecloud.Prelude.{
  ℕ, zero, suc, ◌+◌, ◌-◌, ◌*◌, ◌/◌, ◌%◌, ◌≤◌, ◌<◌, min, max, String, ◌≡◌, refl, sym, ap, ◌∙◌, ◌≢◌,
  ◌↔◌, ◌⊎◌, inl, inr, Bool, true, false, not, ◌&&◌, ◌||◌, Option, none, some, List, [], ◌∷◌, ◌++◌,
  map, reverse, arith, eq_iff, ltb, leb, nat_beq, if◌then◌else◌, is_some, nat_beq_iff, ltb→lt,
  leb→le, Bool-cases, Option-cases, Eq, ◌==◌, nat_eq, string_eq, pair_eq, pair_beq,
}
use Prim.Native.String.{◌++◌ as join_texts}
use emarecloud.Dict
use emarecloud.Dict.{Dict}
use emarecloud.Lists.{filter, sort, ascending, descending, take, is_in}
use emarecloud.Text.{is_empty}
use emarecloud.Text.Split.{join}
use emarecloud.Text.Decimal.{nat_text}
use emarecloud.Rmm.Alerts.{Alert}

pub record Case : Type 0 where
  pub id : ℕ
  pub title : String
  pub description : String
  pub severity : String
  pub status : String
  pub assignee : String
  pub created_by : String
  pub created_at : ℕ
  pub updated_at : ℕ
  pub closed_at : Option ℕ

-- A value of the data of an evidence: a text, or a time.
pub data Value : Type 0 where
  text : String → Value
  time : ℕ → Value

pub record Evidence : Type 0 where
  pub id : ℕ
  pub case_id : ℕ
  pub evidence_type : String
  pub reference_id : String
  pub description : String
  pub content : Dict String Value
  pub added_by : String
  pub added_at : ℕ

pub record Entry : Type 0 where
  pub id : ℕ
  pub case_id : ℕ
  pub event_type : String
  pub message : String
  pub actor : String
  pub created_at : ℕ

-- The three tables, each with the last identifier that AUTOINCREMENT gave.
pub record Cases : Type 0 where
  pub rows : List Case
  pub sequence : ℕ
  pub evidence : List Evidence
  pub evidence_sequence : ℕ
  pub timeline : List Entry
  pub timeline_sequence : ℕ

abbrev pub entry_row : (id case_id : ℕ) (event_type message actor : String) (now : ℕ) → Entry
entry_row id case_id event_type message actor now = record {
  id = id;
  case_id = case_id;
  event_type = event_type;
  message = message;
  actor = actor;
  created_at = now;
}

-- `INSERT INTO case_timeline`
unfoldable pub log : (case_id : ℕ) (event_type message actor : String) (now : ℕ) → Cases → Cases
log case_id event_type message actor now s =
    let id = s.timeline_sequence + 1 in
    record s {
      timeline = s.timeline ++ (entry_row id case_id event_type message actor now ∷ []);
      timeline_sequence = id;
    }

-- The arguments of `create_case`.
pub record NewCase : Type 0 where
  pub title : String
  pub description : String
  pub severity : String
  pub assignee : String
  pub created_by : String

abbrev pub case_row : (id : ℕ) → NewCase → (now : ℕ) → Case
case_row id n now = record {
  id = id;
  title = n.title;
  description = n.description;
  severity = n.severity;
  status = "open";
  assignee = n.assignee;
  created_by = n.created_by;
  created_at = now;
  updated_at = now;
  closed_at = none;
}

-- `create_case`: the identifier that it answers, beside the tables.
unfoldable pub create_case : NewCase → (now : ℕ) → Cases → ℕ × Cases
unfolding log
create_case n now s =
    let id = s.sequence + 1 in
    (
      id,
      log id "created" "Vaka oluşturuldu" n.created_by now
          (record s { rows = s.rows ++ (case_row id n now ∷ []); sequence = id }),
    )

-- `allowed`
abbrev pub allowed : List String
allowed = "title" ∷ "description" ∷ "severity" ∷ "status" ∷ "assignee" ∷ []

-- `SET key=?`
unfoldable pub set_column : (key value : String) → Case → Case
set_column key value c =
    if key == "title"
    then record c { title = value }
    else if key == "description"
    then record c { description = value }
    else if key == "severity"
    then record c { severity = value }
    else if key == "status"
    then record c { status = value }
    else if key == "assignee"
    then record c { assignee = value }
    else c

unfoldable pub set_columns : List (String × String) → Case → Case
unfolding set_column
set_columns [] c = c
set_columns ((key, value) ∷ fields) c = set_columns fields (set_column key value c)

-- The row that `UPDATE cases SET` writes.
unfoldable pub written : List (String × String) → (closes : Bool) (now : ℕ) → Case → Case
unfolding set_columns
written fields closes now c = record (set_columns fields c) {
  updated_at = now;
  closed_at = (if closes then some now else (set_columns fields c).closed_at);
}

unfoldable pub change_case : (id : ℕ) → (Case → Case) → List Case → List Case
change_case id f [] = []
change_case id f (c ∷ rows) = (if c.id == id then f c else c) ∷ change_case id f rows

abbrev pub is_closing : Option String → Bool
is_closing none = false
is_closing (some status) = status == "closed"

abbrev pub field_texts : List (String × String) → List String
field_texts fields = map (λ f. join_texts f.0 (join_texts "=" f.1)) fields

abbrev pub update_allowed :
    (id : ℕ) (actor : String)
    → List (String × String)
    → (closes : Bool) (now : ℕ) → Cases
    → Bool × Cases
update_allowed id actor [] closes now s = (false, s)
update_allowed id actor (f ∷ fields) closes now s = (
  true,
  log id "updated" (join_texts "Güncellendi: " (join ", " (field_texts (f ∷ fields)))) actor now
      (record s { rows = change_case id (written (f ∷ fields) closes now) s.rows }),
)

-- `update_case`: the fields are the dict of the keyword arguments, whose values are texts.
unfoldable pub update_case :
    (id : ℕ) (actor : String) → Dict String String → (now : ℕ) → Cases → Bool × Cases
unfolding log change_case written is_in
update_case id actor fields now s =
    update_allowed id actor (filter (λ f. is_in f.0 allowed) fields)
      (is_closing (Dict.get "status" fields)) now s

unfoldable pub find_case : (id : ℕ) → List Case → Option Case
find_case id [] = none
find_case id (c ∷ rows) = if c.id == id then some c else find_case id rows

-- `get_case`
unfoldable pub get_case : (id : ℕ) → Cases → Option Case
unfolding find_case
get_case id s = find_case id s.rows

-- `list_cases`; an empty status is that of a call without one.
unfoldable pub list_cases : (status : String) (limit : ℕ) → Cases → List Case
list_cases status limit s =
    take limit
      (sort (descending (λ c. c.id)) (filter (λ c. is_empty status || c.status == status) s.rows))

-- The arguments of `add_case_evidence`.
pub record NewEvidence : Type 0 where
  pub evidence_type : String
  pub description : String
  pub content : Dict String Value
  pub reference_id : String
  pub added_by : String

abbrev pub evidence_row : (id case_id : ℕ) → NewEvidence → (now : ℕ) → Evidence
evidence_row id case_id n now = record {
  id = id;
  case_id = case_id;
  evidence_type = n.evidence_type;
  reference_id = n.reference_id;
  description = n.description;
  content = n.content;
  added_by = n.added_by;
  added_at = now;
}

-- `UPDATE cases SET updated_at=?`
abbrev pub stamped : (now : ℕ) → Case → Case
stamped now c = record c { updated_at = now }

-- `add_case_evidence`: the identifier of the evidence, beside the tables.
unfoldable pub add_case_evidence : (case_id : ℕ) → NewEvidence → (now : ℕ) → Cases → ℕ × Cases
unfolding log change_case
add_case_evidence case_id n now s =
    let id = s.evidence_sequence + 1 in
    (
      id,
      log case_id "evidence_added"
          (join_texts "Kanıt eklendi: "
            (join_texts n.evidence_type (join_texts " — " n.description)))
          n.added_by now
          (record s {
            evidence = s.evidence ++ (evidence_row id case_id n now ∷ []);
            evidence_sequence = id;
            rows = change_case case_id (stamped now) s.rows;
          }),
    )

-- `get_case_timeline`
unfoldable pub get_case_timeline : (case_id : ℕ) → Cases → List Entry
get_case_timeline case_id s =
    sort (ascending (λ e. e.created_at)) (filter (λ e. e.case_id == case_id) s.timeline)

-- `get_case_evidence_list`
unfoldable pub get_case_evidence_list : (case_id : ℕ) → Cases → List Evidence
get_case_evidence_list case_id s =
    sort (ascending (λ e. e.added_at)) (filter (λ e. e.case_id == case_id) s.evidence)

unfoldable pub find_alert : {R : Type 0} → (id : ℕ) → List (Alert R) → Option (Alert R)
find_alert id [] = none
find_alert id (a ∷ rows) = if a.id == id then some a else find_alert id rows

-- The evidence of an alert.
abbrev pub alert_evidence : {R : Type 0} → (alert_id : ℕ) (actor : String) → Alert R → NewEvidence
alert_evidence alert_id actor a = record {
  evidence_type = "alert";
  description = join_texts "Alarm #" (join_texts (nat_text alert_id) (join_texts ": " a.message));
  content =
      ("alert_type", text a.alert_type)
      ∷ ("severity", text a.severity)
      ∷ ("device_id", text a.device_id)
      ∷ ("created_at", time a.created_at)
      ∷ [];
  reference_id = nat_text alert_id;
  added_by = actor;
}

abbrev pub link_found :
    {R : Type 0}
    → (case_id alert_id : ℕ) (actor : String) (now : ℕ) → Option (Alert R)
    → Cases
    → Option ℕ × Cases
link_found case_id alert_id actor now none s = (none, s)
link_found case_id alert_id actor now (some a) s =
    let added = add_case_evidence case_id (alert_evidence alert_id actor a) now s in
    (some added.0, added.1)

-- `link_alert_to_case`: the identifier of the evidence, or none for an alert that is not found.
unfoldable pub link_alert_to_case :
    {R : Type 0}
    → (case_id alert_id : ℕ) (actor : String) (now : ℕ) → List (Alert R)
    → Cases
    → Option ℕ × Cases
unfolding find_alert add_case_evidence nat_text
link_alert_to_case case_id alert_id actor now alerts s =
    link_found case_id alert_id actor now (find_alert alert_id alerts) s
