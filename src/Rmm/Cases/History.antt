-- ===== src/Rmm/Cases/History.antt =====
-- The history of a case and the time of its last change, over runs of the operations on cases.
use emarecloud.Prelude.{
  ℕ, ◌+◌, String, ◌≡◌, refl, ◌∙◌, inl, inr, Bool, true, Option, none, some, List, [], ◌∷◌, ◌++◌,
  arith, leb, if◌then◌else◌, Bool-cases, ◌==◌, nat_eq, string_eq, pair_eq,
}
use emarecloud.Dict
use emarecloud.Dict.{Dict}
use emarecloud.Lists.{All, All-append, is_in, filter}
use emarecloud.Rmm.Alerts.{Alert}
use emarecloud.Rmm.Cases.{
  entry_row, Case, Entry, Cases, NewCase, NewEvidence, log, create_case, case_row, change_case,
  set_column, set_columns, written, stamped, allowed, is_closing, update_allowed, update_case,
  add_case_evidence, alert_evidence, link_found, find_alert, link_alert_to_case,
}

pub data Event (R : Type 0) : Type 0 where
  creates : NewCase → (now : ℕ) → Event R
  updates : (id : ℕ) (actor : String) → Dict String String → (now : ℕ) → Event R
  adds : (id : ℕ) → NewEvidence → (now : ℕ) → Event R
  links : (id alert_id : ℕ) (actor : String) (now : ℕ) → List (Alert R) → Event R

abbrev pub empty : Cases
empty = record {
  rows = [];
  sequence = 0;
  evidence = [];
  evidence_sequence = 0;
  timeline = [];
  timeline_sequence = 0;
}

-- The time of the last entry of a case in the order of insertion.
abbrev later : Option ℕ → (c : Bool) (now : ℕ) → Option ℕ
later (some t) c now = some t
later none c now = if c then some now else none

unfoldable pub last_entry : (id : ℕ) → List Entry → Option ℕ
last_entry id [] = none
last_entry id (e ∷ es) = later (last_entry id es) (e.case_id == id) e.created_at

last_entry-append :
    (id : ℕ) (es : List Entry) (e : Entry)
    → last_entry id (es ++ (e ∷ []))
      ≡ (if e.case_id == id then some e.created_at else last_entry id es)
unfolding last_entry
last_entry-append id [] e = refl
last_entry-append id (d ∷ es) e = rw (last_entry-append id es e) (ground (arith))

-- A case was last changed at the time of its last entry, and its identifier was given before.
abbrev pub IsCurrent : List Entry → (sequence : ℕ) → Case → Type 0
IsCurrent es n c = (last_entry c.id es ≡ some c.updated_at) × (leb c.id n ≡ true)

-- A function on rows that writes the time of a change.
abbrev Stamps : (now : ℕ) → (Case → Case) → Type 0
Stamps now f = (c : Case) → ((f c).id ≡ c.id) × ((f c).updated_at ≡ now)

set_column-id : (k v : String) (c : Case) → (set_column k v c).id ≡ c.id
unfolding set_column
set_column-id k v c = ground arith

set_columns-id : (fields : List (String × String)) (c : Case) → (set_columns fields c).id ≡ c.id
unfolding set_columns
set_columns-id [] c = refl
set_columns-id ((k, v) ∷ fields) c = set_columns-id fields (set_column k v c) ∙ set_column-id k v c

written-Stamps :
    (fields : List (String × String)) (closes : Bool) (now : ℕ)
    → Stamps now (written fields closes now)
unfolding written
written-Stamps fields closes now c = (set_columns-id fields c, refl)

-- The case of the new entry is changed with it, the other cases keep their last entry.
change_case-IsCurrent :
    (f : Case → Case) (e : Entry) (es : List Entry) (n : ℕ) (rows : List Case)
    → Stamps e.created_at f
    → All (IsCurrent es n) rows
    → All (IsCurrent (es ++ (e ∷ [])) n) (change_case e.case_id f rows)
unfolding change_case
change_case-IsCurrent f e es n [] h v = tt
change_case-IsCurrent f e es n (c ∷ rows) h ((vt, vn), v) =
    let rest = change_case-IsCurrent f e es n rows h v in
    elim (Bool-cases (c.id == e.case_id)) [
      | inl same ↦ rw same (
        (
          rw (h c).0 (rw (h c).1 (last_entry-append c.id es e ∙ ground (arith, same))),
          rw (h c).0 vn,
        ),
        rest,
      )
      | inr other ↦ rw other ((last_entry-append c.id es e ∙ ground (arith, other, vt), vn), rest)
    ]

-- An entry for the next case leaves the last entries of the others.
next-IsCurrent :
    (e : Entry) (es : List Entry) (n : ℕ) (rows : List Case)
    → e.case_id ≡ n + 1
    → All (IsCurrent es n) rows
    → All (IsCurrent (es ++ (e ∷ [])) (n + 1)) rows
next-IsCurrent e es n [] q v = tt
next-IsCurrent e es n (c ∷ rows) q ((vt, vn), v) = (
  (last_entry-append c.id es e ∙ ground (arith, q, vn, vt), ground (arith, vn)),
  next-IsCurrent e es n rows q v,
)

abbrev pub Fits : Cases → Type 0
Fits s = All (IsCurrent s.timeline s.sequence) s.rows

create_case-Fits : (n : NewCase) (now : ℕ) (s : Cases) → Fits s → Fits (create_case n now s).1
unfolding create_case log
create_case-Fits n now s v =
    let e =
      entry_row (s.timeline_sequence + 1) (s.sequence + 1) "created" "Vaka oluşturuldu" n.created_by
        now in
    All-append (IsCurrent (s.timeline ++ (e ∷ [])) (s.sequence + 1)) s.rows
      (case_row (s.sequence + 1) n now ∷ []) (next-IsCurrent e s.timeline s.sequence s.rows refl v)
      ((last_entry-append (s.sequence + 1) s.timeline e ∙ ground arith, ground arith), tt)

add_case_evidence-Fits :
    (id : ℕ) (n : NewEvidence) (now : ℕ) (s : Cases)
    → Fits s
    → Fits (add_case_evidence id n now s).1
unfolding add_case_evidence log
add_case_evidence-Fits id n now s v =
    change_case-IsCurrent (stamped now) _ s.timeline s.sequence s.rows (λ c. (refl, refl)) v

update_allowed-Fits :
    (id : ℕ) (actor : String) (fields : List (String × String)) (closes : Bool) (now : ℕ)
    (s : Cases)
    → Fits s
    → Fits (update_allowed id actor fields closes now s).1
unfolding log
update_allowed-Fits id actor [] closes now s v = v
update_allowed-Fits id actor (f ∷ fields) closes now s v =
    change_case-IsCurrent (written (f ∷ fields) closes now) _ s.timeline s.sequence s.rows
      (written-Stamps (f ∷ fields) closes now) v

module _ {R : Type 0} where
  link_found-Fits :
      (id alert_id : ℕ) (actor : String) (now : ℕ) (a : Option (Alert R)) (s : Cases)
      → Fits s
      → Fits (link_found id alert_id actor now a s).1
  link_found-Fits id alert_id actor now none s v = v
  link_found-Fits id alert_id actor now (some a) s v =
      add_case_evidence-Fits id (alert_evidence alert_id actor a) now s v

  unfoldable pub run : List (Event R) → Cases → Cases
  unfolding create_case update_case add_case_evidence link_alert_to_case
  run [] s = s
  run (creates n now ∷ es) s = run es (create_case n now s).1
  run (updates id actor fields now ∷ es) s = run es (update_case id actor fields now s).1
  run (adds id n now ∷ es) s = run es (add_case_evidence id n now s).1
  run (links id alert_id actor now alerts ∷ es) s =
      run es (link_alert_to_case id alert_id actor now alerts s).1

  run-Fits : (es : List (Event R)) (s : Cases) → Fits s → Fits (run es s)
  unfolding run update_case link_alert_to_case
  run-Fits [] s v = v
  run-Fits (creates n now ∷ es) s v =
      run-Fits es (create_case n now s).1 (create_case-Fits n now s v)
  run-Fits (updates id actor fields now ∷ es) s v =
      run-Fits es (update_case id actor fields now s).1 (
        update_allowed-Fits id actor (filter (λ f. is_in f.0 allowed) fields)
          (is_closing (Dict.get "status" fields)) now s v)
  run-Fits (adds id n now ∷ es) s v =
      run-Fits es (add_case_evidence id n now s).1 (add_case_evidence-Fits id n now s v)
  run-Fits (links id alert_id actor now alerts ∷ es) s v =
      run-Fits es (link_alert_to_case id alert_id actor now alerts s).1
        (link_found-Fits id alert_id actor now (find_alert alert_id alerts) s v)

  -- After any run of creations, updates, added evidence and linked alerts from empty tables,
  -- whichever cases they name, every case was last changed at the time of the entry that its
  -- timeline got last, and its identifier is at most the last that was given.
  pub run-IsCurrent :
      (es : List (Event R))
      → All (IsCurrent (run es empty).timeline (run es empty).sequence) (run es empty).rows
  run-IsCurrent es = run-Fits es empty tt
