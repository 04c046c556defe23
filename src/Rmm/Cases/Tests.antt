-- ===== src/Rmm/Cases/Tests.antt =====
-- Runs of the cases.
use emarecloud.Prelude.{
  ℕ, String, ◌≡◌, refl, Option, none, some, List, [], ◌∷◌, map, nat_eq, string_eq, pair_eq,
}
use emarecloud.Lists.{All, length}
use emarecloud.Rmm.Cases.{
  NewCase, NewEvidence, text, list_cases, get_case_timeline, get_case_evidence_list,
}
use emarecloud.Rmm.Cases.History.{
  Event, IsCurrent, creates, updates, adds, links, empty, run, run-IsCurrent,
}

abbrev breach : NewCase
breach = record {
  title = "breach";
  description = "";
  severity = "high";
  assignee = "";
  created_by = "admin";
}

abbrev screenshot : NewEvidence
screenshot = record {
  evidence_type = "file";
  description = "a screenshot";
  content = ("path", text "/tmp/a.png") ∷ [];
  reference_id = "";
  added_by = "admin";
}

abbrev events : List (Event ℕ)
events =
    creates breach 1
    ∷ updates 1 "admin" (("status", "closed") ∷ ("id", "7") ∷ []) 2
    ∷ updates 2 "admin" (("title", "early") ∷ []) 3
    ∷ creates breach 4
    ∷ adds 1 screenshot 5
    ∷ links 1 9 "admin" 6 []
    ∷ updates 1 "admin" (("status", "open") ∷ []) 7
    ∷ []

-- A case that is opened again keeps the time of its closing.
reopened :
    map {B = ℕ × String × ℕ × Option ℕ}
      (λ c. (c.id, c.status, c.updated_at, c.closed_at))
      (list_cases "" 10 (run events empty))
    ≡ ((2, "open", 4, none) ∷ (1, "open", 7, some 2) ∷ [])
unfolding run list_cases emarecloud.Lists.sort emarecloud.Lists.filter emarecloud.Lists.take
    emarecloud.Text.is_empty emarecloud.Dict.get
reopened = refl

-- An entry that was written for a case before it was there shows in its timeline.
early_entry :
    map {B = String × String}
      (λ e. (e.event_type, e.message))
      (get_case_timeline 2 (run events empty))
    ≡ (("updated", "Güncellendi: title=early") ∷ ("created", "Vaka oluşturuldu") ∷ [])
unfolding run get_case_timeline emarecloud.Lists.sort emarecloud.Lists.filter
early_entry = refl

evidence_listed :
    map (λ e. e.description) (get_case_evidence_list 1 (run events empty)) ≡ ("a screenshot" ∷ [])
unfolding run get_case_evidence_list emarecloud.Lists.sort emarecloud.Lists.filter
evidence_listed = refl

run-IsCurrent_example :
    All (IsCurrent (run events empty).timeline (run events empty).sequence) (run events empty).rows
run-IsCurrent_example = run-IsCurrent events
