-- ===== src/Rmm/Threats.antt =====
-- The threat indicators (the table `threat_intel`, with its unique index, emarefirewall/rmm.py). JSON texts are texts.
pub mod Laws
use emarecloud.Prelude.{
  ℕ, zero, suc, ◌+◌, ◌-◌, ◌*◌, ◌/◌, ◌%◌, ◌≤◌, ◌<◌, min, max, String, ◌≡◌, refl, sym, ap, ◌∙◌, ◌≢◌,
  ◌↔◌, ◌⊎◌, inl, inr, Bool, true, false, not, ◌&&◌, ◌||◌, Option, none, some, List, [], ◌∷◌, ◌++◌,
  map, reverse, arith, eq_iff, ltb, leb, nat_beq, if◌then◌else◌, is_some, nat_beq_iff, ltb→lt,
  leb→le, Bool-cases, Option-cases, Eq, ◌==◌, nat_eq, string_eq, pair_eq, pair_beq,
}
use emarecloud.Lists.{any, filter, sort, descending, take}
use emarecloud.Text.{is_empty}

pub record Threat : Type 0 where
  pub id : ℕ
  pub indicator : String
  pub indicator_type : String
  pub source : String
  pub reputation : String
  pub tags : String
  pub raw_details : String
  pub first_seen : ℕ
  pub last_checked : ℕ

-- The rows, and the last identifier that AUTOINCREMENT gave.
pub record Threats : Type 0 where
  pub rows : List Threat
  pub sequence : ℕ

-- The arguments of `add_threat_indicator` beside the key.
pub record Report : Type 0 where
  pub source : String
  pub reputation : String
  pub tags : String
  pub raw_details : String

abbrev pub is_keyed : (indicator indicator_type : String) → Threat → Bool
is_keyed indicator indicator_type t = t.indicator == indicator && t.indicator_type == indicator_type

-- `SELECT * FROM threat_intel WHERE indicator=? AND indicator_type=?`
unfoldable pub find_threat : (indicator indicator_type : String) → List Threat → Option Threat
find_threat i y [] = none
find_threat i y (t ∷ rows) = if is_keyed i y t then some t else find_threat i y rows

-- The UPDATE of the row that the unique index names.
unfoldable pub refresh :
    (indicator indicator_type : String) → Report → (now : ℕ) → List Threat → List Threat
refresh i y r now [] = []
refresh i y r now (t ∷ rows) =
    (if is_keyed i y t
      then record t {
        reputation = r.reputation;
        source = r.source;
        tags = r.tags;
        raw_details = r.raw_details;
        last_checked = now;
      }
      else t)
    ∷ refresh i y r now rows

abbrev pub id_or_zero : Option Threat → ℕ
id_or_zero none = 0
id_or_zero (some t) = t.id

abbrev pub threat_row : (id : ℕ) (indicator indicator_type : String) → Report → (now : ℕ) → Threat
threat_row id i y r now = record {
  id = id;
  indicator = i;
  indicator_type = y;
  source = r.source;
  reputation = r.reputation;
  tags = r.tags;
  raw_details = r.raw_details;
  first_seen = now;
  last_checked = now;
}

-- `add_threat_indicator`: an insertion that the index refuses becomes an update.
unfoldable pub add_threat_indicator :
    (indicator indicator_type : String) → Report → (now : ℕ) → Threats → ℕ × Threats
unfolding refresh
add_threat_indicator i y r now t =
    if is_some (find_threat i y t.rows)
    then (let rows = refresh i y r now t.rows in
        (id_or_zero (find_threat i y rows), record t { rows = rows }))
    else (let id = t.sequence + 1 in
        (id, record { rows = t.rows ++ (threat_row id i y r now ∷ []); sequence = id }))

-- `check_threat`
unfoldable pub check_threat : (indicator indicator_type : String) → Threats → Option Threat
unfolding find_threat
check_threat i y t = find_threat i y t.rows

unfoldable pub delete_row : (id : ℕ) → List Threat → List Threat
delete_row id rows = filter (λ t. not (t.id == id)) rows

-- `remove_threat`: whether a row was deleted.
unfoldable pub remove_threat : (id : ℕ) → Threats → Bool × Threats
unfolding delete_row
remove_threat id t = (any (λ r. r.id == id) t.rows, record t { rows = delete_row id t.rows })

abbrev pub wants : (value column : String) → Bool
wants value column = is_empty value || column == value

-- `list_threats`
unfoldable pub list_threats :
    (indicator_type reputation : String) (limit : ℕ) → Threats → List Threat
list_threats y reputation limit t = take limit (
    sort (descending (λ r. r.last_checked))
      (filter (λ r. wants y r.indicator_type && wants reputation r.reputation) t.rows))
