-- ===== src/Rmm/Threats/Laws.antt =====
-- The table of threats answers by the last report of an indicator.
use mathlib.Core.Option
use emarecloud.Prelude.{
  ℕ, ◌+◌, String, ◌≡◌, refl, sym, ap, ◌∙◌, inl, inr, true, false, ◌&&◌, Option, none, some, List,
  [], ◌∷◌, ◌++◌, arith, if◌then◌else◌, Bool-cases, Option-cases, ◌==◌, nat_eq, string_eq, pair_eq,
}
use emarecloud.Rmm.Threats.{
  Threat, Threats, Report, is_keyed, find_threat, refresh, threat_row, add_threat_indicator,
  check_threat,
}

-- A row has two keys only if they are the same.
same_key :
    (i y j z : String) (t : Threat) → (i == j && y == z) ≡ true → is_keyed j z t ≡ is_keyed i y t
same_key i y j z t h = ground (
  arith,
  h,
  string_eq.same_iff t.indicator i,
  string_eq.same_iff t.indicator j,
  string_eq.same_iff i j,
  string_eq.same_iff t.indicator_type y,
  string_eq.same_iff t.indicator_type z,
  string_eq.same_iff y z,
)

both_keys :
    (i y j z : String) (t : Threat)
    → is_keyed i y t ≡ true
    → is_keyed j z t ≡ true
    → (i == j && y == z) ≡ true
both_keys i y j z t h k = ground (
  arith,
  h,
  k,
  string_eq.same_iff t.indicator i,
  string_eq.same_iff t.indicator j,
  string_eq.same_iff i j,
  string_eq.same_iff t.indicator_type y,
  string_eq.same_iff t.indicator_type z,
  string_eq.same_iff y z,
)

-- The row that a report leaves, by the row that was there: a known indicator keeps its identifier and the time of its
-- first report.
abbrev pub reported :
    (id : ℕ) (indicator indicator_type : String) → Report → (now : ℕ) → Option Threat → Threat
reported id i y r now none = record {
  id = id;
  indicator = i;
  indicator_type = y;
  source = r.source;
  reputation = r.reputation;
  tags = r.tags;
  raw_details = r.raw_details;
  first_seen = now;
  last_checked = now;
}
reported id i y r now (some old) = record {
  id = old.id;
  indicator = old.indicator;
  indicator_type = old.indicator_type;
  source = r.source;
  reputation = r.reputation;
  tags = r.tags;
  raw_details = r.raw_details;
  first_seen = old.first_seen;
  last_checked = now;
}

find_threat-append :
    (i y j z : String) (r : Report) (id now : ℕ) (rows : List Threat)
    → find_threat i y rows ≡ none
    → find_threat j z (rows ++ (threat_row id i y r now ∷ []))
      ≡ (if i == j && y == z then some (threat_row id i y r now) else find_threat j z rows)
unfolding find_threat
find_threat-append i y j z r id now [] h = ground arith
find_threat-append i y j z r id now (t ∷ rows) h =
    let missing : is_keyed i y t ≡ false = ground (arith, h) in
    let rest : find_threat i y rows ≡ none = ground (arith, h) in
    ground (arith, missing, same_key i y j z t, find_threat-append i y j z r id now rows rest)

-- The update of one key leaves the answers for the others.
find_threat-refresh_other :
    (i y j z : String) (r : Report) (now : ℕ) (rows : List Threat)
    → (i == j && y == z) ≡ false
    → find_threat j z (refresh i y r now rows) ≡ find_threat j z rows
unfolding find_threat refresh
find_threat-refresh_other i y j z r now [] h = refl
find_threat-refresh_other i y j z r now (t ∷ rows) h = elim (Bool-cases (is_keyed i y t)) [
  | inl e ↦
      let other : is_keyed j z t ≡ false = ground (arith, h, e, both_keys i y j z t) in
      rw (e, other) (find_threat-refresh_other i y j z r now rows h)
  | inr e ↦ rw (e, find_threat-refresh_other i y j z r now rows h) refl
]

find_threat-refresh_same :
    (i y : String) (r : Report) (id now : ℕ) (old : Threat) (rows : List Threat)
    → find_threat i y rows ≡ some old
    → find_threat i y (refresh i y r now rows) ≡ some (reported id i y r now (some old))
unfolding find_threat refresh
find_threat-refresh_same i y r id now old [] h = cc
find_threat-refresh_same i y r id now old (t ∷ rows) h = elim (Bool-cases (is_keyed i y t)) [
  | inl e ↦
      let same : some t ≡ some old = rw e at h in
      rw (e, e) (ap (λ o. Option.map (λ t. reported id i y r now (some t)) o) same)
  | inr e ↦
      let rest : find_threat i y rows ≡ some old = rw e at h in
      rw (e, e) (find_threat-refresh_same i y r id now old rows rest)
]

-- After a report of an indicator, `check_threat` answers it with a row of what was reported, whose
-- last check is now; a new one has the next identifier and is first seen now, a known one keeps
-- its identifier and when it was first seen. Every other indicator is answered with the same row
-- as before.
pub check_threat-add_threat_indicator :
    (i y j z : String) (r : Report) (now : ℕ) (t : Threats)
    → check_threat j z (add_threat_indicator i y r now t).1 ≡ (
        if i == j && y == z
        then some (reported (t.sequence + 1) i y r now (check_threat i y t))
        else check_threat j z t)
unfolding check_threat add_threat_indicator
check_threat-add_threat_indicator i y j z r now t = elim (Option-cases (find_threat i y t.rows)) [
  | inl e ↦ rw e (find_threat-append i y j z r (t.sequence + 1) now t.rows e)
  | inr (old, e) ↦ rw e (elim (Bool-cases (i == j && y == z)) [
    | inl q ↦
        let a : i ≡ j = (string_eq.same_iff i j).0 (ground (arith, q)) in
        let b : y ≡ z = (string_eq.same_iff y z).0 (ground (arith, q)) in
        rw q (
          ap (λ x. find_threat x z (refresh i y r now t.rows)) (sym a)
          ∙ ap (λ x. find_threat i x (refresh i y r now t.rows)) (sym b)
          ∙ find_threat-refresh_same i y r (t.sequence + 1) now old t.rows e)
    | inr q ↦ rw q (find_threat-refresh_other i y j z r now t.rows q)
  ])
]
