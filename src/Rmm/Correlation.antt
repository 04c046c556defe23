-- ===== src/Rmm/Correlation.antt =====
-- The rules that correlate alerts and metrics, and their events (the tables `correlation_rules` and `correlation_events`,
-- emarefirewall/rmm.py). The conditions, which the table has as JSON text, are a record of what the code reads of them.
-- An evaluation is one step here, though the store releases its lock between the count, the check for a duplicate and
-- the insertion: evaluations that run at once are not modelled.
pub mod Spacing
use emarecloud.Prelude.{
  ℕ, zero, suc, ◌+◌, ◌-◌, ◌*◌, ◌/◌, ◌%◌, ◌≤◌, ◌<◌, min, max, String, ◌≡◌, refl, sym, ap, ◌∙◌, ◌≢◌,
  ◌↔◌, ◌⊎◌, inl, inr, Bool, true, false, not, ◌&&◌, ◌||◌, Option, none, some, List, [], ◌∷◌, map,
  reverse, arith, eq_iff, ltb, leb, nat_beq, if◌then◌else◌, is_some, nat_beq_iff, ltb→lt, leb→le,
  Bool-cases, Option-cases, Eq, ◌==◌, nat_eq, string_eq, pair_eq, pair_beq,
}
use mathlib.Core.List.{◌++◌}
use emarecloud.Lists.{any, filter, length, is_in}
use emarecloud.Rmm.Alerts.{Reals, Alert, Monitor, minutes, add_risk_factor}
use emarecloud.Rmm.Devices.{Metric}

-- What stands under the keys of `conditions`, where a key is there.
pub record Conditions (R : Type 0) : Type 0 where
  pub alert_type : Option String
  pub metric : Option String
  pub operator : Option String
  pub value : Option R
  pub count : Option ℕ
  pub window_minutes : Option ℕ

pub record Rule (R : Type 0) : Type 0 where
  pub id : ℕ
  pub name : String
  pub description : String
  pub rule_type : String
  pub conditions : Conditions R
  pub severity : String
  pub enabled : Bool
  pub created_at : ℕ

-- A row of `correlation_events`; of the details the number of matches is kept.
pub record Event : Type 0 where
  pub id : ℕ
  pub rule_id : ℕ
  pub device_id : String
  pub matched_count : ℕ
  pub severity : String
  pub created_at : ℕ

pub record Engine (R : Type 0) : Type 0 where
  pub monitor : Monitor R
  pub metrics : List (Metric R)
  pub rules : List (Rule R)
  pub rule_sequence : ℕ
  pub events : List Event
  pub event_sequence : ℕ

-- `cond.get(key, default)`
abbrev pub or_default {ℓ} : {A : Type ℓ} → Option A → A → A
or_default none d = d
or_default (some a) d = a

-- A value of a list, or the default.
abbrev pub one_of : List String → (value default : String) → String
one_of values value d = if is_in value values then value else d

module _ {R : Type 0} where
  -- `create_correlation_rule`: an unknown type or severity is replaced.
  unfoldable pub create_correlation_rule :
      (name description rule_type : String)
      → Conditions R
      → (severity : String) (now : ℕ) → Engine R
      → ℕ × Engine R
  create_correlation_rule name description rule_type cond severity now e =
      let id = e.rule_sequence + 1 in
      (
        id,
        record e {
          rules =
              e.rules
              ++ (record {
                id = id;
                name = name;
                description = description;
                rule_type =
                    one_of ("threshold" ∷ "sequence" ∷ "frequency" ∷ []) rule_type "threshold";
                conditions = cond;
                severity = one_of ("info" ∷ "warning" ∷ "critical" ∷ []) severity "warning";
                enabled = true;
                created_at = now;
              }
                  ∷ []);
          rule_sequence = id;
        },
      )

  unfoldable pub set_enabled : (id : ℕ) (enabled : Bool) → List (Rule R) → List (Rule R)
  set_enabled id b [] = []
  set_enabled id b (r ∷ rules) =
      (if r.id == id then record r { enabled = b } else r) ∷ set_enabled id b rules

  -- `toggle_correlation_rule`: whether the rule is there.
  unfoldable pub toggle_correlation_rule : (id : ℕ) (enabled : Bool) → Engine R → Bool × Engine R
  unfolding set_enabled
  toggle_correlation_rule id b e =
      (any (λ r. r.id == id) e.rules, record e { rules = set_enabled id b e.rules })

  -- `delete_correlation_rule`
  unfoldable pub delete_correlation_rule : (id : ℕ) → Engine R → Bool × Engine R
  delete_correlation_rule id e = (
    true,
    record e {
      events = filter (λ v. not (v.rule_id == id)) e.events;
      rules = filter (λ r. not (r.id == id)) e.rules;
    },
  )

-- The query for an event of the rule and device after the cutoff, the start of the window before `started`.
unfoldable pub has_duplicate :
    (rule_id : ℕ) (device_id : String) (started window : ℕ) → List Event → Bool
has_duplicate rule_id device_id started window events =
    any
      (λ v.
        v.rule_id == rule_id
        && v.device_id == device_id
        && ltb started (v.created_at + minutes window))
      events

module _ {R : Type 0} (reals : Reals R) where
  abbrev pub event_row : (id : ℕ) → Rule R → (device_id : String) (matched now : ℕ) → Event
  event_row id r device_id matched now = record {
    id = id;
    rule_id = r.id;
    device_id = device_id;
    matched_count = matched;
    severity = r.severity;
    created_at = now;
  }

  -- `_create_correlation_event`, with the points that it adds to the risk of the device.
  unfoldable pub create_correlation_event :
      Rule R → (device_id : String) (matched now : ℕ) → Engine R → Engine R
  unfolding add_risk_factor
  create_correlation_event r device_id matched now e =
      let id = e.event_sequence + 1 in
      record e {
        events = e.events ++ (event_row id r device_id matched now ∷ []);
        event_sequence = id;
        monitor =
            add_risk_factor reals device_id "correlation"
              (reals.of (if r.severity == "critical" then 30 else 15)) now e.monitor;
      }

  -- The event of a rule that has matched often enough, unless the window has one already.
  unfoldable pub trigger :
      Rule R → (device_id : String) (matched count window started now : ℕ) → Engine R → Engine R
  unfolding create_correlation_event has_duplicate
  trigger r device_id matched count window started now e =
      if leb count matched && not (has_duplicate r.id device_id started window e.events)
      then create_correlation_event r device_id matched now e
      else e

  -- `_eval_frequency_rule`
  unfoldable pub eval_frequency_rule :
      Rule R → (device_id : String) (started now : ℕ) → Engine R → Engine R
  unfolding trigger
  eval_frequency_rule r device_id started now e =
      let window = or_default r.conditions.window_minutes 60 in
      let matched = length (
        filter
          (λ a.
            a.device_id == device_id
            && a.alert_type == or_default r.conditions.alert_type ""
            && ltb started (a.created_at + minutes window))
          e.monitor.alerts) in
      trigger r device_id matched (or_default r.conditions.count 5) window started now e

  -- The column of a metric.
  abbrev pub column_of : (metric : String) → Metric R → Option R
  column_of metric m =
      if metric == "cpu"
      then some m.cpu
      else if metric == "ram"
      then some m.ram
      else if metric == "disk"
      then some m.disk
      else none

  -- The comparison of an operator; an unknown one is `>=`.
  abbrev pub compares : (operator : String) → R → R → Bool
  compares op a b =
      if op == ">"
      then not (reals.at_least b a)
      else if op == "<="
      then reals.at_least b a
      else if op == "<"
      then not (reals.at_least a b)
      else reals.at_least a b

  abbrev pub column_passes : (operator : String) → Option R → R → Bool
  column_passes op none v = false
  column_passes op (some a) v = compares op a v

  -- `_eval_threshold_rule`: a rule on another column is left.
  unfoldable pub eval_threshold_rule :
      Rule R → (device_id : String) (started now : ℕ) → Engine R → Engine R
  unfolding trigger is_in
  eval_threshold_rule r device_id started now e =
      let metric = or_default r.conditions.metric "cpu" in
      let window = or_default r.conditions.window_minutes 10 in
      let matched = length (
        filter
          (λ m.
            m.device_id == device_id
            && ltb started (m.ts + minutes window)
            && column_passes (or_default r.conditions.operator ">=") (column_of metric m)
                (or_default r.conditions.value (reals.of 95)))
          e.metrics) in
      if is_in metric ("cpu" ∷ "ram" ∷ "disk" ∷ [])
      then trigger r device_id matched (or_default r.conditions.count 3) window started now e
      else e

  unfoldable pub eval_rule : Rule R → (device_id : String) (started now : ℕ) → Engine R → Engine R
  unfolding eval_frequency_rule eval_threshold_rule
  eval_rule r device_id started now e =
      if not r.enabled
      then e
      else if r.rule_type == "frequency"
      then eval_frequency_rule r device_id started now e
      else if r.rule_type == "threshold"
      then eval_threshold_rule r device_id started now e
      else e

  -- The loop over the rules; each reads the clock for its cutoff and its event.
  unfoldable pub eval_rules :
      (clock : ℕ → ℕ) (reading : ℕ) → List (Rule R) → (device_id : String) → Engine R → Engine R
  unfolding eval_rule
  eval_rules clock n [] device_id e = e
  eval_rules clock n (r ∷ rules) device_id e =
      eval_rules clock (n + 2) rules device_id (eval_rule r device_id (clock n) (clock (n + 1)) e)

  -- `evaluate_correlation_rules`: the rules are in the order of their identifiers, which is that of insertion.
  unfoldable pub evaluate_correlation_rules :
      (clock : ℕ → ℕ) (device_id : String) → Engine R → Engine R
  unfolding eval_rules
  evaluate_correlation_rules clock device_id e = eval_rules clock 0 e.rules device_id e
