-- ===== src/Rmm/Alerts.antt =====
-- The alerts that a heartbeat raises and the risk of a device (the tables `alerts` and `risk_scores`,
-- emarefirewall/rmm.py). The type of REAL, its order, its sum and its texts are arguments, and so are the times.
pub mod Spacing
use emarecloud.Prelude.{
  ℕ, zero, suc, ◌+◌, ◌-◌, ◌*◌, ◌/◌, ◌%◌, ◌≤◌, ◌<◌, min, max, String, ◌≡◌, refl, sym, ap, ◌∙◌, ◌≢◌,
  ◌↔◌, ◌⊎◌, inl, inr, Bool, true, false, not, ◌&&◌, ◌||◌, Option, none, some, List, [], ◌∷◌, map,
  reverse, arith, eq_iff, ltb, leb, nat_beq, if◌then◌else◌, is_some, nat_beq_iff, ltb→lt, leb→le,
  Bool-cases, Option-cases, Eq, ◌==◌, nat_eq, string_eq, pair_eq, pair_beq,
}
use mathlib.Core.List
use mathlib.Core.List.{◌++◌}
use Prim.Native.String.{◌++◌ as join_texts}
use emarecloud.Dict
use emarecloud.Dict.{Dict}
use emarecloud.Lists.{any, last}
use emarecloud.Rmm.Tickets.{Tickets, Ticket, create_ticket}

-- What the code uses of floating-point numbers: `a >= b`, `a + b`, an int, and the texts of `:.1f` and `:.0f`.
pub record Reals (R : Type 0) : Type 0 where
  pub at_least : R → R → Bool
  pub add : R → R → R
  pub of : ℕ → R
  pub tenths : R → String
  pub whole : R → String

pub record Alert (R : Type 0) : Type 0 where
  pub id : ℕ
  pub device_id : String
  pub alert_type : String
  pub threshold : R
  pub current_value : R
  pub message : String
  pub severity : String
  pub acknowledged : Bool
  pub created_at : ℕ

pub record Factor (R : Type 0) : Type 0 where
  pub kind : String
  pub points : R
  pub ts : ℕ

pub record Risk (R : Type 0) : Type 0 where
  pub score : R
  pub factors : List (Factor R)
  pub updated_at : ℕ

-- The tables that a check of thresholds writes.
pub record Monitor (R : Type 0) : Type 0 where
  pub alerts : List (Alert R)
  pub alert_sequence : ℕ
  pub tickets : Tickets
  pub risks : Dict String (Risk R)

pub record AlertConfig (R : Type 0) : Type 0 where
  pub cpu_warning : R
  pub cpu_critical : R
  pub ram_warning : R
  pub ram_critical : R
  pub disk_warning : R
  pub disk_critical : R
  pub enabled : Bool
  pub cooldown_minutes : ℕ
  pub auto_ticket : Bool

-- An entry of `checks`, with its label and the times that are read when its alert and its factor are written.
pub record Check (R : Type 0) : Type 0 where
  pub metric : String
  pub label : String
  pub value : R
  pub warn : R
  pub crit : R
  pub now : ℕ
  pub scored : ℕ

-- The arguments of `_check_thresholds`; `name` is the name of the host, or the identifier of an unknown device.
pub record Beat (R : Type 0) : Type 0 where
  pub device_id : String
  pub name : String
  pub cpu : R
  pub ram : R
  pub disk : R

-- A span of minutes in microseconds.
abbrev pub minutes : ℕ → ℕ
minutes n = n * 60000000

-- The cause of an alert: the severity and the threshold.
pub record Cause (R : Type 0) : Type 0 where
  pub severity : String
  pub threshold : R

module _ {R : Type 0} (reals : Reals R) where
  unfoldable pub cause_of : Check R → Option (Cause R)
  cause_of c =
      if reals.at_least c.value c.crit
      then some (record { severity = "critical"; threshold = c.crit })
      else if reals.at_least c.value c.warn
      then some (record { severity = "warning"; threshold = c.warn })
      else none

  -- The query for an alert that is open and younger than the cooldown.
  unfoldable pub has_recent :
      (device_id metric : String) (started cooldown : ℕ) → List (Alert R) → Bool
  has_recent device_id metric started cooldown rows =
      any
        (λ a.
          a.device_id == device_id
          && a.alert_type == metric
          && ltb started (a.created_at + minutes cooldown)
          && not a.acknowledged)
        rows

  abbrev pub alert_message : Check R → (threshold : R) → String
  alert_message c threshold = join_texts c.label (
      join_texts " kullanımı %" (
        join_texts (reals.tenths c.value)
          (join_texts " (eşik: %" (join_texts (reals.whole threshold) ")"))))

  abbrev pub ticket_text : (name device_id : String) → Check R → Cause R → String
  ticket_text name device_id c w = join_texts "Cihaz: " (
      join_texts name (
        join_texts " (" (
          join_texts device_id (
            join_texts ")\nMetrik: " (
              join_texts c.label (
                join_texts "\nSeviye: " (
                  join_texts w.severity (
                    join_texts "\nDeğer: %" (
                      join_texts (reals.tenths c.value)
                        (join_texts " / Eşik: %" (reals.whole w.threshold)))))))))))

  -- The automatic ticket; `name` is the name of the host, or the identifier of an unknown device.
  unfoldable pub open_ticket : (name device_id : String) → Check R → Cause R → Tickets → Tickets
  unfolding create_ticket
  open_ticket name device_id c w t =
      (create_ticket
        (record {
          title =
              join_texts "[Otomatik] "
                (join_texts name (join_texts " — " (alert_message c w.threshold)));
          description = ticket_text name device_id c w;
          priority = (if w.severity == "critical" then "critical" else "high");
          category = "alert";
          device_id = device_id;
          assignee = "";
          created_by = "system";
        })
        c.now t).1

  abbrev pub alert_row : (id : ℕ) (device_id : String) → Check R → Cause R → Alert R
  alert_row id device_id c w = record {
    id = id;
    device_id = device_id;
    alert_type = c.metric;
    threshold = w.threshold;
    current_value = c.value;
    message = alert_message c w.threshold;
    severity = w.severity;
    acknowledged = false;
    created_at = c.now;
  }

  -- The alert of one metric, with its ticket.
  unfoldable pub raise_alert :
      (auto_ticket : Bool) (name device_id : String) → Check R → Cause R → Monitor R → Monitor R
  unfolding open_ticket
  raise_alert auto_ticket name device_id c w m =
      let id = m.alert_sequence + 1 in
      record m {
        alerts = m.alerts ++ (alert_row id device_id c w ∷ []);
        alert_sequence = id;
        tickets = (if auto_ticket then open_ticket name device_id c w m.tickets else m.tickets);
      }

  unfoldable pub check_cause :
      AlertConfig R
      → (name device_id : String) (started : ℕ) → Check R
      → Option (Cause R)
      → Monitor R
      → Monitor R
  unfolding has_recent raise_alert
  check_cause cfg name device_id started c none m = m
  check_cause cfg name device_id started c (some w) m =
      if has_recent device_id c.metric started cfg.cooldown_minutes m.alerts
      then m
      else raise_alert cfg.auto_ticket name device_id c w m

  unfoldable pub check_each :
      AlertConfig R
      → (name device_id : String) (started : ℕ) → List (Check R)
      → Monitor R
      → Monitor R
  unfolding check_cause cause_of
  check_each cfg name device_id started [] m = m
  check_each cfg name device_id started (c ∷ cs) m =
      check_each cfg name device_id started cs
        (check_cause cfg name device_id started c (cause_of c) m)

  abbrev pub hundred_at_most : R → R
  hundred_at_most s = if reals.at_least s (reals.of 100) then reals.of 100 else s

  abbrev pub known_risk : Option (Risk R) → (now : ℕ) → Risk R
  known_risk none now = record { score = reals.of 0; factors = []; updated_at = now }
  known_risk (some r) now = r

  -- `_add_risk_factor`: the last 50 factors are kept, and the score goes up to 100.
  unfoldable pub add_risk_factor :
      (device_id kind : String) (points : R) (now : ℕ) → Monitor R → Monitor R
  add_risk_factor device_id kind points now m =
      let old = known_risk (Dict.get device_id m.risks) now in
      record m {
        risks =
            Dict.set device_id
              (record {
                score = hundred_at_most (reals.add old.score points);
                factors =
                    last 50
                      (old.factors ++ (record { kind = kind; points = points; ts = now } ∷ []));
                updated_at = now;
              })
              m.risks;
      }

  -- The points of one metric: the alert counts at every heartbeat, within the cooldown too.
  unfoldable pub risk_of : (device_id : String) → Check R → Monitor R → Monitor R
  unfolding add_risk_factor
  risk_of device_id c m =
      if reals.at_least c.value c.crit
      then add_risk_factor device_id (join_texts "alert_" (join_texts c.metric "_critical"))
          (reals.of 20) c.scored m
      else if reals.at_least c.value c.warn
      then add_risk_factor device_id (join_texts "alert_" (join_texts c.metric "_warning"))
          (reals.of 5) c.scored m
      else m

  unfoldable pub risk_each : (device_id : String) → List (Check R) → Monitor R → Monitor R
  unfolding risk_of
  risk_each device_id [] m = m
  risk_each device_id (c ∷ cs) m = risk_each device_id cs (risk_of device_id c m)

  -- The list `checks`; the readings of the clock are numbered, from that of the start.
  abbrev pub checks : AlertConfig R → Beat R → (clock : ℕ → ℕ) → List (Check R)
  checks cfg b clock =
      record {
        metric = "cpu";
        label = "CPU";
        value = b.cpu;
        warn = cfg.cpu_warning;
        crit = cfg.cpu_critical;
        now = clock 1;
        scored = clock 4;
      }
      ∷ record {
        metric = "ram";
        label = "RAM";
        value = b.ram;
        warn = cfg.ram_warning;
        crit = cfg.ram_critical;
        now = clock 2;
        scored = clock 5;
      }
      ∷ record {
        metric = "disk";
        label = "Disk";
        value = b.disk;
        warn = cfg.disk_warning;
        crit = cfg.disk_critical;
        now = clock 3;
        scored = clock 6;
      }
      ∷ []

  -- `_check_thresholds`
  unfoldable pub check_thresholds : AlertConfig R → Beat R → (clock : ℕ → ℕ) → Monitor R → Monitor R
  unfolding check_each risk_each
  check_thresholds cfg b clock m =
      let cs = checks cfg b clock in
      if cfg.enabled
      then risk_each b.device_id cs (check_each cfg b.name b.device_id (clock 0) cs m)
      else m

-- `UPDATE alerts SET acknowledged=1 WHERE id=? AND acknowledged=0`
unfoldable pub acknowledge_rows : {R : Type 0} → (id : ℕ) → List (Alert R) → List (Alert R)
acknowledge_rows id [] = []
acknowledge_rows id (a ∷ rows) =
    (if a.id == id then record a { acknowledged = true } else a) ∷ acknowledge_rows id rows

-- `acknowledge_alert`: whether a row was changed.
unfoldable pub acknowledge_alert : {R : Type 0} → (id : ℕ) → Monitor R → Bool × Monitor R
unfolding acknowledge_rows
acknowledge_alert id m = (
  any (λ a. a.id == id && not a.acknowledged) m.alerts,
  record m { alerts = acknowledge_rows id m.alerts },
)
