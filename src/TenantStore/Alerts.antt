-- ===== src/TenantStore/Alerts.antt =====
-- The alerts of a tenant (`DictTenantStore`, emarefirewall/tenants.py).
use emarecloud.Prelude.{
  ℕ, min, String, Bool, true, false, not, none, some, List, if◌then◌else◌, ◌==◌, nat_eq, string_eq,
  pair_eq,
}
use emarecloud.Dict
use emarecloud.Dict.{Dict, values}
use emarecloud.Lists.{filter, take, sort, descending}
use emarecloud.TenantStore.State.{Alert, Store, Error, Reply, ok, failure, next_id}

unfoldable pub add_alert :
    (tenant_id : ℕ) (alert_type message server_id severity : String)
    → Dict String String
    → (now : String) → Store
    → ℕ × Store
unfolding next_id
add_alert tenant_id alert_type message server_id severity details now s =
    let (aid, s') = next_id s in
    let alert : Alert = record {
      id = aid;
      tenant_id = tenant_id;
      alert_type = alert_type;
      server_id = server_id;
      severity = severity;
      message = message;
      details = details;
      acknowledged = false;
      created_at = now;
    } in
    (aid, record s' { alerts = Dict.set aid alert s'.alerts })

unfoldable pub list_alerts : (tenant_id limit : ℕ) (unacknowledged_only : Bool) → Store → List Alert
list_alerts tenant_id limit unacknowledged_only s =
    let mine = filter (λ a. a.tenant_id == tenant_id) (values s.alerts) in
    let chosen = if unacknowledged_only then filter (λ a. not a.acknowledged) mine else mine in
    take (min limit 200) (sort (descending (λ a. a.id)) chosen)

unfoldable pub acknowledge_alert : (tenant_id alert_id : ℕ) → Store → Reply (Unit {0}) × Store
acknowledge_alert tenant_id alert_id s = elim (Dict.get alert_id s.alerts) [
  | none ↦ (failure Error.alert_not_found, s)
  | some a ↦
      (if a.tenant_id == tenant_id
        then (
          ok tt,
          record s { alerts = Dict.set alert_id (record a { acknowledged = true }) s.alerts },
        )
        else (failure Error.alert_not_found, s))
]
