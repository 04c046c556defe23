-- ===== src/TenantStore/Webhooks.antt =====
-- The webhooks of a tenant (`DictTenantStore`, emarefirewall/tenants.py). The random secret that
-- stands in for an empty one is drawn by the caller.
pub mod Laws
use emarecloud.Prelude.{
  ℕ, zero, suc, ◌+◌, ◌-◌, ◌*◌, ◌/◌, ◌%◌, ◌≤◌, ◌<◌, min, max, String, ◌≡◌, refl, sym, ap, ◌∙◌, ◌≢◌,
  ◌↔◌, ◌⊎◌, inl, inr, Bool, true, false, not, ◌&&◌, ◌||◌, Option, none, some, List, [], ◌∷◌, ◌++◌,
  map, reverse, arith, eq_iff, ltb, leb, nat_beq, if◌then◌else◌, is_some, nat_beq_iff, ltb→lt,
  leb→le, Bool-cases, Option-cases, Eq, ◌==◌, nat_eq, string_eq, pair_eq, pair_beq,
}
use emarecloud.Dict
use emarecloud.Dict.{Dict, values}
use emarecloud.Lists.{filter, any}
use emarecloud.Text.{is_empty}
use emarecloud.TenantStore.State.{Webhook, Store, Error, Reply, ok, failure, next_id}

unfoldable pub add_webhook :
    (tenant_id : ℕ) (url : String) (events : List String) (secret drawn now : String)
    → Store
    → Reply (ℕ × String) × Store
unfolding next_id
add_webhook tenant_id url events secret drawn now s =
    let (wid, s') = next_id s in
    let secret' = if is_empty secret then drawn else secret in
    let hook : Webhook = record {
      id = wid;
      tenant_id = tenant_id;
      url = url;
      events = events;
      secret = secret';
      active = true;
      fail_count = 0;
      created_at = now;
      last_triggered = none;
    } in
    (ok (wid, secret'), record s' { webhooks = Dict.set wid hook s'.webhooks })

unfoldable pub list_webhooks : ℕ → Store → List Webhook
list_webhooks tenant_id s = filter (λ w. w.tenant_id == tenant_id) (values s.webhooks)

unfoldable pub remove_webhook : (tenant_id webhook_id : ℕ) → Store → Reply (Unit {0}) × Store
remove_webhook tenant_id webhook_id s = elim (Dict.get webhook_id s.webhooks) [
  | none ↦ (failure Error.webhook_not_found, s)
  | some w ↦
      (if w.tenant_id == tenant_id
        then (ok tt, record s { webhooks = Dict.delete webhook_id s.webhooks })
        else (failure Error.webhook_not_found, s))
]

-- What a dispatcher is given of a hook: its id, url and secret.
unfoldable pub get_webhooks_for_event :
    (tenant_id : ℕ) (event : String) → Store → List (ℕ × String × String)
get_webhooks_for_event tenant_id event s =
    map (λ w. (w.id, w.url, w.secret))
      (filter (λ w. w.tenant_id == tenant_id && w.active && any (λ e. e == event) w.events)
        (values s.webhooks))

-- A hook after a delivery: ten failures in a row switch it off.
unfoldable pub delivered : Bool → (now : String) → Webhook → Webhook
delivered true now w = record w { fail_count = 0; last_triggered = some now }
delivered false now w = record w {
  fail_count = w.fail_count + 1;
  active = if leb 10 (w.fail_count + 1) then false else w.active;
}

unfoldable pub update_webhook_status :
    (webhook_id : ℕ) (success : Bool) (now : String) → Store → Store
unfolding delivered
update_webhook_status webhook_id success now s = elim (Dict.get webhook_id s.webhooks) [
  | none ↦ s
  | some w ↦ record s { webhooks = Dict.set webhook_id (delivered success now w) s.webhooks }
]
