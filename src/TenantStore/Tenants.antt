-- ===== src/TenantStore/Tenants.antt =====
-- Tenants and their API keys (`DictTenantStore`, emarefirewall/tenants.py). The key is drawn by the
-- caller, and `hash` stands for SHA-256 of the key.
pub mod Laws
use emarecloud.Prelude.{
  ℕ, zero, suc, ◌+◌, ◌-◌, ◌*◌, ◌/◌, ◌%◌, ◌≤◌, ◌<◌, min, max, String, ◌≡◌, refl, sym, ap, ◌∙◌, ◌≢◌,
  ◌↔◌, ◌⊎◌, inl, inr, Bool, true, false, not, ◌&&◌, ◌||◌, Option, none, some, List, [], ◌∷◌, ◌++◌,
  map, reverse, arith, eq_iff, ltb, leb, nat_beq, if◌then◌else◌, is_some, nat_beq_iff, ltb→lt,
  leb→le, Bool-cases, Option-cases, Eq, ◌==◌, nat_eq, string_eq, pair_eq,
}
use emarecloud.Dict
use emarecloud.Dict.{Dict, values}
use emarecloud.Lists.{filter}
use emarecloud.Text.{is_empty, strip, prefix}
use emarecloud.TenantStore.Plans.{Limits, plan_limits, is_valid_tenant_name}
use emarecloud.TenantStore.Fields.{Field, set_fields}
use emarecloud.TenantStore.State.{Tenant, Store, Error, Reply, ok, failure, next_id}

abbrev pub new_tenant : ℕ → String → String → String → Limits → String → String → String → Tenant
new_tenant tid name email plan limits key_hash key_prefix now = record {
  id = tid;
  name = strip name;
  email = email;
  plan = plan;
  api_key_hash = key_hash;
  api_key_prefix = key_prefix;
  active = true;
  max_servers = limits.max_servers;
  max_rules = limits.max_rules;
  rate_limit = limits.rate_limit;
  created_at = now;
  updated_at = now;
  metadata = [];
}

pub record Identity : Type 0 where
  pub id : ℕ
  pub name : String
  pub plan : String
  pub max_servers : ℕ
  pub max_rules : ℕ
  pub rate_limit : ℕ

abbrev pub identity_of : Tenant → Identity
identity_of t = record {
  id = t.id;
  name = t.name;
  plan = t.plan;
  max_servers = t.max_servers;
  max_rules = t.max_rules;
  rate_limit = t.rate_limit;
}

-- The loop of `authenticate_by_key`: the first active tenant with the hash.
unfoldable pub find_key : String → List Tenant → Option Identity
find_key h [] = none
find_key h (t ∷ ts) =
    if (t.api_key_hash == h) && t.active then some (identity_of t) else find_key h ts

unfoldable pub list_tenants : Bool → Store → List Tenant
list_tenants active_only s = filter (λ t. not active_only || t.active) (values s.tenants)

unfoldable pub get_tenant : ℕ → Store → Option Tenant
get_tenant tenant_id s = Dict.get tenant_id s.tenants

module _ (hash : String → String) where
  unfoldable pub create_tenant :
      (name email plan api_key now : String) → Store → Reply Tenant × Store
  unfolding next_id
  create_tenant name email plan api_key now s =
      if not (is_valid_tenant_name (strip name))
      then (failure Error.invalid_name, s)
      else elim (Dict.get plan plan_limits) [
        | none ↦ (failure Error.invalid_plan, s)
        | some limits ↦
            (let (tid, s') = next_id s in
              let t =
                new_tenant tid name email plan limits (hash api_key) (prefix 12 api_key) now in
              (ok t, record s' { tenants = Dict.set tid t s'.tenants }))
      ]

  unfoldable pub regenerate_api_key :
      (tenant_id : ℕ) (api_key : String) → Store → Reply String × Store
  regenerate_api_key tenant_id api_key s = elim (Dict.get tenant_id s.tenants) [
    | none ↦ (failure Error.tenant_not_found, s)
    | some t ↦
        (let t' = record t { api_key_hash = hash api_key; api_key_prefix = prefix 12 api_key } in
          (ok api_key, record s { tenants = Dict.set tenant_id t' s.tenants }))
  ]

  unfoldable pub authenticate_by_key : String → Store → Option Identity
  unfolding find_key
  authenticate_by_key api_key s =
      if is_empty api_key then none else find_key (hash api_key) (values s.tenants)

unfoldable pub update_tenant :
    (tenant_id : ℕ) → List Field → (now : String) → Store → Reply (Unit {0}) × Store
update_tenant tenant_id fields now s = elim (Dict.get tenant_id s.tenants) [
  | none ↦ (failure Error.tenant_not_found, s)
  | some t ↦
      (let t' = set_fields fields t in
        (
          ok tt,
          record s { tenants = Dict.set tenant_id (record t' { updated_at = now }) s.tenants },
        ))
]

unfoldable pub delete_tenant : ℕ → Store → Reply (Unit {0}) × Store
delete_tenant tenant_id s =
    if Dict.contains tenant_id s.tenants
    then (ok tt, record s { tenants = Dict.delete tenant_id s.tenants })
    else (failure Error.tenant_not_found, s)
