-- ===== src/TenantStore/Fields.antt =====
-- The keyword arguments of `DictTenantStore.update_tenant` (emarefirewall/tenants.py).
use emarecloud.Prelude.{String, Bool, Option, none, some, List, [], ◌∷◌, nat_eq, string_eq, pair_eq}
use emarecloud.Dict
use emarecloud.Dict.{Dict}
use emarecloud.TenantStore.Plans.{Limits, plan_limits}
use emarecloud.TenantStore.State.{Tenant}

-- The keyword arguments of `update_tenant`; `other` is a field that is not allowed.
pub data Field : Type 0 where
  name email plan : String → Field
  active : Bool → Field
  metadata : Dict String String → Field
  other : String → Field

-- The plan's limits, where the plan is known; an unknown one is stored as it is.
abbrev pub set_plan : String → Option Limits → Tenant → Tenant
set_plan p none t = record t { plan = p }
set_plan p (some l) t = record t {
  plan = p;
  max_servers = l.max_servers;
  max_rules = l.max_rules;
  rate_limit = l.rate_limit;
}

unfoldable pub set_field : Field → Tenant → Tenant
set_field (name v) t = record t { name = v }
set_field (email v) t = record t { email = v }
set_field (plan v) t = set_plan v (Dict.get v plan_limits) t
set_field (active v) t = record t { active = v }
set_field (metadata v) t = record t { metadata = v }
set_field (other k) t = t

unfoldable pub set_fields : List Field → Tenant → Tenant
unfolding set_field
set_fields [] t = t
set_fields (f ∷ fs) t = set_fields fs (set_field f t)
