-- ===== src/TenantStore/Tests.antt =====
-- The theorems on the tenant store at concrete inputs.
use emarecloud.Prelude.{
  ◌≤◌, String, ◌≡◌, refl, true, not, ◌&&◌, ◌||◌, none, some, List, [], ◌∷◌, arith, nat_eq,
  string_eq, pair_eq, pair_beq,
}
use mathlib.Core.List.{Mem}
use emarecloud.Dict
use emarecloud.Dict.{Dict, values}
use emarecloud.Lists.{filter, length, All}
use emarecloud.Text.{is_empty, strip}
use emarecloud.TenantStore.Plans.{is_valid_tenant_name}
use emarecloud.TenantStore.State.{Store, Tenant, Webhook, init, ok}
use emarecloud.TenantStore.Tenants.{create_tenant, authenticate_by_key, identity_of, new_tenant}
use emarecloud.TenantStore.Tenants.Laws.{authenticate_sound, authenticate-create_tenant}
use emarecloud.TenantStore.Servers.{servers_of, add_server, remove_server, is_server_allowed}
use emarecloud.TenantStore.Servers.Quota.{
  WithinQuota, add_server-WithinQuota, remove_server-WithinQuota, is_server_allowed-add_server,
  is_server_allowed-remove_server, succeeded,
}
use emarecloud.TenantStore.Audits.{add_audit}
use emarecloud.TenantStore.Audits.Laws.{add_audit_bounded}
use emarecloud.TenantStore.Cgnat.{mappings_of}
use emarecloud.TenantStore.Cgnat.Ranges.{IsDisjoint}
use emarecloud.TenantStore.Cgnat.Runs.{allocate_all, allocate_all-IsDisjoint, IsWithin, cgnat_pool}
use emarecloud.TenantStore.Ipam.{assign_ip, release_ip}
use emarecloud.TenantStore.Ipam.Laws.{IsValid, assign_ip-IsValid, release_ip-IsValid}

abbrev small : Tenant
small =
    new_tenant 1 "acme" "" "bronze" (record { max_servers = 1; max_rules = 2; rate_limit = 3 }) "h1"
      "p" "t0"

abbrev one_tenant : Store
one_tenant = record init { tenants = (1, small) ∷ []; counter = 1 }

one_tenant-WithinQuota : WithinQuota one_tenant
unfolding servers_of filter
one_tenant-WithinQuota j t h = omega arith

add_server-WithinQuota_example :
    WithinQuota (add_server 1 "web" "10.0.0.1" "root" 22 "" "t1" one_tenant).1
add_server-WithinQuota_example =
    add_server-WithinQuota 1 "web" "10.0.0.1" "root" 22 "" "t1" one_tenant one_tenant-WithinQuota

remove_server-WithinQuota_example : WithinQuota (remove_server 1 "web" one_tenant).1
remove_server-WithinQuota_example =
    remove_server-WithinQuota 1 "web" one_tenant one_tenant-WithinQuota

is_server_allowed-add_server_example :
    let (r, s') = add_server 1 "web" "10.0.0.1" "root" 22 "" "t1" one_tenant in
    is_server_allowed 1 "web" s'
    ≡ ((succeeded r && pair_beq (1, "web") (1, "web")) || is_server_allowed 1 "web" one_tenant)
is_server_allowed-add_server_example =
    is_server_allowed-add_server 1 "web" "10.0.0.1" "root" 22 "" "t1" one_tenant 1 "web"

is_server_allowed-remove_server_example :
    is_server_allowed 2 "web" (remove_server 1 "web" one_tenant).1
    ≡ (not (pair_beq (1, "web") (2, "web")) && is_server_allowed 2 "web" one_tenant)
is_server_allowed-remove_server_example = is_server_allowed-remove_server 1 "web" one_tenant 2 "web"

-- A stand-in for SHA-256.
abbrev plain : String → String
plain key = key

authenticate_sound_example :
    (t : Tenant) × Mem t (values one_tenant.tenants)
    × (t.active ≡ true)
    × (t.api_key_hash ≡ "h1")
    × (identity_of small ≡ identity_of t)
unfolding authenticate_by_key is_empty
authenticate_sound_example = authenticate_sound plain "h1" one_tenant (identity_of small) refl

authenticate-create_tenant_example :
    let (r, s') = create_tenant plain "globex" "" "silver" "h2" "t1" one_tenant in
    (t : Tenant) × (r ≡ ok t)
    × (t.id ≡ 2)
    × (t.name ≡ "globex")
    × (t.plan ≡ "silver")
    × (t.max_servers ≡ 25)
    × (t.max_rules ≡ 250)
    × (t.rate_limit ≡ 120)
    × (authenticate_by_key plain "h2" s' ≡ some (identity_of t))
unfolding is_valid_tenant_name strip Dict.get is_empty
authenticate-create_tenant_example =
    authenticate-create_tenant plain "globex" "" "silver" "h2" "t1" one_tenant
      (record { max_servers = 25; max_rules = 250; rate_limit = 120 }) refl refl refl (omega arith)
      (refl, tt)

add_audit_bounded_example :
    length (add_audit 1 "login" "10.0.0.1" "" "" [] true "t1" init).audits ≤ 10000
add_audit_bounded_example =
    add_audit_bounded 1 "login" "10.0.0.1" "" "" [] true "t1" init (omega arith)

abbrev hook : Webhook
hook = record {
  id = 1;
  tenant_id = 1;
  url = "https://example.org";
  events = "ip_blocked" ∷ [];
  secret = "s";
  active = true;
  fail_count = 0;
  created_at = "t0";
  last_triggered = none;
}

abbrev one_hook : Store
one_hook = record init { webhooks = (1, hook) ∷ []; counter = 1 }

abbrev subscribers : List (String × String)
subscribers = ("a", "t1") ∷ ("b", "t2") ∷ ("a", "t3") ∷ ("c", "t4") ∷ ("d", "t5") ∷ []

abbrev one_pool : Store
one_pool = record init { cgnat_pools = (1, cgnat_pool) ∷ []; counter = 1 }

allocate_all-IsDisjoint_example :
    IsDisjoint (mappings_of 1 (allocate_all 1 subscribers one_pool).cgnat_mappings)
    × All (IsWithin cgnat_pool) (mappings_of 1 (allocate_all 1 subscribers one_pool).cgnat_mappings)
unfolding Dict.get mappings_of filter
allocate_all-IsDisjoint_example =
    allocate_all-IsDisjoint 1 cgnat_pool subscribers one_pool refl (omega arith) tt refl

init-IsValid : IsValid init
init-IsValid = record { numbered = tt; unique = tt }

assign_ip-IsValid_example : IsValid (assign_ip 1 "10.0.0.7" "web" "" "" "t1" init).1
assign_ip-IsValid_example = assign_ip-IsValid 1 "10.0.0.7" "web" "" "" "t1" init init-IsValid

release_ip-IsValid_example : IsValid (release_ip "10.0.0.7" init).1
release_ip-IsValid_example = release_ip-IsValid "10.0.0.7" init init-IsValid
