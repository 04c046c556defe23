-- ===== src/TenantStore/Servers.antt =====
-- The servers of a tenant and its quota (`DictTenantStore`, emarefirewall/tenants.py).
pub mod Quota
use emarecloud.Prelude.{
  ℕ, zero, suc, ◌+◌, ◌-◌, ◌*◌, ◌/◌, ◌%◌, ◌≤◌, ◌<◌, min, max, String, ◌≡◌, refl, sym, ap, ◌∙◌, ◌≢◌,
  ◌↔◌, ◌⊎◌, inl, inr, Bool, true, false, not, ◌&&◌, ◌||◌, Option, none, some, List, [], ◌∷◌, ◌++◌,
  map, reverse, arith, eq_iff, ltb, leb, nat_beq, if◌then◌else◌, is_some, nat_beq_iff, ltb→lt,
  leb→le, Bool-cases, Option-cases, Eq, ◌==◌, nat_eq, string_eq, pair_eq,
}
use emarecloud.Dict
use emarecloud.Dict.{Dict, values}
use emarecloud.Lists.{filter, length}
use emarecloud.TenantStore.State.{Tenant, Server, Store, Error, Reply, ok, failure}

-- `[s for k, s in self._servers.items() if k[0] == tenant_id]`
unfoldable pub servers_of : ℕ → Dict (ℕ × String) Server → List Server
servers_of tenant_id d = values (filter (λ e. e.0.0 == tenant_id) d)

abbrev pub new_server : String → String → String → ℕ → String → String → Server
new_server server_id ssh_host ssh_user ssh_port label now = record {
  server_id = server_id;
  label = label;
  ssh_host = ssh_host;
  ssh_user = ssh_user;
  ssh_port = ssh_port;
  active = true;
  created_at = now;
}

unfoldable pub add_server :
    (tenant_id : ℕ) (server_id ssh_host ssh_user : String) (ssh_port : ℕ) (label now : String)
    → Store
    → Reply (Unit {0}) × Store
add_server tenant_id server_id ssh_host ssh_user ssh_port label now s =
    elim (Dict.get tenant_id s.tenants) [
      | none ↦ (failure Error.tenant_not_found, s)
      | some t ↦
          (let key : ℕ × String = (tenant_id, server_id) in
            let row = new_server server_id ssh_host ssh_user ssh_port label now in
            if Dict.contains key s.servers
            then (failure Error.server_assigned, s)
            else if leb t.max_servers (length (servers_of tenant_id s.servers))
            then (failure Error.quota_full, s)
            else (ok tt, record s { servers = Dict.set key row s.servers }))
    ]

unfoldable pub list_servers : ℕ → Store → List Server
list_servers tenant_id s = servers_of tenant_id s.servers

unfoldable pub remove_server :
    (tenant_id : ℕ) (server_id : String) → Store → Reply (Unit {0}) × Store
remove_server tenant_id server_id s =
    let key : ℕ × String = (tenant_id, server_id) in
    if Dict.contains key s.servers
    then (ok tt, record s { servers = Dict.delete key s.servers })
    else (failure Error.server_not_found, s)

unfoldable pub is_server_allowed : (tenant_id : ℕ) (server_id : String) → Store → Bool
is_server_allowed tenant_id server_id s =
    let key : ℕ × String = (tenant_id, server_id) in Dict.contains key s.servers
