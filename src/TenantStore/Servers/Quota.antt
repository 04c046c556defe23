-- ===== src/TenantStore/Servers/Quota.antt =====
-- The server quota of a tenant, and what each operation does to the set of its servers.
use emarecloud.Prelude.{
  eq_iff, ℕ, ◌+◌, ◌≤◌, String, ◌≡◌, Bool, true, false, not, ◌&&◌, ◌||◌, some, [], ◌∷◌, arith,
  eq_iff, nat_beq, if◌then◌else◌, nat_eq, string_eq, pair_eq, pair_beq,
}
use emarecloud.Dict
use emarecloud.Dict.{Dict, values}
use emarecloud.Dict.Laws.{contains-set, contains-delete}
use emarecloud.Lists.{filter, length}
use emarecloud.TenantStore.State.{Tenant, Server, Store, Reply, ok, failure}
use emarecloud.TenantStore.Servers.{
  servers_of, new_server, add_server, remove_server, is_server_allowed,
}

-- No tenant of the store has more servers than its plan allows.
abbrev pub WithinQuota : Store → Type 0
WithinQuota s =
    (j : ℕ) (t : Tenant)
    → Dict.get j s.tenants ≡ some t
    → length (servers_of j s.servers) ≤ t.max_servers

servers_of-set :
    (j : ℕ) (k : ℕ × String) (row : Server) (d : Dict (ℕ × String) Server)
    → length (servers_of j (Dict.set k row d))
      ≤ length (servers_of j d) + (if nat_beq k.0 j then 1 else 0)
unfolding servers_of filter Dict.set
servers_of-set j k row [] = ground arith
servers_of-set j k row ((i, w) ∷ d) = ground (arith, eq_iff i.1 k.1, servers_of-set j k row d)

servers_of-delete :
    (j : ℕ) (k : ℕ × String) (d : Dict (ℕ × String) Server)
    → length (servers_of j (Dict.delete k d)) ≤ length (servers_of j d)
unfolding servers_of filter Dict.delete
servers_of-delete j k [] = ground arith
servers_of-delete j k ((i, w) ∷ d) = ground (arith, servers_of-delete j k d)

-- If no tenant has more servers than its plan allows, none has after a server is added, whatever
-- the outcome.
pub add_server-WithinQuota :
    (tid : ℕ) (sid host user : String) (port : ℕ) (label now : String) (s : Store)
    → WithinQuota s
    → WithinQuota (add_server tid sid host user port label now s).1
unfolding add_server
add_server-WithinQuota tid sid host user port label now s h j t e =
    let row = new_server sid host user port label now in
    ground (arith, h j t, servers_of-set j (tid, sid) row s.servers)

-- Removing a server leaves every tenant within its quota.
pub remove_server-WithinQuota :
    (tid : ℕ) (sid : String) (s : Store) → WithinQuota s → WithinQuota (remove_server tid sid s).1
unfolding remove_server
remove_server-WithinQuota tid sid s h j t e =
    ground (arith, h j t, servers_of-delete j (tid, sid) s.servers)

abbrev pub succeeded : {A : Type 0} → Reply A → Bool
succeeded (ok a) = true
succeeded (failure e) = false

-- Adding a server allows that server to that tenant if the call succeeds, and changes no other
-- permission.
pub is_server_allowed-add_server :
    (tid : ℕ) (sid host user : String) (port : ℕ) (label now : String) (s : Store) (j : ℕ)
    (other : String)
    → let (r, s') = add_server tid sid host user port label now s in
      is_server_allowed j other s'
      ≡ ((succeeded r && pair_beq (tid, sid) (j, other)) || is_server_allowed j other s)
unfolding add_server is_server_allowed
is_server_allowed-add_server tid sid host user port label now s j other =
    let row = new_server sid host user port label now in
    ground (arith, contains-set (tid, sid) (j, other) row s.servers)

-- Removing a server ends the permission of that server and tenant, and changes no other.
pub is_server_allowed-remove_server :
    (tid : ℕ) (sid : String) (s : Store) (j : ℕ) (other : String)
    → is_server_allowed j other (remove_server tid sid s).1
      ≡ (not (pair_beq (tid, sid) (j, other)) && is_server_allowed j other s)
unfolding remove_server is_server_allowed
is_server_allowed-remove_server tid sid s j other =
    ground (arith, contains-delete (tid, sid) (j, other) s.servers, eq_iff sid other)
