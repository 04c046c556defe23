-- ===== src/TenantStore/Cgnat.antt =====
-- CGNAT pools and the port ranges of their subscribers (`DictTenantStore`,
-- emarefirewall/tenants.py). A pool with no port per subscriber makes Python's division raise.
pub mod Ranges
pub mod Runs
use emarecloud.Prelude.{
  ℕ, zero, suc, ◌+◌, ◌-◌, ◌*◌, ◌/◌, ◌%◌, ◌≤◌, ◌<◌, min, max, String, ◌≡◌, refl, sym, ap, ◌∙◌, ◌≢◌,
  ◌↔◌, ◌⊎◌, inl, inr, Bool, true, false, not, ◌&&◌, ◌||◌, Option, none, some, List, [], ◌∷◌, ◌++◌,
  map, reverse, arith, eq_iff, ltb, leb, nat_beq, if◌then◌else◌, is_some, nat_beq_iff, ltb→lt,
  leb→le, Bool-cases, Option-cases, Eq, ◌==◌, nat_eq, string_eq, pair_eq, pair_beq,
}
use emarecloud.Dict
use emarecloud.Dict.{Dict, values}
use emarecloud.Lists.{filter, length, any, sort, ascending}
use emarecloud.TenantStore.State.{Pool, Mapping, Store, Error, Reply, ok, failure, next_id}

unfoldable pub add_cgnat_pool :
    (tenant_id : ℕ) (pool_name public_ip : String) (port_start port_end ports_per_subscriber : ℕ)
    → Store
    → Reply ℕ × Store
unfolding next_id
add_cgnat_pool tenant_id pool_name public_ip port_start port_end ports_per_subscriber s =
    let (pid, s') = next_id s in
    let pool : Pool = record {
      id = pid;
      tenant_id = tenant_id;
      pool_name = pool_name;
      public_ip = public_ip;
      port_start = port_start;
      port_end = port_end;
      ports_per_subscriber = ports_per_subscriber;
      active = true;
    } in
    if any (λ p. p.pool_name == pool_name) (values s.cgnat_pools)
    then (failure Error.pool_name_taken, s)
    else (ok pid, record s' { cgnat_pools = Dict.set pid pool s'.cgnat_pools })

-- `[m for m in self._cgnat_mappings.values() if m['pool_id'] == pool_id]`
unfoldable pub mappings_of : ℕ → Dict ℕ Mapping → List Mapping
mappings_of pool_id d = filter (λ m. m.pool_id == pool_id) (values d)

-- The number of subscribers that a pool has room for.
unfoldable pub total_slots : Pool → ℕ
total_slots p = (p.port_end + 1 - p.port_start) / p.ports_per_subscriber

-- A pool with its `mapping_count` and `capacity`.
unfoldable pub list_cgnat_pools : ℕ → Store → List (Pool × ℕ × ℕ)
unfolding total_slots
list_cgnat_pools tenant_id s =
    map (λ p. (p, length (mappings_of p.id s.cgnat_mappings), total_slots p))
      (filter (λ p. p.tenant_id == tenant_id) (values s.cgnat_pools))

-- The first mapping of a subscriber, by the loop that looks for an earlier allocation.
unfoldable pub find_subscriber : String → List Mapping → Option Mapping
find_subscriber ip [] = none
find_subscriber ip (m ∷ ms) = if m.subscriber_ip == ip then some m else find_subscriber ip ms

-- The range behind the last of `count` ranges.
abbrev pub next_range : ℕ → Pool → (count pool_id : ℕ) → (ip now : String) → Mapping
next_range mid p count pool_id ip now = record {
  id = mid;
  pool_id = pool_id;
  subscriber_ip = ip;
  public_ip = p.public_ip;
  port_start = p.port_start + count * p.ports_per_subscriber;
  port_end = p.port_start + count * p.ports_per_subscriber + p.ports_per_subscriber - 1;
  created_at = now;
}

-- The part of `allocate_cgnat` behind the search for the pool and for an earlier allocation.
unfoldable pub allocate_new :
    Pool → (pool_id : ℕ) → (ip now : String) → Store → Reply Mapping × Store
unfolding next_id total_slots
allocate_new p pool_id ip now s =
    let count = length (mappings_of pool_id s.cgnat_mappings) in
    let (mid, s') = next_id s in
    let m = next_range mid p count pool_id ip now in
    if p.ports_per_subscriber == 0
    then (failure Error.division_by_zero, s)
    else if leb (total_slots p) count
    then (failure Error.pool_full, s)
    else (ok m, record s' { cgnat_mappings = Dict.set mid m s'.cgnat_mappings })

unfoldable pub allocate_cgnat : (pool_id : ℕ) (ip now : String) → Store → Reply Mapping × Store
unfolding find_subscriber
allocate_cgnat pool_id ip now s = elim (Dict.get pool_id s.cgnat_pools) [
  | none ↦ (failure Error.pool_not_found, s)
  | some p ↦
      (if not p.active
        then (failure Error.pool_not_found, s)
        else elim (find_subscriber ip (mappings_of pool_id s.cgnat_mappings)) [
          | some m ↦ (ok m, s)
          | none ↦ allocate_new p pool_id ip now s
        ])
]

-- The key of the first mapping of a subscriber in a pool.
unfoldable pub find_mapping : (pool_id : ℕ) (ip : String) → Dict ℕ Mapping → Option ℕ
find_mapping pool_id ip [] = none
find_mapping pool_id ip ((mid, m) ∷ d) =
    if m.pool_id == pool_id && m.subscriber_ip == ip then some mid else find_mapping pool_id ip d

unfoldable pub release_cgnat : (pool_id : ℕ) (ip : String) → Store → Reply (Unit {0}) × Store
unfolding find_mapping
release_cgnat pool_id ip s = elim (find_mapping pool_id ip s.cgnat_mappings) [
  | none ↦ (failure Error.mapping_not_found, s)
  | some mid ↦ (ok tt, record s { cgnat_mappings = Dict.delete mid s.cgnat_mappings })
]

unfoldable pub list_cgnat_mappings : ℕ → Store → List Mapping
list_cgnat_mappings pool_id s =
    sort (ascending (λ m. m.port_start)) (mappings_of pool_id s.cgnat_mappings)
