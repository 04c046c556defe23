-- ===== src/TenantStore/Ipam.antt =====
-- IPAM blocks and the addresses assigned from them (`DictTenantStore`, emarefirewall/tenants.py).
pub mod Laws
use emarecloud.Prelude.{
  ℕ, zero, suc, ◌+◌, ◌-◌, ◌*◌, ◌/◌, ◌%◌, ◌≤◌, ◌<◌, min, max, String, ◌≡◌, refl, sym, ap, ◌∙◌, ◌≢◌,
  ◌↔◌, ◌⊎◌, inl, inr, Bool, true, false, not, ◌&&◌, ◌||◌, Option, none, some, List, [], ◌∷◌, ◌++◌,
  map, reverse, arith, eq_iff, ltb, leb, nat_beq, if◌then◌else◌, is_some, nat_beq_iff, ltb→lt,
  leb→le, Bool-cases, Option-cases, Eq, ◌==◌, nat_eq, string_eq, pair_eq, pair_beq,
}
use text.Mathlib.Text.{is_lt}
use Prim.Native.String.{compare}
use emarecloud.Dict
use emarecloud.Dict.{Dict, values}
use emarecloud.Lists.{filter, length, any, sort}
use emarecloud.TenantStore.State.{Block, Assignment, Store, Error, Reply, ok, failure, next_id}

unfoldable pub add_ipam_block :
    (tenant_id : ℕ) (cidr description block_type : String) (vlan : Option ℕ) (gateway : String)
    → Store
    → Reply ℕ × Store
unfolding next_id
add_ipam_block tenant_id cidr description block_type vlan gateway s =
    let (bid, s') = next_id s in
    let block : Block = record {
      id = bid;
      tenant_id = tenant_id;
      cidr = cidr;
      description = description;
      block_type = block_type;
      vlan = vlan;
      gateway = gateway;
    } in
    if any (λ b. b.cidr == cidr) (values s.ipam_blocks)
    then (failure Error.cidr_taken, s)
    else (ok bid, record s' { ipam_blocks = Dict.set bid block s'.ipam_blocks })

-- A block with its `assigned_count`.
unfoldable pub list_ipam_blocks : ℕ → Store → List (Block × ℕ)
list_ipam_blocks tenant_id s =
    map (λ b. (b, length (filter (λ a. a.block_id == b.id) (values s.ipam_assignments))))
      (filter (λ b. b.tenant_id == tenant_id) (values s.ipam_blocks))

unfoldable pub remove_ipam_block : (tenant_id block_id : ℕ) → Store → Reply (Unit {0}) × Store
remove_ipam_block tenant_id block_id s = elim (Dict.get block_id s.ipam_blocks) [
  | none ↦ (failure Error.block_not_found, s)
  | some b ↦
      (if b.tenant_id == tenant_id
        then (ok tt, record s { ipam_blocks = Dict.delete block_id s.ipam_blocks })
        else (failure Error.block_not_found, s))
]

abbrev pub new_assignment :
    (aid block_id : ℕ) (ip_address assigned_to mac_address note now : String) → Assignment
new_assignment aid block_id ip_address assigned_to mac_address note now = record {
  id = aid;
  block_id = block_id;
  ip_address = ip_address;
  assigned_to = assigned_to;
  mac_address = mac_address;
  status = "assigned";
  note = note;
  created_at = now;
}

unfoldable pub assign_ip :
    (block_id : ℕ) (ip_address assigned_to mac_address note now : String)
    → Store
    → Reply (Unit {0}) × Store
unfolding next_id
assign_ip block_id ip_address assigned_to mac_address note now s =
    let (aid, s') = next_id s in
    let row = new_assignment aid block_id ip_address assigned_to mac_address note now in
    if any (λ a. a.ip_address == ip_address) (values s.ipam_assignments)
    then (failure Error.ip_taken, s)
    else (ok tt, record s' { ipam_assignments = Dict.set aid row s'.ipam_assignments })

-- The key of the first assignment of an address.
unfoldable pub find_assignment : String → Dict ℕ Assignment → Option ℕ
find_assignment ip [] = none
find_assignment ip ((aid, a) ∷ d) = if a.ip_address == ip then some aid else find_assignment ip d

unfoldable pub release_ip : String → Store → Reply (Unit {0}) × Store
unfolding find_assignment
release_ip ip_address s = elim (find_assignment ip_address s.ipam_assignments) [
  | none ↦ (failure Error.ip_not_found, s)
  | some aid ↦ (ok tt, record s { ipam_assignments = Dict.delete aid s.ipam_assignments })
]

unfoldable pub list_ipam_assignments : ℕ → Store → List Assignment
list_ipam_assignments block_id s =
    sort (λ b a. is_lt (compare b.ip_address a.ip_address))
      (filter (λ a. a.block_id == block_id) (values s.ipam_assignments))
