-- ===== src/TenantStore/Audits.antt =====
-- The audit trail (`DictTenantStore`, emarefirewall/tenants.py).
pub mod Laws
use emarecloud.Prelude.{
  ℕ, zero, suc, ◌+◌, ◌-◌, ◌*◌, ◌/◌, ◌%◌, ◌≤◌, ◌<◌, min, max, String, ◌≡◌, refl, sym, ap, ◌∙◌, ◌≢◌,
  ◌↔◌, ◌⊎◌, inl, inr, Bool, true, false, not, ◌&&◌, ◌||◌, Option, none, some, List, [], ◌∷◌, ◌++◌,
  map, reverse, arith, eq_iff, ltb, leb, nat_beq, if◌then◌else◌, is_some, nat_beq_iff, ltb→lt,
  leb→le, Bool-cases, Option-cases, Eq, ◌==◌, nat_eq, string_eq, pair_eq, pair_beq,
}
use emarecloud.Dict.{Dict}
use emarecloud.Lists.{filter, length, take, last}
use emarecloud.Text.{is_empty}
use emarecloud.TenantStore.State.{Audit, Store, next_id}

-- The cut of a trail that has outgrown 10000 entries.
unfoldable pub trim : List Audit → List Audit
trim audits = if ltb 10000 (length audits) then last 5000 audits else audits

unfoldable pub add_audit :
    (tenant_id : ℕ) (action user_ip resource_type resource_id : String)
    → Dict String String
    → (success : Bool) (now : String) → Store
    → Store
unfolding next_id
add_audit tenant_id action user_ip resource_type resource_id details success now s =
    let (aid, s') = next_id s in
    let entry : Audit = record {
      id = aid;
      ts = now;
      tenant_id = tenant_id;
      user_ip = user_ip;
      action = action;
      resource_type = resource_type;
      resource_id = resource_id;
      details = details;
      success = success;
    } in
    record s' { audits = trim (s'.audits ++ entry ∷ []) }

abbrev pub of_tenant : Option ℕ → Audit → Bool
of_tenant none a = true
of_tenant (some t) a = a.tenant_id == t

-- The `since_ts` argument of `query_audit` is not read.
unfoldable pub query_audit : Option ℕ → (limit : ℕ) (action : String) → Store → List Audit
query_audit tenant_id limit action s =
    let mine = filter (of_tenant tenant_id) s.audits in
    let chosen = if is_empty action then mine else filter (λ a. a.action == action) mine in
    take (min limit 500) (reverse chosen)
