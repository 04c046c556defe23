-- ===== src/TenantStore/Audits/Laws.antt =====
-- The trail is bounded, and a query shows a tenant only its own entries.
use emarecloud.Prelude.{
  ℕ, ◌≤◌, min, String, ◌≡◌, inl, inr, Bool, true, some, List, [], ◌∷◌, reverse, arith,
  if◌then◌else◌, Bool-cases, ◌==◌, nat_eq, string_eq, pair_eq,
}
use emarecloud.Dict.{Dict}
use emarecloud.Lists.{
  All-take, All-reverse, length, length-append, length-last, length-take, All, All-filter,
  filter-All, filter,
}
use emarecloud.Text.{is_empty}
use emarecloud.TenantStore.State.{Audit, Store}
use emarecloud.TenantStore.Audits.{trim, add_audit, of_tenant, query_audit}

length-trim-le : (audits : List Audit) → length audits ≤ 10001 → length (trim audits) ≤ 10000
unfolding trim
length-trim-le audits h = ground (arith, length-last 5000 audits)

-- The trail never grows beyond 10000 entries.
pub add_audit_bounded :
    (tenant_id : ℕ) (action ip kind id : String) (details : Dict String String) (success : Bool)
    (now : String) (s : Store)
    → length s.audits ≤ 10000
    → length (add_audit tenant_id action ip kind id details success now s).audits ≤ 10000
unfolding add_audit
add_audit_bounded tenant_id action ip kind id details success now s h =
    length-trim-le _ (omega (arith, length-append s.audits (_ ∷ [])))

-- A query for a tenant returns at most 500 entries and at most the limit, all of that tenant.
pub query_audit_isolated :
    (t limit : ℕ) (action : String) (s : Store)
    → (length (query_audit (some t) limit action s) ≤ min limit 500)
      × All (λ a. (a.tenant_id == t) ≡ true) (query_audit (some t) limit action s)
unfolding query_audit
query_audit_isolated t limit action s =
    let mine = filter (of_tenant (some t)) s.audits in
    let P : Audit → Type 0 = λ a. (a.tenant_id == t) ≡ true in
    let own = filter-All (of_tenant (some t)) s.audits in
    let chosen = if is_empty action then mine else filter (λ a. a.action == action) mine in
    (
      omega (arith, length-take (min limit 500) (reverse chosen)),
      All-take P (min limit 500) (reverse chosen) (
          All-reverse P chosen (elim (Bool-cases (is_empty action)) [
            | inl e ↦ rw e own
            | inr e ↦ rw e (All-filter P (λ a. a.action == action) mine own)
          ])),
    )
