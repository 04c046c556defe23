-- ===== src/Tenancy/Laws.antt =====
-- Isolation of tenants.
use emarecloud.Prelude.{
  zero, suc, String, ◌≡◌, refl, sym, ap, inl, inr, Bool, true, false, not, ◌&&◌, Option, none, some,
  List, [], ◌∷◌, if◌then◌else◌, is_some, Bool-cases, ◌==◌, nat_eq, string_eq, pair_eq,
}
use mathlib.Core.Path.{subst}
use text.Mathlib.Text.{starts_with}
use emarecloud.Text.{suffix}
use emarecloud.Lists.{filter}
use emarecloud.Integers.{ℤ, pos, negsuc, int_eq}
use emarecloud.Tenancy.Request.{
  is_exempt, resolve_user, resolve_api_token_tenant, find_by_hash, org_of, Request, User, ApiToken,
  Context, is_truthy, truthy, resolve_tenant,
}
use emarecloud.Tenancy.Access.{
  same_id, sql_equal, is_none, tenant_filter, check_tenant_access, user_can_see_server,
  build_tenant_query,
}

filter-same {ℓ} :
    {A : Type ℓ} (p q : A → Bool)
    → ((a : A) → p a ≡ q a)
    → (xs : List A) → filter p xs ≡ filter q xs
unfolding filter
filter-same p q h [] = refl
filter-same p q h (a ∷ xs) = rw (h a, filter-same p q h xs) refl

filter-all {ℓ} :
    {A : Type ℓ} (p : A → Bool) → ((a : A) → p a ≡ true) → (xs : List A) → filter p xs ≡ xs
unfolding filter
filter-all p h [] = refl
filter-all p h (a ∷ xs) = rw (h a, filter-all p h xs) refl

sql_equal-same_id : (a : Option ℤ) (b : ℤ) → sql_equal a (some b) ≡ same_id a (some b)
sql_equal-same_id none b = refl
sql_equal-same_id (some a) b = refl

none-same_id : (o : Option ℤ) → is_none o ≡ (if is_none o then true else same_id o none)
none-same_id none = refl
none-same_id (some o) = refl

abbrev nobody : Context
nobody = record { tenant_id = none; is_global = false }

-- The context of a request that is not a super admin's.
abbrev local : Option ℤ → Context
local t = record { tenant_id = truthy t; is_global = false }

abbrev pub is_super_admin : Option User → Bool
is_super_admin none = false
is_super_admin (some u) = u.role == "super_admin"

token-local :
    (sha256_hex : String → String) (tokens : List ApiToken) (r : Request)
    → (t : Option ℤ) × (resolve_api_token_tenant sha256_hex tokens r ≡ truthy t)
unfolding resolve_api_token_tenant
token-local sha256_hex tokens r =
    let t = org_of (find_by_hash (sha256_hex (suffix 7 r.authorization)) tokens) in
    elim (Bool-cases (starts_with r.authorization "Bearer ")) [
      | inl q ↦ (t, rw q refl)
      | inr q ↦ (none, rw q refl)
    ]

resolve_tenant-local :
    (sha256_hex : String → String) (tokens : List ApiToken) (user : Option User) (r : Request)
    → is_super_admin user ≡ false
    → (t : Option ℤ) × (resolve_tenant sha256_hex tokens user r ≡ local t)
unfolding resolve_tenant resolve_user
resolve_tenant-local sha256_hex tokens none r h = elim (Bool-cases (is_exempt r)) [
  | inl q ↦ (none, rw q refl)
  | inr q ↦
      let (t, e) = token-local sha256_hex tokens r in
      (t, rw q (ap (λ i. record { tenant_id = i; is_global = false }) e))
]
resolve_tenant-local sha256_hex tokens (some u) r h = elim (Bool-cases (is_exempt r)) [
  | inl q ↦ (none, rw q refl)
  | inr q ↦ (u.org_id, rw (q, h) refl)
]

module _ {Row : Type 0} (org_id : Row → Option ℤ) where
  listed-seen :
      (everything : Bool) (t : Option ℤ) (rows : List Row)
      → (if everything
          then rows
          else if is_some t
          then filter (λ r. sql_equal (org_id r) t) rows
          else filter (λ r. is_none (org_id r)) rows)
        ≡ filter
            (λ r.
              if everything
              then true
              else if is_some t
              then same_id (org_id r) t
              else is_none (org_id r))
            rows
  listed-seen true t rows = sym (filter-all (λ r. true) (λ r. refl) rows)
  listed-seen false none rows = refl
  listed-seen false (some t) rows = filter-same _ _ (λ r. sql_equal-same_id (org_id r) t) rows

  -- The list of the servers holds exactly those that the user can see one by one.
  pub build_tenant_query-user_can_see_server :
      (u : User) (g : Context) (rows : List Row)
      → build_tenant_query org_id g rows
        ≡ filter (user_can_see_server org_id (some (some u, g))) rows
  unfolding build_tenant_query user_can_see_server
  build_tenant_query-user_can_see_server u g rows =
      listed-seen (g.is_global && not (is_truthy g.tenant_id)) g.tenant_id rows

  filtered-none :
      (allow_global : Bool) (rows : List Row)
      → tenant_filter org_id nobody allow_global rows
        ≡ filter (check_tenant_access org_id nobody) rows
  unfolding tenant_filter check_tenant_access
  filtered-none true rows = filter-same _ _ (λ r. none-same_id (org_id r)) rows
  filtered-none false rows = filter-same _ _ (λ r. none-same_id (org_id r)) rows

  filtered-accessible :
      (t : Option ℤ) (allow_global : Bool) (rows : List Row)
      → tenant_filter org_id (local t) allow_global rows
        ≡ filter (check_tenant_access org_id (local t)) rows
  unfolding tenant_filter check_tenant_access
  filtered-accessible none allow rows = filtered-none allow rows
  filtered-accessible (some (pos zero)) allow rows = filtered-none allow rows
  filtered-accessible (some (pos (suc n))) true rows =
      filter-same _ _ (λ r. sql_equal-same_id (org_id r) (pos (suc n))) rows
  filtered-accessible (some (pos (suc n))) false rows =
      filter-same _ _ (λ r. sql_equal-same_id (org_id r) (pos (suc n))) rows
  filtered-accessible (some (negsuc n)) true rows =
      filter-same _ _ (λ r. sql_equal-same_id (org_id r) (negsuc n)) rows
  filtered-accessible (some (negsuc n)) false rows =
      filter-same _ _ (λ r. sql_equal-same_id (org_id r) (negsuc n)) rows

  -- For every request but that of a super admin, a list that passes the filter of the tenant holds
  -- exactly the rows that the check of a single row lets through.
  pub tenant_filter-check_tenant_access :
      (sha256_hex : String → String) (tokens : List ApiToken) (user : Option User) (r : Request)
      → is_super_admin user ≡ false
      → (allow_global : Bool) (rows : List Row)
      → let g = resolve_tenant sha256_hex tokens user r in
        tenant_filter org_id g allow_global rows ≡ filter (check_tenant_access org_id g) rows
  tenant_filter-check_tenant_access sha256_hex tokens user r h allow rows =
      let (t, e) = resolve_tenant-local sha256_hex tokens user r h in
      subst (λ g. tenant_filter org_id g allow rows ≡ filter (check_tenant_access org_id g) rows)
        (sym e) (filtered-accessible t allow rows)

  listed-local :
      (t : Option ℤ) (rows : List Row)
      → build_tenant_query org_id (local t) rows
        ≡ filter (λ r. if is_truthy t then sql_equal (org_id r) t else is_none (org_id r)) rows
  unfolding build_tenant_query
  listed-local none rows = refl
  listed-local (some (pos zero)) rows = refl
  listed-local (some (pos (suc n))) rows = refl
  listed-local (some (negsuc n)) rows = refl

  -- A user who is no super admin is listed the rows of the own organization, or those of none
  -- where the user has none, whatever the headers and the arguments of the request say, on every
  -- path that needs a tenant.
  pub build_tenant_query_isolated :
      (sha256_hex : String → String) (tokens : List ApiToken) (u : User) (r : Request)
      → is_super_admin (some u) ≡ false
      → is_exempt r ≡ false
      → (rows : List Row)
      → build_tenant_query org_id (resolve_tenant sha256_hex tokens (some u) r) rows
        ≡ filter
            (λ r. if is_truthy u.org_id then sql_equal (org_id r) u.org_id else is_none (org_id r))
            rows
  unfolding resolve_tenant resolve_user
  build_tenant_query_isolated sha256_hex tokens u r h x rows =
      rw (x, h, resolve_user) (listed-local u.org_id rows)
