-- ===== src/Tenancy/Tests.antt =====
-- Runs of the tenant's resolution, and its laws at concrete requests.
use emarecloud.Prelude.{
  ◌≡◌, refl, true, false, Option, none, some, List, [], ◌∷◌, nat_eq, string_eq, pair_eq,
}
use emarecloud.Lists.{filter}
use emarecloud.Integers.{ℤ, pos, negsuc, int_eq, parse_int}
use emarecloud.Tenancy.Request.{Request, User, is_exempt, resolve_tenant}
use emarecloud.Tenancy.Access.{
  sql_equal, tenant_filter, check_tenant_access, build_tenant_query, exceeded, check_quota,
}
use emarecloud.Tenancy.Laws.{tenant_filter-check_tenant_access, build_tenant_query_isolated}

abbrev page : Request
page = record { path = "/api/servers"; authorization = ""; x_org_id = some "2"; org_id_arg = none }

abbrev member : User
member = record { role = "operator"; org_id = some (pos 1) }

abbrev root : User
root = record { role = "super_admin"; org_id = none }

-- A row is its organization.
abbrev own : Option ℤ → Option ℤ
own o = o

abbrev rows : List (Option ℤ)
rows = some (pos 1) ∷ some (pos 2) ∷ none ∷ []

parse_int_signed : parse_int " -1_0 " ≡ some (negsuc 9)
unfolding parse_int emarecloud.Text.strip emarecloud.Text.Digits.is_digit
    emarecloud.Text.Digits.digit_value
parse_int_signed = refl

parse_int_refused : parse_int "1__0" ≡ none
unfolding parse_int emarecloud.Text.strip emarecloud.Text.Digits.is_digit
parse_int_refused = refl

root_chooses :
    resolve_tenant (λ t. t) [] (some root) page
    ≡ record { tenant_id = some (pos 2); is_global = true }
unfolding resolve_tenant emarecloud.Lists.any emarecloud.Text.is_empty parse_int
    emarecloud.Text.strip emarecloud.Text.Digits.is_digit emarecloud.Text.Digits.digit_value
root_chooses = refl

servers_full :
    check_quota
      ((pos 1, record { max_servers = some 1; max_users = none }) ∷ [])
      rows
      []
      (pos 1)
      "servers"
    ≡ exceeded "servers" 1 1
unfolding check_quota emarecloud.Dict.get filter
servers_full = refl

tenant_filter-check_tenant_access_example :
    tenant_filter own (resolve_tenant (λ t. t) [] (some member) page) true rows
    ≡ filter (check_tenant_access own (resolve_tenant (λ t. t) [] (some member) page)) rows
tenant_filter-check_tenant_access_example =
    tenant_filter-check_tenant_access own (λ t. t) [] (some member) page refl true rows

page_needs_tenant : is_exempt page ≡ false
unfolding is_exempt emarecloud.Lists.any
page_needs_tenant = refl

build_tenant_query_isolated_example :
    build_tenant_query own (resolve_tenant (λ t. t) [] (some member) page) rows
    ≡ filter (λ r. sql_equal r (some (pos 1))) rows
build_tenant_query_isolated_example =
    build_tenant_query_isolated own (λ t. t) [] member page refl page_needs_tenant rows
