-- ===== src/Tenancy/Access.antt =====
-- Which rows a request sees (core/tenant.py and core/helpers.py). A row is anything with an
-- organization; a filter of a query keeps the rows whose column passes it.
use emarecloud.Prelude.{
  ℕ, String, Bool, true, false, not, ◌&&◌, Option, none, some, List, leb, if◌then◌else◌, is_some,
  ◌==◌, nat_eq, string_eq, pair_eq,
}
use emarecloud.Dict
use emarecloud.Dict.{Dict}
use emarecloud.Lists.{filter, length}
use emarecloud.Integers.{ℤ, int_eq}
use emarecloud.Tenancy.Request.{User, Context, is_truthy}

-- `a == b` of two ids that may be missing, where None equals None.
abbrev pub same_id : Option ℤ → Option ℤ → Bool
same_id none none = true
same_id none (some b) = false
same_id (some a) none = false
same_id (some a) (some b) = a == b

-- `column == value` in SQL, which NULL does not pass.
abbrev pub sql_equal : Option ℤ → Option ℤ → Bool
sql_equal none b = false
sql_equal (some a) b = same_id (some a) b

abbrev pub is_none : Option ℤ → Bool
is_none i = not (is_some i)

module _ {Row : Type 0} (org_id : Row → Option ℤ) where
  unfoldable pub tenant_filter : Context → (allow_global : Bool) → List Row → List Row
  tenant_filter g allow_global rows =
      if allow_global && g.is_global && not (is_truthy g.tenant_id)
      then rows
      else if is_truthy g.tenant_id
      then filter (λ r. sql_equal (org_id r) g.tenant_id) rows
      else filter (λ r. is_none (org_id r)) rows

  unfoldable pub check_tenant_access : Context → Row → Bool
  check_tenant_access g r =
      if g.is_global
      then true
      else if is_none g.tenant_id && is_none (org_id r)
      then true
      else same_id (org_id r) g.tenant_id

  -- `_user_can_see_server`; without a request context its `except` lets the server be seen.
  unfoldable pub user_can_see_server : Option (Option User × Context) → Row → Bool
  user_can_see_server none r = true
  user_can_see_server (some (none, g)) r = false
  user_can_see_server (some (some u, g)) r =
      if g.is_global && not (is_truthy g.tenant_id)
      then true
      else if is_some g.tenant_id
      then same_id (org_id r) g.tenant_id
      else is_none (org_id r)

  -- `_build_tenant_query`
  unfoldable pub build_tenant_query : Context → List Row → List Row
  build_tenant_query g rows =
      if g.is_global && not (is_truthy g.tenant_id)
      then rows
      else if is_some g.tenant_id
      then filter (λ r. sql_equal (org_id r) g.tenant_id) rows
      else filter (λ r. is_none (org_id r)) rows

  abbrev pub only_if : (Row → Bool) → Option Row → Option Row
  only_if p none = none
  only_if p (some r) = if p r then some r else none

  -- `get_server_obj_with_access`; `get_server_by_id` passes the same server on with its password.
  unfoldable pub get_server_obj_with_access :
      Option (Option User × Context) → (server_id : String) → Dict String Row → Option Row
  get_server_obj_with_access ctx server_id servers =
      only_if (user_can_see_server ctx) (Dict.get server_id servers)

-- The limits of an organization that `check_quota` compares with a count.
pub record Quota : Type 0 where
  pub max_servers : Option ℕ
  pub max_users : Option ℕ

pub data QuotaAnswer : Type 0 where
  allowed : QuotaAnswer
  exceeded : (resource : String) (current limit : ℕ) → QuotaAnswer

abbrev pub compare_limit : (resource : String) (current : ℕ) → Option ℕ → QuotaAnswer
compare_limit resource current none = allowed
compare_limit resource current (some limit) =
    if leb limit current then exceeded resource current limit else allowed

-- `check_quota`: the organizations of the servers and of the users are the tables that it counts in.
unfoldable pub check_quota :
    Dict ℤ Quota
    → (servers users : List (Option ℤ)) → (org_id : ℤ) (resource : String) → QuotaAnswer
check_quota quotas servers users org_id resource = elim (Dict.get org_id quotas) [
  | none ↦ allowed
  | some q ↦
      (let counted =
          λ (rows : List (Option ℤ)). length (filter (λ o. sql_equal o (some org_id)) rows) in
        if resource == "servers"
        then compare_limit resource (counted servers) q.max_servers
        else if resource == "users"
        then compare_limit resource (counted users) q.max_users
        else allowed)
]
