-- ===== src/Rbac/Tests.antt =====
-- Runs of the role checks, and the laws at concrete callers.
use emarecloud.Prelude.{
  ℕ, ◌+◌, String, ◌≡◌, refl, ◌≢◌, true, false, [], ◌∷◌, arith, eq_iff, nat_eq, string_eq, pair_eq,
}
use emarecloud.Lists.{is_in}
use emarecloud.Rbac.Catalog.{all_permissions, permission_groups}
use emarecloud.Rbac.Access.{check_permission, get_role_info, Caller, role_required}
use emarecloud.Rbac.Laws.{
  check_permission_listed, permission_groups_complete, grouped, check_permission_by_level,
  role_required_guards, is_returned, status_of,
}

abbrev clerk : Caller
clerk = record { is_authenticated = true; role = "read_only"; is_json = true }

operator_may_connect : check_permission "operator" "server.connect" ≡ true
unfolding check_permission is_in emarecloud.Dict.get
operator_may_connect = refl

nobody_may_view : check_permission "guest" "server.view" ≡ false
unfolding check_permission is_in emarecloud.Dict.get
nobody_may_view = refl

guest_level : (get_role_info "guest").level ≡ 0
unfolding get_role_info emarecloud.Dict.get
guest_level = refl

other_role : (◌≢◌ {A = String} "operator" "super_admin")
other_role e = ground (arith, (eq_iff "operator" "super_admin").1 e)

check_permission_listed_example : is_in "server.connect" all_permissions ≡ true
check_permission_listed_example =
    check_permission_listed "operator" "server.connect" operator_may_connect other_role

permission_groups_complete_example :
    is_in "raid.view" (grouped permission_groups) ≡ is_in "raid.view" all_permissions
permission_groups_complete_example = permission_groups_complete "raid.view"

sub_reseller_views : check_permission "sub_reseller" "terminal.access" ≡ true
unfolding check_permission is_in emarecloud.Dict.get
sub_reseller_views = refl

check_permission_by_level_example : check_permission "admin" "terminal.access" ≡ true
unfolding is_in get_role_info emarecloud.Dict.get
check_permission_by_level_example =
    check_permission_by_level "admin" "sub_reseller" "terminal.access" refl refl (omega arith) refl
      sub_reseller_views

-- The level of an operator is above that of a reseller, who may add a server where an operator may not.
operator_may_not_add :
    (check_permission "reseller" "server.add" ≡ true)
    × (check_permission "operator" "server.add" ≡ false)
unfolding check_permission is_in emarecloud.Dict.get
operator_may_not_add = (refl, refl)

role_required_guards_example :
    (is_returned (role_required ("admin" ∷ []) (λ n. n + 1) clerk 3) ≡ false)
    × (status_of (role_required ("admin" ∷ []) (λ n. n + 1) clerk 3) ≡ 403)
unfolding is_in
role_required_guards_example =
    role_required_guards {A = ℕ} {B = ℕ} ("admin" ∷ []) (λ n. n + 1) clerk 3
