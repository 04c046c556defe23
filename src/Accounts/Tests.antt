-- ===== src/Accounts/Tests.antt =====
-- Runs of a user's recovery codes and permissions, and their laws at concrete users.
use emarecloud.Prelude.{
  String, ◌≡◌, refl, true, false, not, ◌&&◌, none, some, [], ◌∷◌, if◌then◌else◌, ◌==◌, nat_eq,
  string_eq, pair_eq,
}
use emarecloud.Text.{is_empty, strip, upper}
use emarecloud.Lists.{is_in}
use emarecloud.Rbac.Access.{check_permission}
use emarecloud.Accounts.User.{remove, Json, User, own_list, recovery_codes, use_recovery_code}
use emarecloud.Accounts.Laws.{IsDistinct, IsReadBack, use_recovery_code_once}

-- A reader that knows one list.
abbrev json : Json
json = record { loads = λ s. some ("server.view" ∷ []); dumps = λ l. "[]" }

abbrev member : User
member = record {
  role = "operator";
  custom_permissions_json = some "[\"server.view\"]";
  recovery_codes_json = none;
}

member_list : own_list json member ≡ some ("server.view" ∷ [])
unfolding own_list is_empty
member_list = refl

role_grants : check_permission "operator" "server.execute" ≡ true
unfolding check_permission is_in emarecloud.Dict.get
role_grants = refl

list_lacks : is_in {A = String} "server.execute" ("server.view" ∷ []) ≡ false
unfolding is_in
list_lacks = refl

-- A reader that knows two codes, and writes and reads the second alone.
abbrev codes_json : Json
codes_json = record {
  loads = λ s. if s == "both" then some ("A1" ∷ "B2" ∷ []) else some ("B2" ∷ []);
  dumps = λ l. "one";
}

abbrev owner : User
owner = record {
  role = "operator";
  custom_permissions_json = none;
  recovery_codes_json = some "both";
}

owner-IsDistinct : IsDistinct (recovery_codes codes_json owner)
unfolding recovery_codes is_empty is_in
owner-IsDistinct = (refl, (refl, tt))

owner-IsReadBack :
    IsReadBack codes_json (remove (strip (upper "a1")) (recovery_codes codes_json owner))
unfolding recovery_codes remove is_empty strip upper
owner-IsReadBack = (refl, refl)

owner_uses : (use_recovery_code codes_json "a1" owner).0 ≡ true
unfolding use_recovery_code is_in is_empty strip upper
owner_uses = refl

use_recovery_code_once_example :
    (use_recovery_code codes_json "a1" (use_recovery_code codes_json "a1" owner).1).0 ≡ (
      (use_recovery_code codes_json "a1" owner).0 && not (strip (upper "a1") == strip (upper "a1")))
use_recovery_code_once_example =
    use_recovery_code_once codes_json "a1" "a1" owner owner-IsDistinct owner-IsReadBack owner_uses
