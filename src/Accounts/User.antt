-- ===== src/Accounts/User.antt =====
-- `User` (models.py): its own list of permissions, and its recovery codes. `json`, for lists of texts, is
-- a parameter.
use emarecloud.Prelude.{
  String, Bool, true, false, Option, none, some, List, [], ◌∷◌, if◌then◌else◌, ◌==◌, nat_eq,
  string_eq, pair_eq,
}
use emarecloud.Text.{is_empty, strip, upper}
use emarecloud.Lists.{is_in}
use emarecloud.Rbac.Access.{check_permission}

-- `json.loads` and `json.dumps` on lists of texts; `none` is an exception that the code catches.
pub record Json : Type 0 where
  pub loads : String → Option (List String)
  pub dumps : List String → String

pub record User : Type 0 where
  pub role : String
  pub custom_permissions_json : Option String
  pub recovery_codes_json : Option String

-- The text of a column, `""` where it is NULL.
abbrev pub column : Option String → String
column none = ""
column (some s) = s

abbrev pub or_empty : Option (List String) → List String
or_empty none = []
or_empty (some l) = l

-- `list.remove`: the first element that is equal.
unfoldable pub remove : String → List String → List String
remove a [] = []
remove a (x ∷ xs) = let rest = remove a xs in if x == a then xs else x ∷ rest

-- Whether a list of one's own grants a permission; without a list that can be read the role decides.
abbrev pub granted : Option (List String) → (role permission : String) → Bool
granted none role permission = check_permission role permission
granted (some custom) role permission = is_in permission custom

module _ (J : Json) where
  -- The list of one's own, where the column has a text that is JSON.
  unfoldable pub own_list : User → Option (List String)
  own_list u =
      let text = column u.custom_permissions_json in if is_empty text then none else J.loads text

  unfoldable pub has_permission : (permission : String) → User → Bool
  has_permission permission u =
      if u.role == "super_admin" then true else granted (own_list u) u.role permission

  -- `custom_permissions`
  unfoldable pub custom_permissions : User → List String
  unfolding own_list
  custom_permissions u = or_empty (own_list u)

  -- `recovery_codes`
  unfoldable pub recovery_codes : User → List String
  recovery_codes u =
      let text = column u.recovery_codes_json in
      if is_empty text then [] else or_empty (J.loads text)

  -- The setter of `recovery_codes`.
  abbrev pub set_recovery_codes : List String → User → User
  set_recovery_codes codes u = record u { recovery_codes_json = some (J.dumps codes) }

  unfoldable pub use_recovery_code : (code : String) → User → Bool × User
  unfolding recovery_codes remove
  use_recovery_code code u =
      let codes = recovery_codes u in
      let upper_code = strip (upper code) in
      if is_in upper_code codes
      then (true, set_recovery_codes (remove upper_code codes) u)
      else (false, u)
