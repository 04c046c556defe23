-- ===== src/Rbac/Access.antt =====
-- What a role may do, and the decorators that guard a view (rbac.py).
use emarecloud.Prelude.{Option}
use emarecloud.Prelude.{
  ℕ, String, Bool, not, ◌&&◌, ◌||◌, none, some, List, [], map, if◌then◌else◌, ◌==◌, nat_eq,
  string_eq, pair_eq,
}
use Prim.Native.String
use emarecloud.Dict
use emarecloud.Lists.{is_in}
use emarecloud.Rbac.Catalog.{RoleInfo, roles}
use emarecloud.Rbac.Matrix.{permissions}

-- A set, or `set()` where the role is not known.
abbrev pub set_or_empty : Option (List String) → List String
set_or_empty none = []
set_or_empty (some perms) = perms

-- `PERMISSIONS.get(role, set())`
unfoldable pub get_permissions_for_role : String → List String
get_permissions_for_role role = set_or_empty (Dict.get role permissions)

unfoldable pub check_permission : (role permission : String) → Bool
unfolding get_permissions_for_role
check_permission role permission =
    let perms = get_permissions_for_role role in is_in "*" perms || is_in permission perms

unfoldable pub get_role_info : String → RoleInfo
get_role_info role = elim (Dict.get role roles) [
  | none ↦ record { label = role; level = 0; description = ""; color = "#8b8fa3" }
  | some info ↦ info
]

-- A role with its key.
unfoldable pub get_all_roles : List (String × RoleInfo)
get_all_roles = map (λ e. (e.0, e.1)) roles

-- What the code reads of `current_user` and of `request`.
pub record Caller : Type 0 where
  pub is_authenticated : Bool
  pub role : String
  pub is_json : Bool

-- A view's value, a JSON body with its message and status, or an abort with its status.
pub data Outcome (B : Type 0) : Type 0 where
  returned : B → Outcome B
  json : (message : String) (status : ℕ) → Outcome B
  aborted : (status : ℕ) → Outcome B

abbrev pub refuse : {B : Type 0} → Caller → (message : String) (status : ℕ) → Outcome B
refuse c message status = if c.is_json then json message status else aborted status

module _ {A B : Type 0} where
  unfoldable pub role_required : List String → (A → B) → Caller → A → Outcome B
  role_required allowed f c args =
      if not c.is_authenticated
      then refuse c "Giriş yapmalısınız" 401
      else if not (is_in c.role allowed) && not (c.role == "super_admin")
      then refuse c "Bu işlem için yetkiniz yok" 403
      else returned (f args)

  unfoldable pub permission_required : String → (A → B) → Caller → A → Outcome B
  permission_required permission f c args =
      if not c.is_authenticated
      then refuse c "Giriş yapmalısınız" 401
      else if not (check_permission c.role permission)
      then refuse c (String.◌++◌ "Bu işlem için yetkiniz yok (" (String.◌++◌ permission ")")) 403
      else returned (f args)
