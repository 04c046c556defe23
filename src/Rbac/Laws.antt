-- ===== src/Rbac/Laws.antt =====
-- What the permission matrix grants, and whom the decorators let through.
use emarecloud.Rbac.Access.{set_or_empty}
use emarecloud.Prelude.{
  ℕ, String, ◌≡◌, refl, sym, ap, ◌∙◌, ◌≢◌, ◌⊎◌, inl, inr, Bool, true, false, not, ◌&&◌, ◌||◌,
  Option, none, some, List, [], ◌∷◌, ◌++◌, map, ◌≤◌, ltb, Bool-cases, arith, if◌then◌else◌,
  Option-cases, ◌==◌, nat_eq, string_eq, pair_eq,
}
use emarecloud.Dict
use emarecloud.Dict.Laws.{get-All}
use emarecloud.Lists.{All, is_in, is_subset, is_in-is_subset}
use emarecloud.Rbac.Catalog.{Group, roles, all_permissions, permission_groups}
use emarecloud.Rbac.Matrix.{permissions}
use emarecloud.Rbac.Access.{
  get_role_info, get_permissions_for_role, check_permission, Caller, Outcome, returned, json,
  aborted, role_required, permission_required,
}

-- The row of a role names permissions of the catalogue only, or is the wildcard of `super_admin`.
abbrev IsListed : String × List String → Type 0
IsListed (role, perms) =
    (role ≡ "super_admin") ⊎ ((is_subset perms all_permissions && not (is_in "*" perms)) ≡ true)

permissions-IsListed : All IsListed permissions
unfolding is_subset is_in
permissions-IsListed = (inl refl, (inr refl, (inr refl, (inr refl, (inr refl, (inr refl, tt))))))

-- What a role may do, by the row of the matrix that is found for it.
check_permission-row :
    (role permission : String) (row : Option (List String))
    → Dict.get role permissions ≡ row
    → check_permission role permission
      ≡ (is_in "*" (set_or_empty row) || is_in permission (set_or_empty row))
unfolding check_permission get_permissions_for_role
check_permission-row role permission row e =
    ap (λ r. is_in "*" (set_or_empty r) || is_in permission (set_or_empty r)) e

-- A permission that a role other than `super_admin` has stands in the catalogue.
pub check_permission_listed :
    (role permission : String)
    → check_permission role permission ≡ true
    → role ≢ "super_admin"
    → is_in permission all_permissions ≡ true
unfolding is_in
check_permission_listed role permission h other = elim (Option-cases (Dict.get role permissions)) [
  | inl e ↦ absurd (ground (arith, sym (check_permission-row role permission none e) ∙ h))
  | inr (perms, e) ↦
      let m = sym (check_permission-row role permission (some perms) e) ∙ h in
      elim (get-All IsListed role perms permissions permissions-IsListed e) [
        | inl s ↦ absurd (other s)
        | inr s ↦
            is_in-is_subset permission perms all_permissions (ground (arith, s))
              (ground (arith, m, s))
      ]
]

-- The permissions that the groups show, group by group.
abbrev pub grouped : List Group → List String
grouped [] = []
grouped (g ∷ gs) = map (λ e. e.0) g.perms ++ grouped gs

-- A permission can be chosen in some group exactly if it stands in the catalogue.
pub permission_groups_complete :
    (permission : String)
    → is_in permission (grouped permission_groups) ≡ is_in permission all_permissions
permission_groups_complete permission = refl

-- The keys of `ROLES`.
abbrev pub role_keys : List String
role_keys = map (λ e. e.0) roles

abbrev pub level : String → ℕ
level role = (get_role_info role).level

-- The pair of roles that the matrix does not order as their levels.
abbrev pub is_operator_over_reseller : (a b : String) → Bool
is_operator_over_reseller a b = a == "operator" && b == "reseller"

-- The row of one role holds the row of another.
abbrev covers : (a b : String) → Bool
covers a b =
    is_in "*" (set_or_empty (Dict.get a permissions))
    || (is_subset (set_or_empty (Dict.get b permissions)) (set_or_empty (Dict.get a permissions))
        && not (is_in "*" (set_or_empty (Dict.get b permissions))))

abbrev holds_of_all : (String → Bool) → List String → Bool
holds_of_all f [] = true
holds_of_all f (x ∷ xs) = f x && holds_of_all f xs

holds_of_all-is_in :
    (f : String → Bool) (x : String) (xs : List String)
    → holds_of_all f xs ≡ true
    → is_in x xs ≡ true
    → f x ≡ true
unfolding is_in
holds_of_all-is_in f x [] h m = cc
holds_of_all-is_in f x (y ∷ ys) h m = elim (Bool-cases (y == x)) [
  | inl e ↦ ap f (sym ((string_eq.same_iff y x).0 e)) ∙ ground (arith, h)
  | inr e ↦ holds_of_all-is_in f x ys (ground (arith, h)) (ground (arith, m, e))
]

-- Of two roles the lower one is covered, or they are that pair.
abbrev is_ordered : (a b : String) → Bool
is_ordered a b = ltb (level a) (level b) || is_operator_over_reseller a b || covers a b

roles_are_ordered : holds_of_all (λ a. holds_of_all (is_ordered a) role_keys) role_keys ≡ true
unfolding is_subset is_in Dict.get get_role_info
roles_are_ordered = refl

covers-check_permission :
    (a b permission : String)
    → covers a b ≡ true
    → check_permission b permission ≡ true
    → check_permission a permission ≡ true
covers-check_permission a b permission s h =
    let m = sym (check_permission-row b permission (Dict.get b permissions) refl) ∙ h in
    let r = check_permission-row a permission (Dict.get a permissions) refl in
    let k =
      is_in-is_subset permission (set_or_empty (Dict.get b permissions))
        (set_or_empty (Dict.get a permissions)) in
    r ∙ ground (arith, s, m, k)

-- Of two roles of the table of roles, the one whose level is not lower may do all that the other
-- may do, unless they are the operator and the reseller.
pub check_permission_by_level :
    (a b permission : String)
    → is_in a role_keys ≡ true
    → is_in b role_keys ≡ true
    → level b ≤ level a
    → is_operator_over_reseller a b ≡ false
    → check_permission b permission ≡ true
    → check_permission a permission ≡ true
check_permission_by_level a b permission ka kb l other h =
    let above =
      holds_of_all-is_in (is_ordered a) b role_keys
        (holds_of_all-is_in (λ r. holds_of_all (is_ordered r) role_keys) a role_keys
          roles_are_ordered ka)
        kb in
    covers-check_permission a b permission (ground (arith, above, l, other)) h

abbrev pub is_returned : {B : Type 0} → Outcome B → Bool
is_returned (returned b) = true
is_returned (json message status) = false
is_returned (aborted status) = false

abbrev pub status_of : {B : Type 0} → Outcome B → ℕ
status_of (returned b) = 200
status_of (json message status) = status
status_of (aborted status) = status

-- A view that needs a permission runs exactly for a caller who is logged in and has it; other
-- callers get 401 or 403.
pub permission_required_guards :
    {A B : Type 0} (permission : String) (f : A → B) (c : Caller) (args : A)
    → (is_returned (permission_required permission f c args)
        ≡ (c.is_authenticated && check_permission c.role permission))
      × (status_of (permission_required permission f c args) ≡ (
          if c.is_authenticated
          then if check_permission c.role permission then 200 else 403
          else 401))
unfolding permission_required
permission_required_guards permission f c args = (ground arith, ground arith)

-- A view that needs one of some roles runs exactly for a caller who is logged in and has one of them
-- or is a super admin; other callers get 401 or 403.
pub role_required_guards :
    {A B : Type 0} (allowed : List String) (f : A → B) (c : Caller) (args : A)
    → (is_returned (role_required allowed f c args)
        ≡ (c.is_authenticated && (is_in c.role allowed || c.role == "super_admin")))
      × (status_of (role_required allowed f c args) ≡ (
          if c.is_authenticated
          then if is_in c.role allowed || c.role == "super_admin" then 200 else 403
          else 401))
unfolding role_required
role_required_guards allowed f c args = (ground arith, ground arith)
