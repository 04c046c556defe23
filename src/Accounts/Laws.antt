-- ===== src/Accounts/Laws.antt =====
-- That a recovery code works once, and when the guard of a view agrees with the permissions of a user.
use emarecloud.Prelude.{
  String, ◌≡◌, refl, sym, ap, ◌∙◌, inl, inr, Bool, true, false, not, ◌&&◌, some, List, [], ◌∷◌,
  arith, eq_iff, Bool-cases, ◌==◌, nat_eq, string_eq, pair_eq,
}
use mathlib.Core.Path.{subst}
use emarecloud.Text.{is_empty, strip, upper}
use emarecloud.Lists.{is_in}
use emarecloud.Rbac.Access.{check_permission, Caller, permission_required}
use emarecloud.Rbac.Laws.{is_returned, permission_required_guards}
use emarecloud.Accounts.User.{
  Json, User, remove, own_list, has_permission, recovery_codes, set_recovery_codes,
  use_recovery_code,
}

-- No text stands twice in a list.
abbrev pub IsDistinct : List String → Type 0
IsDistinct [] = Unit
IsDistinct (x ∷ xs) = (is_in x xs ≡ false) × IsDistinct xs

-- What is in a list without repetition once a text is removed.
is_in-remove :
    (a b : String) (xs : List String)
    → IsDistinct xs
    → is_in b (remove a xs) ≡ (is_in b xs && not (a == b))
unfolding is_in remove
is_in-remove a b [] h = refl
is_in-remove a b (x ∷ xs) (n, h) = elim (Bool-cases (x == a)) [
  | inl q ↦
      let xa = (eq_iff x a).0 q in
      elim (Bool-cases (a == b)) [
        | inl p ↦
            let m = subst (λ y. is_in y xs ≡ false) (xa ∙ (eq_iff a b).0 p) n in
            rw q (ground (arith, p, m))
        | inr p ↦ let r = subst (λ y. (y == b) ≡ false) (sym xa) p in rw q (ground (arith, p, r))
      ]
  | inr q ↦
      let rest = is_in-remove a b xs h in
      rw q (ground (arith, q, rest, eq_iff x a, eq_iff x b, eq_iff a b))
]

module _ (J : Json) where
  -- json reads back a list that it wrote, as a text that is not empty.
  abbrev pub IsReadBack : List String → Type 0
  IsReadBack l = (J.loads (J.dumps l) ≡ some l) × (is_empty (J.dumps l) ≡ false)

  codes-set :
      (l : List String) (u : User) → IsReadBack l → recovery_codes J (set_recovery_codes J l u) ≡ l
  unfolding recovery_codes
  codes-set l u (same, some_text) = rw (some_text, same) refl

  use-accepts :
      (code : String) (u : User)
      → (use_recovery_code J code u).0 ≡ is_in (strip (upper code)) (recovery_codes J u)
  unfolding use_recovery_code
  use-accepts code u = ground arith

  use-state :
      (code : String) (u : User)
      → is_in (strip (upper code)) (recovery_codes J u) ≡ true
      → (use_recovery_code J code u).1
        ≡ set_recovery_codes J (remove (strip (upper code)) (recovery_codes J u)) u
  unfolding use_recovery_code
  use-state code u h = rw h refl

  -- A recovery code that is accepted is used up: afterwards it is refused, and every other code is
  -- accepted as before, if no code stands twice among those of the user, and json reads back the
  -- codes that are left, from a text that is not empty.
  pub use_recovery_code_once :
      (code other : String) (u : User)
      → IsDistinct (recovery_codes J u)
      → IsReadBack (remove (strip (upper code)) (recovery_codes J u))
      → (use_recovery_code J code u).0 ≡ true
      → (use_recovery_code J other (use_recovery_code J code u).1).0
        ≡ ((use_recovery_code J other u).0 && not (strip (upper code) == strip (upper other)))
  use_recovery_code_once code other u d back h =
      let a = strip (upper code) in
      let b = strip (upper other) in
      let codes = recovery_codes J u in
      let u' = (use_recovery_code J code u).1 in
      let state = use-state code u (sym (use-accepts code u) ∙ h) in
      let left : recovery_codes J u' ≡ remove a codes =
        ap (recovery_codes J) state ∙ codes-set (remove a codes) u back in
      use-accepts other u'
      ∙ ap (is_in b) left
      ∙ is_in-remove a b codes d
      ∙ ap (λ v. v && not (a == b)) (sym (use-accepts other u))

-- The guard of a view does not read the list of a user: a permission that the role has and the
-- list does not passes the guard, and the user does not have it.
pub permission_required_ignores_list :
    {A B : Type 0} (J : Json) (permission : String) (f : A → B) (args : A) (is_json : Bool)
    (u : User) (custom : List String)
    → own_list J u ≡ some custom
    → is_in permission custom ≡ false
    → (u.role == "super_admin") ≡ false
    → check_permission u.role permission ≡ true
    → (is_returned (
          permission_required permission f
            (record { is_authenticated = true; role = u.role; is_json = is_json })
            args)
        ≡ true)
      × (has_permission J permission u ≡ false)
unfolding has_permission
permission_required_ignores_list J permission f args is_json u custom l out r h =
    let c : Caller = record { is_authenticated = true; role = u.role; is_json = is_json } in
    ((permission_required_guards permission f c args).0 ∙ h, rw (r, l) out)
