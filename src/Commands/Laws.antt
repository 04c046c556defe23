-- ===== src/Commands/Laws.antt =====
-- Who may run what.
use emarecloud.Prelude.{
  String, ◌≡◌, refl, sym, inl, inr, Bool, true, false, not, ◌&&◌, ◌||◌, arith, eq_iff, Bool-cases,
  ◌==◌, nat_eq, string_eq, pair_eq,
}
use mathlib.Core.Path.{subst}
use emarecloud.Text.{is_empty, strip}
use emarecloud.Commands.Patterns.{operator_allowed}
use emarecloud.Commands.Check.{is_allowed, is_command_blocked, is_listed, is_command_allowed}

read_only_alone :
    (role : String)
    → (role == "read_only") ≡ true
    → ((role == "admin") ≡ false) × ((role == "operator") ≡ false)
read_only_alone role h =
    subst (λ r. ((r == "admin") ≡ false) × ((r == "operator") ≡ false))
      (sym ((eq_iff role "read_only").0 h)) (refl, refl)

module _ (search matches : (pattern command : String) → Bool) where
  -- A command runs exactly if it is not empty, no blocked pattern is found in it, and the role is
  -- super_admin or admin, or operator with a command that a pattern of the operators matches.
  pub is_command_allowed_exactly :
      (command role : String)
      → is_allowed (is_command_allowed search matches command role) ≡ (
          not (is_empty (strip command))
          && not (is_command_blocked search matches (strip command))
          && (role == "super_admin"
              || role == "admin"
              || (role == "operator" && is_listed search matches operator_allowed (strip command))))
  unfolding is_command_allowed
  is_command_allowed_exactly command role = elim (Bool-cases (role == "read_only")) [
    | inl h ↦ let (a, o) = read_only_alone role h in ground (arith, h, a, o)
    | inr h ↦ ground (arith, h)
  ]
