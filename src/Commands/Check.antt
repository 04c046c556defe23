-- ===== src/Commands/Check.antt =====
-- The check of a command (command_security.py). `re.search` and `re.match` without regard to case are
-- parameters.
use emarecloud.Prelude.{
  String, Bool, true, false, List, ◌++◌, if◌then◌else◌, ◌==◌, nat_eq, string_eq, pair_eq,
}
use emarecloud.Text.{is_empty, strip}
use emarecloud.Lists.{any}
use emarecloud.Commands.Patterns.{blocked_patterns, operator_allowed, admin_extra}

-- The answers of `is_command_allowed`, one for each message.
pub data Verdict : Type 0 where
  empty_command blocked_command super_admin_right read_only_refused listed_command : Verdict
  admin_right not_for_operator unknown_role : Verdict

abbrev pub is_allowed : Verdict → Bool
is_allowed super_admin_right = true
is_allowed listed_command = true
is_allowed admin_right = true
is_allowed v = false

module _ (search matches : (pattern command : String) → Bool) where
  unfoldable pub is_command_blocked : String → Bool
  is_command_blocked command = any (λ p. search p (strip command)) blocked_patterns

  abbrev pub is_listed : List String → (cmd : String) → Bool
  is_listed patterns cmd = any (λ p. matches p cmd) patterns

  unfoldable pub is_command_allowed : (command role : String) → Verdict
  is_command_allowed command role =
      let cmd = strip command in
      if is_empty cmd
      then empty_command
      else if is_command_blocked cmd
      then blocked_command
      else if role == "super_admin"
      then super_admin_right
      else if role == "read_only"
      then read_only_refused
      else if role == "admin"
      then if is_listed (operator_allowed ++ admin_extra) cmd then listed_command else admin_right
      else if role == "operator"
      then if is_listed operator_allowed cmd then listed_command else not_for_operator
      else unknown_role
