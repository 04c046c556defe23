-- ===== src/Commands/Tests.antt =====
-- Runs of the check of a command with a matcher that looks for a literal text, and its law.
use emarecloud.Prelude.{String, ◌≡◌, refl, Bool, not, ◌&&◌, ◌==◌, nat_eq, string_eq, pair_eq}
use text.Mathlib.Text.{starts_with}
use emarecloud.Text.{is_empty, strip}
use emarecloud.Commands.Patterns.{operator_allowed}
use emarecloud.Commands.Check.{
  blocked_command, not_for_operator, is_allowed, is_command_blocked, is_listed, is_command_allowed,
}
use emarecloud.Commands.Laws.{is_command_allowed_exactly}

-- A matcher that knows one pattern of each list.
abbrev finds : (pattern command : String) → Bool
finds pattern command = pattern == "/dev/tcp/" && command == "cat </dev/tcp/1"

abbrev begins : (pattern command : String) → Bool
begins pattern command = pattern == "^journalctl\\b" && starts_with command "journalctl"

root_is_blocked : is_command_allowed finds begins " cat </dev/tcp/1" "super_admin" ≡ blocked_command
unfolding is_command_allowed is_empty strip is_command_blocked emarecloud.Lists.Filter.any
root_is_blocked = refl

operator_is_refused : is_command_allowed finds begins "reboot" "operator" ≡ not_for_operator
unfolding is_command_allowed is_empty strip is_command_blocked emarecloud.Lists.Filter.any
operator_is_refused = refl

is_command_allowed_exactly_example :
    is_allowed (is_command_allowed finds begins "journalctl -n 5" "operator") ≡ (
      not (is_command_blocked finds begins "journalctl -n 5")
      && is_listed finds begins operator_allowed "journalctl -n 5")
unfolding strip
is_command_allowed_exactly_example =
    is_command_allowed_exactly finds begins "journalctl -n 5" "operator"
