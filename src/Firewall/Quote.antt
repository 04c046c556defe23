-- ===== src/Firewall/Quote.antt =====
-- The quoting of a value for a shell (`_sq`, emarefirewall/manager.py, which is `shlex.quote`).
pub mod Shell
use Prim.Native.Char.{Char, code}
use Prim.Native.String.{String, [], ◌∷◌, ◌++◌}
use emarecloud.Prelude.{ℕ, Bool, true, ◌&&◌, ◌||◌, leb, nat_beq, if◌then◌else◌}
use emarecloud.Text.{is_empty, replace_code}

-- `\w` of an ASCII pattern.
abbrev pub is_word : ℕ → Bool
is_word c =
    (leb 48 c && leb c 57) || (leb 65 c && leb c 90) || (leb 97 c && leb c 122) || nat_beq c 95

-- A character that `shlex.quote` takes as safe: a word character, or one of `@%+=:,./-`.
unfoldable pub is_safe : ℕ → Bool
is_safe c =
    is_word c
    || (leb 43 c && leb c 47)
    || nat_beq c 64
    || nat_beq c 37
    || nat_beq c 61
    || nat_beq c 58

unfoldable pub all_safe : String → Bool
all_safe [] = true
all_safe (c ∷ s) = is_safe (code c) && all_safe s

-- `_sq`
unfoldable pub sq : String → String
sq value =
    if is_empty value
    then "''"
    else if all_safe value
    then value
    else "'" ++ (replace_code 39 "'\"'\"'" value ++ "'")
