-- ===== src/Firewall/Mq.antt =====
-- The quoting of a value for the command line of Emare OS (`_mq`).
pub mod Laws
use emarecloud.Prelude.{
  ℕ, String, inl, inr, Bool, ◌||◌, if◌then◌else◌, ◌==◌, nat_eq, string_eq, pair_eq,
}
use Prim.Native.String.{◌++◌}
use emarecloud.Text.{is_empty, replace_code, codes}
use emarecloud.Lists.{any}
use emarecloud.Firewall.Validate.{Checked}

-- One of the characters `; \n \r \0`.
abbrev pub is_dangerous : ℕ → Bool
is_dangerous c = c == 59 || c == 10 || c == 13 || c == 0

-- A space or a double quote.
abbrev pub wants_quotes : ℕ → Bool
wants_quotes c = c == 32 || c == 34

-- `_mq`
unfoldable pub mq : String → Checked
mq value =
    if is_empty value
    then inr "\"\""
    else if any is_dangerous (codes value)
    then inl "Emare OS değerinde geçersiz karakter."
    else if any wants_quotes (codes value)
    then inr ("\"" ++ (replace_code 34 "\\\"" (replace_code 92 "\\\\" value) ++ "\""))
    else inr value
