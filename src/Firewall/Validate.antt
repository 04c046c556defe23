-- ===== src/Firewall/Validate.antt =====
-- The checks of arguments (`_validate_*`, emarefirewall/manager.py). The message of a `ValueError` is the
-- left side; a value that is None is "".
pub mod Bounds
pub mod Plain
use emarecloud.Prelude.{
  String, ◌⊎◌, inl, inr, Bool, ◌||◌, Option, none, some, List, [], ◌∷◌, ltb, if◌then◌else◌, nat_eq,
  string_eq, pair_eq,
}
use Prim.Native.String.{◌++◌ as join_texts}
use emarecloud.Text.{is_empty, strip, lower, upper, codes}
use emarecloud.Text.Split.{split_on, digit_runs, decimal, occurs}
use emarecloud.Lists.{is_in}
use emarecloud.Dict.{Dict}
use emarecloud.Firewall.Forms.{is_ip, is_name, is_country, is_port}

abbrev pub Checked : Type 0
Checked = String ⊎ String

-- The message for the first number outside 1 to 65535.
unfoldable pub range_error : List String → Option String
range_error [] = none
range_error (n ∷ ns) =
    if ltb (decimal n) 1 || ltb 65535 (decimal n)
    then some (join_texts "Port 1-65535 arasında olmalı: " n)
    else range_error ns

-- The message for one of the ports between commas.
unfoldable pub piece_error : String → Option String
unfolding range_error
piece_error p =
    if is_port p then range_error (digit_runs p) else some (join_texts "Geçersiz port formatı: " p)

unfoldable pub first_error : List String → Option String
unfolding piece_error
first_error [] = none
first_error (p ∷ ps) = elim (piece_error (strip p)) [ some e ↦ some e | none ↦ first_error ps ]

abbrev pub checked : Option String → String → Checked
checked none value = inr value
checked (some e) value = inl e

unfoldable pub validate_port : String → Checked
unfolding first_error
validate_port value =
    let port = strip value in
    if is_empty port then inl "Port belirtin." else checked (first_error (split_on 44 port)) port

-- A value of a form, with the messages for none and for another form.
abbrev pub validate_form : (missing wrong : String) → (String → Bool) → String → Checked
validate_form missing wrong form value =
    if is_empty value
    then inl missing
    else if form value
    then inr value
    else inl (join_texts wrong value)

unfoldable pub validate_ip : String → Checked
validate_ip value = validate_form "IP adresi belirtin." "Geçersiz IP formatı: " is_ip (strip value)

abbrev pub is_named : String → Bool
is_named s = is_name (codes s)

unfoldable pub validate_service : String → Checked
validate_service value =
    validate_form "Servis adı belirtin." "Geçersiz servis adı: " is_named (strip value)

unfoldable pub validate_zone : String → Checked
validate_zone value =
    validate_form "Zone adı belirtin." "Geçersiz zone adı: " is_named (strip value)

unfoldable pub validate_jail : String → Checked
validate_jail value =
    validate_form "Jail adı belirtin." "Geçersiz jail adı: " is_named (strip value)

-- `(value or default).strip().lower()`
abbrev pub normal : (value default : String) → String
normal value default = lower (strip (if is_empty value then default else value))

-- A value of a set. The message of the code also lists the set, in no fixed order.
abbrev pub validate_choice : (wrong : String) → List String → String → Checked
validate_choice wrong choices value =
    if is_in value choices then inr value else inl (join_texts wrong value)

abbrev pub valid_protocols : List String
valid_protocols = "tcp" ∷ "udp" ∷ "tcp/udp" ∷ []

abbrev pub valid_actions : List String
valid_actions = "allow" ∷ "deny" ∷ "reject" ∷ "limit" ∷ "accept" ∷ "drop" ∷ []

unfoldable pub validate_protocol : String → Checked
validate_protocol value = validate_choice "Geçersiz protokol: " valid_protocols (normal value "tcp")

unfoldable pub validate_action : String → Checked
validate_action value = validate_choice "Geçersiz işlem: " valid_actions (normal value "allow")

unfoldable pub validate_country : String → Checked
validate_country value =
    let cc = upper (strip value) in
    if is_country (codes cc) then inr cc else inl "Geçerli 2 harfli ülke kodu girin (örn: CN, RU)."

-- The message for the first dangerous text that occurs in a rule.
unfoldable pub danger_error : List String → (rule : String) → Option String
danger_error [] rule = none
danger_error (d ∷ ds) rule =
    if occurs d rule
    then some (join_texts "Kuraldaki güvenlik dışı karakter: " d)
    else danger_error ds rule

abbrev pub dangerous : List String
dangerous = ";" ∷ "&&" ∷ "||" ∷ "`" ∷ "$(" ∷ "${" ∷ ">" ∷ "<" ∷ "|" ∷ "\n" ∷ "\r" ∷ []

unfoldable pub validate_rich_rule : String → Checked
unfolding danger_error
validate_rich_rule value =
    let rule = strip value in
    if is_empty rule then inl "Kural belirtin." else checked (danger_error dangerous rule) rule

unfoldable pub validate_emareos_chain : String → Checked
validate_emareos_chain value =
    validate_choice "Geçersiz chain: " ("input" ∷ "forward" ∷ "output" ∷ []) (normal value "input")

-- `_VALID_EMAREOS_ACTIONS_MAP`
abbrev pub emareos_actions : Dict String String
emareos_actions =
    ("allow", "accept")
    ∷ ("accept", "accept")
    ∷ ("deny", "drop")
    ∷ ("drop", "drop")
    ∷ ("reject", "reject")
    ∷ ("limit", "accept")
    ∷ []
