-- ===== src/TenantStore/Plans.antt =====
-- The plan limits and the name check of emarefirewall/tenants.py.
use emarecloud.Prelude.{
  ℕ, ◌≤◌, String, ◌≡◌, Bool, true, false, ◌&&◌, ◌||◌, List, [], ◌∷◌, arith, leb, nat_beq, nat_eq,
  string_eq, pair_eq,
}
use emarecloud.Dict.{Dict}
use emarecloud.Lists.{length}
use emarecloud.Text.{codes}

pub record Limits : Type 0 where
  pub max_servers : ℕ
  pub max_rules : ℕ
  pub rate_limit : ℕ

abbrev pub plan_limits : Dict String Limits
plan_limits =
    ("bronze", record { max_servers = 5; max_rules = 50; rate_limit = 30 })
    ∷ ("silver", record { max_servers = 25; max_rules = 250; rate_limit = 120 })
    ∷ ("gold", record { max_servers = 100; max_rules = 1000; rate_limit = 600 })
    ∷ ("enterprise", record { max_servers = 1000; max_rules = 10000; rate_limit = 0 })
    ∷ []

is_alnum : ℕ → Bool
is_alnum c = leb b'0' c && leb c b'9' || leb b'A' c && leb c b'Z' || leb b'a' c && leb c b'z'

-- A character of the name's tail: a letter, a digit, or one of ` _.-`.
is_name_char : ℕ → Bool
unfolding is_alnum
is_name_char c = is_alnum c || nat_beq c b' ' || nat_beq c b'_' || nat_beq c b'.' || nat_beq c b'-'

all_name_chars : List ℕ → Bool
unfolding is_name_char
all_name_chars [] = true
all_name_chars (c ∷ cs) = is_name_char c && all_name_chars cs

-- `_VALID_TENANT_NAME_RE` on a stripped name, so that no line end can stand before the `$`.
valid_name : List ℕ → Bool
unfolding all_name_chars
valid_name [] = false
valid_name (c ∷ cs) = is_alnum c && all_name_chars cs && leb (length cs) 127

unfoldable pub is_valid_tenant_name : String → Bool
unfolding valid_name
is_valid_tenant_name s = valid_name (codes s)

-- A name that passes the check has from 1 to 128 characters.
pub valid_name-length :
    (s : String) → is_valid_tenant_name s ≡ true → (1 ≤ length (codes s)) × (length (codes s) ≤ 128)
unfolding is_valid_tenant_name
valid_name-length String.[] h = absurd (ground arith)
valid_name-length (String.◌∷◌ c s) h = ground arith
