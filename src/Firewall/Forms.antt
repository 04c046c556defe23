-- ===== src/Firewall/Forms.antt =====
-- The forms of values (the compiled patterns of emarefirewall/manager.py), on the code points of a text.
-- `\d` takes the decimal digits of Unicode, as the code has no re.ASCII.
pub mod Bounds
use emarecloud.Prelude.{
  ℕ, ◌+◌, String, Bool, true, false, not, ◌&&◌, ◌||◌, List, [], ◌∷◌, leb, if◌then◌else◌, ◌==◌,
  nat_eq, string_eq, pair_eq,
}
use emarecloud.Text.{codes}
use emarecloud.Text.Split.{split_on}
use emarecloud.Text.Digits.{is_digit}
use emarecloud.Lists.{length}

-- `25[0-5]|2[0-4]\d|[01]?\d\d?`
unfoldable pub is_octet : List ℕ → Bool
is_octet (a ∷ []) = is_digit a
is_octet (a ∷ b ∷ []) = is_digit a && is_digit b
is_octet (a ∷ b ∷ c ∷ []) =
    (a == 50 && b == 53 && leb 48 c && leb c 53)
    || (a == 50 && leb 48 b && leb b 52 && is_digit c)
    || ((a == 48 || a == 49) && is_digit b && is_digit c)
is_octet cs = false

-- `[12]?\d|3[0-2]`
unfoldable pub is_mask : List ℕ → Bool
is_mask (a ∷ []) = is_digit a
is_mask (a ∷ b ∷ []) = ((a == 49 || a == 50) && is_digit b) || (a == 51 && leb 48 b && leb b 50)
is_mask cs = false

unfoldable pub are_octets : List String → Bool
unfolding is_octet
are_octets (a ∷ b ∷ c ∷ d ∷ []) =
    is_octet (codes a) && is_octet (codes b) && is_octet (codes c) && is_octet (codes d)
are_octets parts = false

-- The parts of an address before and behind a slash.
unfoldable pub is_address : List String → Bool
unfolding are_octets is_mask
is_address (host ∷ []) = are_octets (split_on 46 host)
is_address (host ∷ mask ∷ []) = are_octets (split_on 46 host) && is_mask (codes mask)
is_address parts = false

-- `_VALID_IP_RE`
unfoldable pub is_ip : String → Bool
unfolding is_address
is_ip s = is_address (split_on 47 s)

abbrev pub is_letter : ℕ → Bool
is_letter c = (leb 65 c && leb c 90) || (leb 97 c && leb c 122)

abbrev pub is_name_code : ℕ → Bool
is_name_code c = is_letter c || (leb 48 c && leb c 57) || c == 95 || c == 45

unfoldable pub are_name_codes : List ℕ → Bool
are_name_codes [] = true
are_name_codes (c ∷ cs) = is_name_code c && are_name_codes cs

-- `^[a-zA-Z][a-zA-Z0-9_-]{0,63}$`
unfoldable pub is_name : List ℕ → Bool
unfolding are_name_codes
is_name [] = false
is_name (c ∷ cs) = is_letter c && are_name_codes cs && leb (length cs) 63

-- `^[A-Z]{2}$`
unfoldable pub is_country : List ℕ → Bool
is_country (a ∷ b ∷ []) = leb 65 a && leb a 90 && leb 65 b && leb b 90
is_country cs = false

abbrev pub same_codes : List ℕ → List ℕ → Bool
same_codes [] [] = true
same_codes [] (b ∷ ys) = false
same_codes (a ∷ xs) [] = false
same_codes (a ∷ xs) (b ∷ ys) = a == b && same_codes xs ys

-- `(/(?:tcp|udp))?$`
unfoldable pub is_suffix : List ℕ → Bool
is_suffix cs = same_codes cs [] || same_codes cs (codes "/tcp") || same_codes cs (codes "/udp")

-- At most five digits and at least one, where `n` of them have been read, and what stands behind them.
-- The second number is that behind a dash.
unfoldable pub is_ports : (second : Bool) (n : ℕ) → List ℕ → Bool
unfolding is_digit is_suffix
is_ports second n [] = leb 1 n && leb n 5
is_ports second n (c ∷ cs) =
    let dash = c == 45 in
    let rest = is_ports (second || dash) (if dash then 0 else n + 1) cs in
    if is_digit c
    then rest
    else leb 1 n && leb n 5 && (if dash then not second && rest else is_suffix (c ∷ cs))

-- `_VALID_PORT_RE`: `^\d{1,5}(-\d{1,5})?(/(?:tcp|udp))?$`
unfoldable pub is_port : String → Bool
unfolding is_ports
is_port s = is_ports false 0 (codes s)
