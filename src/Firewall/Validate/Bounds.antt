-- ===== src/Firewall/Validate/Bounds.antt =====
-- What the checks of addresses and ports let through.
use emarecloud.Prelude.{
  ◌≤◌, String, ◌≡◌, ◌⊎◌, inl, inr, true, false, Option, none, some, List, [], ◌∷◌, arith,
  Bool-cases, nat_eq, string_eq, pair_eq,
}
use emarecloud.Text.{is_empty, strip}
use emarecloud.Text.Split.{split_on, digit_runs, decimal}
use emarecloud.Firewall.Quote.{sq}
use emarecloud.Firewall.Forms.{is_ip}
use Prim.Native.String.{◌++◌}
use emarecloud.Firewall.Forms.Bounds.{IsAddress, is_address_bound, all_address, is_ip-all_address}
use emarecloud.Firewall.Mq.{mq}
use emarecloud.Firewall.Validate.Plain.{sq-all_address, mq-all_address}
use emarecloud.Firewall.Validate.{
  checked, range_error, piece_error, first_error, validate_port, validate_ip,
}

validate_ip_inv :
    (value v : String)
    → validate_ip value ≡ inr v
    → (v ≡ strip value) × (is_ip v ≡ true) × (is_empty v ≡ false)
unfolding validate_ip
validate_ip_inv value v h = ground (arith, h)

-- An address that the check accepts is the stripped value. It has four numbers of at most 255
-- between dots and, behind a slash, a number of at most 32 or nothing; each of its characters is a
-- decimal digit of some script, a dot or a slash; quoting for a shell gives the value itself or
-- the value between quotes, and quoting for Emare OS gives the value itself.
pub validate_ip_bounds :
    (value v : String)
    → validate_ip value ≡ inr v
    → (v ≡ strip value)
      × IsAddress (split_on 47 v)
      × (all_address v ≡ true)
      × ((sq v ≡ v) ⊎ (sq v ≡ "'" ++ (v ++ "'")))
      × (mq v ≡ inr v)
unfolding is_ip
validate_ip_bounds value v h =
    let (s, i, e) = validate_ip_inv value v h in
    let plain = is_ip-all_address v i in
    (
      s,
      is_address_bound (split_on 47 v) i,
      plain,
      sq-all_address v e plain,
      mq-all_address v e plain,
    )

pub mq-eq_of_validate_ip : (value v a : String) → validate_ip value ≡ inr v → mq v ≡ inr a → a ≡ v
mq-eq_of_validate_ip value v a h m =
    let (s, i, p, q, bare) = validate_ip_bounds value v h in ground (arith, m, bare)

abbrev pub ArePorts : List String → Type 0
ArePorts [] = Unit
ArePorts (n ∷ ns) = (1 ≤ decimal n) × (decimal n ≤ 65535) × ArePorts ns

abbrev pub HavePorts : List String → Type 0
HavePorts [] = Unit
HavePorts (p ∷ ps) = ArePorts (digit_runs (strip p)) × HavePorts ps

range_error_bound : (ns : List String) → range_error ns ≡ none → ArePorts ns
unfolding range_error
range_error_bound [] h = tt
range_error_bound (n ∷ ns) h =
    let rest : range_error ns ≡ none = ground (arith, h) in
    (ground (arith, h), ground (arith, h), range_error_bound ns rest)

first_error_bound : (ps : List String) → first_error ps ≡ none → HavePorts ps
unfolding first_error piece_error
first_error_bound [] h = tt
first_error_bound (p ∷ ps) h =
    let here : range_error (digit_runs (strip p)) ≡ none = ground (arith, h) in
    let rest : first_error ps ≡ none = ground (arith, h) in
    (range_error_bound (digit_runs (strip p)) here, first_error_bound ps rest)

checked_inv : (e : Option String) (p v : String) → checked e p ≡ inr v → (e ≡ none) × (v ≡ p)
checked_inv none p v h = ground (arith, h)
checked_inv (some e) p v h = cc

validate_port_inv :
    (value v : String)
    → validate_port value ≡ inr v
    → checked (first_error (split_on 44 (strip value))) (strip value) ≡ inr v
unfolding validate_port
validate_port_inv value v h = elim (Bool-cases (is_empty (strip value))) [
  | inl e ↦ cc
  | inr e ↦ ground (arith, h, e)
]

-- Every number in a port, a range or a list of them that the check accepts is from 1 to 65535, and the
-- accepted text is the stripped value.
pub validate_port_bounds :
    (value v : String) → validate_port value ≡ inr v → (v ≡ strip value) × HavePorts (split_on 44 v)
validate_port_bounds value v h =
    let (e, same) =
      checked_inv (first_error (split_on 44 (strip value))) (strip value) v
        (validate_port_inv value v h) in
    (same, rw same (first_error_bound (split_on 44 (strip value)) e))
