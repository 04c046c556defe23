-- ===== src/Firewall/Forms/Bounds.antt =====
-- What the form of an address gives: the parts are small numbers, and every character is a digit, a dot or a slash.
use Prim.Native.Char.{code}
use Prim.Native.String.{String, [], ◌∷◌, ◌++◌}
use mathlib.Core.List.{List}
use emarecloud.Prelude.{
  ℕ, ◌≤◌, ◌≡◌, refl, sym, ◌∙◌, inl, inr, Bool, true, ◌&&◌, ◌||◌, arith, nat_beq, nat_beq_iff,
  Bool-cases,
}
use text.Mathlib.TextLemmas.{nil-append, cons-append}
use emarecloud.Text.{codes}
use emarecloud.Text.Digits.{is_digit, is_digit_ascii, digit_value_bound, digit_value_ascii}
use emarecloud.Text.Split.{split_from, split_on, decimal}
use emarecloud.Firewall.Forms.{is_octet, is_mask, are_octets, is_address, is_ip}

pub octet_bound : (s : String) → is_octet (codes s) ≡ true → decimal s ≤ 255
unfolding is_octet decimal
octet_bound [] h = ground (arith, h)
octet_bound (a ∷ []) h = ground (arith, digit_value_bound (code a))
octet_bound (a ∷ b ∷ []) h = ground (arith, digit_value_bound (code a), digit_value_bound (code b))
octet_bound (a ∷ b ∷ c ∷ []) h = ground (
  arith,
  h,
  digit_value_ascii (code a),
  digit_value_ascii (code b),
  digit_value_ascii (code c),
  digit_value_bound (code b),
  digit_value_bound (code c),
)
octet_bound (a ∷ b ∷ c ∷ d ∷ s) h = ground (arith, h)

pub mask_bound : (s : String) → is_mask (codes s) ≡ true → decimal s ≤ 32
unfolding is_mask decimal
mask_bound [] h = ground (arith, h)
mask_bound (a ∷ []) h = ground (arith, digit_value_bound (code a))
mask_bound (a ∷ b ∷ []) h =
    ground
      (arith, h, digit_value_ascii (code a), digit_value_ascii (code b), digit_value_bound (code b))
mask_bound (a ∷ b ∷ c ∷ s) h = ground (arith, h)

-- Four numbers of a byte.
abbrev pub AreBytes : List String → Type 0
AreBytes (List.◌∷◌ a (List.◌∷◌ b (List.◌∷◌ c (List.◌∷◌ d List.[])))) =
    (decimal a ≤ 255) × (decimal b ≤ 255) × (decimal c ≤ 255) × (decimal d ≤ 255)
AreBytes parts = ⊥

-- Four numbers of a byte between dots, and up to 32 behind a slash where one is there.
abbrev pub IsAddress : List String → Type 0
IsAddress (List.◌∷◌ host List.[]) = AreBytes (split_on 46 host)
IsAddress (List.◌∷◌ host (List.◌∷◌ mask List.[])) =
    AreBytes (split_on 46 host) × (decimal mask ≤ 32)
IsAddress parts = ⊥

-- A digit, a dot or a slash.
unfoldable pub is_address_code : ℕ → Bool
is_address_code c = is_digit c || nat_beq c 46 || nat_beq c 47

unfoldable pub all_address : String → Bool
unfolding is_address_code
all_address [] = true
all_address (c ∷ s) = is_address_code (code c) && all_address s

abbrev all_texts : List String → Bool
all_texts List.[] = true
all_texts (List.◌∷◌ p ps) = all_address p && all_texts ps

are_octets_bound : (parts : List String) → are_octets parts ≡ true → AreBytes parts
unfolding are_octets
are_octets_bound List.[] h = cc
are_octets_bound (List.◌∷◌ a List.[]) h = cc
are_octets_bound (List.◌∷◌ a (List.◌∷◌ b List.[])) h = cc
are_octets_bound (List.◌∷◌ a (List.◌∷◌ b (List.◌∷◌ c List.[]))) h = cc
are_octets_bound (List.◌∷◌ a (List.◌∷◌ b (List.◌∷◌ c (List.◌∷◌ d List.[])))) h =
    let ha : is_octet (codes a) ≡ true = ground (arith, h) in
    let hb : is_octet (codes b) ≡ true = ground (arith, h) in
    let hc : is_octet (codes c) ≡ true = ground (arith, h) in
    let hd : is_octet (codes d) ≡ true = ground (arith, h) in
    (octet_bound a ha, octet_bound b hb, octet_bound c hc, octet_bound d hd)
are_octets_bound (List.◌∷◌ a (List.◌∷◌ b (List.◌∷◌ c (List.◌∷◌ d (List.◌∷◌ e ps))))) h = cc

pub is_address_bound : (parts : List String) → is_address parts ≡ true → IsAddress parts
unfolding is_address
is_address_bound List.[] h = cc
is_address_bound (List.◌∷◌ host List.[]) h = are_octets_bound (split_on 46 host) h
is_address_bound (List.◌∷◌ host (List.◌∷◌ mask List.[])) h =
    let ho : are_octets (split_on 46 host) ≡ true = ground (arith, h) in
    let hm : is_mask (codes mask) ≡ true = ground (arith, h) in
    (are_octets_bound (split_on 46 host) ho, mask_bound mask hm)
is_address_bound (List.◌∷◌ a (List.◌∷◌ b (List.◌∷◌ c ps))) h = cc

-- A text is of characters of addresses where its pieces are, and the character between them is one.
all_address-append : (p s : String) → all_address (p ++ s) ≡ (all_address p && all_address s)
unfolding all_address
all_address-append [] s = rw nil-append refl
all_address-append (c ∷ p) s = rw cons-append (ground (arith, all_address-append p s))

split_from-all_address :
    (n : ℕ) (p s : String)
    → is_address_code n ≡ true
    → all_texts (split_from n p s) ≡ true
    → (all_address p ≡ true) × (all_address s ≡ true)
unfolding split_from all_address
split_from-all_address n p [] k h = (ground (arith, h), refl)
split_from-all_address n p (c ∷ s) k h = elim (Bool-cases (nat_beq (code c) n)) [
  | inl q ↦
      let h2 : (all_address p && all_texts (split_from n [] s)) ≡ true = ground (arith, h, q) in
      let same : code c ≡ n = (nat_beq_iff (code c) n).0 q in
      let rest = (split_from-all_address n [] s k (ground (arith, h2))).1 in
      (ground (arith, h2), rw same (ground (arith, k, rest)))
  | inr q ↦
      let h2 : all_texts (split_from n (p ++ (c ∷ [])) s) ≡ true = ground (arith, h, q) in
      let (e, rest) = split_from-all_address n (p ++ (c ∷ [])) s k h2 in
      let e2 : (all_address p && all_address (c ∷ [])) ≡ true =
        sym (all_address-append p (c ∷ [])) ∙ e in
      (ground (arith, e2), ground (arith, e2, rest))
]

is_digit-is_address_code : (c : ℕ) → is_digit c ≡ true → is_address_code c ≡ true
unfolding is_address_code
is_digit-is_address_code c h = ground (arith, h)

octet_digits :
    (a b c : ℕ)
    → is_octet (List.◌∷◌ a (List.◌∷◌ b (List.◌∷◌ c List.[]))) ≡ true
    → (is_digit a ≡ true) × (is_digit b ≡ true) × (is_digit c ≡ true)
unfolding is_octet
octet_digits a b c h = (
  ground (arith, h, is_digit_ascii a),
  ground (arith, h, is_digit_ascii b),
  ground (arith, h, is_digit_ascii c),
)

octet-all_address : (s : String) → is_octet (codes s) ≡ true → all_address s ≡ true
unfolding is_octet all_address
octet-all_address [] h = refl
octet-all_address (a ∷ []) h = rw (is_digit-is_address_code (code a) h) refl
octet-all_address (a ∷ b ∷ []) h =
    let ha : is_digit (code a) ≡ true = ground (arith, h) in
    let hb : is_digit (code b) ≡ true = ground (arith, h) in
    rw (is_digit-is_address_code (code a) ha, is_digit-is_address_code (code b) hb) refl
octet-all_address (a ∷ b ∷ c ∷ []) h =
    let (ha, hb, hc) = octet_digits (code a) (code b) (code c) h in
    rw
      (
        is_digit-is_address_code (code a) ha,
        is_digit-is_address_code (code b) hb,
        is_digit-is_address_code (code c) hc,
      )
      refl
octet-all_address (a ∷ b ∷ c ∷ d ∷ s) h = cc

mask-all_address : (s : String) → is_mask (codes s) ≡ true → all_address s ≡ true
unfolding is_mask all_address is_address_code
mask-all_address [] h = refl
mask-all_address (a ∷ []) h = ground (arith, h)
mask-all_address (a ∷ b ∷ []) h =
    ground (arith, h, is_digit_ascii (code a), is_digit_ascii (code b))
mask-all_address (a ∷ b ∷ c ∷ s) h = ground (arith, h)

are_octets-all_texts : (parts : List String) → are_octets parts ≡ true → all_texts parts ≡ true
unfolding are_octets
are_octets-all_texts List.[] h = refl
are_octets-all_texts (List.◌∷◌ a List.[]) h = cc
are_octets-all_texts (List.◌∷◌ a (List.◌∷◌ b List.[])) h = cc
are_octets-all_texts (List.◌∷◌ a (List.◌∷◌ b (List.◌∷◌ c List.[]))) h = cc
are_octets-all_texts (List.◌∷◌ a (List.◌∷◌ b (List.◌∷◌ c (List.◌∷◌ d List.[])))) h =
    let ha : is_octet (codes a) ≡ true = ground (arith, h) in
    let hb : is_octet (codes b) ≡ true = ground (arith, h) in
    let hc : is_octet (codes c) ≡ true = ground (arith, h) in
    let hd : is_octet (codes d) ≡ true = ground (arith, h) in
    rw
      (
        octet-all_address a ha,
        octet-all_address b hb,
        octet-all_address c hc,
        octet-all_address d hd,
      )
      refl
are_octets-all_texts (List.◌∷◌ a (List.◌∷◌ b (List.◌∷◌ c (List.◌∷◌ d (List.◌∷◌ e ps))))) h = cc

host-all_address : (host : String) → are_octets (split_on 46 host) ≡ true → all_address host ≡ true
unfolding split_on is_address_code
host-all_address host h =
    (split_from-all_address 46 [] host (ground arith)
      (are_octets-all_texts (split_from 46 [] host) h)).1

is_address-all_texts : (parts : List String) → is_address parts ≡ true → all_texts parts ≡ true
unfolding is_address
is_address-all_texts List.[] h = cc
is_address-all_texts (List.◌∷◌ host List.[]) h = rw (host-all_address host h) refl
is_address-all_texts (List.◌∷◌ host (List.◌∷◌ mask List.[])) h =
    let ho : are_octets (split_on 46 host) ≡ true = ground (arith, h) in
    let hm : is_mask (codes mask) ≡ true = ground (arith, h) in
    rw (host-all_address host ho, mask-all_address mask hm) refl
is_address-all_texts (List.◌∷◌ a (List.◌∷◌ b (List.◌∷◌ c ps))) h = cc

-- Every character of an address is a digit, a dot or a slash.
pub is_ip-all_address : (s : String) → is_ip s ≡ true → all_address s ≡ true
unfolding is_ip split_on is_address_code
is_ip-all_address s h =
    (split_from-all_address 47 [] s (ground arith) (is_address-all_texts (split_from 47 [] s) h)).1
