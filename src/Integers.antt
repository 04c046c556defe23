-- ===== src/Integers.antt =====
-- Python's int, as far as it is read from texts (`int(s)`) and compared. Digits are those of Unicode.
use emarecloud.Prelude.{
  ℕ, zero, suc, ◌+◌, ◌*◌, String, ◌≡◌, ◌↔◌, Bool, true, false, ◌&&◌, Option, none, some, List, [],
  ◌∷◌, arith, nat_beq, if◌then◌else◌, Eq, nat_eq, string_eq, pair_eq,
}
use mathlib.Core.Option
use emarecloud.Text.{codes, strip}
use emarecloud.Text.Digits.{is_digit, digit_value}

pub data ℤ : Type 0 where
  pos : ℕ → ℤ
  negsuc : ℕ → ℤ

abbrev pub int_beq : ℤ → ℤ → Bool
int_beq (pos a) (pos b) = nat_beq a b
int_beq (pos a) (negsuc b) = false
int_beq (negsuc a) (pos b) = false
int_beq (negsuc a) (negsuc b) = nat_beq a b

pub int_beq_iff : (a b : ℤ) → (int_beq a b ≡ true) ↔ (a ≡ b)
int_beq_iff (pos a) (pos b) = ground arith
int_beq_iff (pos a) (negsuc b) = ground arith
int_beq_iff (negsuc a) (pos b) = ground arith
int_beq_iff (negsuc a) (negsuc b) = ground arith

instance abbrev pub int_eq : Eq ℤ
int_eq = record { same_iff = int_beq_iff; same = int_beq }

-- The number that is read up to a place, with whether a digit stands before the place.
abbrev pub step : ℕ → ℕ × Bool → Option (ℕ × Bool)
step c (acc, after_digit) =
    if is_digit c
    then some (acc * 10 + digit_value c, true)
    else if nat_beq c 95 && after_digit
    then some (acc, false)
    else none

-- Digits, between which single underscores may stand.
abbrev pub digits : Option (ℕ × Bool) → List ℕ → Option ℕ
digits none cs = none
digits (some (acc, true)) [] = some acc
digits (some (acc, false)) [] = none
digits (some s) (c ∷ cs) = digits (step c s) cs

abbrev pub negate : ℕ → ℤ
negate zero = pos 0
negate (suc n) = negsuc n

-- `int(s)` on the stripped text; `none` is a `ValueError`.
abbrev pub signed : List ℕ → Option ℤ
signed [] = none
signed (c ∷ cs) =
    if nat_beq c 45
    then Option.map negate (digits (some (0, false)) cs)
    else if nat_beq c 43
    then Option.map pos (digits (some (0, false)) cs)
    else Option.map pos (digits (some (0, false)) (c ∷ cs))

unfoldable pub parse_int : String → Option ℤ
parse_int s = signed (codes (strip s))
