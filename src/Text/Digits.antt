-- ===== src/Text/Digits.antt =====
-- The decimal digits of Unicode, which `\d` takes and Python's `int` reads.
use emarecloud.Prelude.{
  ℕ, ◌+◌, ◌-◌, ◌≤◌, ◌≡◌, refl, Bool, true, ◌&&◌, ◌||◌, Option, none, some, List, [], ◌∷◌, arith,
  is_some, leb, if◌then◌else◌,
}

-- The zeros of the digits beyond ASCII (Unicode 14). Nine digits follow each.
abbrev zeros : List ℕ
zeros =
    1632 ∷ 1776 ∷ 1984 ∷ 2406 ∷ 2534 ∷ 2662 ∷ 2790 ∷ 2918 ∷ 3046 ∷ 3174 ∷ 3302 ∷ 3430 ∷ 3558 ∷ 3664
    ∷ 3792 ∷ 3872 ∷ 4160 ∷ 4240 ∷ 6112 ∷ 6160 ∷ 6470 ∷ 6608 ∷ 6784 ∷ 6800 ∷ 6992 ∷ 7088 ∷ 7232
    ∷ 7248 ∷ 42528 ∷ 43216 ∷ 43264 ∷ 43472 ∷ 43504 ∷ 43600 ∷ 44016 ∷ 65296 ∷ 66720 ∷ 68912 ∷ 69734
    ∷ 69872 ∷ 69942 ∷ 70096 ∷ 70384 ∷ 70736 ∷ 70864 ∷ 71248 ∷ 71360 ∷ 71472 ∷ 71904 ∷ 72016 ∷ 72784
    ∷ 73040 ∷ 73120 ∷ 92768 ∷ 92864 ∷ 93008 ∷ 120782 ∷ 120792 ∷ 120802 ∷ 120812 ∷ 120822 ∷ 123200
    ∷ 123632 ∷ 125264 ∷ 130032 ∷ []

-- The value of a digit, where the zero before it is one of a list.
unfoldable pub value_from : List ℕ → ℕ → Option ℕ
value_from [] c = none
value_from (z ∷ zs) c = if leb z c && leb c (z + 9) then some (c - z) else value_from zs c

-- The value of a digit that is none of ASCII.
unfoldable pub wide_value : ℕ → Option ℕ
unfolding value_from
wide_value c = value_from zeros c

unfoldable pub is_digit : ℕ → Bool
unfolding wide_value
is_digit c = (leb 48 c && leb c 57) || is_some (wide_value c)

abbrev or_zero : Option ℕ → ℕ
or_zero none = 0
or_zero (some n) = n

unfoldable pub digit_value : ℕ → ℕ
unfolding wide_value
digit_value c = if leb 48 c && leb c 57 then c - 48 else or_zero (wide_value c)

value_from_bound : (zs : List ℕ) (c : ℕ) → or_zero (value_from zs c) ≤ 9
unfolding value_from
value_from_bound [] c = omega arith
value_from_bound (z ∷ zs) c = ground (arith, value_from_bound zs c)

pub digit_value_bound : (c : ℕ) → digit_value c ≤ 9
unfolding digit_value wide_value
digit_value_bound c = ground (arith, value_from_bound zeros c)

pub digit_value_ascii : (c : ℕ) → (leb 48 c && leb c 57) ≡ true → digit_value c ≡ c - 48
unfolding digit_value
digit_value_ascii c h = ground (arith, h)

pub is_digit_ascii : (c : ℕ) → (leb 48 c && leb c 57) ≡ true → is_digit c ≡ true
unfolding is_digit
is_digit_ascii c h = rw h refl
