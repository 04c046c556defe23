-- ===== src/Text/Decimal.antt =====
-- How Python writes an int.
use Prim.Native.String.{String, [], ◌∷◌, ◌++◌}
use emarecloud.Prelude.{ℕ, zero, suc, ◌+◌, ◌/◌, ◌%◌, ◌≡◌, refl, ltb, if◌then◌else◌}
use emarecloud.Integers.{ℤ, pos, negsuc}

-- The text of the character at a place.
abbrev char_at : ℕ → String → String
char_at n [] = []
char_at zero (c ∷ s) = c ∷ []
char_at (suc n) (c ∷ s) = char_at n s

-- A number has fewer digits than the fuel `n + 1` that `nat_text` gives.
nat_text_from : (fuel : ℕ) → ℕ → String
nat_text_from zero n = []
nat_text_from (suc fuel) n =
    let front = nat_text_from fuel (n / 10) in
    let last = char_at (n % 10) "0123456789" in if ltb n 10 then last else front ++ last

unfoldable pub nat_text : ℕ → String
unfolding nat_text_from
nat_text n = nat_text_from (n + 1) n

-- `str(n)`
unfoldable pub int_text : ℤ → String
unfolding nat_text
int_text (pos n) = nat_text n
int_text (negsuc n) = "-" ++ nat_text (n + 1)

int_text-sample : int_text (negsuc 1204) ≡ "-1205"
unfolding int_text
int_text-sample = refl
