-- ===== src/Text/Split.antt =====
-- Taking texts apart: `str.split` at a character, runs of digits, and `in`.
use Prim.Native.Char.{code}
use Prim.Native.String.{String, [], ◌∷◌, ◌++◌}
use mathlib.Core.List.{List}
use text.Mathlib.Text.{find?}
use emarecloud.Prelude.{ℕ, ◌+◌, ◌*◌, Bool, is_some, nat_beq, if◌then◌else◌}
use emarecloud.Text.{is_empty}
use emarecloud.Text.Digits.{is_digit, digit_value}

-- The pieces of a text at a character, the first of which has begun.
unfoldable pub split_from : ℕ → (piece : String) → String → List String
split_from n piece [] = List.◌∷◌ piece List.[]
split_from n piece (c ∷ s) =
    let cut = nat_beq (code c) n in
    let rest = split_from n (if cut then [] else piece ++ (c ∷ [])) s in
    if cut then List.◌∷◌ piece rest else rest

-- `s.split(c)`, by the code point of `c`.
unfoldable pub split_on : ℕ → String → List String
unfolding split_from
split_on n s = split_from n [] s

-- The runs of digits of a text, the first of which has begun.
unfoldable pub runs_from : (run : String) → String → List String
unfolding is_digit
runs_from run [] = if is_empty run then List.[] else List.◌∷◌ run List.[]
runs_from run (c ∷ s) =
    let digit = is_digit (code c) in
    let rest = runs_from (if digit then run ++ (c ∷ []) else []) s in
    if digit then rest else if is_empty run then rest else List.◌∷◌ run rest

-- `re.findall(r'\d+', s)`
unfoldable pub digit_runs : String → List String
unfolding runs_from
digit_runs s = runs_from [] s

-- The number behind `acc` that the digits of a text write.
unfoldable pub decimal_from : (acc : ℕ) → String → ℕ
decimal_from acc [] = acc
decimal_from acc (c ∷ s) = decimal_from (acc * 10 + digit_value (code c)) s

-- `int(s)` of a run of digits.
unfoldable pub decimal : String → ℕ
unfolding decimal_from
decimal s = decimal_from 0 s

-- `t in s`
abbrev pub occurs : (t s : String) → Bool
occurs t s = is_some (find? s t)

-- `sep.join(parts)`
abbrev pub join : (sep : String) → List String → String
join sep List.[] = []
join sep (List.◌∷◌ p List.[]) = p
join sep (List.◌∷◌ p (List.◌∷◌ q ps)) = p ++ (sep ++ join sep (List.◌∷◌ q ps))
