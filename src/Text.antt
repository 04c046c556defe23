-- ===== src/Text.antt =====
-- The operations of Python's `str` that the components use, on native texts. Case conversion is that of
-- ASCII.
pub mod Split
pub mod Digits
pub mod Decimal
use Prim.Native.Char.{Char, code}
use Prim.Native.String.{String, [], ◌∷◌, ◌++◌}
use mathlib.Core.List.{List}
use emarecloud.Prelude.{
  ℕ, zero, suc, ◌≡◌, refl, Bool, true, false, not, ◌&&◌, ◌||◌, leb, nat_beq, if◌then◌else◌,
}

-- The code points of a text.
abbrev pub codes : String → List ℕ
codes [] = List.[]
codes (c ∷ s) = List.◌∷◌ (code c) (codes s)

unfoldable pub is_empty : String → Bool
is_empty [] = true
is_empty (c ∷ s) = false

-- White space beyond ASCII.
unfoldable pub is_wide_space : ℕ → Bool
is_wide_space c =
    nat_beq c 133
    || nat_beq c 160
    || nat_beq c 5760
    || (leb 8192 c && leb c 8202)
    || nat_beq c 8232
    || nat_beq c 8233
    || nat_beq c 8239
    || nat_beq c 8287
    || nat_beq c 12288

-- `c.isspace()`, and `\s` of a pattern.
unfoldable pub is_space : ℕ → Bool
unfolding is_wide_space
is_space c = nat_beq c 32 || (leb 9 c && leb c 13) || (leb 28 c && leb c 31) || is_wide_space c

unfoldable pub lstrip : String → String
unfolding is_space
lstrip [] = []
lstrip (c ∷ s) = let rest = lstrip s in if is_space (code c) then rest else c ∷ s

unfoldable pub rstrip : String → String
unfolding is_space is_empty
rstrip [] = []
rstrip (c ∷ s) = let rest = rstrip s in if is_empty rest && is_space (code c) then [] else c ∷ rest

-- `s.strip()`
unfoldable pub strip : String → String
unfolding lstrip rstrip
strip s = rstrip (lstrip s)

-- `s[:n]`
unfoldable pub prefix : ℕ → String → String
prefix zero s = []
prefix (suc n) [] = []
prefix (suc n) (c ∷ s) = c ∷ prefix n s

-- `s[n:]`
unfoldable pub suffix : ℕ → String → String
suffix zero s = s
suffix (suc n) [] = []
suffix (suc n) (c ∷ s) = suffix n s

-- `s.replace(c, new)` for one character, by its code point.
abbrev pub replace_code : ℕ → (new : String) → String → String
replace_code n new [] = []
replace_code n new (c ∷ s) =
    let rest = replace_code n new s in if nat_beq (code c) n then new ++ rest else c ∷ rest

-- The loop of `s.split()`: the word under way, and the words that follow.
split_from : String → String → List String
unfolding is_space is_empty
split_from word [] = if is_empty word then List.[] else List.◌∷◌ word List.[]
split_from word (c ∷ s) =
    let space = is_space (code c) in
    let rest = split_from (if space then [] else word ++ (c ∷ [])) s in
    if space && not (is_empty word) then List.◌∷◌ word rest else rest

-- `s.split()`, which drops empty words.
unfoldable pub words : String → List String
unfolding split_from
words = split_from []

abbrev uppercase : String
uppercase = "ABCDEFGHIJKLMNOPQRSTUVWXYZ"

abbrev lowercase : String
lowercase = "abcdefghijklmnopqrstuvwxyz"

-- The character of the second alphabet that stands where `c` stands in the first, or `c` itself.
translate : String → String → Char → Char
translate [] to c = c
translate (f ∷ from) [] c = c
translate (f ∷ from) (t ∷ to) c =
    let rest = translate from to c in if nat_beq (code f) (code c) then t else rest

-- `s.lower()`
unfoldable pub lower : String → String
unfolding translate
lower [] = []
lower (c ∷ s) = translate uppercase lowercase c ∷ lower s

-- `s.upper()`
unfoldable pub upper : String → String
unfolding translate
upper [] = []
upper (c ∷ s) = translate lowercase uppercase c ∷ upper s

lower-sample : (lower "Ab-9Z" ≡ "ab-9z") × (upper "Warning" ≡ "WARNING")
unfolding lower upper
lower-sample = (refl, refl)

strip-sample : strip "  ab c " ≡ "ab c"
unfolding strip
strip-sample = refl

words-sample : words " */5 1  * " ≡ List.◌∷◌ "*/5" (List.◌∷◌ "1" (List.◌∷◌ "*" List.[]))
unfolding words
words-sample = refl
