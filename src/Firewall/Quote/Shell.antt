-- ===== src/Firewall/Quote/Shell.antt =====
-- How a POSIX shell reads one word, and that it reads a quoted value back as the value, alone.
use Prim.Native.Char.{Char, code}
use Prim.Native.String.{String, [], ◌∷◌, ◌++◌}
use mathlib.Core.Option.{Option, none, some}
use emarecloud.Prelude.{
  ℕ, ◌≡◌, refl, sym, ap, ◌∙◌, inl, inr, true, false, ◌||◌, arith, nat_beq, nat_beq_iff,
  if◌then◌else◌, Bool-cases,
}
use text.Mathlib.TextLemmas.{nil-append, cons-append, append_assoc, append-nil}
use text.Mathlib.TextEquality.{Char-path}
use emarecloud.Text.{is_empty, replace_code}
use emarecloud.Firewall.Quote.{is_safe, all_safe, sq}

-- Outside quotes, within single ones, within double ones.
pub data Mode : Type 0 where
  bare single double : Mode

-- What a character does: it ends the word, it has a meaning of its own that a plain argument must not
-- have, it changes the mode, or it belongs to the word.
pub data Step : Type 0 where
  stop active : Step
  move emit : Mode → Step

abbrev pub step : Mode → ℕ → Step
step bare c =
    if nat_beq c 32
    then stop
    else if nat_beq c 39
    then move single
    else if nat_beq c 34
    then move double
    else if is_safe c
    then emit bare
    else active
step single c = if nat_beq c 39 then move bare else emit single
step double c =
    if nat_beq c 34
    then move bare
    else if nat_beq c 36 || nat_beq c 92 || nat_beq c 96
    then active
    else emit double

abbrev pub mode_of : Step → Mode
mode_of (move m) = m
mode_of (emit m) = m
mode_of s = bare

-- A character in front of a word that is read.
abbrev pub push : Char → Option (String × String) → Option (String × String)
push c none = none
push c (some (word, rest)) = some (c ∷ word, rest)

abbrev pub finish : Step → Char → String → Option (String × String) → Option (String × String)
finish stop c s rest = some ([], c ∷ s)
finish active c s rest = none
finish (move m) c s rest = rest
finish (emit m) c s rest = push c rest

abbrev pub at_end : Mode → Option (String × String)
at_end bare = some ([], [])
at_end m = none

-- The word at the start of a text, its quotes taken away, and the text behind it.
unfoldable pub read_word : Mode → String → Option (String × String)
read_word m [] = at_end m
read_word m (c ∷ s) = let st = step m (code c) in finish st c s (read_word (mode_of st) s)

-- A text before which a word ends: it is empty, or starts with a space.
abbrev pub EndsWord : String → Type 0
EndsWord w = read_word bare w ≡ some ([], w)

step-is_safe : (c : ℕ) → is_safe c ≡ true → step bare c ≡ emit bare
unfolding is_safe
step-is_safe c h = ground arith

read_word-all_safe :
    (v w : String) → EndsWord w → all_safe v ≡ true → read_word bare (v ++ w) ≡ some (v, w)
unfolding read_word all_safe
read_word-all_safe [] w e h = rw nil-append e
read_word-all_safe (c ∷ v) w e h =
    let here : is_safe (code c) ≡ true = ground (arith, h) in
    let rest : all_safe v ≡ true = ground (arith, h) in
    rw (cons-append, step-is_safe (code c) here, read_word-all_safe v w e rest) refl

-- A word that is read behind another text.
abbrev pub prepend : String → Option (String × String) → Option (String × String)
prepend v none = none
prepend v (some (word, rest)) = some (v ++ word, rest)

prepend-nil : (r : Option (String × String)) → prepend [] r ≡ r
prepend-nil none = refl
prepend-nil (some (word, rest)) = rw nil-append refl

push-prepend :
    (c : Char) (v : String) (r : Option (String × String))
    → push c (prepend v r) ≡ prepend (c ∷ v) r
push-prepend c v none = refl
push-prepend c v (some (word, rest)) = rw cons-append refl

abbrev quote_char : Char
quote_char = "'"

abbrev hidden_quote : String
hidden_quote = "'\"'\"'"

read_word-hidden_quote :
    (w : String) → read_word single (hidden_quote ++ w) ≡ push quote_char (read_word single w)
unfolding read_word
read_word-hidden_quote w =
    rw (cons-append, cons-append, cons-append, cons-append, cons-append, nil-append) refl

step-single : (c : ℕ) → nat_beq c 39 ≡ false → step single c ≡ emit single
step-single c h = ground (arith, h)

-- Within single quotes the escaped value is read as the value.
read_word-replace_code :
    (v w : String)
    → read_word single (replace_code 39 hidden_quote v ++ w) ≡ prepend v (read_word single w)
unfolding read_word
read_word-replace_code [] w = rw nil-append (sym (prepend-nil (read_word single w)))
read_word-replace_code (c ∷ v) w = elim (Bool-cases (nat_beq (code c) 39)) [
  | inl q ↦
      let same : c ≡ quote_char = Char-path c quote_char ((nat_beq_iff (code c) 39).0 q) in
      let rest = replace_code 39 hidden_quote v ++ w in
      rw q (
        ap (read_word single) (append_assoc hidden_quote (replace_code 39 hidden_quote v) w)
        ∙ read_word-hidden_quote rest
        ∙ ap (push quote_char) (read_word-replace_code v w)
        ∙ push-prepend quote_char v (read_word single w)
        ∙ ap (λ x. prepend (x ∷ v) (read_word single w)) (sym same))
  | inr q ↦ rw q (
      ap (read_word single) (cons-append c (replace_code 39 hidden_quote v) w)
      ∙ rw (q, read_word-replace_code v w) (push-prepend c v (read_word single w)))
]

open_quote : (w : String) → read_word bare ("'" ++ w) ≡ read_word single w
unfolding read_word
open_quote w = rw (cons-append, nil-append) refl

close_quote : (w : String) → read_word single ("'" ++ w) ≡ read_word bare w
unfolding read_word
close_quote w = rw (cons-append, nil-append) refl

-- A shell reads a quoted value as one word, which is the value, where the word ends behind it.
pub read_word-sq : (v w : String) → EndsWord w → read_word bare (sq v ++ w) ≡ some (v, w)
unfolding sq is_empty read_word
read_word-sq [] w e = rw (cons-append, cons-append, nil-append) e
read_word-sq (c ∷ v) w e = elim (Bool-cases (all_safe (c ∷ v))) [
  | inl q ↦ rw q (read_word-all_safe (c ∷ v) w e q)
  | inr q ↦
      let hidden = replace_code 39 hidden_quote (c ∷ v) in
      rw q (
        ap (read_word bare)
          (append_assoc "'" (hidden ++ "'") w ∙ ap (λ x. "'" ++ x) (append_assoc hidden "'" w))
        ∙ open_quote (hidden ++ ("'" ++ w))
        ∙ read_word-replace_code (c ∷ v) ("'" ++ w)
        ∙ ap (prepend (c ∷ v)) (close_quote w ∙ e)
        ∙ ap (λ x. some (x, w)) (append-nil (c ∷ v)))
]
