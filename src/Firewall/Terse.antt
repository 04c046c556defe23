-- ===== src/Firewall/Terse.antt =====
-- The reader of what an Emare OS server prints (`_parse_emareos_terse`): lines of an index, flags and pairs `key=value`.
-- The expressions are recognisers that go from left to right over a line.
pub mod Values
use Prim.Native.Char.{Char, code}
use Prim.Native.String.{String, [], ◌∷◌, ◌++◌}
use mathlib.Core.List.{List}
use mathlib.Core.Option.{Option, none, some}
use text.Mathlib.Text.{starts_with}
use emarecloud.Prelude.{
  ◌≡◌, refl, ℕ, zero, suc, ◌+◌, Bool, true, false, not, ◌&&◌, ◌||◌, leb, nat_beq, if◌then◌else◌,
  string_eq,
}
use emarecloud.Dict
use emarecloud.Dict.{Dict}
use emarecloud.Text.{is_empty, is_space, lstrip, strip}
use emarecloud.Text.Split.{split_on, decimal}
use emarecloud.Text.Digits.{is_digit}
use emarecloud.Firewall.Quote.{is_word}

-- The value of an entry: an int under `_index`, else a text.
pub data Field : Type 0 where
  number : ℕ → Field
  word : String → Field

abbrev pub Entry : Type 0
Entry = Dict String Field

-- A text with how many characters it stands for.
abbrev pub grow : Char → Option (String × ℕ) → Option (String × ℕ)
grow c none = none
grow c (some (s, n)) = some (c ∷ s, n + 1)

-- `((?:[^"\\]|\\.)*)"` behind the opening quote: what stands before the closing one, its backslashes kept, and the length
-- with the closing quote.
unfoldable pub quoted_body : (escaped : Bool) → String → Option (String × ℕ)
quoted_body escaped [] = none
quoted_body true (c ∷ s) = grow c (quoted_body false s)
quoted_body false (c ∷ s) =
    let rest = quoted_body (nat_beq (code c) 92) s in
    if nat_beq (code c) 34 then some ([], 1) else grow c rest

-- `\S*`
unfoldable pub bare_value : String → String × ℕ
bare_value [] = ([], 0)
bare_value (c ∷ s) =
    let r = bare_value s in if is_space (code c) then ([], 0) else (c ∷ r.0, r.1 + 1)

abbrev pub or_bare : String → Option (String × ℕ) → String × ℕ
or_bare s none = bare_value s
or_bare s (some (v, n)) = (v, n + 1)

-- The value behind `=`, and its length: a quoted one where a closing quote is there.
unfoldable pub value_at : String → String × ℕ
unfolding quoted_body
value_at [] = ([], 0)
value_at (c ∷ s) = or_bare (c ∷ s) (if nat_beq (code c) 34 then quoted_body false s else none)

-- `[\w-]`
abbrev pub is_key : ℕ → Bool
is_key c = is_word c || nat_beq c 45

-- The state of the scan: a value of which so many characters and one more are left to skip, or the key under way.
pub data State : Type 0 where
  skipping : ℕ → State
  reading : String → State

abbrev pub skip : ℕ → State
skip zero = reading []
skip (suc n) = skipping n

-- A value begins behind a key and an equals sign.
abbrev pub begins_value : (key : String) → Char → Bool
begins_value key c = nat_beq (code c) 61 && not (is_empty key)

abbrev pub after : State → Char → (behind : String) → State
after (skipping n) c s = skip n
after (reading key) c s =
    if begins_value key c
    then skip (value_at s).1
    else if is_key (code c)
    then reading (key ++ (c ∷ []))
    else reading []

abbrev pub add_pair : State → Char → (behind : String) → Entry → Entry
add_pair (skipping n) c s rest = rest
add_pair (reading key) c s rest =
    if begins_value key c then List.◌∷◌ (key, word (value_at s).0) rest else rest

-- The pairs of a line, in order: `re.finditer(r'([\w-]+)=(?:"((?:[^"\\]|\\.)*)"|(\S*))', rest)`.
unfoldable pub scan : State → String → Entry
unfolding value_at
scan st [] = List.[]
scan st (c ∷ s) = let rest = scan (after st c s) s in add_pair st c s rest

-- The longest run of characters at the start, and what is behind it.
unfoldable pub split_run : (ℕ → Bool) → String → String × String
split_run p [] = ([], [])
split_run p (c ∷ s) = let r = split_run p s in if p (code c) then (c ∷ r.0, r.1) else ([], c ∷ s)

abbrev pub starts_space : String → Bool
starts_space [] = false
starts_space (c ∷ s) = is_space (code c)

-- A run that is not empty, then white space, then the rest.
abbrev pub run_then : String × String → Option (String × String)
run_then (run, rest) =
    if not (is_empty run) && starts_space rest then some (run, lstrip rest) else none

abbrev pub is_upper : ℕ → Bool
is_upper c = leb 65 c && leb c 90

-- `entry[key] = value` for each pair.
unfoldable pub set_all : Entry → Entry → Entry
set_all List.[] e = e
set_all (List.◌∷◌ (k, v) pairs) e = set_all pairs (Dict.set k v e)

unfoldable pub entry_of : (index flags rest : String) → Entry
unfolding scan set_all
entry_of index flags rest =
    set_all (scan (reading []) rest)
      (List.◌∷◌ ("_index", number (decimal index)) (List.◌∷◌ ("_flags", word flags) List.[]))

abbrev pub with_flags : (index rest : String) → Option (String × String) → Entry
with_flags index rest none = entry_of index [] rest
with_flags index rest (some (flags, behind)) = entry_of index flags behind

abbrev pub indexed : Option (String × String) → Option Entry
indexed none = none
indexed (some (index, rest)) = some (with_flags index rest (run_then (split_run is_upper rest)))

-- The entry of a line that is stripped; none for an empty line, a heading or one without an index.
unfoldable pub line_entry : String → Option Entry
unfolding entry_of split_run is_digit
line_entry line =
    if is_empty line
      || starts_with line "Columns:"
      || starts_with line "#"
      || starts_with line "Flags:"
    then none
    else indexed (run_then (split_run is_digit line))

abbrev pub push_entry : Option Entry → List Entry → List Entry
push_entry none rest = rest
push_entry (some e) rest = List.◌∷◌ e rest

unfoldable pub entries : List String → List Entry
unfolding line_entry
entries List.[] = List.[]
entries (List.◌∷◌ l ls) = push_entry (line_entry (strip l)) (entries ls)

-- `_parse_emareos_terse`
unfoldable pub parse_emareos_terse : String → List Entry
unfolding entries
parse_emareos_terse output = entries (split_on 10 (strip output))

line-sample :
    line_entry "0 X a=\"b c\""
    ≡ some (
        List.◌∷◌
          ("_index", number 0)
          (List.◌∷◌ ("_flags", word "X") (List.◌∷◌ ("a", word "b c") List.[])))
unfolding line_entry is_empty is_space lstrip Dict.set decimal emarecloud.Text.Digits.digit_value
line-sample = refl
