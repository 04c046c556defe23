-- ===== src/Cache/Memory.antt =====
-- `DictCache` (emarefirewall/cache.py). A time is a number of nanoseconds; an operation reads the clock
-- once and takes that time as an argument.
use emarecloud.Prelude.{
  ℕ, zero, suc, ◌+◌, ◌*◌, String, not, Option, none, some, [], ltb, if◌then◌else◌, nat_eq,
  string_eq, pair_eq,
}
use text.Mathlib.Text.{starts_with}
use emarecloud.Dict
use emarecloud.Dict.{Dict}
use emarecloud.Lists.{filter}
use emarecloud.Integers.{ℤ, pos, negsuc}

abbrev pub second : ℕ
second = 1000000000

-- A cached value: an integer, a text, or another JSON value by its text.
pub data Value : Type 0 where
  number : ℤ → Value
  string : String → Value
  other : (json : String) → Value

pub record DictCache : Type 0 where
  pub entries : Dict String (ℕ × Value)
  pub default_ttl : ℕ

-- `ttl if ttl is not None else self._default_ttl`
abbrev pub ttl_or : (default_ttl : ℕ) → Option ℕ → ℕ
ttl_or default_ttl none = default_ttl
ttl_or default_ttl (some ttl) = ttl

abbrev pub answer :
    (key : String) (now : ℕ) → Option (ℕ × Value) → DictCache → Option Value × DictCache
answer key now none c = (none, c)
answer key now (some (expire, value)) c =
    if ltb expire now
    then (none, record c { entries = Dict.delete key c.entries })
    else (some value, c)

unfoldable pub get : (key : String) (now : ℕ) → DictCache → Option Value × DictCache
get key now c = answer key now (Dict.get key c.entries) c

unfoldable pub set : (key : String) → Value → Option ℕ → (now : ℕ) → DictCache → DictCache
set key value ttl now c =
    let expire = now + ttl_or c.default_ttl ttl * second in
    record c { entries = Dict.set key (expire, value) c.entries }

unfoldable pub delete : (key : String) → DictCache → DictCache
delete key c = record c { entries = Dict.delete key c.entries }

unfoldable pub delete_prefix : (start : String) → DictCache → DictCache
delete_prefix start c = record c { entries = filter (λ e. not (starts_with e.0 start)) c.entries }

unfoldable pub clear : DictCache → DictCache
clear c = record c { entries = [] }

abbrev pub add_one : ℤ → ℤ
add_one (pos n) = pos (n + 1)
add_one (negsuc zero) = pos 0
add_one (negsuc (suc n)) = negsuc n

-- A count that starts, with its own time of expiry.
abbrev pub first_count : (key : String) → Option ℕ → (now : ℕ) → DictCache → Option ℤ × DictCache
first_count key ttl now c =
    let expire = now + ttl_or c.default_ttl ttl * second in
    (some (pos 1), record c { entries = Dict.set key (expire, number (pos 1)) c.entries })

-- One more than a value, which keeps its time of expiry; a sum with no number raises, which is `none`.
abbrev pub next_count : (key : String) (expire : ℕ) → Value → DictCache → Option ℤ × DictCache
next_count key expire (number n) c =
    (some (add_one n), record c { entries = Dict.set key (expire, number (add_one n)) c.entries })
next_count key expire (string s) c = (none, c)
next_count key expire (other s) c = (none, c)

-- `incr` behind the look-up.
abbrev pub count_up :
    (key : String) → Option ℕ → (now : ℕ) → Option (ℕ × Value) → DictCache → Option ℤ × DictCache
count_up key ttl now none c = first_count key ttl now c
count_up key ttl now (some (expire, value)) c =
    if ltb expire now then first_count key ttl now c else next_count key expire value c

unfoldable pub incr : (key : String) → Option ℕ → (now : ℕ) → DictCache → Option ℤ × DictCache
incr key ttl now c = count_up key ttl now (Dict.get key c.entries) c
