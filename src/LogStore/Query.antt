-- ===== src/LogStore/Query.antt =====
-- Reading the log (`query`, `export`, `get_l7_summary`, emarefirewall/store.py).
use emarecloud.Prelude.{
  ℕ, ◌+◌, ◌-◌, ◌≤◌, String, ◌≡◌, Bool, true, not, ◌&&◌, ◌||◌, Option, none, some, List, [], ◌∷◌,
  ◌++◌, reverse, arith, leb, if◌then◌else◌, is_some, ◌==◌, nat_eq, string_eq, pair_eq,
}
use Prim.Native.String.{compare}
use text.Mathlib.Text.{starts_with, find?, is_lt}
use emarecloud.Dict
use emarecloud.Dict.{Dict}
use emarecloud.Lists.{
  All, filter-All, All-drop, All-take, length-take, length-filter-reverse, drop-drop,
  take-append-take, filter, length, take, drop, last,
}
use emarecloud.Text.{is_empty, lower, upper}
use emarecloud.LogEntry.{Value, Entry, number}
use emarecloud.LogStore.Stats.{is_l7}

-- The conditions of `query`: an empty text, or a zero, is no condition.
pub record Filters : Type 0 where
  pub level : String
  pub category : String
  pub ip : String
  pub method : String
  pub path_contains : String
  pub since_id : ℕ
  pub since_ts : String
  pub category_prefix : String

-- `part in whole`
abbrev contains_text : (whole part : String) → Bool
contains_text whole part = is_some (find? whole part)

unfoldable pub passes : Filters → Entry → Bool
passes f e =
    (f.since_id == 0 || not (leb e.id f.since_id))
    && (is_empty f.since_ts || not (is_lt (compare e.ts f.since_ts)))
    && (is_empty f.level || upper e.level == upper f.level)
    && (is_empty f.category || upper e.category == upper f.category)
    && (is_empty f.category_prefix || starts_with (upper e.category) (upper f.category_prefix))
    && (is_empty f.ip || e.ip == f.ip)
    && (is_empty f.method || upper e.method == upper f.method)
    && (is_empty f.path_contains || contains_text (lower e.path) (lower f.path_contains))

pub record Page : Type 0 where
  pub entries : List Entry
  pub total : ℕ

unfoldable pub query : (limit offset : ℕ) → Filters → List Entry → Page
query limit offset f entries =
    let results = filter (passes f) (reverse entries) in
    record { entries = take limit (drop offset results); total = length results }

-- The loop of `export`, with the entries that may still be taken after the next. The limit is tested
-- after an entry is taken, so a limit of zero takes one.
unfoldable pub export_from : (since_ts category_prefix : String) → ℕ → List Entry → List Entry
export_from since_ts category_prefix more [] = []
export_from since_ts category_prefix more (e ∷ es) =
    let skip =
      (not (is_empty since_ts) && is_lt (compare e.ts since_ts))
      || (not (is_empty category_prefix) && not (starts_with e.category category_prefix)) in
    let rest = export_from since_ts category_prefix (if skip then more else more - 1) es in
    if skip then rest else if more == 0 then e ∷ [] else e ∷ rest

-- The entries that `export` writes as JSON or CSV.
unfoldable pub export : (limit : ℕ) (category_prefix since_ts : String) → List Entry → List Entry
unfolding export_from
export limit category_prefix since_ts entries =
    export_from since_ts category_prefix (limit - 1) (reverse entries)

-- `extra.get('count', 1)`, where the count is a number.
abbrev count_of : Option Value → ℕ
count_of (some (number n)) = n
count_of v = 1

pub record Summary : Type 0 where
  pub total_events : ℕ
  pub total_blocks : ℕ
  pub by_type : Dict String ℕ
  pub last_events : List Entry

abbrev or_zero : Option ℕ → ℕ
or_zero none = 0
or_zero (some m) = m

abbrev tally_l7 : List Entry → (total : ℕ) → Dict String ℕ → ℕ × Dict String ℕ
tally_l7 [] total by_type = (total, by_type)
tally_l7 (e ∷ es) total by_type =
    let n = count_of (Dict.get "count" e.extra.others) in
    let old = or_zero (Dict.get e.category by_type) in
    tally_l7 es (total + n) (Dict.set e.category (old + n) by_type)

unfoldable pub get_l7_summary : List Entry → Summary
get_l7_summary entries =
    let l7 = filter (λ e. is_l7 e.category) entries in
    let (total, by_type) = tally_l7 l7 0 [] in
    record {
      total_events = length l7;
      total_blocks = total;
      by_type = by_type;
      last_events = reverse (last 20 l7);
    }

-- A query counts the entries of the log that pass its filter, a page holds at most the limit of
-- them and only such entries, and two adjacent pages make one.
pub query_pages :
    (a b offset : ℕ) (f : Filters) (entries : List Entry)
    → let p = query a offset f entries in
      let q = query b (offset + a) f entries in
      (p.total ≡ length (filter (passes f) entries))
      × (length p.entries ≤ a)
      × All (λ e. passes f e ≡ true) p.entries
      × (p.entries ++ q.entries ≡ (query (a + b) offset f entries).entries)
unfolding query
query_pages a b offset f entries =
    let results = filter (passes f) (reverse entries) in
    (
      length-filter-reverse (passes f) entries,
      omega (arith, length-take a (drop offset results)),
      All-take (λ e. passes f e ≡ true) a (drop offset results)
          (All-drop (λ e. passes f e ≡ true) offset results
            (filter-All (passes f) (reverse entries))),
      rw (drop-drop offset a results) (take-append-take a b (drop offset results)),
    )
