-- ===== src/LogStore/Stats.antt =====
-- The statistics of the log (`_update_stats`, `get_stats`, emarefirewall/store.py). The counts by
-- status are kept under the status itself, of which the source takes the decimal text.
pub mod Laws
use emarecloud.Prelude.{
  ℕ, zero, suc, ◌+◌, ◌-◌, ◌*◌, ◌/◌, ◌%◌, ◌≤◌, ◌<◌, min, max, String, ◌≡◌, refl, sym, ap, ◌∙◌, ◌≢◌,
  ◌↔◌, ◌⊎◌, inl, inr, Bool, true, false, not, ◌&&◌, ◌||◌, Option, none, some, List, [], ◌∷◌, ◌++◌,
  map, reverse, arith, eq_iff, ltb, leb, nat_beq, if◌then◌else◌, is_some, nat_beq_iff, ltb→lt,
  leb→le, Bool-cases, Option-cases, Eq, ◌==◌, nat_eq, string_eq, pair_eq, pair_beq,
}
use text.Mathlib.Text.{starts_with}
use emarecloud.Dict
use emarecloud.Dict.{Dict}
use emarecloud.Lists.{take, sort, descending}
use emarecloud.Text.{prefix, suffix, upper}
use emarecloud.LogEntry.{Entry}

pub record Stats : Type 0 where
  pub total_requests : ℕ
  pub total_errors : ℕ
  pub total_blocked : ℕ
  pub total_l7_blocks : ℕ
  pub by_method : Dict String ℕ
  pub by_status : Dict ℕ ℕ
  pub by_ip : Dict String ℕ
  pub by_path : Dict String ℕ
  pub by_category : Dict String ℕ
  pub hourly_requests : Dict String ℕ
  pub severity_counts : Dict String ℕ
  pub l7_by_type : Dict String ℕ

abbrev pub no_severities : Dict String ℕ
no_severities = ("INFO", 0) ∷ ("WARNING", 0) ∷ ("ERROR", 0) ∷ ("CRITICAL", 0) ∷ []

abbrev pub no_stats : Stats
no_stats = record {
  total_requests = 0;
  total_errors = 0;
  total_blocked = 0;
  total_l7_blocks = 0;
  by_method = [];
  by_status = [];
  by_ip = [];
  by_path = [];
  by_category = [];
  hourly_requests = [];
  severity_counts = no_severities;
  l7_by_type = [];
}

-- `d[k] = d.get(k, 0) + 1`
unfoldable pub bump {ℓ} : {K : Type ℓ} ⦃e : Eq K⦄ → K → Dict K ℕ → Dict K ℕ
bump k d = elim (Dict.get k d) [ none ↦ Dict.set k 1 d | some n ↦ Dict.set k (n + 1) d ]

-- `ts[11:13]`
abbrev pub hour_of : String → String
hour_of ts = prefix 2 (suffix 11 ts)

unfoldable pub is_l7 : String → Bool
is_l7 category = starts_with category "L7_"

unfoldable pub is_blocked : String → Bool
is_blocked category = category == "RATE_LIMIT" || category == "CSRF"

-- The counters that only a response moves.
unfoldable pub count_response : Entry → Stats → Stats
unfolding bump
count_response e s = record s {
  total_requests = s.total_requests + 1;
  by_method = bump e.method s.by_method;
  by_status = bump e.status s.by_status;
  by_ip = bump e.ip s.by_ip;
  by_path = bump e.path s.by_path;
  hourly_requests = bump (hour_of e.ts) s.hourly_requests;
}

unfoldable pub count_l7 : Entry → Stats → Stats
unfolding bump
count_l7 e s = record s {
  total_l7_blocks = s.total_l7_blocks + 1;
  l7_by_type = bump e.category s.l7_by_type;
}

-- The counters that every entry may move.
unfoldable pub count_common : Entry → Stats → Stats
unfolding bump is_blocked
count_common e s =
    let severity = upper e.level in
    record s {
      total_errors = if leb 400 e.status then s.total_errors + 1 else s.total_errors;
      total_blocked = if is_blocked e.category then s.total_blocked + 1 else s.total_blocked;
      by_category = bump e.category s.by_category;
      severity_counts =
          if Dict.contains severity s.severity_counts
          then bump severity s.severity_counts
          else s.severity_counts;
    }

unfoldable pub update_stats : Entry → Stats → Stats
unfolding count_response count_l7 count_common is_l7
update_stats e s =
    let common = count_common e s in
    let l7 = if is_l7 e.category then count_l7 e common else common in
    if e.category == "RESPONSE" then count_response e l7 else l7

-- `heapq.nlargest(15, d.items(), key=...)`
unfoldable pub top : Dict String ℕ → List (String × ℕ)
top d = take 15 (sort (descending (λ x. x.1)) d)
