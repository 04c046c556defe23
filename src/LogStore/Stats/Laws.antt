-- ===== src/LogStore/Stats/Laws.antt =====
-- The statistics agree with one another and with the entries counted.
use emarecloud.Prelude.{
  ℕ, ◌+◌, ◌≡◌, inl, inr, Bool, none, some, List, [], ◌∷◌, ◌++◌, arith, leb, if◌then◌else◌,
  Option-cases, Eq, ◌==◌, nat_eq, string_eq, pair_eq,
}
use emarecloud.Dict
use emarecloud.Dict.{Dict}
use emarecloud.Lists.{length, filter, length-append}
use emarecloud.LogEntry.{Entry}
use emarecloud.LogStore.Stats.{Stats, no_stats, bump, hour_of, is_l7, is_blocked, update_stats}

-- The sum of the counts of a dictionary.
abbrev pub sum_counts {ℓ} : {K : Type ℓ} → Dict K ℕ → ℕ
sum_counts [] = 0
sum_counts ((_, n) ∷ d) = n + sum_counts d

module _ {ℓ} {K : Type ℓ} ⦃e : Eq K⦄ where
  sum-set_new :
      (k : K) (n : ℕ) (d : Dict K ℕ)
      → Dict.get k d ≡ none
      → sum_counts (Dict.set k n d) ≡ sum_counts d + n
  unfolding Dict.get Dict.set
  sum-set_new k n [] h = omega arith
  sum-set_new k n ((j, m) ∷ d) h = ground (arith, sum-set_new k n d)

  sum-set_old :
      (k : K) (m n : ℕ) (d : Dict K ℕ)
      → Dict.get k d ≡ some m
      → sum_counts (Dict.set k n d) + m ≡ sum_counts d + n
  unfolding Dict.get Dict.set
  sum-set_old k m n [] h = absurd (cc)
  sum-set_old k m n ((j, i) ∷ d) h = ground (arith, sum-set_old k m n d)

  pub sum-bump : (k : K) (d : Dict K ℕ) → sum_counts (bump k d) ≡ sum_counts d + 1
  unfolding bump
  sum-bump k d = elim (Option-cases (Dict.get k d)) [
    | inl new ↦ rw (new, bump) (sum-set_new k 1 d new)
    | inr (m, old) ↦ rw (old, bump) (omega (arith, sum-set_old k m (m + 1) d old))
  ]

abbrev pub is_response : Entry → Bool
is_response e = e.category == "RESPONSE"

-- Each way to count the responses gives their number, and each other count its own.
pub record Counts (entries : List Entry) (s : Stats) : Type 0 where
  pub requests : s.total_requests ≡ length (filter is_response entries)
  pub methods : sum_counts s.by_method ≡ s.total_requests
  pub statuses : sum_counts s.by_status ≡ s.total_requests
  pub ips : sum_counts s.by_ip ≡ s.total_requests
  pub paths : sum_counts s.by_path ≡ s.total_requests
  pub hours : sum_counts s.hourly_requests ≡ s.total_requests
  pub errors : s.total_errors ≡ length (filter (λ e. leb 400 e.status) entries)
  pub blocked : s.total_blocked ≡ length (filter (λ e. is_blocked e.category) entries)
  pub categories : sum_counts s.by_category ≡ length entries
  pub l7 : s.total_l7_blocks ≡ length (filter (λ e. is_l7 e.category) entries)
  pub l7_types : sum_counts s.l7_by_type ≡ s.total_l7_blocks

length-filter-snoc {ℓ} :
    {A : Type ℓ} (p : A → Bool) (xs : List A) (x : A)
    → length (filter p (xs ++ x ∷ [])) ≡ length (filter p xs) + (if p x then 1 else 0)
unfolding filter
length-filter-snoc p [] x = ground arith
length-filter-snoc p (y ∷ ys) x = ground (arith, length-filter-snoc p ys x)

-- Counting one entry more keeps each total equal to the number of the entries that it counts, and
-- each breakdown by method, status, address, path, hour, category or attack equal to its total.
pub update_stats-Counts :
    (es : List Entry) (e : Entry) (s : Stats)
    → Counts es s
    → Counts (es ++ e ∷ []) (update_stats e s)
unfolding update_stats
update_stats-Counts es e s c = record {
  requests = ground (arith, length-filter-snoc is_response es e);
  methods = ground (arith, sum-bump e.method s.by_method);
  statuses = ground (arith, sum-bump e.status s.by_status);
  ips = ground (arith, sum-bump e.ip s.by_ip);
  paths = ground (arith, sum-bump e.path s.by_path);
  hours = ground (arith, sum-bump (hour_of e.ts) s.hourly_requests);
  errors = ground (arith, length-filter-snoc (λ x. leb 400 x.status) es e);
  blocked = ground (arith, length-filter-snoc (λ x. is_blocked x.category) es e);
  categories = ground (arith, sum-bump e.category s.by_category, length-append es (e ∷ []));
  l7 = ground (arith, length-filter-snoc (λ x. is_l7 x.category) es e);
  l7_types = ground (arith, sum-bump e.category s.l7_by_type);
}

-- The statistics of no entries.
pub no_stats-Counts : Counts [] no_stats
unfolding filter
no_stats-Counts = ground arith
