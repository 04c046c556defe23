-- ===== src/Firewall/Freshness.antt =====
-- Which operations drop the cached results of their server (`_invalidate_cache`): the rules of one server's
-- results in the caches.
pub mod Writes
pub mod Stale
use emarecloud.Prelude.{
  ℕ, zero, suc, ◌+◌, ◌-◌, ◌*◌, ◌/◌, ◌%◌, ◌≤◌, ◌<◌, min, max, String, ◌≡◌, refl, sym, ap, ◌∙◌, ◌≢◌,
  ◌↔◌, ◌⊎◌, inl, inr, Bool, true, false, not, ◌&&◌, ◌||◌, Option, none, some, List, [], ◌∷◌, map,
  reverse, arith, eq_iff, ltb, leb, nat_beq, if◌then◌else◌, is_some, nat_beq_iff, ltb→lt, leb→le,
  Bool-cases, Option-cases, Eq, ◌==◌, nat_eq, string_eq, pair_eq, pair_beq,
}
use emarecloud.Dict
use emarecloud.Integers.{ℤ}
use emarecloud.Firewall.Mq.{mq}
use emarecloud.Firewall.Validate.{Checked}
use emarecloud.Firewall.Program.{
  Reply, Kind, ufw, firewalld, emareos, Service, Caches, Program, M, Outcome, ◌>>=◌, ◌>>◌, pure,
  gets, modify, exec, lift, with_valid,
}
use emarecloud.Firewall.Program.Ends.{
  AllEnds, Keeps, keeps_rules, Keeps-pure, Keeps-modify, Keeps-if, Keeps-with_valid,
}
use emarecloud.Firewall.Detect.{
  set_type_cache, found, probe, probe_others, probe_emareos, known_or_probe, detect_type,
  cache_kind, count_read, look_up, detect_type_with,
}
use emarecloud.Firewall.Change.{reload, change_and_reload, change}
use emarecloud.Firewall.Rules.{with_optional}

-- The cached results of a server.
abbrev pub Holds : (server : String) (status l7 : Option String) → Caches → Type 0
Holds s o l c = (Dict.get s c.statuses ≡ o) × (Dict.get s c.l7s ≡ l)

cache_kind-Holds :
    (t : String) (o l : Option String) (s : String) (k : Option Kind) (v : Option Service)
    (c : Caches)
    → Holds t o l c
    → Holds t o l (cache_kind s k v c)
cache_kind-Holds t o l s k none c h = h
cache_kind-Holds t o l s k (some v) c h = h

count_read-Holds :
    (t : String) (o l : Option String) (v : Option Service) (c : Caches)
    → Holds t o l c
    → Holds t o l (count_read v c)
count_read-Holds t o l none c h = h
count_read-Holds t o l (some v) c h = h

module _ (t : String) (o l : Option String) where
  found-Keeps : (s : String) (k : Option Kind) → Keeps (Holds t o l) (found s k)
  unfolding found set_type_cache
  found-Keeps s k = search (
    keeps_rules,
    Keeps-modify {Q = Holds t o l} (λ c. cache_kind s k c.service c)
        (λ c h. cache_kind-Holds t o l s k c.service c h),
  )

  probe_emareos-Keeps : (s : String) → Keeps (Holds t o l) (probe_emareos s)
  unfolding probe_emareos
  probe_emareos-Keeps s = search (keeps_rules, found-Keeps)

  probe_others-Keeps : (s : String) → Keeps (Holds t o l) (probe_others s)
  unfolding probe_others
  probe_others-Keeps s = search (keeps_rules, found-Keeps, probe_emareos-Keeps)

  probe-Keeps : (s : String) → Keeps (Holds t o l) (probe s)
  unfolding probe
  probe-Keeps s = search (keeps_rules, found-Keeps, probe_others-Keeps)

  known_or_probe-Keeps :
      (s : String) (k : Option (Option Kind)) → Keeps (Holds t o l) (known_or_probe s k)
  unfolding known_or_probe
  known_or_probe-Keeps s none = probe-Keeps s
  known_or_probe-Keeps s (some k) = Keeps-pure k

  look_up-Keeps : (s : String) → Keeps (Holds t o l) (look_up s)
  unfolding look_up
  look_up-Keeps s = search (
    keeps_rules,
    Keeps-modify {Q = Holds t o l} (λ c. count_read c.service c)
        (λ c h. count_read-Holds t o l c.service c h),
  )

  pub detect_type-Keeps : (s : String) → Keeps (Holds t o l) (detect_type s)
  unfolding detect_type detect_type_with
  detect_type-Keeps s = search (keeps_rules, look_up-Keeps, known_or_probe-Keeps)

  pub change-Keeps : (s m d : String) → Keeps (Holds t o l) (change s m d)
  unfolding change
  change-Keeps s m d = search keeps_rules

  pub change_and_reload-Keeps : (s m d : String) → Keeps (Holds t o l) (change_and_reload s m d)
  unfolding change_and_reload
  change_and_reload-Keeps s m d = search keeps_rules

  pub with_optional-Keeps :
      (check : String → Checked) (v : String) (f : String → M Outcome)
      → ((a : String) → Keeps (Holds t o l) (f a))
      → Keeps (Holds t o l) (with_optional check v f)
  unfolding with_optional
  with_optional-Keeps check v f h = search (keeps_rules, h)

pub ruleset results_rules =
    (keeps_rules, detect_type-Keeps, change-Keeps, change_and_reload-Keeps, with_optional-Keeps)
