-- ===== src/Firewall/Freshness/Stale.antt =====
-- The operations that change a server and leave its cached results.
use emarecloud.Prelude.{String, refl, Bool, Option, none, some, nat_eq, string_eq, pair_eq}
use emarecloud.Dict
use emarecloud.Integers.{ℤ}
use emarecloud.Firewall.Program.{Caches, Kind, ufw, firewalld, emareos}
use emarecloud.Firewall.Program.Ends.{AllEnds, Keeps}
use emarecloud.Firewall.Services.{
  remove_service_with, remove_service, toggle_with, toggle_rule, default_zone_with,
  set_default_zone, add_rich_with, add_rich_rule, remove_rich_with, remove_rich_rule,
}
use emarecloud.Firewall.Freshness.{Holds, results_rules}

module _ (t : String) (o l : Option String) where
  remove_service_with-Keeps :
      (k : Option Kind) (s v : String) → Keeps (Holds t o l) (remove_service_with k s v)
  unfolding remove_service_with
  remove_service_with-Keeps (some ufw) s v = search results_rules
  remove_service_with-Keeps (some firewalld) s v = search results_rules
  remove_service_with-Keeps (some emareos) s v = search results_rules
  remove_service_with-Keeps none s v = search results_rules

  toggle_with-Keeps :
      (k : Option Kind) (s : String) (i : ℤ) (e : Bool) → Keeps (Holds t o l) (toggle_with k s i e)
  unfolding toggle_with
  toggle_with-Keeps (some ufw) s i e = search results_rules
  toggle_with-Keeps (some firewalld) s i e = search results_rules
  toggle_with-Keeps (some emareos) s i e = search results_rules
  toggle_with-Keeps none s i e = search results_rules

  default_zone_with-Keeps :
      (k : Option Kind) (s v : String) → Keeps (Holds t o l) (default_zone_with k s v)
  unfolding default_zone_with
  default_zone_with-Keeps (some ufw) s v = search results_rules
  default_zone_with-Keeps (some firewalld) s v = search results_rules
  default_zone_with-Keeps (some emareos) s v = search results_rules
  default_zone_with-Keeps none s v = search results_rules

  add_rich_with-Keeps : (k : Option Kind) (s v : String) → Keeps (Holds t o l) (add_rich_with k s v)
  unfolding add_rich_with
  add_rich_with-Keeps (some ufw) s v = search results_rules
  add_rich_with-Keeps (some firewalld) s v = search results_rules
  add_rich_with-Keeps (some emareos) s v = search results_rules
  add_rich_with-Keeps none s v = search results_rules

  remove_rich_with-Keeps :
      (k : Option Kind) (s v : String) → Keeps (Holds t o l) (remove_rich_with k s v)
  unfolding remove_rich_with
  remove_rich_with-Keeps (some ufw) s v = search results_rules
  remove_rich_with-Keeps (some firewalld) s v = search results_rules
  remove_rich_with-Keeps (some emareos) s v = search results_rules
  remove_rich_with-Keeps none s v = search results_rules

  toggle_rule-Keeps : (s : String) (i : ℤ) (e : Bool) → Keeps (Holds t o l) (toggle_rule s i e)
  unfolding toggle_rule
  toggle_rule-Keeps s i e = search (results_rules, toggle_with-Keeps)

  remove_service-Keeps : (s v : String) → Keeps (Holds t o l) (remove_service s v)
  unfolding remove_service
  remove_service-Keeps s v = search (results_rules, remove_service_with-Keeps)

  set_default_zone-Keeps : (s v : String) → Keeps (Holds t o l) (set_default_zone s v)
  unfolding set_default_zone
  set_default_zone-Keeps s v = search (results_rules, default_zone_with-Keeps)

  add_rich_rule-Keeps : (s v : String) → Keeps (Holds t o l) (add_rich_rule s v)
  unfolding add_rich_rule
  add_rich_rule-Keeps s v = search (results_rules, add_rich_with-Keeps)

  remove_rich_rule-Keeps : (s v : String) → Keeps (Holds t o l) (remove_rich_rule s v)
  unfolding remove_rich_rule
  remove_rich_rule-Keeps s v = search (results_rules, remove_rich_with-Keeps)

-- The caches with the results of server `t` that stand in `c`.
abbrev pub SameResults : (t : String) (c : Caches) → Caches → Type 0
SameResults t c = Holds t (Dict.get t c.statuses) (Dict.get t c.l7s)

-- `toggle_rule`, `remove_service`, `set_default_zone`, `add_rich_rule` and `remove_rich_rule` end, whatever the server's
-- replies, with the cached status and L7 result of every server as they were: a status that is cached stays cached
-- when the rules change.
pub changes_leave_results :
    (s v t : String) (i : ℤ) (e : Bool) (c : Caches)
    → AllEnds (SameResults t c) (toggle_rule s i e c)
      × AllEnds (SameResults t c) (remove_service s v c)
      × AllEnds (SameResults t c) (set_default_zone s v c)
      × AllEnds (SameResults t c) (add_rich_rule s v c)
      × AllEnds (SameResults t c) (remove_rich_rule s v c)
changes_leave_results s v t i e c =
    let o = Dict.get t c.statuses in
    let l = Dict.get t c.l7s in
    (
      (toggle_rule-Keeps t o l s i e).at c (refl, refl),
      (remove_service-Keeps t o l s v).at c (refl, refl),
      (set_default_zone-Keeps t o l s v).at c (refl, refl),
      (add_rich_rule-Keeps t o l s v).at c (refl, refl),
      (remove_rich_rule-Keeps t o l s v).at c (refl, refl),
    )
