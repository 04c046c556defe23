-- ===== src/Rmm/Alerts/Spacing.antt =====
-- Alerts of one device and metric keep the cooldown.
use emarecloud.Prelude.{
  ℕ, ◌+◌, ◌≤◌, String, ◌≡◌, refl, ◌∙◌, inl, inr, Bool, true, false, not, ◌&&◌, ◌||◌, Option, none,
  some, List, [], ◌∷◌, ◌++◌, arith, leb, Bool-cases, ◌==◌, nat_eq, string_eq, pair_eq,
}
use emarecloud.Lists.{any}
use emarecloud.Rmm.Alerts.{
  Reals, Alert, Monitor, AlertConfig, Check, Cause, Beat, minutes, cause_of, has_recent, alert_row,
  raise_alert, check_cause, check_each, add_risk_factor, risk_of, risk_each, checks,
  check_thresholds,
}

module _ {R : Type 0} where
  abbrev same_source : Alert R → Alert R → Bool
  same_source a b = a.device_id == b.device_id && a.alert_type == b.alert_type

  -- Two alerts, the first of which was written before, are not both open alerts of one source, or the cooldown lies between
  -- them.
  abbrev pub are_apart : (cooldown : ℕ) → Alert R → Alert R → Bool
  are_apart cd a b =
      not (same_source a b)
      || a.acknowledged
      || b.acknowledged
      || leb (a.created_at + minutes cd) b.created_at

  abbrev pub apart_from_all : (cooldown : ℕ) → Alert R → List (Alert R) → Bool
  apart_from_all cd a [] = true
  apart_from_all cd a (b ∷ rows) = are_apart cd a b && apart_from_all cd a rows

  abbrev pub are_spaced : (cooldown : ℕ) → List (Alert R) → Bool
  are_spaced cd [] = true
  are_spaced cd (a ∷ rows) = apart_from_all cd a rows && are_spaced cd rows

  apart_from_all-append :
      (cd : ℕ) (a b : Alert R) (rows : List (Alert R))
      → apart_from_all cd a rows ≡ true
      → are_apart cd a b ≡ true
      → apart_from_all cd a (rows ++ (b ∷ [])) ≡ true
  apart_from_all-append cd a b [] h k = rw k refl
  apart_from_all-append cd a b (c ∷ rows) h k =
      let here : are_apart cd a c ≡ true = ground (arith, h) in
      let rest : apart_from_all cd a rows ≡ true = ground (arith, h) in
      rw (here, apart_from_all-append cd a b rows rest k) refl

module _ {R : Type 0} (reals : Reals R) where
  are_spaced-append :
      (cd : ℕ) (b : Alert R) (started : ℕ) (rows : List (Alert R))
      → started ≤ b.created_at
      → has_recent reals b.device_id b.alert_type started cd rows ≡ false
      → are_spaced cd rows ≡ true
      → are_spaced cd (rows ++ (b ∷ [])) ≡ true
  unfolding has_recent any
  are_spaced-append cd b started [] t n h = refl
  are_spaced-append cd b started (a ∷ rows) t n h =
      let h1 : apart_from_all cd a rows ≡ true = ground (arith, h) in
      let h2 : are_spaced cd rows ≡ true = ground (arith, h) in
      let n2 : has_recent reals b.device_id b.alert_type started cd rows ≡ false =
        ground (arith, n) in
      let apart : are_apart cd a b ≡ true = ground (arith, n, t) in
      rw (apart_from_all-append cd a b rows h1 apart, are_spaced-append cd b started rows t n2 h2)
        refl

  cause-IsSpaced :
      (cfg : AlertConfig R) (name d : String) (started : ℕ) (c : Check R) (w : Option (Cause R))
      (m : Monitor R)
      → started ≤ c.now
      → are_spaced cfg.cooldown_minutes m.alerts ≡ true
      → are_spaced cfg.cooldown_minutes (check_cause reals cfg name d started c w m).alerts ≡ true
  unfolding check_cause raise_alert
  cause-IsSpaced cfg name d started c none m t h = h
  cause-IsSpaced cfg name d started c (some w) m t h =
      elim (Bool-cases (has_recent reals d c.metric started cfg.cooldown_minutes m.alerts)) [
        | inl e ↦ rw e h
        | inr e ↦ rw e (
            are_spaced-append cfg.cooldown_minutes (alert_row reals (m.alert_sequence + 1) d c w)
              started m.alerts t e h)
      ]

  abbrev AllAfter : (started : ℕ) → List (Check R) → Type 0
  AllAfter started [] = Unit
  AllAfter started (c ∷ cs) = (started ≤ c.now) × AllAfter started cs

  each-IsSpaced :
      (cfg : AlertConfig R) (name d : String) (started : ℕ) (cs : List (Check R)) (m : Monitor R)
      → AllAfter started cs
      → are_spaced cfg.cooldown_minutes m.alerts ≡ true
      → are_spaced cfg.cooldown_minutes (check_each reals cfg name d started cs m).alerts ≡ true
  unfolding check_each
  each-IsSpaced cfg name d started [] m t h = h
  each-IsSpaced cfg name d started (c ∷ cs) m (t, ts) h =
      each-IsSpaced cfg name d started cs
        (check_cause reals cfg name d started c (cause_of reals c) m) ts
        (cause-IsSpaced cfg name d started c (cause_of reals c) m t h)

  risk_of-alerts :
      (d : String) (c : Check R) (m : Monitor R) → (risk_of reals d c m).alerts ≡ m.alerts
  unfolding risk_of add_risk_factor
  risk_of-alerts d c m = ground arith

  risk_each-alerts :
      (d : String) (cs : List (Check R)) (m : Monitor R)
      → (risk_each reals d cs m).alerts ≡ m.alerts
  unfolding risk_each
  risk_each-alerts d [] m = refl
  risk_each-alerts d (c ∷ cs) m = risk_each-alerts d cs (risk_of reals d c m) ∙ risk_of-alerts d c m

  -- A check of the thresholds after a heartbeat keeps every two open alerts of one device and metric apart by the cooldown,
  -- if the clock does not go back between the start of the check and its alerts.
  pub check_thresholds-are_spaced :
      (cfg : AlertConfig R) (b : Beat R) (clock : ℕ → ℕ) (m : Monitor R)
      → clock 0 ≤ clock 1
      → clock 0 ≤ clock 2
      → clock 0 ≤ clock 3
      → are_spaced cfg.cooldown_minutes m.alerts ≡ true
      → are_spaced cfg.cooldown_minutes (check_thresholds reals cfg b clock m).alerts ≡ true
  unfolding check_thresholds
  check_thresholds-are_spaced cfg b clock m t1 t2 t3 h = elim (Bool-cases cfg.enabled) [
    | inl e ↦
        let cs = checks reals cfg b clock in
        rw
          (
            e,
            risk_each-alerts b.device_id cs
                (check_each reals cfg b.name b.device_id (clock 0) cs m),
          )
          (each-IsSpaced cfg b.name b.device_id (clock 0) cs m (t1, (t2, (t3, tt))) h)
    | inr e ↦ rw e h
  ]
