-- ===== src/Rmm/Correlation/Spacing.antt =====
-- A rule has one event for a device within its window.
use emarecloud.Prelude.{
  ℕ, ◌+◌, ◌≤◌, String, ◌≡◌, refl, inl, inr, Bool, true, not, ◌&&◌, ◌||◌, List, [], ◌∷◌, ◌++◌, arith,
  leb, if◌then◌else◌, Bool-cases, ◌==◌, nat_eq, string_eq, pair_eq,
}
use mathlib.Core.Path.{subst}
use emarecloud.Lists.{any, is_in}
use emarecloud.Rmm.Alerts.{Reals, minutes}
use emarecloud.Rmm.Correlation.{
  Rule, Event, Engine, or_default, has_duplicate, event_row, create_correlation_event, trigger,
  eval_frequency_rule, eval_threshold_rule, eval_rule, eval_rules, evaluate_correlation_rules,
}

-- Two events, the first of which was written before, are not both of the rule and of one device, or the window lies
-- between them.
abbrev pub are_apart : (rule_id window : ℕ) → Event → Event → Bool
are_apart k w a b =
    not (a.rule_id == k && b.rule_id == k && a.device_id == b.device_id)
    || leb (a.created_at + minutes w) b.created_at

abbrev pub apart_from_all : (rule_id window : ℕ) → Event → List Event → Bool
apart_from_all k w a [] = true
apart_from_all k w a (b ∷ rows) = are_apart k w a b && apart_from_all k w a rows

abbrev pub are_spaced : (rule_id window : ℕ) → List Event → Bool
are_spaced k w [] = true
are_spaced k w (a ∷ rows) = apart_from_all k w a rows && are_spaced k w rows

-- The window of a rule, in minutes.
abbrev pub window_of : {R : Type 0} → Rule R → ℕ
window_of r = or_default r.conditions.window_minutes (if r.rule_type == "frequency" then 60 else 10)

-- The rules with the identifier have the window.
abbrev pub have_window : {R : Type 0} → (rule_id window : ℕ) → List (Rule R) → Bool
have_window k w [] = true
have_window k w (r ∷ rules) = (not (r.id == k) || window_of r == w) && have_window k w rules

apart_from_all-append :
    (k w : ℕ) (a b : Event) (rows : List Event)
    → apart_from_all k w a rows ≡ true
    → are_apart k w a b ≡ true
    → apart_from_all k w a (rows ++ (b ∷ [])) ≡ true
apart_from_all-append k w a b [] h e = rw e refl
apart_from_all-append k w a b (c ∷ rows) h e =
    let here : are_apart k w a c ≡ true = ground (arith, h) in
    let rest : apart_from_all k w a rows ≡ true = ground (arith, h) in
    rw (here, apart_from_all-append k w a b rows rest e) refl

-- An event of another rule, or one that has no duplicate, may be added.
are_spaced-append :
    (k w : ℕ) (b : Event) (started : ℕ) (rows : List Event)
    → started ≤ b.created_at
    → (not (b.rule_id == k) || not (has_duplicate b.rule_id b.device_id started w rows)) ≡ true
    → are_spaced k w rows ≡ true
    → are_spaced k w (rows ++ (b ∷ [])) ≡ true
unfolding has_duplicate any
are_spaced-append k w b started [] t n h = refl
are_spaced-append k w b started (a ∷ rows) t n h =
    let h1 : apart_from_all k w a rows ≡ true = ground (arith, h) in
    let h2 : are_spaced k w rows ≡ true = ground (arith, h) in
    let n2 : (not (b.rule_id == k) || not (has_duplicate b.rule_id b.device_id started w rows))
        ≡ true =
      ground (arith, n) in
    let apart : are_apart k w a b ≡ true = ground (arith, n, t) in
    rw (apart_from_all-append k w a b rows h1 apart, are_spaced-append k w b started rows t n2 h2)
      refl

module _ {R : Type 0} (reals : Reals R) (k w : ℕ) where
  free_of :
      (r : Rule R) (d : String) (window started : ℕ) (events : List Event)
      → (not (r.id == k) || window == w) ≡ true
      → not (has_duplicate r.id d started window events) ≡ true
      → (not (r.id == k) || not (has_duplicate r.id d started w events)) ≡ true
  free_of r d window started events same n = elim (Bool-cases (r.id == k)) [
    | inl e ↦
        let equal : window ≡ w = ground (arith, same, e) in
        subst (λ x. (not (r.id == k) || not (has_duplicate r.id d started x events)) ≡ true) equal
          (ground (arith, n))
    | inr e ↦ ground (arith, e)
  ]

  trigger-are_spaced :
      (r : Rule R) (d : String) (matched count window started now : ℕ) (e : Engine R)
      → started ≤ now
      → (not (r.id == k) || window == w) ≡ true
      → are_spaced k w e.events ≡ true
      → are_spaced k w (trigger reals r d matched count window started now e).events ≡ true
  unfolding trigger create_correlation_event
  trigger-are_spaced r d matched count window started now e t same h =
      elim (Bool-cases (leb count matched && not (has_duplicate r.id d started window e.events))) [
        | inl q ↦
            let free = free_of r d window started e.events same (ground (arith, q)) in
            rw q (
              are_spaced-append k w (event_row reals (e.event_sequence + 1) r d matched now) started
                e.events t free h)
        | inr q ↦ rw q h
      ]

  frequency-are_spaced :
      (r : Rule R) (d : String) (started now : ℕ) (e : Engine R)
      → started ≤ now
      → (not (r.id == k) || or_default r.conditions.window_minutes 60 == w) ≡ true
      → are_spaced k w e.events ≡ true
      → are_spaced k w (eval_frequency_rule reals r d started now e).events ≡ true
  unfolding eval_frequency_rule
  frequency-are_spaced r d started now e t same h =
      trigger-are_spaced r d _ _ (or_default r.conditions.window_minutes 60) started now e t same h

  threshold-are_spaced :
      (r : Rule R) (d : String) (started now : ℕ) (e : Engine R)
      → started ≤ now
      → (not (r.id == k) || or_default r.conditions.window_minutes 10 == w) ≡ true
      → are_spaced k w e.events ≡ true
      → are_spaced k w (eval_threshold_rule reals r d started now e).events ≡ true
  unfolding eval_threshold_rule
  threshold-are_spaced r d started now e t same h =
      elim (Bool-cases
        (is_in (or_default r.conditions.metric "cpu") ("cpu" ∷ "ram" ∷ "disk" ∷ []))) [
          | inl i ↦ rw i (
              trigger-are_spaced r d _ _ (or_default r.conditions.window_minutes 10) started now e t
                same h)
          | inr i ↦ rw i h
        ]

  eval_rule-are_spaced :
      (r : Rule R) (d : String) (started now : ℕ) (e : Engine R)
      → started ≤ now
      → (not (r.id == k) || window_of r == w) ≡ true
      → are_spaced k w e.events ≡ true
      → are_spaced k w (eval_rule reals r d started now e).events ≡ true
  unfolding eval_rule
  eval_rule-are_spaced r d started now e t same h = elim (Bool-cases r.enabled) [
    | inr off ↦ rw off h
    | inl on ↦ elim (Bool-cases (r.rule_type == "frequency")) [
      | inl f ↦
          let equal : window_of r ≡ or_default r.conditions.window_minutes 60 = rw f refl in
          rw (on, f)
            (frequency-are_spaced r d started now e t
              (subst (λ x. (not (r.id == k) || x == w) ≡ true) equal same) h)
      | inr f ↦ elim (Bool-cases (r.rule_type == "threshold")) [
        | inl g ↦
            let equal : window_of r ≡ or_default r.conditions.window_minutes 10 = rw f refl in
            rw (on, f, g)
              (threshold-are_spaced r d started now e t
                (subst (λ x. (not (r.id == k) || x == w) ≡ true) equal same) h)
        | inr g ↦ rw (on, f, g) h
      ]
    ]
  ]

  eval_rules-are_spaced :
      (clock : ℕ → ℕ) (n : ℕ) (rules : List (Rule R)) (d : String) (e : Engine R)
      → ((i : ℕ) → clock i ≤ clock (i + 1))
      → have_window k w rules ≡ true
      → are_spaced k w e.events ≡ true
      → are_spaced k w (eval_rules reals clock n rules d e).events ≡ true
  unfolding eval_rules
  eval_rules-are_spaced clock n [] d e t same h = h
  eval_rules-are_spaced clock n (r ∷ rules) d e t same h =
      let here : (not (r.id == k) || window_of r == w) ≡ true = ground (arith, same) in
      let rest : have_window k w rules ≡ true = ground (arith, same) in
      eval_rules-are_spaced clock (n + 2) rules d (eval_rule reals r d (clock n) (clock (n + 1)) e)
        t rest (eval_rule-are_spaced r d (clock n) (clock (n + 1)) e (t n) here h)

-- The evaluation of the rules after a heartbeat keeps every two events of a rule for one device
-- apart by the window of the rule, if the clock does not go back and evaluations follow one
-- another.
pub evaluate_correlation_rules-are_spaced :
    {R : Type 0} (reals : Reals R) (k w : ℕ) (clock : ℕ → ℕ) (d : String) (e : Engine R)
    → ((i : ℕ) → clock i ≤ clock (i + 1))
    → have_window k w e.rules ≡ true
    → are_spaced k w e.events ≡ true
    → are_spaced k w (evaluate_correlation_rules reals clock d e).events ≡ true
unfolding evaluate_correlation_rules
evaluate_correlation_rules-are_spaced reals k w clock d e t same h =
    eval_rules-are_spaced reals k w clock 0 e.rules d e t same h
