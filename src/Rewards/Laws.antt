-- ===== src/Rewards/Laws.antt =====
-- What an award of points keeps: the limit of a day, the pause between two awards of an action, and the
-- sums of the points.
use emarecloud.Rewards.Points.{later}
use emarecloud.Prelude.{
  ℕ, ◌+◌, ◌*◌, ◌≤◌, String, ◌≡◌, refl, ap, ◌∙◌, inl, inr, Bool, true, false, ◌&&◌, Option, none,
  some, List, [], ◌∷◌, ◌++◌, arith, if◌then◌else◌, nat_beq_iff, Bool-cases, ◌==◌, nat_eq, string_eq,
  pair_eq,
}
use emarecloud.Dict
use emarecloud.Lists.{All, All-map}
use emarecloud.Rewards.Tables.{ep_rewards, daily_ep_limit, action_cooldowns}
use emarecloud.Rewards.Points.{EmarePoint, date, sum_ep, get_daily_total, latest, get_last_action}
use emarecloud.Rewards.Engine.{award_listed, Award, new_point, is_cooling, award_amount, award_ep}

-- No user has more points on a day than the limit of a day.
abbrev pub IsLimited : List EmarePoint → Type 0
IsLimited rows = (user day : ℕ) → get_daily_total user day rows ≤ daily_ep_limit

pub sum_ep-append_one :
    (p : EmarePoint → Bool) (rows : List EmarePoint) (r : EmarePoint)
    → sum_ep p (rows ++ r ∷ []) ≡ sum_ep p rows + (if p r then r.ep_amount else 0)
unfolding sum_ep
sum_ep-append_one p [] r = omega arith
sum_ep-append_one p (q ∷ rows) r = omega (arith, sum_ep-append_one p rows r)

sum_ep-same :
    (p q : EmarePoint → Bool)
    → ((r : EmarePoint) → p r ≡ q r)
    → (rows : List EmarePoint) → sum_ep p rows ≡ sum_ep q rows
unfolding sum_ep
sum_ep-same p q h [] = refl
sum_ep-same p q h (r ∷ rows) = rw (h r, sum_ep-same p q h rows) refl

-- The total of a day depends on the user and the date alone.
get_daily_total-date :
    (user a b : ℕ) (rows : List EmarePoint)
    → date a ≡ date b
    → get_daily_total user a rows ≡ get_daily_total user b rows
unfolding get_daily_total
get_daily_total-date user a b rows e =
    ap (λ d. sum_ep (λ r. r.user_id == user && date r.created_at == d) rows) e

-- The total of a user on a day once a point of `now` is appended.
get_daily_total-new :
    (user day user_id : ℕ) (action : String) (ep : ℕ) (meta : String) (now : ℕ)
    (rows : List EmarePoint)
    → get_daily_total user day (rows ++ new_point user_id action ep meta now ∷ [])
      ≡ get_daily_total user day rows + (if user_id == user && date now == date day then ep else 0)
unfolding get_daily_total
get_daily_total-new user day user_id action ep meta now rows =
    sum_ep-append_one (λ r. r.user_id == user && date r.created_at == date day) rows
      (new_point user_id action ep meta now)

award_amount-IsLimited :
    (user_id : ℕ) (action : String) (ep : ℕ) (meta : String) (now : ℕ) (rows : List EmarePoint)
    → IsLimited rows
    → IsLimited (award_amount user_id action ep meta now rows).1
unfolding award_amount
award_amount-IsLimited user_id action ep meta now rows h user day =
    let new = get_daily_total-new user day user_id action ep meta now rows in
    let same = get_daily_total-date user now day rows in
    elim (Bool-cases (user_id == user && date now == date day)) [
      | inl q ↦
          let u : user_id ≡ user = ground (arith, q, nat_beq_iff user_id user) in
          let d : date now ≡ date day = ground (arith, q, nat_beq_iff (date now) (date day)) in
          let s : get_daily_total user_id now rows ≡ get_daily_total user day rows =
            ap (λ v. get_daily_total v now rows) u ∙ get_daily_total-date user now day rows d in
          ground (arith, h user day, new, q, s)
      | inr q ↦ ground (arith, h user day, new, q)
    ]

award_listed-IsLimited :
    (reward : Option ℕ) (has_db : Bool) (user_id : ℕ) (action meta : String) (now : ℕ)
    (rows : List EmarePoint)
    → IsLimited rows
    → IsLimited (award_listed reward has_db user_id action meta now rows).1
unfolding award_listed
award_listed-IsLimited none has_db user_id action meta now rows h = h
award_listed-IsLimited (some ep) false user_id action meta now rows h = h
award_listed-IsLimited (some ep) true user_id action meta now rows h =
    award_amount-IsLimited user_id action ep meta now rows h

-- An award, or its refusal, keeps every user within the limit of each day.
pub award_ep-IsLimited :
    (has_db : Bool) (user_id : ℕ) (action meta : String) (now : ℕ) (rows : List EmarePoint)
    → IsLimited rows
    → IsLimited (award_ep has_db user_id action meta now rows).1
unfolding award_ep
award_ep-IsLimited has_db user_id action meta now rows h =
    award_listed-IsLimited (Dict.get action ep_rewards) has_db user_id action meta now rows h

-- A row that is not after the one found.
abbrev NotAfter : EmarePoint → Option EmarePoint → Type 0
NotAfter r none = ⊥
NotAfter r (some q) = r.created_at ≤ q.created_at

NotAfter-later :
    (p : EmarePoint → Bool) (r q : EmarePoint) (best : Option EmarePoint)
    → NotAfter q best
    → NotAfter q (if p r then some (later r best) else best)
NotAfter-later p r q none h = absurd h
NotAfter-later p r q (some b) h = ground (arith, h)

later-NotAfter :
    (p : EmarePoint → Bool) (r : EmarePoint) (best : Option EmarePoint)
    → p r ≡ true
    → NotAfter r (if p r then some (later r best) else best)
later-NotAfter p r none h = ground (arith, h)
later-NotAfter p r (some b) h = ground (arith, h)

latest-All :
    (p : EmarePoint → Bool) (rows : List EmarePoint)
    → All (λ r. p r ≡ true → NotAfter r (latest p rows)) rows
unfolding latest
latest-All p [] = tt
latest-All p (r ∷ rows) = (
  later-NotAfter p r (latest p rows),
  All-map _ _ (λ q h e. NotAfter-later p r q (latest p rows) (h e)) rows (latest-All p rows),
)

-- Every earlier award of the action to the user is at least the pause of the action old.
abbrev pub IsRested : ℕ → (action : String) → (now : ℕ) → List EmarePoint → Type 0
IsRested user_id action now rows =
    (seconds : ℕ)
    → Dict.get action action_cooldowns ≡ some seconds
    → All
        (λ r.
          (r.user_id == user_id && r.action == action) ≡ true
          → r.created_at + seconds * 1000000 ≤ now)
        rows

is_cooling_rested :
    (action : String) (now : ℕ) (last_action : Option EmarePoint) (seconds : ℕ)
    → Dict.get action action_cooldowns ≡ some seconds
    → is_cooling action now last_action ≡ false
    → (r : EmarePoint) → NotAfter r last_action
    → r.created_at + seconds * 1000000 ≤ now
unfolding is_cooling
is_cooling_rested action now none seconds e h r b = absurd b
is_cooling_rested action now (some q) seconds e h r b =
    let k = rw (e, is_cooling) at h in ground (arith, k, b)

award_listed-IsRested :
    (reward : Option ℕ) (has_db : Bool) (user_id : ℕ) (action meta : String) (now : ℕ)
    (rows : List EmarePoint) (award : Award)
    → (award_listed reward has_db user_id action meta now rows).0 ≡ some award
    → is_cooling action now (get_last_action user_id action rows) ≡ false
unfolding award_listed award_amount
award_listed-IsRested none has_db user_id action meta now rows award e = absurd (cc)
award_listed-IsRested (some ep) false user_id action meta now rows award e = absurd (cc)
award_listed-IsRested (some ep) true user_id action meta now rows award e = ground (arith, e)

-- Points are awarded for an action only if no earlier award of it to the user is more recent than the
-- pause that the action has.
pub award_ep-IsRested :
    (has_db : Bool) (user_id : ℕ) (action meta : String) (now : ℕ) (rows : List EmarePoint)
    (award : Award)
    → (award_ep has_db user_id action meta now rows).0 ≡ some award
    → IsRested user_id action now rows
unfolding award_ep get_last_action
award_ep-IsRested has_db user_id action meta now rows award e seconds c =
    let reward = Dict.get action ep_rewards in
    let cool = award_listed-IsRested reward has_db user_id action meta now rows award e in
    let same = λ (r : EmarePoint). r.user_id == user_id && r.action == action in
    All-map _ _ (λ r h m. is_cooling_rested action now (latest same rows) seconds c cool r (h m))
      rows (latest-All same rows)
