-- ===== src/Rewards/Points.antt =====
-- The rows of reward points and the queries over them (`EmarePoint`, models.py). A time is the number
-- of microseconds since the epoch.
use emarecloud.Prelude.{
  ℕ, ◌+◌, ◌/◌, String, Bool, true, not, ◌&&◌, Option, none, some, List, [], ◌∷◌, ltb, if◌then◌else◌,
  ◌==◌, nat_eq, string_eq, pair_eq,
}
use emarecloud.Dict
use emarecloud.Dict.{Dict}

pub record EmarePoint : Type 0 where
  pub user_id : ℕ
  pub action : String
  pub ep_amount : ℕ
  pub claim_type : String
  pub is_claimed : Bool
  pub claim_tx_hash : Option String
  pub metadata_json : String
  pub created_at : ℕ

-- `datetime.date()`
abbrev pub date : ℕ → ℕ
date t = t / 86400000000

-- `func.sum(EmarePoint.ep_amount)` over the rows that a filter keeps.
unfoldable pub sum_ep : (EmarePoint → Bool) → List EmarePoint → ℕ
sum_ep p [] = 0
sum_ep p (r ∷ rs) = (if p r then r.ep_amount else 0) + sum_ep p rs

unfoldable pub get_total_ep : ℕ → List EmarePoint → ℕ
get_total_ep user_id rows = sum_ep (λ r. r.user_id == user_id) rows

unfoldable pub get_unclaimed_ep : ℕ → List EmarePoint → ℕ
get_unclaimed_ep user_id rows = sum_ep (λ r. r.user_id == user_id && not r.is_claimed) rows

unfoldable pub get_claimed_ep : ℕ → List EmarePoint → ℕ
get_claimed_ep user_id rows = sum_ep (λ r. r.user_id == user_id && r.is_claimed) rows

-- The points of a user on the day of `now`.
unfoldable pub get_daily_total : ℕ → (now : ℕ) → List EmarePoint → ℕ
get_daily_total user_id now rows =
    sum_ep (λ r. r.user_id == user_id && date r.created_at == date now) rows

-- The later of a row and the best of those behind it.
abbrev pub later : EmarePoint → Option EmarePoint → EmarePoint
later r none = r
later r (some q) = if ltb r.created_at q.created_at then q else r

-- The row with the latest time of creation among those that a filter keeps.
unfoldable pub latest : (EmarePoint → Bool) → List EmarePoint → Option EmarePoint
latest p [] = none
latest p (r ∷ rs) = let best = latest p rs in if p r then some (later r best) else best

unfoldable pub get_last_action : ℕ → String → List EmarePoint → Option EmarePoint
get_last_action user_id action rows = latest (λ r. r.user_id == user_id && r.action == action) rows

-- A user with the sum of the points that are not claimed, one pair for each such user.
unfoldable pub get_unclaimed_users : List EmarePoint → Dict ℕ ℕ
get_unclaimed_users [] = []
get_unclaimed_users (r ∷ rs) =
    let rest = get_unclaimed_users rs in
    if r.is_claimed then rest else elim (Dict.get r.user_id rest) [
      | none ↦ Dict.set r.user_id r.ep_amount rest
      | some n ↦ Dict.set r.user_id (r.ep_amount + n) rest
    ]

unfoldable pub mark_claimed : ℕ → (tx_hash : String) → List EmarePoint → List EmarePoint
mark_claimed user_id tx_hash [] = []
mark_claimed user_id tx_hash (r ∷ rs) =
    (if r.user_id == user_id && not r.is_claimed
      then record r { is_claimed = true; claim_tx_hash = some tx_hash }
      else r)
    ∷ mark_claimed user_id tx_hash rs
