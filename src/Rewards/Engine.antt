-- ===== src/Rewards/Engine.antt =====
-- The award of points and their claims on the chain (`RewardEngine`, blockchain/reward_engine.py). The
-- clock and the JSON text of the metadata are arguments.
use emarecloud.Prelude.{
  ℕ, ◌+◌, ◌*◌, String, Bool, true, false, ◌&&◌, Option, none, some, List, [], ◌∷◌, ◌++◌, ltb,
  if◌then◌else◌, ◌==◌, nat_eq, string_eq, pair_eq,
}
use emarecloud.Dict
use emarecloud.Dict.{Dict}
use emarecloud.Text.{is_empty}
use emarecloud.Lists.{is_in}
use emarecloud.Rewards.Tables.{ep_rewards, daily_ep_limit, action_cooldowns}
use emarecloud.Rewards.Points.{
  EmarePoint, get_total_ep, get_unclaimed_ep, get_claimed_ep, get_daily_total, get_last_action,
  get_unclaimed_users, mark_claimed,
}

-- `_get_claim_type`
unfoldable pub get_claim_type : String → String
get_claim_type action =
    if is_in action ("subscription_payment" ∷ "marketplace_purchase" ∷ "resource_upgrade" ∷ [])
    then "cashback"
    else if is_in action ("product_listed" ∷ "product_sale" ∷ "five_star_review" ∷ [])
    then "marketplace"
    else if is_in action (
        "ai_app_installed" ∷ "stack_builder_used" ∷ "ai_stack_completed" ∷ "ai_assistant_used"
        ∷ "app_published_market" ∷ "ai_model_deployed" ∷ [])
    then "ai_work"
    else "work"

pub record Award : Type 0 where
  pub ep_awarded : ℕ
  pub total_ep : ℕ
  pub action : String
  pub claim_type : String

abbrev pub new_point : ℕ → (action : String) → ℕ → (metadata_json : String) (now : ℕ) → EmarePoint
new_point user_id action ep metadata_json now = record {
  user_id = user_id;
  action = action;
  ep_amount = ep;
  claim_type = get_claim_type action;
  is_claimed = false;
  claim_tx_hash = none;
  metadata_json = metadata_json;
  created_at = now;
}

-- Whether the last row of an action is so recent that the action does not count again.
unfoldable pub is_cooling : String → (now : ℕ) → Option EmarePoint → Bool
is_cooling action now none = false
is_cooling action now (some last_action) = elim (Dict.get action action_cooldowns) [
  | none ↦ false
  | some seconds ↦ ltb now (last_action.created_at + seconds * 1000000)
]

-- The part of `award_ep` behind the look-up of the reward.
unfoldable pub award_amount :
    ℕ
    → (action : String) → ℕ
    → (metadata_json : String) (now : ℕ) → List EmarePoint
    → Option Award × List EmarePoint
award_amount user_id action ep metadata_json now rows =
    let point = new_point user_id action ep metadata_json now in
    let rows' = rows ++ point ∷ [] in
    if ltb daily_ep_limit (get_daily_total user_id now rows + ep)
    then (none, rows)
    else if is_cooling action now (get_last_action user_id action rows)
    then (none, rows)
    else (
      some (record {
        ep_awarded = ep;
        total_ep = get_total_ep user_id rows';
        action = action;
        claim_type = get_claim_type action;
      }),
      rows',
    )

-- The outcome by the reward that the table has for the action, and by whether there is a database.
unfoldable pub award_listed :
    Option ℕ
    → (has_db : Bool) → ℕ
    → (action metadata_json : String) (now : ℕ) → List EmarePoint
    → Option Award × List EmarePoint
award_listed none has_db user_id action metadata_json now rows = (none, rows)
award_listed (some ep) false user_id action metadata_json now rows = (none, rows)
award_listed (some ep) true user_id action metadata_json now rows =
    award_amount user_id action ep metadata_json now rows

unfoldable pub award_ep :
    (has_db : Bool)
    → ℕ
    → (action metadata_json : String) (now : ℕ) → List EmarePoint
    → Option Award × List EmarePoint
award_ep has_db user_id action metadata_json now rows =
    award_listed (Dict.get action ep_rewards) has_db user_id action metadata_json now rows

pub record UserWallet : Type 0 where
  pub user_id : ℕ
  pub wallet_address : String
  pub is_primary : Bool

-- The address of the first primary wallet of a user.
unfoldable pub primary_wallet : ℕ → List UserWallet → Option String
primary_wallet user_id [] = none
primary_wallet user_id (w ∷ ws) =
    if w.user_id == user_id && w.is_primary
    then some w.wallet_address
    else primary_wallet user_id ws

-- The rows behind the answer to a claim: no hash, or an empty one, leaves them as they are.
unfoldable pub mark_answered : ℕ → Option String → List EmarePoint → ℕ × List EmarePoint
mark_answered user_id none rows = (0, rows)
mark_answered user_id (some tx_hash) rows =
    if is_empty tx_hash then (0, rows) else (1, mark_claimed user_id tx_hash rows)

module _
    (oracle_claim_reward : (address : String) (ep_amount : ℕ) (claim_type : String) → Option String)
    (wallets : List UserWallet) where
  -- The claim of a user's points at a wallet; a user without one is passed over.
  unfoldable pub claim_at :
      Option String → ℕ → (total_ep : ℕ) → List EmarePoint → ℕ × List EmarePoint
  unfolding mark_answered
  claim_at none user_id total_ep rows = (0, rows)
  claim_at (some address) user_id total_ep rows =
      mark_answered user_id (oracle_claim_reward address total_ep "cashback") rows

  -- The body of the loop for one user: the number of claims processed, and the rows.
  unfoldable pub process_one : ℕ × ℕ → List EmarePoint → ℕ × List EmarePoint
  unfolding claim_at primary_wallet
  process_one (user_id, total_ep) rows =
      claim_at (primary_wallet user_id wallets) user_id total_ep rows

  unfoldable pub process_all : Dict ℕ ℕ → List EmarePoint → ℕ × List EmarePoint
  unfolding process_one
  process_all [] rows = (0, rows)
  process_all (u ∷ us) rows =
      let (n, rows') = process_one u rows in
      let (m, rows'') = process_all us rows' in (n + m, rows'')

  unfoldable pub process_pending_claims :
      (is_available : Bool) → List EmarePoint → ℕ × List EmarePoint
  unfolding process_all
  process_pending_claims is_available rows =
      if is_available then process_all (get_unclaimed_users rows) rows else (0, rows)

pub record Summary : Type 0 where
  pub total_ep : ℕ
  pub unclaimed_ep : ℕ
  pub claimed_ep : ℕ
  pub daily_earned : ℕ
  pub daily_limit : ℕ

-- `get_user_ep_summary`, without the table of rewards that it passes on.
unfoldable pub get_user_ep_summary : ℕ → (now : ℕ) → List EmarePoint → Summary
get_user_ep_summary user_id now rows = record {
  total_ep = get_total_ep user_id rows;
  unclaimed_ep = get_unclaimed_ep user_id rows;
  claimed_ep = get_claimed_ep user_id rows;
  daily_earned = get_daily_total user_id now rows;
  daily_limit = daily_ep_limit;
}
