-- ===== src/Rewards/Tests.antt =====
-- Runs of the reward engine, and its laws at concrete rows.
use emarecloud.Prelude.{
  ℕ, ◌+◌, String, ◌≡◌, refl, true, Option, none, some, List, [], ◌∷◌, arith, nat_eq, string_eq,
  pair_eq,
}
use emarecloud.Dict
use emarecloud.Rewards.Points.{EmarePoint, get_total_ep, get_claimed_ep, get_unclaimed_ep}
use emarecloud.Rewards.Engine.{
  Award, new_point, award_amount, award_ep, UserWallet, process_pending_claims,
}
use emarecloud.Rewards.Laws.{IsLimited, award_ep-IsLimited}
use emarecloud.Rewards.Claims.{get_total_ep_splits}

abbrev earlier : List EmarePoint
earlier =
    new_point 7 "server_added" 20 "{}" 1000000000 ∷ new_point 8 "bug_report" 50 "{}" 1200000000 ∷ []

abbrev granted : Award
granted = record { ep_awarded = 20; total_ep = 40; action = "server_added"; claim_type = "work" }

award_again : (award_ep true 7 "server_added" "{}" 1300000000 earlier).0 ≡ some granted
unfolding award_ep emarecloud.Rewards.Engine.award_listed Dict.get award_amount
    emarecloud.Rewards.Points.get_daily_total emarecloud.Rewards.Points.sum_ep
    emarecloud.Rewards.Engine.is_cooling emarecloud.Rewards.Points.get_last_action
    emarecloud.Rewards.Points.latest get_total_ep emarecloud.Rewards.Engine.get_claim_type
    emarecloud.Lists.Members.is_in
award_again = refl

award_too_soon : (award_ep true 7 "server_added" "{}" 1299999999 earlier).0 ≡ none
unfolding award_ep emarecloud.Rewards.Engine.award_listed Dict.get award_amount
    emarecloud.Rewards.Points.get_daily_total emarecloud.Rewards.Points.sum_ep
    emarecloud.Rewards.Engine.is_cooling emarecloud.Rewards.Points.get_last_action
    emarecloud.Rewards.Points.latest
award_too_soon = refl

earlier-IsLimited : IsLimited []
unfolding emarecloud.Rewards.Points.get_daily_total emarecloud.Rewards.Points.sum_ep
earlier-IsLimited user day = ground arith

award_ep-IsLimited_example : IsLimited (award_ep true 7 "referral_paid" "{}" 5 []).1
award_ep-IsLimited_example = award_ep-IsLimited true 7 "referral_paid" "{}" 5 [] earlier-IsLimited

get_total_ep_splits_example :
    get_total_ep 7 earlier ≡ get_claimed_ep 7 earlier + get_unclaimed_ep 7 earlier
get_total_ep_splits_example = get_total_ep_splits 7 earlier

abbrev wallet : UserWallet
wallet = record { user_id = 7; wallet_address = "0x7"; is_primary = true }

abbrev oracle : String → ℕ → String → Option String
oracle address ep claim_type = some "0xabc"
