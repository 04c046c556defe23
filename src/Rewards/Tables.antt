-- ===== src/Rewards/Tables.antt =====
-- The tables of the reward engine (blockchain/reward_engine.py).
use emarecloud.Prelude.{ℕ, String, [], ◌∷◌, nat_eq, string_eq, pair_eq}
use emarecloud.Dict.{Dict}

-- `EP_REWARDS`
abbrev pub ep_rewards : Dict String ℕ
ep_rewards =
    ("subscription_payment", 100)
    ∷ ("marketplace_purchase", 50)
    ∷ ("resource_upgrade", 75)
    ∷ ("server_added", 20)
    ∷ ("template_shared", 200)
    ∷ ("bug_report", 50)
    ∷ ("uptime_99_monthly", 150)
    ∷ ("monitoring_alert_setup", 10)
    ∷ ("backup_configured", 15)
    ∷ ("ai_app_installed", 30)
    ∷ ("stack_builder_used", 50)
    ∷ ("ai_stack_completed", 100)
    ∷ ("ai_assistant_used", 5)
    ∷ ("app_published_market", 300)
    ∷ ("ai_model_deployed", 75)
    ∷ ("referral_signup", 500)
    ∷ ("referral_paid", 1000)
    ∷ ("product_listed", 30)
    ∷ ("product_sale", 100)
    ∷ ("five_star_review", 25)
    ∷ []

-- `DAILY_EP_LIMIT`
abbrev pub daily_ep_limit : ℕ
daily_ep_limit = 5000

-- `ACTION_COOLDOWNS`, in seconds
abbrev pub action_cooldowns : Dict String ℕ
action_cooldowns =
    ("server_added", 300)
    ∷ ("template_shared", 3600)
    ∷ ("product_listed", 600)
    ∷ ("ai_app_installed", 120)
    ∷ ("ai_assistant_used", 30)
    ∷ ("stack_builder_used", 300)
    ∷ []
