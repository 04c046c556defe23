-- ===== src/Rewards/Claims.antt =====
-- What the claims of points keep: no point is lost, made or claimed twice.
use emarecloud.Prelude.{
  ℕ, ◌+◌, ◌≤◌, String, ◌≡◌, refl, ◌∙◌, inl, inr, Bool, true, false, not, ◌&&◌, Option, none, some,
  List, [], ◌∷◌, arith, Bool-cases, ◌==◌, nat_eq, string_eq, pair_eq,
}
use emarecloud.Dict.{Dict}
use emarecloud.Text.{is_empty}
use emarecloud.Rewards.Points.{
  EmarePoint, sum_ep, get_total_ep, get_unclaimed_ep, get_claimed_ep, get_unclaimed_users,
  mark_claimed,
}
use emarecloud.Rewards.Engine.{
  UserWallet, primary_wallet, mark_answered, claim_at, process_one, process_all,
  process_pending_claims,
}

-- The points of a user are those claimed and those not.
pub get_total_ep_splits :
    (user : ℕ) (rows : List EmarePoint)
    → get_total_ep user rows ≡ get_claimed_ep user rows + get_unclaimed_ep user rows
unfolding get_total_ep get_claimed_ep get_unclaimed_ep sum_ep
get_total_ep_splits user [] = refl
get_total_ep_splits user (r ∷ rows) = ground (arith, get_total_ep_splits user rows)

-- What a user may find changed in the rows: no point lost or made, and none taken back.
abbrev pub IsKept : ℕ → (rows rows' : List EmarePoint) → Type 0
IsKept user rows rows' =
    (get_total_ep user rows' ≡ get_total_ep user rows)
    × (get_claimed_ep user rows ≤ get_claimed_ep user rows')

mark_claimed-IsKept :
    (user user_id : ℕ) (tx_hash : String) (rows : List EmarePoint)
    → IsKept user rows (mark_claimed user_id tx_hash rows)
unfolding mark_claimed get_total_ep get_claimed_ep sum_ep
mark_claimed-IsKept user user_id tx_hash [] = (refl, omega arith)
mark_claimed-IsKept user user_id tx_hash (r ∷ rows) =
    let (a, b) = mark_claimed-IsKept user user_id tx_hash rows in
    elim (Bool-cases (r.user_id == user_id && not r.is_claimed)) [
      | inl q ↦ (ground (arith, a, q), ground (arith, b, q))
      | inr q ↦ (ground (arith, a, q), ground (arith, b, q))
    ]

mark_answered-IsKept :
    (user user_id : ℕ) (answer : Option String) (rows : List EmarePoint)
    → IsKept user rows (mark_answered user_id answer rows).1
unfolding mark_answered
mark_answered-IsKept user user_id none rows = (refl, omega arith)
mark_answered-IsKept user user_id (some tx_hash) rows = elim (Bool-cases (is_empty tx_hash)) [
  | inl q ↦ rw q (refl, omega arith)
  | inr q ↦ rw q (mark_claimed-IsKept user user_id tx_hash rows)
]

module _ (oracle : (address : String) (ep_amount : ℕ) (claim_type : String) → Option String)
    (wallets : List UserWallet) where
  claim_at-IsKept :
      (user : ℕ) (wallet : Option String) (user_id total : ℕ) (rows : List EmarePoint)
      → IsKept user rows (claim_at oracle wallets wallet user_id total rows).1
  unfolding claim_at
  claim_at-IsKept user none user_id total rows = (refl, omega arith)
  claim_at-IsKept user (some address) user_id total rows =
      mark_answered-IsKept user user_id (oracle address total "cashback") rows

  process_one-IsKept :
      (user : ℕ) (u : ℕ × ℕ) (rows : List EmarePoint)
      → IsKept user rows (process_one oracle wallets u rows).1
  unfolding process_one
  process_one-IsKept user (user_id, total) rows =
      claim_at-IsKept user (primary_wallet user_id wallets) user_id total rows

  process_all-IsKept :
      (user : ℕ) (us : Dict ℕ ℕ) (rows : List EmarePoint)
      → IsKept user rows (process_all oracle wallets us rows).1
  unfolding process_all
  process_all-IsKept user [] rows = (refl, omega arith)
  process_all-IsKept user (u ∷ us) rows =
      let (a, b) = process_one-IsKept user u rows in
      let (c, d) = process_all-IsKept user us (process_one oracle wallets u rows).1 in
      (c ∙ a, omega (arith, b, d))

  -- Whatever the chain answers, a run of the claims keeps the points of each user, and no claimed
  -- point becomes free again.
  pub process_pending_claims-IsKept :
      (is_available : Bool) (user : ℕ) (rows : List EmarePoint)
      → IsKept user rows (process_pending_claims oracle wallets is_available rows).1
  unfolding process_pending_claims
  process_pending_claims-IsKept false user rows = (refl, omega arith)
  process_pending_claims-IsKept true user rows =
      process_all-IsKept user (get_unclaimed_users rows) rows
