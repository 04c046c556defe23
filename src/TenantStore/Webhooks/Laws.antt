-- ===== src/TenantStore/Webhooks/Laws.antt =====
-- The circuit that switches a failing hook off.
use emarecloud.Prelude.{
  ℕ, zero, suc, ◌+◌, String, ◌≡◌, false, ◌&&◌, some, arith, ltb, leb, if◌then◌else◌, nat_eq,
  string_eq, pair_eq,
}
use emarecloud.Dict
use emarecloud.Dict.Laws.{get-set}
use emarecloud.TenantStore.State.{Webhook, Store}
use emarecloud.TenantStore.Webhooks.{delivered, update_webhook_status}

-- `n` failed deliveries to one hook, the i-th at `now i`.
abbrev pub failures : (webhook_id : ℕ) → ℕ → (ℕ → String) → Store → Store
failures webhook_id zero now s = s
failures webhook_id (suc n) now s =
    update_webhook_status webhook_id false (now n) (failures webhook_id n now s)

abbrev pub FailedTimes : Webhook → ℕ → Webhook → Type 0
FailedTimes w n w' =
    (w'.fail_count ≡ w.fail_count + n)
    × (w'.active ≡ (if leb 10 (w.fail_count + n) && ltb 0 n then false else w.active))
    × (w'.last_triggered ≡ w.last_triggered)

failure_step :
    (w u : Webhook) (n : ℕ) (now : String)
    → FailedTimes w n u
    → FailedTimes w (suc n) (delivered false now u)
unfolding delivered
failure_step w u n now h = ground arith

update_failed :
    (k : ℕ) (w : Webhook) (now : String) (s : Store)
    → Dict.get k s.webhooks ≡ some w
    → Dict.get k (update_webhook_status k false now s).webhooks ≡ some (delivered false now w)
unfolding update_webhook_status
update_failed k w now s e = ground (arith, get-set k k (delivered false now w) s.webhooks)

-- A hook that is found and fails n times in a row counts them all, keeps its time of delivery and
-- is switched off once its count has reached ten.
pub update_webhook_status_switches_off :
    (k : ℕ) (w : Webhook) (n : ℕ) (now : ℕ → String) (s : Store)
    → Dict.get k s.webhooks ≡ some w
    → (u : Webhook) × (Dict.get k (failures k n now s).webhooks ≡ some u) × FailedTimes w n u
update_webhook_status_switches_off k w zero now s e = (w, e, ground arith)
update_webhook_status_switches_off k w (suc n) now s e =
    let (u, found, count) = update_webhook_status_switches_off k w n now s e in
    (
      delivered false (now n) u,
      update_failed k u (now n) (failures k n now s) found,
      failure_step w u n (now n) count,
    )
