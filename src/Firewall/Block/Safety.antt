-- ===== src/Firewall/Block/Safety.antt =====
-- What is sent to block an address.
use emarecloud.Firewall.Block.{Kind}
use emarecloud.Firewall.Program.Sends.{Sends-bind-lift}
use emarecloud.Firewall.Block.{block_emareos}
use emarecloud.Firewall.Block.{block_ip}
use emarecloud.Firewall.Block.{block_with}
use emarecloud.Firewall.Block.{ensure_drops}
use emarecloud.Prelude.{String, ◌≡◌, refl, ap, inr, Option, none, some, nat_eq, string_eq, pair_eq}
use Prim.Native.String.{◌++◌}
use emarecloud.Firewall.Quote.{sq}
use emarecloud.Firewall.Mq.{mq}
use emarecloud.Firewall.Validate.{validate_ip}
use emarecloud.Firewall.Validate.Bounds.{mq-eq_of_validate_ip}
use emarecloud.Firewall.Program.{Kind, ufw, firewalld, emareos}
use emarecloud.Firewall.Program.Sends.{
  Sends, sends_rules, Sends-pure, Sends-bind, Sends-bind-lift, Sends-with_valid, Sends-weaken,
}
use emarecloud.Firewall.Detect.{detect_type}
use emarecloud.Firewall.Detect.Laws.{IsQuestion, invalidate_cache-Sends, detect_type-Sends}
use emarecloud.Firewall.Change.{reload, change_and_reload}
use emarecloud.Firewall.Block.{
  drop_rule, list_drops, add_drops, block_comment, add_blocked, ensure_drops, block_emareos,
  block_with, block_ip,
}

-- What may be sent to block an address that the check accepts: the address stands quoted in the command of ufw, in the
-- quoted rule of firewalld, or bare in the command of Emare OS.
pub data BlocksAddress (server ip reason : String) : String → String → Type 0 where
  question : {s m : String} → IsQuestion server s m → BlocksAddress server ip reason s m
  by_ufw :
      {v m : String}
      → validate_ip ip ≡ inr v
      → m ≡ "sudo ufw deny from " ++ (sq v ++ " 2>&1")
      → BlocksAddress server ip reason server m
  by_firewalld :
      {v m : String}
      → validate_ip ip ≡ inr v
      → m ≡ "sudo firewall-cmd --permanent --add-rich-rule=" ++ (sq (drop_rule v) ++ " 2>&1")
      → BlocksAddress server ip reason server m
  reloads : {v : String} → validate_ip ip ≡ inr v → BlocksAddress server ip reason server reload
  by_emareos :
      {v c m : String}
      → validate_ip ip ≡ inr v
      → mq (block_comment reason) ≡ inr c
      → m ≡ add_blocked v c
      → BlocksAddress server ip reason server m
  lists : {v : String} → validate_ip ip ≡ inr v → BlocksAddress server ip reason server list_drops
  drops : {v : String} → validate_ip ip ≡ inr v → BlocksAddress server ip reason server add_drops

module _ (s ip reason v : String) (h : validate_ip ip ≡ inr v) where
  change_and_reload-Sends :
      (m d : String)
      → BlocksAddress s ip reason s m
      → Sends (BlocksAddress s ip reason) (change_and_reload s m d)
  unfolding change_and_reload
  change_and_reload-Sends m d b = search (sends_rules, b, reloads h)

  ensure_drops-Sends : Sends (BlocksAddress s ip reason) (ensure_drops s v)
  unfolding ensure_drops
  ensure_drops-Sends = search (sends_rules, lists h, drops h)

  block_emareos-Sends : Sends (BlocksAddress s ip reason) (block_emareos s v reason)
  unfolding block_emareos
  block_emareos-Sends = Sends-bind-lift (mq v) _ λ a bare.
      Sends-bind-lift (mq (block_comment reason)) _ λ c quoted.
        let same : a ≡ v = mq-eq_of_validate_ip ip v a h bare in
        let b : BlocksAddress s ip reason s (add_blocked a c) =
          by_emareos h quoted (ap (λ x. add_blocked x c) same) in
        search (sends_rules, ensure_drops-Sends, b)

  block_with-Sends : (k : Option Kind) → Sends (BlocksAddress s ip reason) (block_with k s v reason)
  unfolding block_with
  block_with-Sends (some ufw) =
      let b : BlocksAddress s ip reason s ("sudo ufw deny from " ++ (sq v ++ " 2>&1")) =
        by_ufw h refl in
      search (sends_rules, b)
  block_with-Sends (some firewalld) = change_and_reload-Sends _ _ (by_firewalld h refl)
  block_with-Sends (some emareos) = block_emareos-Sends
  block_with-Sends none = Sends-pure _

-- Whatever a server replies, `block_ip` sends commands to that server alone: the questions of
-- detection; and, only if the check accepts the address, the commands that block it, in which it
-- stands quoted for the shell, in the quoted rule, or, on Emare OS, as it is.
pub block_ip-Sends :
    (s ip reason : String) → Sends (BlocksAddress s ip reason) (block_ip s ip reason)
unfolding block_ip
block_ip-Sends s ip reason =
    let asks : Sends (BlocksAddress s ip reason) (detect_type s) =
      Sends-weaken (detect_type s) (λ t m q. question q) (detect_type-Sends s) in
    Sends-bind _ _ (invalidate_cache-Sends s) λ u.
      Sends-bind _ _ asks
        λ k. Sends-with_valid (validate_ip ip) _ λ v h. block_with-Sends s ip reason v h k
