-- ===== src/Firewall/Block.antt =====
-- Addresses that are blocked (`block_ip` and `unblock_ip`), by the kind of firewall.
pub mod Safety
use emarecloud.Prelude.{
  ℕ, zero, suc, ◌+◌, ◌-◌, ◌*◌, ◌/◌, ◌%◌, ◌≤◌, ◌<◌, min, max, String, ◌≡◌, refl, sym, ap, ◌∙◌, ◌≢◌,
  ◌↔◌, ◌⊎◌, inl, inr, Bool, true, false, not, ◌&&◌, ◌||◌, Option, none, some, List, [], ◌∷◌, map,
  reverse, arith, eq_iff, ltb, leb, nat_beq, if◌then◌else◌, is_some, nat_beq_iff, ltb→lt, leb→le,
  Bool-cases, Option-cases, Eq, ◌==◌, nat_eq, string_eq, pair_eq, pair_beq,
}
use Prim.Native.String.{◌++◌}
use emarecloud.Text.{is_empty, lower, prefix, strip}
use emarecloud.Text.Split.{occurs}
use emarecloud.Firewall.Quote.{sq}
use emarecloud.Firewall.Validate.{Checked, validate_ip}
use emarecloud.Firewall.Mq.{mq}
use emarecloud.Firewall.Program.{
  Reply, Kind, ufw, firewalld, emareos, Caches, M, Outcome, ◌>>=◌, ◌>>◌, pure, gets, modify, exec,
  lift, with_valid, or_text, said, outcome,
}
use emarecloud.Firewall.Change.{unsupported, change_and_reload, change}
use emarecloud.Firewall.Detect.{invalidate_cache, detect_type}

abbrev pub drop_rule : (ip : String) → String
drop_rule ip = "rule family='ipv4' source address='" ++ (ip ++ "' drop")

abbrev pub list_drops : String
list_drops =
    "/emare firewall rules print terse without-paging where src-blocklist=blocked action=drop"

abbrev pub add_drops : String
add_drops =
    "/emare firewall rules add chain=input action=drop src-blocklist=blocked comment=\"emare-security-os: drop blocked\""

abbrev pub block_comment : (reason : String) → String
block_comment reason =
    if is_empty reason
    then "blocked by emare-security-os"
    else "blocked by emare-security-os: " ++ prefix 64 reason

abbrev pub add_blocked : (address comment : String) → String
add_blocked address comment =
    "/emare firewall blocklist add list=blocked address=" ++ (address ++ (" comment=" ++ comment))

-- The rule that drops what the list holds is added where none is listed.
unfoldable pub ensure_drops : (server : String) (ip : String) → M Outcome
unfolding exec pure ◌>>=◌
ensure_drops s ip = do
  r ← exec s list_drops
  if is_empty (strip r.out) || not (occurs "src-blocklist=blocked" r.out)
      then exec s add_drops >> pure (true, ip ++ " Emare engel listesi'e eklendi.")
      else pure (true, ip ++ " Emare engel listesi'e eklendi.")

unfoldable pub block_emareos : (server ip reason : String) → M Outcome
unfolding exec pure lift ◌>>=◌ ensure_drops
block_emareos s ip reason = do
  address ← lift (mq ip)
  comment ← lift (mq (block_comment reason))
  r ← exec s (add_blocked address comment)
  if r.ok then ensure_drops s ip else pure (false, or_text (said r) "Address list'e eklenemedi.")

unfoldable pub block_with : Option Kind → (server ip reason : String) → M Outcome
unfolding exec pure ◌>>=◌ change_and_reload block_emareos
block_with (some ufw) s ip reason = do
  r ← exec s ("sudo ufw deny from " ++ (sq ip ++ " 2>&1"))
  pure (r.ok || occurs "added" (lower (said r)), or_text (said r) (ip ++ " engellendi."))
block_with (some firewalld) s ip reason =
    change_and_reload s
      ("sudo firewall-cmd --permanent --add-rich-rule=" ++ (sq (drop_rule ip) ++ " 2>&1"))
      (ip ++ " engellendi.")
block_with (some emareos) s ip reason = block_emareos s ip reason
block_with none s ip reason = pure unsupported

-- `block_ip`
unfoldable pub block_ip : (server ip reason : String) → M Outcome
unfolding ◌>>=◌ with_valid block_with invalidate_cache detect_type
block_ip s ip reason = do
  invalidate_cache s
  kind ← detect_type s
  with_valid (validate_ip ip) (λ v. block_with kind s v reason)

unfoldable pub unblock_with : Option Kind → (server ip : String) → M Outcome
unfolding pure lift ◌>>=◌ change change_and_reload
unblock_with (some ufw) s ip =
    change s ("sudo ufw delete deny from " ++ (sq ip ++ " 2>&1")) (ip ++ " engeli kaldırıldı.")
unblock_with (some firewalld) s ip =
    change_and_reload s
      ("sudo firewall-cmd --permanent --remove-rich-rule=" ++ (sq (drop_rule ip) ++ " 2>&1"))
      (ip ++ " engeli kaldırıldı.")
unblock_with (some emareos) s ip = do
  address ← lift (mq ip)
  change s ("/emare firewall blocklist remove [find address=" ++ (address ++ " list=blocked]"))
      (ip ++ " Emare engeli kaldırıldı.")
unblock_with none s ip = pure unsupported

-- `unblock_ip`
unfoldable pub unblock_ip : (server ip : String) → M Outcome
unfolding ◌>>=◌ with_valid unblock_with invalidate_cache detect_type
unblock_ip s ip = do
  invalidate_cache s
  kind ← detect_type s
  with_valid (validate_ip ip) (λ v. unblock_with kind s v)
