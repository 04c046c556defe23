-- ===== src/Firewall/Tests.antt =====
-- Runs of the firewall manager, and its laws at concrete servers.
use emarecloud.Prelude.{
  String, ◌≡◌, refl, ◌⊎◌, inl, inr, true, false, Option, none, some, List, [], ◌∷◌, nat_eq,
  string_eq, pair_eq,
}
use Prim.Native.String.{◌++◌}
use emarecloud.Dict
use emarecloud.Integers.{pos}
use emarecloud.Text.{strip, lower, upper}
use emarecloud.Text.Split.{split_on}
use emarecloud.Firewall.Forms.Bounds.{IsAddress, all_address}
use emarecloud.Firewall.Quote.{sq}
use emarecloud.Firewall.Quote.Shell.{bare, read_word, read_word-sq}
use emarecloud.Firewall.Mq.{mq}
use emarecloud.Firewall.Validate.{
  validate_ip, validate_port, validate_protocol, validate_country, validate_rich_rule,
  validate_action,
}
use emarecloud.Firewall.Validate.Bounds.{validate_ip_bounds}
use emarecloud.Firewall.Program.{
  Reply, Kind, ufw, emareos, Caches, Program, done, raised, call, M, Outcome,
}
use emarecloud.Firewall.Program.Sends.{Sends}
use emarecloud.Firewall.Program.Ends.{AllEnds}
use emarecloud.Firewall.Detect.{detect_type}
use emarecloud.Firewall.Detect.Laws.{AnswersFrom, detect_type-again}
use emarecloud.Firewall.Block.{block_ip}
use emarecloud.Firewall.Block.Safety.{BlocksAddress, block_ip-Sends}
use emarecloud.Firewall.Rules.{Rule, add_rule}
use emarecloud.Firewall.Rules.Safety.{RuleCommand, add_rule-Sends}
use emarecloud.Firewall.Forward.{Forward}
use emarecloud.Firewall.Forward.Remove.{remove_port_forward}
use emarecloud.Firewall.Terse.{value_at}
use emarecloud.Firewall.Terse.Values.{value_at-mq}
use emarecloud.Firewall.Services.{
  toggle_rule, remove_service, set_default_zone, add_rich_rule, remove_rich_rule,
}
use emarecloud.Firewall.Network.{set_dns}
use emarecloud.Firewall.Freshness.Stale.{SameResults, changes_leave_results}

-- The commands that a program sends to a server with given replies, and how it ends.
abbrev transcript : {A : Type 0} → (String → Reply) → Program A → List String × Option A
transcript w (done c a) = ([], some a)
transcript w (raised c e) = ([], none)
transcript w (call s m k) = let (ms, r) = transcript w (k (w m)) in (m ∷ ms, r)

abbrev silent : String → Reply
silent m = record { ok = true; out = ""; err = "" }

abbrev known : Kind → Caches
known k = record {
  service = none;
  kinds = ("srv", some k) ∷ [];
  statuses = ("srv", "active") ∷ ("db", "idle") ∷ [];
  l7s = ("srv", "waf") ∷ [];
}

block_on_ufw :
    transcript silent (block_ip "srv" " 10.0.0.7 " "" (known ufw))
    ≡ ("sudo ufw deny from 10.0.0.7 2>&1" ∷ [], some (true, "10.0.0.7 engellendi."))
unfolding block_ip emarecloud.Firewall.Program.modify Dict.get validate_ip emarecloud.Text.is_empty
    strip emarecloud.Firewall.Forms.is_ip split_on sq emarecloud.Firewall.Quote.all_safe
    emarecloud.Firewall.Quote.is_safe emarecloud.Text.Digits.is_digit
block_on_ufw = refl

block_on_emareos : transcript silent (block_ip "srv" "10.0.0.7" "scan" (known emareos)) ≡ (
  "/emare firewall blocklist add list=blocked address=10.0.0.7 comment=\"blocked by emare-security-os: scan\""
      ∷ "/emare firewall rules print terse without-paging where src-blocklist=blocked action=drop"
      ∷ "/emare firewall rules add chain=input action=drop src-blocklist=blocked comment=\"emare-security-os: drop blocked\""
      ∷ [],
  some (true, "10.0.0.7 Emare engel listesi'e eklendi."),
)
unfolding block_ip emarecloud.Firewall.Program.modify Dict.get validate_ip emarecloud.Text.is_empty
    strip emarecloud.Firewall.Forms.is_ip split_on mq emarecloud.Lists.Filter.any
    emarecloud.Text.prefix emarecloud.Text.Digits.is_digit
block_on_emareos = refl

injection_is_refused :
    transcript silent (block_ip "srv" "10.0.0.7; reboot" "" (known ufw))
    ≡ ([], some (false, "Geçersiz IP formatı: 10.0.0.7; reboot"))
unfolding block_ip emarecloud.Firewall.Program.modify Dict.get validate_ip emarecloud.Text.is_empty
    strip emarecloud.Firewall.Forms.is_ip split_on emarecloud.Text.Digits.is_digit
injection_is_refused = refl

-- A line break behind a comma passes the check of ports, and its quoting for Emare OS raises out of the operation.
abbrev two_lines : Rule
two_lines = record {
  port = "80,\n443";
  protocol = "tcp";
  action = "allow";
  from_ip = "";
  to_port = "";
}

line_break_raises : transcript silent (add_rule "srv" two_lines (known emareos)) ≡ ([], none)
unfolding add_rule emarecloud.Firewall.Program.modify Dict.get validate_port
    emarecloud.Text.is_empty strip split_on emarecloud.Firewall.Forms.is_port
    emarecloud.Text.Split.digit_runs emarecloud.Text.Split.decimal validate_protocol
    emarecloud.Lists.Members.is_in lower validate_action mq emarecloud.Lists.Filter.any
    emarecloud.Text.Digits.digit_value
line_break_raises = refl

-- A list of name servers with spaces is sent without quotes.
dns_with_space :
    transcript silent (set_dns "srv" (some "1.1.1.1, 8.8.8.8") none (known emareos)) ≡ (
      "/emare dns config set servers=1.1.1.1, 8.8.8.8" ∷ [],
      some (true, "DNS ayarları güncellendi."),
    )
unfolding set_dns Dict.get split_on strip
dns_with_space = refl

checks :
    (validate_port "22,8000-9000/tcp" ≡ inr "22,8000-9000/tcp")
    × (validate_port "70000" ≡ inl "Port 1-65535 arasında olmalı: 70000")
    × (validate_rich_rule "accept & reboot" ≡ inr "accept & reboot")
    × (validate_country "tr" ≡ inr "TR")
unfolding validate_port emarecloud.Text.is_empty strip split_on emarecloud.Firewall.Forms.is_port
    emarecloud.Text.Split.digit_runs emarecloud.Text.Split.decimal validate_rich_rule
    validate_country emarecloud.Firewall.Forms.is_country upper emarecloud.Text.Digits.digit_value
checks = (refl, refl, refl, refl)

quotes : (sq "a'b" ≡ "'a'\"'\"'b'") × (mq "a\"b" ≡ inr "\"a\\\"b\"") × (mq "[find]" ≡ inr "[find]")
unfolding sq emarecloud.Text.is_empty emarecloud.Firewall.Quote.all_safe
    emarecloud.Firewall.Quote.is_safe mq emarecloud.Lists.Filter.any
quotes = (refl, refl, refl)

read_word-sq_example :
    read_word bare (sq "it's $HOME; rm" ++ " 2>&1") ≡ some ("it's $HOME; rm", " 2>&1")
unfolding read_word
read_word-sq_example = read_word-sq "it's $HOME; rm" " 2>&1" refl

-- The form takes the digits of every script, and the quoting puts such an address between quotes.
validate_ip_bounds_example :
    ("10.0.३.7/24" ≡ strip " 10.0.३.7/24")
    × IsAddress (split_on 47 "10.0.३.7/24")
    × (all_address "10.0.३.7/24" ≡ true)
    × ((sq "10.0.३.7/24" ≡ "10.0.३.7/24") ⊎ (sq "10.0.३.7/24" ≡ "'" ++ ("10.0.३.7/24" ++ "'")))
    × (mq "10.0.३.7/24" ≡ inr "10.0.३.7/24")
unfolding validate_ip emarecloud.Text.is_empty strip emarecloud.Firewall.Forms.is_ip split_on
    emarecloud.Text.Digits.is_digit
validate_ip_bounds_example = validate_ip_bounds " 10.0.३.7/24" "10.0.३.7/24" refl

block_ip-Sends_example :
    Sends (BlocksAddress "srv" "10.0.0.7" "scan") (block_ip "srv" "10.0.0.7" "scan")
block_ip-Sends_example = block_ip-Sends "srv" "10.0.0.7" "scan"

abbrev web : Rule
web = record {
  port = "443";
  protocol = "tcp";
  action = "allow";
  from_ip = "10.0.0.0/8";
  to_port = "8443";
}

add_rule-Sends_example : Sends (RuleCommand "srv" web) (add_rule "srv" web)
add_rule-Sends_example = add_rule-Sends "srv" web

abbrev forward : Forward
forward = record { port = "443"; to_port = "8443"; to_addr = "10.0.0.9"; protocol = "tcp" }

changes_leave_results_example :
    AllEnds (SameResults "srv" (known emareos)) (toggle_rule "srv" (pos 3) false (known emareos))
    × AllEnds (SameResults "srv" (known emareos)) (remove_service "srv" "http" (known emareos))
    × AllEnds (SameResults "srv" (known emareos)) (set_default_zone "srv" "http" (known emareos))
    × AllEnds (SameResults "srv" (known emareos)) (add_rich_rule "srv" "http" (known emareos))
    × AllEnds (SameResults "srv" (known emareos)) (remove_rich_rule "srv" "http" (known emareos))
changes_leave_results_example =
    changes_leave_results "srv" "http" "srv" (pos 3) false (known emareos)

detect_type-again_example : AnswersFrom "web" (detect_type "web" (known ufw))
detect_type-again_example = detect_type-again "web" (known ufw)

-- The rule of a port is looked up, and the first one that is printed is removed.
abbrev prints_rule : String → Reply
prints_rule m = record { ok = true; out = "3 a=1"; err = "" }

rule_is_removed : transcript prints_rule (remove_port_forward "srv" forward (known emareos)) ≡ (
  "/emare firewall nat print terse without-paging where chain=dstnat dst-port=443 protocol=tcp"
      ∷ "/emare firewall nat remove numbers=3" ∷ [],
  some (true, "3 a=1"),
)
unfolding remove_port_forward emarecloud.Firewall.Program.modify Dict.get validate_port
    emarecloud.Text.is_empty strip split_on emarecloud.Firewall.Forms.is_port
    emarecloud.Text.Split.digit_runs emarecloud.Text.Split.decimal validate_protocol
    emarecloud.Lists.Members.is_in lower mq emarecloud.Lists.Filter.any
    emarecloud.Firewall.Terse.parse_emareos_terse emarecloud.Firewall.Terse.bare_value Dict.set
    emarecloud.Text.is_space emarecloud.Text.lstrip emarecloud.Text.Decimal.int_text
    emarecloud.Text.Digits.digit_value
rule_is_removed = refl

-- A double quote is not read back: the reader keeps the backslash before it.
quote_is_kept : (value_at "\"a\\\"b\"").0 ≡ "a\\\"b"
unfolding value_at
quote_is_kept = refl

value_at-mq_example : (value_at ("\"a b\"" ++ " port=80")).0 ≡ "a b"
unfolding emarecloud.Lists.Filter.any emarecloud.Text.is_space emarecloud.Firewall.Terse.bare_value
    mq emarecloud.Text.is_empty
value_at-mq_example = value_at-mq "a b" "\"a b\"" " port=80" refl refl refl
