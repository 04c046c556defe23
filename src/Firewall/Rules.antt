-- ===== src/Firewall/Rules.antt =====
-- Rules for ports and services, and the switch of the firewall (`enable`, `disable`, `add_rule`, `add_service`,
-- `remove_service`, `toggle_rule`), by the kind of firewall.
pub mod Safety
use emarecloud.Prelude.{
  String, Bool, true, false, not, ◌&&◌, ◌||◌, Option, none, some, List, [], ◌∷◌, if◌then◌else◌,
  ◌==◌, nat_eq, string_eq, pair_eq,
}
use Prim.Native.String.{◌++◌}
use emarecloud.Dict
use emarecloud.Dict.{Dict}
use emarecloud.Text.{is_empty, lower, strip}
use emarecloud.Text.Split.{occurs, split_on}
use emarecloud.Firewall.Quote.{sq}
use emarecloud.Firewall.Mq.{mq}
use emarecloud.Firewall.Validate.{
  Checked, validate_ip, validate_port, validate_protocol, validate_action, emareos_actions,
}
use emarecloud.Firewall.Program.{
  Kind, ufw, firewalld, emareos, M, Outcome, ◌>>=◌, ◌>>◌, pure, exec, lift, with_valid, or_text,
  said, outcome,
}
use emarecloud.Firewall.Detect.{invalidate_cache, detect_type}
use emarecloud.Firewall.Change.{reload, unsupported, change_and_reload, change}

unfoldable pub enable_with : Option Kind → (server : String) → M Outcome
unfolding exec pure ◌>>=◌ change
enable_with (some ufw) s = do
  r ← exec s "echo 'y' | sudo ufw enable 2>&1"
  pure (
      if r.ok || occurs "already active" (lower (r.out ++ r.err))
      then (true, "UFW etkinleştirildi.")
      else (false, or_text (said r) "UFW etkinleştirilemedi"))
enable_with (some firewalld) s =
    change s "sudo systemctl start firewalld 2>&1 && sudo systemctl enable firewalld 2>&1"
      "firewalld başlatıldı."
enable_with (some emareos) s =
    change s "/emare firewall rules enable [find]" "Emare filter kuralları etkinleştirildi."
enable_with none s = pure unsupported

-- `enable`
unfoldable pub enable : (server : String) → M Outcome
unfolding ◌>>=◌ invalidate_cache detect_type enable_with
enable s = do invalidate_cache s; kind ← detect_type s; enable_with kind s

unfoldable pub disable_with : Option Kind → (server : String) → M Outcome
unfolding pure change
disable_with (some ufw) s = change s "sudo ufw disable 2>&1" "UFW devre dışı bırakıldı."
disable_with (some firewalld) s =
    change s "sudo systemctl stop firewalld 2>&1 && sudo systemctl disable firewalld 2>&1" ""
disable_with (some emareos) s =
    change s "/emare firewall rules disable [find]" "Emare filter kuralları devre dışı bırakıldı."
disable_with none s = pure unsupported

-- `disable`
unfoldable pub disable : (server : String) → M Outcome
unfolding ◌>>=◌ invalidate_cache detect_type disable_with
disable s = do invalidate_cache s; kind ← detect_type s; disable_with kind s

-- `value and value.strip()`
abbrev pub is_given : String → Bool
is_given value = not (is_empty (strip value))

-- A value that is checked where it is given.
unfoldable pub with_optional : (String → Checked) → String → (String → M Outcome) → M Outcome
unfolding with_valid
with_optional check value f = if is_given value then with_valid (check value) f else f value

-- The arguments of `add_rule` that its branches use.
pub record Rule : Type 0 where
  pub port : String
  pub protocol : String
  pub action : String
  pub from_ip : String
  pub to_port : String

abbrev pub has_redirect : Rule → Bool
has_redirect r = is_given r.to_port && not (strip r.to_port == strip r.port)

-- `port if "/" in port else f"{port}/{protocol}"`
abbrev pub port_spec : Rule → String
port_spec r = if occurs "/" r.port then r.port else r.port ++ ("/" ++ r.protocol)

abbrev pub redirected : (front : String) → Rule → String
redirected front r = front ++ (r.port ++ (" → iç port " ++ (r.to_port ++ " yönlendirme eklendi.")))

unfoldable pub redirect_ufw : (server : String) → Rule → M Outcome
unfolding exec pure ◌>>=◌
redirect_ufw s a = do
  r ← exec s (
      "sudo iptables -t nat -A PREROUTING -p "
      ++ (sq a.protocol
          ++ (" --dport "
              ++ (sq a.port ++ (" -j REDIRECT --to-port " ++ (sq a.to_port ++ " 2>&1"))))))
  if r.ok
      then exec s ("sudo ufw allow " ++ (sq (a.to_port ++ ("/" ++ a.protocol)) ++ " 2>&1"))
        >> pure (true, or_text (said r) (redirected "Dış port " a))
      else pure (false, or_text (said r) "Port yönlendirme eklenemedi.")

unfoldable pub rule_ufw : (server : String) → Rule → M Outcome
unfolding exec pure ◌>>=◌
rule_ufw s a = do
  r ← exec s (
      "sudo ufw "
      ++ (sq a.action
          ++ (" "
              ++ (sq (port_spec a)
                  ++ ((if is_given a.from_ip then " from " ++ sq a.from_ip else "") ++ " 2>&1")))))
  pure (
      if r.ok || occurs "existing" (lower (said r)) || occurs "added" (lower (said r))
      then (true, or_text (said r) "Kural eklendi.")
      else (false, said r))

unfoldable pub redirect_firewalld : (server : String) → Rule → M Outcome
unfolding exec pure ◌>>=◌
redirect_firewalld s a = do
  r ← exec s (
      "sudo firewall-cmd --permanent --add-forward-port="
      ++ (sq ("port=" ++ (a.port ++ (":proto=" ++ (a.protocol ++ (":toport=" ++ a.to_port)))))
          ++ " 2>&1"))
  let reply = outcome (redirected "Dış port " a) r
  if r.ok
      then exec s "sudo firewall-cmd --permanent --add-masquerade 2>&1"
        >> (exec s reload >> pure reply)
      else pure reply

unfoldable pub quoted_source : (address : String) → M String
unfolding pure lift ◌>>=◌
quoted_source address = do v ← lift (mq address); pure (" src-address=" ++ v)

-- `src-address`, where an address is given.
unfoldable pub source_part : Rule → M String
unfolding pure quoted_source
source_part a = if is_given a.from_ip then quoted_source a.from_ip else pure ""

unfoldable pub redirect_emareos : (server : String) → Rule → M Outcome
unfolding lift ◌>>=◌ change source_part
redirect_emareos s a = do
  protocol ← lift (mq a.protocol)
  port ← lift (mq a.port)
  to_port ← lift (mq a.to_port)
  source ← source_part a
  change s
      ("/emare firewall nat add chain=dstnat action=dst-nat protocol="
        ++ (protocol ++ (" dst-port=" ++ (port ++ (" to-ports=" ++ (to_port ++ source))))))
      (redirected "Emare dış port " a)

-- `_VALID_EMAREOS_ACTIONS_MAP.get(action, 'accept')`
abbrev pub emareos_action : String → String
emareos_action action = elim (Dict.get action emareos_actions) [ some a ↦ a | none ↦ "accept" ]

abbrev pub first_part : List String → String
first_part [] = ""
first_part (p ∷ ps) = p

unfoldable pub rule_emareos : (server : String) → Rule → M Outcome
unfolding lift ◌>>=◌ change source_part
rule_emareos s a = do
  chain ← lift (mq "input")
  action ← lift (mq (emareos_action a.action))
  protocol ← lift (mq a.protocol)
  port ← lift (mq (first_part (split_on 47 a.port)))
  source ← source_part a
  change s
      ("/emare firewall rules add chain="
        ++ (chain
            ++ (" action="
                ++ (action ++ (" protocol=" ++ (protocol ++ (" dst-port=" ++ (port ++ source))))))))
      "Emare filter kuralı eklendi."

unfoldable pub add_rule_with : Kind → (server : String) → Rule → M Outcome
unfolding redirect_ufw rule_ufw redirect_firewalld change_and_reload redirect_emareos rule_emareos
add_rule_with ufw s a = if has_redirect a then redirect_ufw s a else rule_ufw s a
add_rule_with firewalld s a =
    if has_redirect a
    then redirect_firewalld s a
    else change_and_reload s
        ("sudo firewall-cmd --permanent --add-port=" ++ (sq (port_spec a) ++ " 2>&1"))
        "Kural eklendi."
add_rule_with emareos s a = if has_redirect a then redirect_emareos s a else rule_emareos s a

-- The checks of `add_rule` come behind the test that a firewall is there.
unfoldable pub checked_rule : Option Kind → (server : String) → Rule → M Outcome
unfolding pure with_valid with_optional add_rule_with
checked_rule none s a = pure unsupported
checked_rule (some kind) s a = with_valid (validate_port a.port) λ port.
    with_valid (validate_protocol a.protocol) λ protocol.
      with_valid (validate_action a.action) λ action. with_optional validate_ip a.from_ip λ from_ip.
        with_optional validate_port a.to_port λ to_port. add_rule_with kind s (record {
          port = port;
          protocol = protocol;
          action = action;
          from_ip = from_ip;
          to_port = to_port;
        })

-- `add_rule`
unfoldable pub add_rule : (server : String) → Rule → M Outcome
unfolding ◌>>=◌ invalidate_cache detect_type checked_rule
add_rule s a = do invalidate_cache s; kind ← detect_type s; checked_rule kind s a
