-- ===== src/Firewall/Forward.antt =====
-- Ports that are forwarded (`add_port_forward`), by the kind of firewall.
pub mod Remove
use emarecloud.Prelude.{
  String, false, not, ◌||◌, Option, none, some, if◌then◌else◌, nat_eq, string_eq, pair_eq,
}
use Prim.Native.String.{◌++◌}
use emarecloud.Text.{is_empty}
use emarecloud.Text.Split.{occurs}
use emarecloud.Firewall.Quote.{sq}
use emarecloud.Firewall.Mq.{mq}
use emarecloud.Firewall.Validate.{validate_ip, validate_port, validate_protocol}
use emarecloud.Firewall.Program.{
  Kind, ufw, firewalld, emareos, M, Outcome, ◌>>=◌, ◌>>◌, pure, exec, lift, with_valid, outcome,
}
use emarecloud.Firewall.Detect.{invalidate_cache, detect_type}
use emarecloud.Firewall.Change.{reload, unsupported}
use emarecloud.Firewall.Rules.{is_given, with_optional}

pub record Forward : Type 0 where
  pub port : String
  pub to_port : String
  pub to_addr : String
  pub protocol : String

-- `fwd_spec`
abbrev pub forward_spec : Forward → String
forward_spec f =
    "port="
    ++ (f.port
        ++ (":proto="
            ++ (f.protocol
                ++ (":toport="
                    ++ (f.to_port
                        ++ (if is_given f.to_addr then ":toaddr=" ++ f.to_addr else ""))))))

unfoldable pub forward_firewalld : (server : String) → Forward → M Outcome
unfolding exec pure ◌>>=◌
forward_firewalld s f = do
  r ←
      exec s
        ("sudo firewall-cmd --permanent --add-forward-port=" ++ (sq (forward_spec f) ++ " 2>&1"))
  let reply = outcome "Port yönlendirme eklendi." r
  if r.ok
      then exec s "sudo firewall-cmd --permanent --add-masquerade 2>&1"
        >> (exec s reload >> pure reply)
      else pure reply

abbrev pub list_masquerade : String
list_masquerade =
    "/emare firewall nat print terse without-paging where chain=srcnat action=masquerade"

abbrev pub add_masquerade : String
add_masquerade =
    "/emare firewall nat add chain=srcnat action=masquerade comment=\"emare-security-os: masquerade\""

-- The masquerade rule is added where none is listed.
unfoldable pub ensure_masquerade : (server : String) → Outcome → M Outcome
unfolding exec pure ◌>>=◌
ensure_masquerade s reply = do
  r ← exec s list_masquerade
  if is_empty r.out || not (occurs "masquerade" r.out)
      then exec s add_masquerade >> pure reply
      else pure reply

-- `to-addresses`, where an address is given.
unfoldable pub quoted_target : (address : String) → M String
unfolding pure lift ◌>>=◌
quoted_target address = do v ← lift (mq address); pure (" to-addresses=" ++ v)

unfoldable pub target_part : Forward → M String
unfolding pure quoted_target
target_part f = if is_given f.to_addr then quoted_target f.to_addr else pure ""

unfoldable pub forward_emareos : (server : String) → Forward → M Outcome
unfolding exec pure lift ◌>>=◌ target_part ensure_masquerade
forward_emareos s f = do
  protocol ← lift (mq f.protocol)
  port ← lift (mq f.port)
  to_port ← lift (mq f.to_port)
  target ← target_part f
  r ← exec s (
      "/emare firewall nat add chain=dstnat action=dst-nat protocol="
      ++ (protocol ++ (" dst-port=" ++ (port ++ (" to-ports=" ++ (to_port ++ target))))))
  let reply = outcome "Emare port yönlendirme eklendi." r
  if r.ok then ensure_masquerade s reply else pure reply

unfoldable pub forward_with : Option Kind → (server : String) → Forward → M Outcome
unfolding pure forward_firewalld forward_emareos
forward_with (some ufw) s f =
    pure (false, "UFW ile port yönlendirme desteklenmiyor. firewalld kullanın.")
forward_with (some firewalld) s f = forward_firewalld s f
forward_with (some emareos) s f = forward_emareos s f
forward_with none s f = pure unsupported

unfoldable pub checked_forward : Option Kind → (server : String) → Forward → M Outcome
unfolding with_valid with_optional forward_with
checked_forward kind s f = with_valid (validate_port f.port) λ port.
    with_valid (validate_port f.to_port) λ to_port.
      with_valid (validate_protocol f.protocol) λ protocol.
        with_optional validate_ip f.to_addr λ to_addr.
          forward_with kind s
            (record { port = port; to_port = to_port; to_addr = to_addr; protocol = protocol })

-- `add_port_forward`
unfoldable pub add_port_forward : (server : String) → Forward → M Outcome
unfolding ◌>>=◌ invalidate_cache detect_type checked_forward
add_port_forward s f = do invalidate_cache s; kind ← detect_type s; checked_forward kind s f
