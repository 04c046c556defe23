-- ===== src/Firewall/Forward/Remove.antt =====
-- The removal of a forwarded port (`remove_port_forward`): on Emare OS the rule is looked up in what the server prints.
use emarecloud.Prelude.{
  String, ◌⊎◌, inl, inr, false, not, ◌&&◌, Option, none, some, List, [], ◌∷◌, if◌then◌else◌, nat_eq,
  string_eq, pair_eq,
}
use Prim.Native.String.{◌++◌}
use emarecloud.Dict
use emarecloud.Integers.{ℤ, pos, parse_int}
use emarecloud.Text.{is_empty}
use emarecloud.Text.Decimal.{int_text}
use emarecloud.Firewall.Quote.{sq}
use emarecloud.Firewall.Mq.{mq}
use emarecloud.Firewall.Validate.{validate_ip, validate_port, validate_protocol}
use emarecloud.Firewall.Terse.{Field, number, word, Entry, parse_emareos_terse}
use emarecloud.Firewall.Program.{
  Kind, firewalld, emareos, M, Outcome, ◌>>=◌, ◌>>◌, pure, exec, lift, with_valid,
}
use emarecloud.Firewall.Detect.{invalidate_cache, detect_type}
use emarecloud.Firewall.Change.{change, change_and_reload}
use emarecloud.Firewall.Rules.{with_optional}
use emarecloud.Firewall.Forward.{Forward, forward_spec}

-- `int(entry.get('_index', 0))`, as a text; a text that is no int raises.
abbrev pub parsed : Option ℤ → String ⊎ String
parsed none = inl "invalid literal for int()"
parsed (some i) = inr (int_text i)

abbrev pub index_of : Option Field → String ⊎ String
index_of none = inr (int_text (pos 0))
index_of (some (number n)) = inr (int_text (pos n))
index_of (some (word s)) = parsed (parse_int s)

abbrev pub not_found : Outcome
not_found = (false, "Emare NAT kuralı bulunamadı.")

-- The first rule of what was printed is removed.
unfoldable pub remove_first : (server : String) → List Entry → M Outcome
unfolding pure lift ◌>>=◌ change
remove_first s [] = pure not_found
remove_first s (e ∷ es) = do
  index ← lift (index_of (Dict.get "_index" e))
  change s ("/emare firewall nat remove numbers=" ++ index) "Emare NAT kuralı kaldırıldı."

unfoldable pub remove_emareos : (server port protocol : String) → M Outcome
unfolding exec pure lift ◌>>=◌ remove_first
remove_emareos s port protocol = do
  p ← lift (mq port)
  q ← lift (mq protocol)
  r ← exec s (
      "/emare firewall nat print terse without-paging where chain=dstnat dst-port="
      ++ (p ++ (" protocol=" ++ q)))
  if r.ok && not (is_empty r.out)
      then remove_first s (parse_emareos_terse r.out)
      else pure not_found

unfoldable pub remove_with : Option Kind → (server : String) → Forward → M Outcome
unfolding pure with_valid with_optional remove_emareos change_and_reload
remove_with (some emareos) s f =
    with_valid (validate_port f.port)
      λ port. with_valid (validate_protocol f.protocol) λ protocol. remove_emareos s port protocol
remove_with (some firewalld) s f = with_valid (validate_port f.port) λ port.
    with_valid (validate_port f.to_port) λ to_port.
      with_valid (validate_protocol f.protocol) λ protocol.
        with_optional validate_ip f.to_addr λ to_addr.
          change_and_reload s
            ("sudo firewall-cmd --permanent --remove-forward-port="
              ++ (sq (
                    forward_spec (record {
                      port = port;
                      to_port = to_port;
                      to_addr = to_addr;
                      protocol = protocol;
                    }))
                  ++ " 2>&1"))
            "Port yönlendirme kaldırıldı."
remove_with kind s f = pure (false, "Sadece firewalld ve Emare destekleniyor.")

-- `remove_port_forward`
unfoldable pub remove_port_forward : (server : String) → Forward → M Outcome
unfolding ◌>>=◌ invalidate_cache detect_type remove_with
remove_port_forward s f = do invalidate_cache s; kind ← detect_type s; remove_with kind s f
