-- ===== src/Firewall/Services.antt =====
-- Services, single rules, zones and jails (`add_service`, `remove_service`, `toggle_rule`, `set_default_zone`,
-- `add_rich_rule`, `remove_rich_rule`, `fail2ban_ban`, `fail2ban_unban`), by the kind of firewall.
use emarecloud.Prelude.{
  String, Bool, true, false, ◌||◌, Option, none, some, [], ◌∷◌, if◌then◌else◌, nat_eq, string_eq,
  pair_eq,
}
use Prim.Native.String.{◌++◌}
use emarecloud.Dict
use emarecloud.Dict.{Dict}
use emarecloud.Integers.{ℤ}
use emarecloud.Text.{lower}
use emarecloud.Text.Decimal.{int_text}
use emarecloud.Text.Split.{occurs}
use emarecloud.Firewall.Quote.{sq}
use emarecloud.Firewall.Mq.{mq}
use emarecloud.Firewall.Validate.{
  validate_ip, validate_service, validate_zone, validate_jail, validate_rich_rule,
}
use emarecloud.Firewall.Program.{
  Kind, ufw, firewalld, emareos, M, Outcome, ◌>>=◌, pure, exec, lift, with_valid, or_text, said,
}
use emarecloud.Firewall.Detect.{detect_type}
use emarecloud.Firewall.Change.{unsupported, change_and_reload, change}
use emarecloud.Firewall.Rules.{add_rule}

-- `svc_ports`
abbrev pub service_ports : Dict String String
service_ports =
    ("http", "80")
    ∷ ("https", "443")
    ∷ ("ssh", "22")
    ∷ ("ftp", "21")
    ∷ ("dns", "53")
    ∷ ("mysql", "3306")
    ∷ ("postgresql", "5432")
    ∷ ("redis", "6379")
    ∷ ("smtp", "25")
    ∷ ("imap", "143")
    ∷ []

-- A service that Emare OS does not know is opened by its port.
unfoldable pub service_by_port : Option String → (server service : String) → M Outcome
unfolding pure add_rule
service_by_port none s service = pure (false, "Emare servisi bulunamadı: " ++ service)
service_by_port (some port) s service =
    add_rule s
      (record { port = port; protocol = "tcp"; action = "allow"; from_ip = ""; to_port = "" })

unfoldable pub add_service_with : Option Kind → (server service : String) → M Outcome
unfolding exec pure lift ◌>>=◌ change_and_reload service_by_port
add_service_with (some ufw) s service = do
  r ← exec s ("sudo ufw allow " ++ (sq service ++ " 2>&1"))
  pure (r.ok || occurs "added" (lower (said r)), or_text (said r) "Servis eklendi.")
add_service_with (some firewalld) s service =
    change_and_reload s ("sudo firewall-cmd --permanent --add-service=" ++ (sq service ++ " 2>&1"))
      "Servis eklendi."
add_service_with (some emareos) s service = do
  name ← lift (mq service)
  r ← exec s ("/emare services enable [find name=" ++ (name ++ "]"))
  if r.ok
      then pure (true, "Emare servisi '" ++ (service ++ "' etkinleştirildi."))
      else service_by_port (Dict.get service service_ports) s service
add_service_with none s service = pure unsupported

-- `add_service`
unfoldable pub add_service : (server service : String) → M Outcome
unfolding ◌>>=◌ with_valid detect_type add_service_with
add_service s service = do
  kind ← detect_type s
  with_valid (validate_service service) (λ v. add_service_with kind s v)

unfoldable pub remove_service_with : Option Kind → (server service : String) → M Outcome
unfolding pure lift ◌>>=◌ change change_and_reload
remove_service_with (some ufw) s service =
    change s ("sudo ufw delete allow " ++ (sq service ++ " 2>&1")) "Servis kaldırıldı."
remove_service_with (some firewalld) s service =
    change_and_reload s
      ("sudo firewall-cmd --permanent --remove-service=" ++ (sq service ++ " 2>&1"))
      "Servis kaldırıldı."
remove_service_with (some emareos) s service = do
  name ← lift (mq service)
  change s ("/emare services disable [find name=" ++ (name ++ "]"))
      ("Emare servisi '" ++ (service ++ "' devre dışı bırakıldı."))
remove_service_with none s service = pure unsupported

-- `remove_service`
unfoldable pub remove_service : (server service : String) → M Outcome
unfolding ◌>>=◌ with_valid detect_type remove_service_with
remove_service s service = do
  kind ← detect_type s
  with_valid (validate_service service) (λ v. remove_service_with kind s v)

unfoldable pub toggle_with : Option Kind → (server : String) → ℤ → (enable : Bool) → M Outcome
unfolding exec pure ◌>>=◌
toggle_with (some emareos) s index enable = do
  let action : String = if enable then "enable" else "disable"
  let front : String = "Kural #" ++ (int_text index ++ " ")
  let end : String = if enable then "etkinleştirildi" else "devre dışı bırakıldı"
  r ← exec s ("/emare firewall rules " ++ (action ++ (" " ++ int_text index)))
  pure (
      if r.ok
      then (true, front ++ (end ++ "."))
      else (false, or_text (said r) ("Kural " ++ (action ++ " başarısız."))))
toggle_with kind s index enable = pure (false, "Kural toggle sadece Emare için desteklenir.")

-- `toggle_rule`, of an index that is an int.
unfoldable pub toggle_rule : (server : String) → ℤ → (enable : Bool) → M Outcome
unfolding ◌>>=◌ detect_type toggle_with
toggle_rule s index enable = do kind ← detect_type s; toggle_with kind s index enable

unfoldable pub default_zone_with : Option Kind → (server zone : String) → M Outcome
unfolding pure lift ◌>>=◌ change
default_zone_with (some emareos) s zone = do
  name ← lift (mq zone)
  change s ("/emare firewall zone set [find name=" ++ (name ++ "] default=yes"))
      ("Varsayılan zone: " ++ zone)
default_zone_with (some firewalld) s zone =
    change s ("sudo firewall-cmd --set-default-zone=" ++ (sq zone ++ " 2>&1"))
      ("Varsayılan zone: " ++ zone)
default_zone_with kind s zone = pure (false, "Zone yönetimi desteklenmiyor.")

-- `set_default_zone`
unfoldable pub set_default_zone : (server zone : String) → M Outcome
unfolding ◌>>=◌ with_valid detect_type default_zone_with
set_default_zone s zone = do
  kind ← detect_type s
  with_valid (validate_zone zone) (λ v. default_zone_with kind s v)

unfoldable pub add_rich_with : Option Kind → (server rule : String) → M Outcome
unfolding pure lift ◌>>=◌ change change_and_reload
add_rich_with (some emareos) s rule = do
  v ← lift (mq rule)
  change s ("/emare firewall zone rule add rule=" ++ v) "Kural eklendi."
add_rich_with (some ufw) s rule = pure (false, "Rich rule sadece firewalld/emareos'ta desteklenir.")
add_rich_with (some firewalld) s rule =
    change_and_reload s ("sudo firewall-cmd --permanent --add-rich-rule=" ++ (sq rule ++ " 2>&1"))
      "Rich rule eklendi."
add_rich_with none s rule = pure unsupported

-- `add_rich_rule`
unfoldable pub add_rich_rule : (server rule : String) → M Outcome
unfolding ◌>>=◌ with_valid detect_type add_rich_with
add_rich_rule s rule = do
  kind ← detect_type s
  with_valid (validate_rich_rule rule) (λ v. add_rich_with kind s v)

unfoldable pub remove_rich_with : Option Kind → (server rule : String) → M Outcome
unfolding pure lift ◌>>=◌ change change_and_reload
remove_rich_with (some emareos) s rule = do
  v ← lift (mq rule)
  change s ("/emare firewall zone rule remove rule=" ++ v) "Kural kaldırıldı."
remove_rich_with (some firewalld) s rule =
    change_and_reload s
      ("sudo firewall-cmd --permanent --remove-rich-rule=" ++ (sq rule ++ " 2>&1"))
      "Rich rule kaldırıldı."
remove_rich_with kind s rule = pure (false, "Rich rule desteklenmiyor.")

-- `remove_rich_rule`
unfoldable pub remove_rich_rule : (server rule : String) → M Outcome
unfolding ◌>>=◌ with_valid detect_type remove_rich_with
remove_rich_rule s rule = do
  kind ← detect_type s
  with_valid (validate_rich_rule rule) (λ v. remove_rich_with kind s v)

-- One of the verbs "ban" and "unban", with the end of the default message.
unfoldable pub jail_with : (verb end : String) → Option Kind → (server jail ip : String) → M Outcome
unfolding lift ◌>>=◌ change
jail_with verb end (some emareos) s jail ip = do
  name ← lift (mq jail)
  address ← lift (mq ip)
  change s
      ("/emare system intrusion-detection jail "
        ++ (verb ++ (" name=" ++ (name ++ (" ip=" ++ address)))))
      (ip ++ end)
jail_with verb end kind s jail ip =
    change s
      ("sudo fail2ban-client set " ++ (sq jail ++ (" " ++ (verb ++ ("ip " ++ (sq ip ++ " 2>&1"))))))
      (ip ++ end)

unfoldable pub fail2ban : (verb end server jail ip : String) → M Outcome
unfolding ◌>>=◌ with_valid detect_type jail_with
fail2ban verb end s jail ip = with_valid (validate_ip ip) λ address.
    with_valid (validate_jail jail)
      λ name. detect_type s >>= λ kind. jail_with verb end kind s name address

-- `fail2ban_ban`
unfoldable pub fail2ban_ban : (server jail ip : String) → M Outcome
unfolding fail2ban
fail2ban_ban s jail ip = fail2ban "ban" " ban edildi." s jail ip

-- `fail2ban_unban`
unfoldable pub fail2ban_unban : (server jail ip : String) → M Outcome
unfolding fail2ban
fail2ban_unban s jail ip = fail2ban "unban" " unban edildi." s jail ip
