-- ===== src/Firewall/Network.antt =====
-- The network of an Emare OS server: routes, addresses, neighbours' addresses, pools, queues and names (`add_route` to
-- `remove_dns_static`, and `set_dns`).
pub mod Readers
use emarecloud.Prelude.{
  ℕ, String, Bool, true, false, ◌&&◌, ◌||◌, Option, none, some, List, [], ◌∷◌, if◌then◌else◌, ◌==◌,
  nat_eq, string_eq, pair_eq,
}
use Prim.Native.String.{◌++◌}
use emarecloud.Integers.{ℤ}
use emarecloud.Text.{is_empty, strip}
use emarecloud.Text.Decimal.{int_text}
use emarecloud.Text.Split.{split_on, join}
use emarecloud.Firewall.Mq.{mq}
use emarecloud.Firewall.Program.{Kind, emareos, M, Outcome, ◌>>=◌, pure, lift}
use emarecloud.Firewall.Detect.{detect_type}
use emarecloud.Firewall.Change.{change}
use emarecloud.Text.{codes}
use emarecloud.Text.Digits.{is_digit}

-- ` comment=`, where a comment is given.
unfoldable pub comment_part : (comment : String) → M String
unfolding pure lift ◌>>=◌
comment_part comment =
    if is_empty comment then pure "" else (lift (mq comment) >>= λ v. pure (" comment=" ++ v))

-- `add_route`
unfoldable pub add_route :
    (server dst gateway : String) (distance : ℤ) (comment : String) → M Outcome
unfolding lift ◌>>=◌ change comment_part
add_route s dst gateway distance comment = do
  d ← lift (mq dst)
  g ← lift (mq gateway)
  note ← comment_part comment
  change s
      ("/emare network routes add dst-address="
        ++ (d ++ (" gateway=" ++ (g ++ (" distance=" ++ (int_text distance ++ note))))))
      "Rota eklendi."

-- The removal of an entry by its index.
unfoldable pub remove_numbered : (path default server : String) → ℤ → M Outcome
unfolding change
remove_numbered path default s index =
    change s ("/emare " ++ (path ++ (" remove numbers=" ++ int_text index))) default

-- `remove_route`
unfoldable pub remove_route : (server : String) → ℤ → M Outcome
unfolding remove_numbered
remove_route s index = remove_numbered "network routes" "Rota silindi." s index

-- `add_ip_address`
unfoldable pub add_ip_address : (server address interface comment : String) → M Outcome
unfolding lift ◌>>=◌ change comment_part
add_ip_address s address interface comment = do
  a ← lift (mq address)
  i ← lift (mq interface)
  note ← comment_part comment
  change s ("/emare network addresses add address=" ++ (a ++ (" interface=" ++ (i ++ note))))
      "IP adresi eklendi."

-- `remove_ip_address`
unfoldable pub remove_ip_address : (server : String) → ℤ → M Outcome
unfolding remove_numbered
remove_ip_address s index = remove_numbered "network addresses" "IP adresi silindi." s index

-- `add_arp_entry`
unfoldable pub add_arp_entry : (server address mac interface : String) → M Outcome
unfolding lift ◌>>=◌ change
add_arp_entry s address mac interface = do
  a ← lift (mq address)
  m ← lift (mq mac)
  i ← lift (mq interface)
  change s
      ("/emare network arp add address=" ++ (a ++ (" mac-address=" ++ (m ++ (" interface=" ++ i)))))
      "ARP kaydı eklendi."

-- `remove_arp_entry`
unfoldable pub remove_arp_entry : (server : String) → ℤ → M Outcome
unfolding remove_numbered
remove_arp_entry s index = remove_numbered "network arp" "ARP kaydı silindi." s index

-- `add_ip_pool`
unfoldable pub add_ip_pool : (server name ranges : String) → M Outcome
unfolding lift ◌>>=◌ change
add_ip_pool s name ranges = do
  n ← lift (mq name)
  r ← lift (mq ranges)
  change s ("/emare network pools add name=" ++ (n ++ (" ranges=" ++ r))) "IP havuzu eklendi."

-- `remove_ip_pool`
unfoldable pub remove_ip_pool : (server : String) → ℤ → M Outcome
unfolding remove_numbered
remove_ip_pool s index = remove_numbered "network pools" "IP havuzu silindi." s index

-- `add_queue`
unfoldable pub add_queue : (server name target max_limit comment : String) → M Outcome
unfolding lift ◌>>=◌ change comment_part
add_queue s name target max_limit comment = do
  n ← lift (mq name)
  t ← lift (mq target)
  l ← lift (mq max_limit)
  note ← comment_part comment
  change s
      ("/emare queue add name=" ++ (n ++ (" target=" ++ (t ++ (" max-limit=" ++ (l ++ note))))))
      "Kuyruk eklendi."

-- `remove_queue`
unfoldable pub remove_queue : (server : String) → ℤ → M Outcome
unfolding remove_numbered
remove_queue s index = remove_numbered "queue" "Kuyruk silindi." s index

-- `add_dns_static`
unfoldable pub add_dns_static : (server name address : String) → M Outcome
unfolding lift ◌>>=◌ change
add_dns_static s name address = do
  n ← lift (mq name)
  a ← lift (mq address)
  change s ("/emare dns static add name=" ++ (n ++ (" address=" ++ a))) "DNS kaydı eklendi."

-- `remove_dns_static`
unfoldable pub remove_dns_static : (server : String) → ℤ → M Outcome
unfolding remove_numbered
remove_dns_static s index = remove_numbered "dns static" "DNS kaydı silindi." s index

abbrev pub digits_and_dots : List ℕ → Bool
digits_and_dots [] = true
digits_and_dots (c ∷ cs) = (c == 46 || is_digit c) && digits_and_dots cs

-- The first of the servers that is no run of digits and dots; an empty one passes.
unfoldable pub wrong_server : List String → Option String
unfolding is_digit
wrong_server [] = none
wrong_server (p ∷ ps) =
    if digits_and_dots (codes (strip p)) then wrong_server ps else some (strip p)

abbrev pub servers_error : Option String → Option String
servers_error none = none
servers_error (some servers) = wrong_server (split_on 44 servers)

abbrev pub dns_parts : (servers : Option String) (allow_remote : Option Bool) → List String
dns_parts none none = []
dns_parts (some v) none = ("servers=" ++ strip v) ∷ []
dns_parts none (some b) = ("allow-remote-requests=" ++ (if b then "yes" else "no")) ∷ []
dns_parts (some v) (some b) =
    ("servers=" ++ strip v) ∷ ("allow-remote-requests=" ++ (if b then "yes" else "no")) ∷ []

abbrev pub is_none : List String → Bool
is_none [] = true
is_none (p ∷ ps) = false

unfoldable pub set_dns_parts : (error : Option String) → List String → (server : String) → M Outcome
unfolding pure change
set_dns_parts (some p) parts s = pure (false, "Geçersiz DNS sunucu adresi: " ++ p)
set_dns_parts none parts s =
    if is_none parts
    then pure (false, "Değişiklik yok.")
    else change s ("/emare dns config set " ++ join " " parts) "DNS ayarları güncellendi."

unfoldable pub set_dns_with :
    Option Kind
    → (server : String) → (servers : Option String) (allow_remote : Option Bool) → M Outcome
unfolding pure set_dns_parts wrong_server
set_dns_with (some emareos) s servers allow_remote =
    set_dns_parts (servers_error servers) (dns_parts servers allow_remote) s
set_dns_with kind s servers allow_remote =
    pure (false, "DNS yönetimi sadece Emare için desteklenir.")

-- `set_dns`
unfoldable pub set_dns :
    (server : String) (servers : Option String) (allow_remote : Option Bool) → M Outcome
unfolding ◌>>=◌ detect_type set_dns_with
set_dns s servers allow_remote = do kind ← detect_type s; set_dns_with kind s servers allow_remote
