-- ===== src/Firewall/Network/Readers.antt =====
-- What the manager reads of the network of an Emare OS server (`get_routes` to `get_neighbors`).
use emarecloud.Prelude.{String, List, [], if◌then◌else◌, nat_eq, string_eq, pair_eq}
use Prim.Native.String.{◌++◌}
use emarecloud.Firewall.Terse.{Entry, parse_emareos_terse}
use emarecloud.Firewall.Program.{M, ◌>>=◌, pure, exec}

-- The entries of one listing; none where the command fails.
unfoldable pub listing : (path server : String) → M (List Entry)
unfolding exec pure ◌>>=◌
listing path s = do
  r ← exec s ("/emare " ++ (path ++ " print terse without-paging"))
  pure (if r.ok then parse_emareos_terse r.out else [])

-- `get_routes`
unfoldable pub get_routes : (server : String) → M (List Entry)
unfolding listing
get_routes s = listing "network routes" s

-- `get_ip_addresses`
unfoldable pub get_ip_addresses : (server : String) → M (List Entry)
unfolding listing
get_ip_addresses s = listing "network addresses" s

-- `get_arp_table`
unfoldable pub get_arp_table : (server : String) → M (List Entry)
unfolding listing
get_arp_table s = listing "network arp" s

-- `get_dhcp_servers`
unfoldable pub get_dhcp_servers : (server : String) → M (List Entry)
unfolding listing
get_dhcp_servers s = listing "network dhcp server" s

-- `get_dhcp_leases`
unfoldable pub get_dhcp_leases : (server : String) → M (List Entry)
unfolding listing
get_dhcp_leases s = listing "network dhcp lease" s

-- `get_dhcp_networks`
unfoldable pub get_dhcp_networks : (server : String) → M (List Entry)
unfolding listing
get_dhcp_networks s = listing "network dhcp network" s

-- `get_ip_pools`
unfoldable pub get_ip_pools : (server : String) → M (List Entry)
unfolding listing
get_ip_pools s = listing "network pools" s

-- `get_queues`
unfoldable pub get_queues : (server : String) → M (List Entry)
unfolding listing
get_queues s = listing "queue" s

-- `get_bridges`: the bridges and their ports.
unfoldable pub get_bridges : (server : String) → M (List Entry × List Entry)
unfolding listing pure ◌>>=◌
get_bridges s = do
  bridges ← listing "network bridges" s
  ports ← listing "network bridge-ports" s
  pure (bridges, ports)

-- `get_dns_static`
unfoldable pub get_dns_static : (server : String) → M (List Entry)
unfolding listing
get_dns_static s = listing "dns static" s

-- `get_neighbors`
unfoldable pub get_neighbors : (server : String) → M (List Entry)
unfolding listing
get_neighbors s = listing "network neighbors" s
