-- ===== src/Firewall/Freshness/Writes.antt =====
-- The operations that drop the cached results of their server.
use emarecloud.Prelude.{String, none, nat_eq, string_eq, pair_eq}
use emarecloud.Dict
use emarecloud.Dict.{Dict}
use emarecloud.Firewall.Program.{Caches, M, Outcome}
use emarecloud.Firewall.Program.Ends.{AllEnds}
use emarecloud.Firewall.Forward.{Forward}
use emarecloud.Firewall.Freshness.{Holds}

-- No results of the server are cached where the operation ends, whatever the caches held before.
abbrev pub EndsFresh : (server : String) → M Outcome → Type 0
EndsFresh s m = (c : Caches) → AllEnds (Holds s none none) (m c)
