-- ===== src/Rbac/Matrix.antt =====
-- The permission matrix (rbac.py): `PERMISSIONS`, a role's set of permissions.
use emarecloud.Prelude.{String, List, [], ◌∷◌, nat_eq, string_eq, pair_eq}
use emarecloud.Dict.{Dict}

abbrev pub permissions : Dict String (List String)
permissions =
    ("super_admin", "*" ∷ [])
    ∷ (
      "admin",
      "server.view" ∷ "server.add" ∷ "server.edit" ∷ "server.delete" ∷ "server.connect"
          ∷ "server.disconnect" ∷ "server.execute" ∷ "server.metrics" ∷ "server.quick_action"
          ∷ "firewall.view" ∷ "firewall.manage" ∷ "vm.view" ∷ "vm.manage" ∷ "market.view"
          ∷ "market.install" ∷ "storage.view" ∷ "storage.manage" ∷ "terminal.access" ∷ "user.view"
          ∷ "audit.view" ∷ "raid.view" ∷ "raid.manage" ∷ "monitoring.view" ∷ "monitoring.manage"
          ∷ "ai.view" ∷ "ai.manage" ∷ "org.view" ∷ "org.manage" ∷ "org.members" ∷ "plan.view"
          ∷ "token.manage" ∷ "cloudflare.view" ∷ "dc.view" ∷ "dc.manage" ∷ "scoreboard.view"
          ∷ "network.view" ∷ "network.add" ∷ "network.edit" ∷ "network.delete" ∷ "network.execute"
          ∷ "admin.access" ∷ [],
    )
    ∷ (
      "operator",
      "server.view" ∷ "server.connect" ∷ "server.disconnect" ∷ "server.execute" ∷ "server.metrics"
          ∷ "server.quick_action" ∷ "firewall.view" ∷ "dc.view" ∷ "vm.view" ∷ "vm.manage"
          ∷ "market.view" ∷ "market.install" ∷ "storage.view" ∷ "terminal.access" ∷ "raid.view"
          ∷ "monitoring.view" ∷ "ai.view" ∷ "org.view" ∷ "plan.view" ∷ "token.manage"
          ∷ "scoreboard.view" ∷ "network.view" ∷ "network.execute" ∷ [],
    )
    ∷ (
      "reseller",
      "server.view" ∷ "server.add" ∷ "server.edit" ∷ "server.metrics" ∷ "server.connect"
          ∷ "server.disconnect" ∷ "server.execute" ∷ "firewall.view" ∷ "firewall.manage" ∷ "vm.view"
          ∷ "vm.manage" ∷ "market.view" ∷ "market.install" ∷ "storage.view" ∷ "storage.manage"
          ∷ "terminal.access" ∷ "user.view" ∷ "monitoring.view" ∷ "monitoring.manage" ∷ "raid.view"
          ∷ "raid.manage" ∷ "org.view" ∷ "org.manage" ∷ "org.members" ∷ "plan.view" ∷ "token.manage"
          ∷ "dc.view" ∷ "scoreboard.view" ∷ "network.view" ∷ "network.add" ∷ "network.edit"
          ∷ "network.execute" ∷ "admin.access" ∷ [],
    )
    ∷ (
      "sub_reseller",
      "server.view" ∷ "server.metrics" ∷ "server.connect" ∷ "server.disconnect" ∷ "server.execute"
          ∷ "firewall.view" ∷ "vm.view" ∷ "market.view" ∷ "storage.view" ∷ "terminal.access"
          ∷ "monitoring.view" ∷ "raid.view" ∷ "org.view" ∷ "plan.view" ∷ "scoreboard.view" ∷ [],
    )
    ∷ (
      "read_only",
      "server.view" ∷ "server.metrics" ∷ "firewall.view" ∷ "vm.view" ∷ "market.view"
          ∷ "storage.view" ∷ "raid.view" ∷ "monitoring.view" ∷ "org.view" ∷ "plan.view"
          ∷ "scoreboard.view" ∷ [],
    )
    ∷ []
