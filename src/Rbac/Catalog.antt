-- ===== src/Rbac/Catalog.antt =====
-- The catalogue of roles and permissions (rbac.py): `ROLES`, `ALL_PERMISSIONS` and
-- `PERMISSION_GROUPS`.
use emarecloud.Prelude.{ℕ, String, List, [], ◌∷◌, nat_eq, string_eq, pair_eq}
use emarecloud.Dict.{Dict}

pub record RoleInfo : Type 0 where
  pub label : String
  pub level : ℕ
  pub description : String
  pub color : String

pub record Group : Type 0 where
  pub key : String
  pub label : String
  pub icon : String
  pub perms : List (String × String)

abbrev pub roles : Dict String RoleInfo
roles =
    (
      "super_admin",
      record {
        label = "Süper Admin";
        level = 100;
        description = "Tam yetki — tüm işlemler";
        color = "#f87171";
      },
    )
    ∷ (
      "admin",
      record {
        label = "Admin";
        level = 75;
        description = "Sunucu yönetimi, kullanıcı görüntüleme";
        color = "#fbbf24";
      },
    )
    ∷ (
      "operator",
      record {
        label = "Operatör";
        level = 50;
        description = "Komut çalıştırma, servis yönetimi";
        color = "#4c8dff";
      },
    )
    ∷ (
      "reseller",
      record {
        label = "Bayi";
        level = 45;
        description = "Kendi organizasyonu ve alt bayi yönetimi";
        color = "#0ea5e9";
      },
    )
    ∷ (
      "sub_reseller",
      record {
        label = "Alt Bayi";
        level = 35;
        description = "Kendi organizasyonunu yönetir";
        color = "#14b8a6";
      },
    )
    ∷ (
      "read_only",
      record {
        label = "Salt Okunur";
        level = 10;
        description = "Sadece görüntüleme";
        color = "#8b8fa3";
      },
    )
    ∷ []

abbrev pub all_permissions : List String
all_permissions =
    "server.view" ∷ "server.add" ∷ "server.edit" ∷ "server.delete" ∷ "server.connect"
    ∷ "server.disconnect" ∷ "server.execute" ∷ "server.metrics" ∷ "server.quick_action"
    ∷ "firewall.view" ∷ "firewall.manage" ∷ "vm.view" ∷ "vm.manage" ∷ "market.view"
    ∷ "market.install" ∷ "storage.view" ∷ "storage.manage" ∷ "terminal.access" ∷ "monitoring.view"
    ∷ "monitoring.manage" ∷ "raid.view" ∷ "raid.manage" ∷ "ai.view" ∷ "ai.manage" ∷ "user.view"
    ∷ "audit.view" ∷ "org.view" ∷ "org.manage" ∷ "org.members" ∷ "plan.view" ∷ "token.manage"
    ∷ "cloudflare.view" ∷ "dc.view" ∷ "dc.manage" ∷ "scoreboard.view" ∷ "network.view"
    ∷ "network.add" ∷ "network.edit" ∷ "network.delete" ∷ "network.execute" ∷ "admin_panel"
    ∷ "admin.access" ∷ []

abbrev pub permission_groups : List Group
permission_groups =
    record {
      key = "server";
      label = "Sunucu Yönetimi";
      icon = "🖥\u{fe0f}";
      perms =
          ("server.view", "Görüntüle")
          ∷ ("server.add", "Ekle")
          ∷ ("server.edit", "Düzenle")
          ∷ ("server.delete", "Sil")
          ∷ ("server.connect", "Bağlan")
          ∷ ("server.disconnect", "Bağlantıyı Kes")
          ∷ ("server.execute", "Komut Çalıştır")
          ∷ ("server.metrics", "Metrikler")
          ∷ ("server.quick_action", "Hızlı Eylem")
          ∷ [];
    }
    ∷ record {
      key = "firewall";
      label = "Güvenlik Duvarı";
      icon = "🛡\u{fe0f}";
      perms = ("firewall.view", "Görüntüle") ∷ ("firewall.manage", "Yönet") ∷ [];
    }
    ∷ record {
      key = "vm";
      label = "Sanal Makine (LXD)";
      icon = "📦";
      perms = ("vm.view", "Görüntüle") ∷ ("vm.manage", "Yönet") ∷ [];
    }
    ∷ record {
      key = "market";
      label = "Uygulama Pazarı";
      icon = "🏪";
      perms = ("market.view", "Görüntüle") ∷ ("market.install", "Kur / Sil") ∷ [];
    }
    ∷ record {
      key = "storage";
      label = "Depolama";
      icon = "💾";
      perms = ("storage.view", "Görüntüle") ∷ ("storage.manage", "Yönet") ∷ [];
    }
    ∷ record {
      key = "terminal";
      label = "Terminal";
      icon = "⌨\u{fe0f}";
      perms = ("terminal.access", "Erişim") ∷ [];
    }
    ∷ record {
      key = "monitoring";
      label = "İzleme & Alarm";
      icon = "📊";
      perms = ("monitoring.view", "Görüntüle") ∷ ("monitoring.manage", "Yönet") ∷ [];
    }
    ∷ record {
      key = "raid";
      label = "RAID Yönetimi";
      icon = "🗄\u{fe0f}";
      perms = ("raid.view", "Görüntüle") ∷ ("raid.manage", "Yönet") ∷ [];
    }
    ∷ record {
      key = "ai";
      label = "AI Araçları";
      icon = "🧠";
      perms = ("ai.view", "Görüntüle") ∷ ("ai.manage", "Yönet") ∷ [];
    }
    ∷ record {
      key = "user";
      label = "Kullanıcı Yönetimi";
      icon = "👥";
      perms = ("user.view", "Kullanıcıları Gör") ∷ [];
    }
    ∷ record {
      key = "audit";
      label = "Denetim Günlüğü";
      icon = "📋";
      perms = ("audit.view", "Görüntüle") ∷ [];
    }
    ∷ record {
      key = "org";
      label = "Organizasyon";
      icon = "🏢";
      perms =
          ("org.view", "Görüntüle")
          ∷ ("org.manage", "Yönet")
          ∷ ("org.members", "Üye Yönetimi")
          ∷ [];
    }
    ∷ record {
      key = "plan";
      label = "Plan & Abonelik";
      icon = "💳";
      perms = ("plan.view", "Görüntüle") ∷ [];
    }
    ∷ record {
      key = "token";
      label = "EMARE Token";
      icon = "💎";
      perms = ("token.manage", "Yönet") ∷ [];
    }
    ∷ record {
      key = "cloudflare";
      label = "Cloudflare DNS";
      icon = "☁\u{fe0f}";
      perms = ("cloudflare.view", "Görüntüle") ∷ [];
    }
    ∷ record {
      key = "dc";
      label = "Veri Merkezi (DC)";
      icon = "🏗\u{fe0f}";
      perms = ("dc.view", "Görüntüle") ∷ ("dc.manage", "Yönet") ∷ [];
    }
    ∷ record {
      key = "scoreboard";
      label = "Geliştirici Panosu";
      icon = "🏆";
      perms = ("scoreboard.view", "Panoyu Görüntüle") ∷ [];
    }
    ∷ record {
      key = "network";
      label = "Ağ Cihazları";
      icon = "🔌";
      perms =
          ("network.view", "Görüntüle")
          ∷ ("network.add", "Ekle")
          ∷ ("network.edit", "Düzenle")
          ∷ ("network.delete", "Sil")
          ∷ ("network.execute", "Komut Çalıştır / Bağlan")
          ∷ [];
    }
    ∷ record {
      key = "admin";
      label = "Admin Panel";
      icon = "⚙\u{fe0f}";
      perms =
          ("admin_panel", "Admin Panele Eriş") ∷ ("admin.access", "Admin Modullerine Eriş") ∷ [];
    }
    ∷ []
