-- ===== src/Commands/Patterns.antt =====
-- The patterns of command_security.py, as the texts that the regular expression engine is given.
use emarecloud.Prelude.{String, List, [], ◌∷◌, nat_eq, string_eq, pair_eq}

abbrev pub blocked_patterns : List String
blocked_patterns =
    "rm\\s+-rf\\s+/\\s*$" ∷ "rm\\s+-rf\\s+/\\*" ∷ "mkfs\\s+/dev/sd"
    ∷ "dd\\s+if=/dev/(zero|random)\\s+of=/dev/sd" ∷ ":\\(\\)\\s*\\{.*\\}" ∷ ">\\s*/dev/sd[a-z]"
    ∷ "chmod\\s+-R\\s+777\\s+/" ∷ "wget\\s+.*\\|\\s*(ba)?sh" ∷ "curl\\s+.*\\|\\s*(ba)?sh"
    ∷ "echo\\s+.*\\|\\s*base64\\s+-d\\s*\\|\\s*(ba)?sh" ∷ "/dev/tcp/" ∷ "nc\\s+-e"
    ∷ "python.*-c.*import\\s+os.*system" ∷ []

abbrev pub operator_allowed : List String
operator_allowed =
    "^(ls|cat|head|tail|grep|find|wc|df|du|free|top|htop|ps|uptime|whoami|hostname|date|uname)(\\s|$)"
    ∷ "^(dmesg|last|w|who|id|groups|lsof)(\\s|$)"
    ∷ "^systemctl\\s+(status|restart|start|stop)\\s+\\w+"
    ∷ "^service\\s+\\w+\\s+(status|restart|start|stop)" ∷ "^journalctl\\b"
    ∷ "^docker\\s+(ps|logs|stats|inspect|images|top|port)\\b"
    ∷ "^docker\\s+(restart|start|stop)\\s+\\w+" ∷ "^docker\\s+compose\\s+(ps|logs|top)\\b"
    ∷ "^(apt|yum|dnf)\\s+(list|show|search|info)\\b"
    ∷ "^(ping|traceroute|tracepath|nslookup|dig|host|mtr)\\s+" ∷ "^(netstat|ss|ip|ifconfig)\\b"
    ∷ "^curl\\s+" ∷ "^(lsblk|fdisk\\s+-l|blkid|mount|findmnt|smartctl)\\b" ∷ "^mdadm\\s+--detail\\b"
    ∷ []

abbrev pub admin_extra : List String
admin_extra =
    "^(apt|apt-get)\\s+(update|upgrade|install|remove|purge|autoremove|autoclean)\\b"
    ∷ "^(yum|dnf)\\s+(update|install|remove|groupinstall)\\b"
    ∷ "^docker\\s+(run|rm|rmi|pull|push|build|exec|cp|network|volume)\\b"
    ∷ "^docker\\s+compose\\s+(up|down|restart|build|pull)\\b"
    ∷ "^(mkdir|cp|mv|rm|touch|chmod|chown|ln)\\s+" ∷ "^(nano|vim|vi)\\s+"
    ∷ "^(tar|zip|unzip|gzip|gunzip)\\s+" ∷ "^systemctl\\s+(enable|disable|mask|unmask)\\s+\\w+"
    ∷ "^(useradd|usermod|userdel|groupadd|passwd)\\b" ∷ "^crontab\\b"
    ∷ "^(iptables|ip6tables|nft|ufw|firewall-cmd)\\b" ∷ "^git\\s+" ∷ []
