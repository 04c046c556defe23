-- ===== src/Firewall/Change.antt =====
-- The steps in which the operations of the manager end: a command whose reply is the outcome.
use emarecloud.Prelude.{String, false, if◌then◌else◌, nat_eq, string_eq, pair_eq}
use emarecloud.Firewall.Program.{M, Outcome, ◌>>=◌, ◌>>◌, pure, exec, outcome}

abbrev pub reload : String
reload = "sudo firewall-cmd --reload 2>&1"

abbrev pub unsupported : Outcome
unsupported = (false, "Desteklenen güvenlik duvarı bulunamadı.")

-- A change of firewalld, which is reloaded when the change went well.
unfoldable pub change_and_reload : (server command default : String) → M Outcome
unfolding exec pure ◌>>=◌
change_and_reload s command default = do
  r ← exec s command
  if r.ok then exec s reload >> pure (outcome default r) else pure (outcome default r)

-- A command whose reply is the outcome.
unfoldable pub change : (server command default : String) → M Outcome
unfolding exec pure ◌>>=◌
change s command default = do r ← exec s command; pure (outcome default r)
