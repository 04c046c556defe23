-- ===== src/Firewall/Detect.antt =====
-- The kind of firewall that a server has, and the caches of the manager (`_detect_type`, `_set_type_cache`,
-- `_invalidate_cache`).
pub mod Laws
use mathlib.Core.Option
use emarecloud.Prelude.{
  ℕ, ◌+◌, ◌++◌, true, String, Bool, false, not, ◌&&◌, ◌||◌, Option, none, some, List, [], ◌∷◌,
  if◌then◌else◌, nat_eq, string_eq, pair_eq,
}
use emarecloud.Dict
use emarecloud.Text.{is_empty, lower}
use emarecloud.Text.Split.{occurs}
use emarecloud.Firewall.Program.{
  Reply, Kind, ufw, firewalld, emareos, Service, Caches, M, ◌>>=◌, ◌>>◌, pure, gets, modify, exec,
}

-- `_invalidate_cache`
unfoldable pub invalidate_cache : (server : String) → M (Unit {0})
invalidate_cache s =
    modify λ c. record c { statuses = Dict.delete s c.statuses; l7s = Dict.delete s c.l7s }

-- The caches after `_set_type_cache`, with the cache service and without one.
abbrev pub cache_kind : (server : String) → Option Kind → Option Service → Caches → Caches
cache_kind s k none c = record c { kinds = Dict.set s k c.kinds }
cache_kind s k (some v) c = record c {
  service = some (record v { sets = v.sets ++ ((s, k) ∷ []) });
}

-- `_set_type_cache`
unfoldable pub set_type_cache : (server : String) → Option Kind → M (Unit {0})
set_type_cache s k = modify λ c. cache_kind s k c.service c

abbrev pub ask_ufw : String
ask_ufw = "which ufw 2>/dev/null"

abbrev pub ask_firewalld : String
ask_firewalld = "which firewall-cmd 2>/dev/null"

abbrev pub ask_emareos : String
ask_emareos = "/emare system info"

-- `ok and out and (... in out)`
abbrev pub answers : Reply → List String → (text : String) → Bool
answers r [] t = false
answers r (w ∷ ws) t = (r.ok && not (is_empty r.out) && occurs w t) || answers r ws t

unfoldable pub found : (server : String) → Option Kind → M (Option Kind)
unfolding set_type_cache pure ◌>>=◌
found s k = do set_type_cache s k; pure k

unfoldable pub probe_emareos : (server : String) → M (Option Kind)
unfolding found exec ◌>>=◌
probe_emareos s = do
  e ← exec s ask_emareos
  found s (
      if answers e ("uptime" ∷ "version" ∷ "emareos" ∷ "device-model" ∷ []) (lower e.out)
      then some emareos
      else none)

unfoldable pub probe_others : (server : String) → M (Option Kind)
unfolding found exec ◌>>=◌ probe_emareos
probe_others s = do
  f ← exec s ask_firewalld
  if answers f ("firewall-cmd" ∷ []) f.out then found s (some firewalld) else probe_emareos s

-- The three questions of `_detect_type`.
unfoldable pub probe : (server : String) → M (Option Kind)
unfolding found exec ◌>>=◌ probe_others
probe s = do
  u ← exec s ask_ufw
  if answers u ("ufw" ∷ []) u.out then found s (some ufw) else probe_others s

unfoldable pub known_or_probe : (server : String) → Option (Option Kind) → M (Option Kind)
unfolding pure probe
known_or_probe s none = probe s
known_or_probe s (some k) = pure k

-- The kind that is known: the service knows no server whose kind was noted as None.
abbrev pub known_kind : (server : String) → Option Service → Caches → Option (Option Kind)
known_kind s none c = Dict.get s c.kinds
known_kind s (some v) c = Option.map some (v.answer v.reads s)

-- The caches after a look at the kind.
abbrev pub count_read : Option Service → Caches → Caches
count_read none c = c
count_read (some v) c = record c { service = some (record v { reads = v.reads + 1 }) }

unfoldable pub look_up : (server : String) → M (Option (Option Kind))
unfolding gets modify ◌>>=◌ pure
look_up s = do
  known ← gets (λ c. known_kind s c.service c)
  modify (λ c. count_read c.service c) >> pure known

-- `_detect_type`
unfoldable pub detect_type_with : (force : Bool) (server : String) → M (Option Kind)
unfolding ◌>>=◌ known_or_probe look_up
detect_type_with true s = probe s
detect_type_with false s = do known ← look_up s; known_or_probe s known

-- `_detect_type` without `force`, as every call has it.
unfoldable pub detect_type : (server : String) → M (Option Kind)
unfolding detect_type_with
detect_type s = detect_type_with false s
