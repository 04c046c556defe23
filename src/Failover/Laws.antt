-- ===== src/Failover/Laws.antt =====
-- The names of a data centre move after three failed probes in a row, and back with the first that
-- succeeds; the name service holds what the state says.
use mathlib.Core.Path.{ap₂}
use emarecloud.Failover.Monitor.{update_dns}
use emarecloud.Prelude.{
  ℕ, ◌+◌, String, ◌≡◌, refl, sym, ap, ◌∙◌, ◌≢◌, Bool, true, false, none, List, [], ◌∷◌, ◌++◌, map,
  arith, eq_iff, leb, if◌then◌else◌, ◌==◌, nat_eq, string_eq, pair_eq,
}
use emarecloud.Failover.Monitor.{Update}
use emarecloud.Failover.Monitor.{load_state}
use emarecloud.Prelude.{map}
use emarecloud.Prelude.{
  ℕ, String, ◌≡◌, Bool, true, false, List, arith, eq_iff, leb, if◌then◌else◌, nat_eq, string_eq,
  pair_eq,
}
use emarecloud.Failover.Monitor.{
  dc1_ip, dc2_ip, dc1_records, dc2_records, threshold, DnsRecord, State, Probe, check_health,
  check_dc, run,
}

-- The active address is the home one while the count is below the threshold, and else the backup's.
abbrev IsSettled : (home backup : String) → ℕ → String → Type 0
IsSettled home backup fails active = active ≡ (if leb threshold fails then backup else home)

abbrev pub IsConsistent : State → Type 0
IsConsistent s =
    IsSettled dc1_ip dc2_ip s.dc1_fails s.dc1_active
    × IsSettled dc2_ip dc1_ip s.dc2_fails s.dc2_active

check_dc-IsSettled :
    (home backup : String) (records : List DnsRecord) (up : Bool) (fails : ℕ) (active : String)
    → IsSettled home backup fails active
    → IsSettled home backup
        (check_dc home backup records up fails active).0
        (check_dc home backup records up fails active).1
unfolding check_dc
check_dc-IsSettled home backup records true fails active h = ground (arith, eq_iff active home)
check_dc-IsSettled home backup records false fails active h = ground (arith, eq_iff active home)

-- A state that has a run before it, the first of all from no file, is consistent: each name stands at
-- home up to the second failure in a row, and at the backup from the third on.
pub run-IsConsistent :
    (dc1 dc2 : Probe) (s : State) → IsConsistent s → IsConsistent (run dc1 dc2 s).0
unfolding run
run-IsConsistent dc1 dc2 s (h1, h2) = (
  check_dc-IsSettled dc1_ip dc2_ip dc1_records (check_health dc1) s.dc1_fails s.dc1_active h1,
  check_dc-IsSettled dc2_ip dc1_ip dc2_records (check_health dc2) s.dc2_fails s.dc2_active h2,
)

-- The runs of a list of probes, the first of which is the earliest.
unfoldable pub run_all : List (Probe × Probe) → State → State
run_all [] s = s
run_all ((p, q) ∷ ps) s = run_all ps (run p q s).0

-- The number of failed probes since the last that succeeded.
unfoldable pub streak : ℕ → List Probe → ℕ
streak n [] = n
streak n (p ∷ ps) = streak (if check_health p then 0 else n + 1) ps

run-fails :
    (dc1 dc2 : Probe) (s : State)
    → ((run dc1 dc2 s).0.dc1_fails ≡ (if check_health dc1 then 0 else s.dc1_fails + 1))
      × ((run dc1 dc2 s).0.dc2_fails ≡ (if check_health dc2 then 0 else s.dc2_fails + 1))
unfolding run check_dc
run-fails dc1 dc2 s = (ground arith, ground arith)

run_all-fails :
    (ps : List (Probe × Probe)) (s : State)
    → ((run_all ps s).dc1_fails ≡ streak s.dc1_fails (map (λ p. p.0) ps))
      × ((run_all ps s).dc2_fails ≡ streak s.dc2_fails (map (λ p. p.1) ps))
unfolding run_all streak
run_all-fails [] s = (refl, refl)
run_all-fails ((p, q) ∷ ps) s =
    let (a, b) = run-fails p q s in
    let (c, d) = run_all-fails ps (run p q s).0 in
    (c ∙ ap (λ n. streak n (map (λ p. p.0) ps)) a, d ∙ ap (λ n. streak n (map (λ p. p.1) ps)) b)

run_all-IsConsistent :
    (ps : List (Probe × Probe)) (s : State) → IsConsistent s → IsConsistent (run_all ps s)
unfolding run_all
run_all-IsConsistent [] s h = h
run_all-IsConsistent ((p, q) ∷ ps) s h =
    run_all-IsConsistent ps (run p q s).0 (run-IsConsistent p q s h)

-- Run from no state file, the state that is saved says that a data centre is at its backup exactly
-- if its last probes, at least three of them, have all failed, and that it is active otherwise,
-- whether the updates of the names succeed or not.
pub run_all-active :
    (ps : List (Probe × Probe))
    → let s = run_all ps (load_state none) in
      (s.dc1_active ≡ (if leb threshold (streak 0 (map (λ p. p.0) ps)) then dc2_ip else dc1_ip))
      × (s.dc2_active ≡ (if leb threshold (streak 0 (map (λ p. p.1) ps)) then dc1_ip else dc2_ip))
unfolding load_state
run_all-active ps =
    let (a, b) = run_all-fails ps (load_state none) in
    let (c, d) = run_all-IsConsistent ps (load_state none) (refl, refl) in
    (
      c ∙ ap (λ n. if leb threshold n then dc2_ip else dc1_ip) a,
      d ∙ ap (λ n. if leb threshold n then dc1_ip else dc2_ip) b,
    )

abbrev pub sent : List DnsRecord → (old new : String) → List Update
sent records old new = if old == new then [] else update_dns records new

check_dc-sends :
    (home backup : String) (records : List DnsRecord) (up : Bool) (fails : ℕ) (active : String)
    → home ≢ backup
    → (check_dc home backup records up fails active).2
      ≡ sent records active (check_dc home backup records up fails active).1
unfolding check_dc
check_dc-sends home backup records true fails active n =
    ground (arith, eq_iff active home, eq_iff active active)
check_dc-sends home backup records false fails active n =
    ground (arith, eq_iff active home, eq_iff active backup, eq_iff active active, n)

dcs_differ : dc1_ip ≢ dc2_ip
dcs_differ e = ground (arith, (eq_iff dc1_ip dc2_ip).1 e)

-- A run sends the requests for the names of a data centre exactly if it changes its active address,
-- and then once for each name.
pub run_sends :
    (dc1 dc2 : Probe) (s : State)
    → (run dc1 dc2 s).1
      ≡ sent dc1_records s.dc1_active (run dc1 dc2 s).0.dc1_active
        ++ sent dc2_records s.dc2_active (run dc1 dc2 s).0.dc2_active
unfolding run
run_sends dc1 dc2 s =
    ap₂ (λ u v. u ++ v)
      (check_dc-sends dc1_ip dc2_ip dc1_records (check_health dc1) s.dc1_fails s.dc1_active
        dcs_differ)
      (check_dc-sends dc2_ip dc1_ip dc2_records (check_health dc2) s.dc2_fails s.dc2_active
        (λ e. dcs_differ (sym e)))
