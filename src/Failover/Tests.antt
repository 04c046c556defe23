-- ===== src/Failover/Tests.antt =====
-- Runs of the monitor, and its laws at concrete probes.
use emarecloud.Prelude.{
  ◌≡◌, refl, none, List, [], ◌∷◌, map, leb, if◌then◌else◌, nat_eq, string_eq, pair_eq,
}
use emarecloud.Failover.Monitor.{
  dc1_ip, dc2_ip, threshold, State, load_state, Probe, socket_error, refused, answered, unreadable,
  check_health, check_dc, run,
}
use emarecloud.Failover.Laws.{IsConsistent, run-IsConsistent, run_all, streak, run_all-active}

abbrev outage : List (Probe × Probe)
outage = (refused 61, answered 200) ∷ (answered 502, answered 404) ∷ (socket_error, unreadable) ∷ []

outage_moves_dc1 : (run_all outage (load_state none)).dc1_active ≡ dc2_ip
unfolding run_all run check_dc check_health load_state
outage_moves_dc1 = refl

-- The state behind two failures of the first data centre.
abbrev near : State
near = record { dc1_fails = 2; dc1_active = dc1_ip; dc2_fails = 0; dc2_active = dc2_ip }

run-IsConsistent_example : IsConsistent (run socket_error (answered 200) near).0
run-IsConsistent_example = run-IsConsistent socket_error (answered 200) near (refl, refl)

run_all-active_example :
    ((run_all outage (load_state none)).dc1_active
      ≡ (if leb threshold (streak 0 (map (λ p. p.0) outage)) then dc2_ip else dc1_ip))
    × ((run_all outage (load_state none)).dc2_active
        ≡ (if leb threshold (streak 0 (map (λ p. p.1) outage)) then dc1_ip else dc2_ip))
run_all-active_example = run_all-active outage
