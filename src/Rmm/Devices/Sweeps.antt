-- ===== src/Rmm/Devices/Sweeps.antt =====
-- Which devices are online.
use emarecloud.Prelude.{
  ℕ, ◌-◌, ◌*◌, ◌≤◌, String, ◌≡◌, refl, inl, inr, Bool, true, ◌&&◌, ◌||◌, Option, none, some, List,
  [], ◌∷◌, arith, ltb, leb, Bool-cases, ◌==◌, nat_eq, string_eq, pair_eq,
}
use Prim.Native.String.{◌++◌ as join_texts}
use emarecloud.Lists.{All, All-append}
use emarecloud.Rmm.Tasks.{Task}
use emarecloud.Rmm.Devices.{
  is_online, is_taken, Metric, Device, Store, Agent, Reading, register_device, device_row, touch,
  record_heartbeat, sweep, update_statuses,
}

pub data Event (R : Type 0) : Type 0 where
  registers : (zero : R) (id secret : String) → Agent → (now : ℕ) → Event R
  beats : (id : String) → Reading R → (now : ℕ) → Event R
  sweeps : (timeout_minutes now : ℕ) → Event R

module _ {R : Type 0} where
  abbrev after_register : Option (String × Store R) → Store R → Store R
  after_register none s = s
  after_register (some (k, new_store)) s = new_store

  unfoldable pub run : List (Event R) → Store R → Store R
  unfolding register_device
  run [] s = s
  run (registers z id secret a now ∷ es) s =
      run es (after_register (register_device z id secret a now s) s)
  run (beats id r now ∷ es) s = run es (record_heartbeat id r now s)
  run (sweeps timeout now ∷ es) s = run es (update_statuses timeout now s)

  -- Every sweep of the run looks back no further than the cutoff.
  abbrev pub sweeps_before : (cutoff : ℕ) → List (Event R) → Bool
  sweeps_before c [] = true
  sweeps_before c (registers z id secret a now ∷ es) = sweeps_before c es
  sweeps_before c (beats id r now ∷ es) = sweeps_before c es
  sweeps_before c (sweeps timeout now ∷ es) = leb (now - timeout * 60000000) c && sweeps_before c es

  -- A device is online, or its last heartbeat lies before the cutoff.
  abbrev MayBe : (cutoff : ℕ) → Device R → Type 0
  MayBe c d = (is_online d.status || ltb d.last_heartbeat c) ≡ true

  -- Exactly the devices whose last heartbeat is not before the cutoff are online.
  abbrev pub IsCurrent : (cutoff : ℕ) → Device R → Type 0
  IsCurrent c d = is_online d.status ≡ leb c d.last_heartbeat

  touch-MayBe :
      (c : ℕ) (id : String) (r : Reading R) (now : ℕ) (rows : List (Device R))
      → All (MayBe c) rows
      → All (MayBe c) (touch id r now rows)
  unfolding touch
  touch-MayBe c id r now [] h = tt
  touch-MayBe c id r now (d ∷ rows) (hd, h) = elim (Bool-cases (d.id == id)) [
    | inl e ↦ rw e (refl, touch-MayBe c id r now rows h)
    | inr e ↦ rw e (hd, touch-MayBe c id r now rows h)
  ]

  sweep-MayBe :
      (b c : ℕ) (rows : List (Device R)) → b ≤ c → All (MayBe c) rows → All (MayBe c) (sweep b rows)
  unfolding sweep
  sweep-MayBe b c [] l h = tt
  sweep-MayBe b c (d ∷ rows) l (hd, h) = (ground (arith, hd, l), sweep-MayBe b c rows l h)

  sweep-IsCurrent :
      (c : ℕ) (rows : List (Device R)) → All (MayBe c) rows → All (IsCurrent c) (sweep c rows)
  unfolding sweep
  sweep-IsCurrent c [] h = tt
  sweep-IsCurrent c (d ∷ rows) (hd, h) = (ground (arith, hd), sweep-IsCurrent c rows h)

  register_device-MayBe :
      (c : ℕ) (z : R) (id secret : String) (a : Agent) (now : ℕ) (s : Store R)
      → All (MayBe c) s.devices
      → All (MayBe c) (after_register (register_device z id secret a now s) s).devices
  unfolding register_device
  register_device-MayBe c z id secret a now s h =
      elim (Bool-cases (is_taken id (join_texts "eak_" secret) s.devices)) [
        | inl e ↦ rw e h
        | inr e ↦ rw e (
            All-append (MayBe c) s.devices (device_row z id (join_texts "eak_" secret) a now ∷ []) h
              (refl, tt))
      ]

  run-MayBe :
      (c : ℕ) (es : List (Event R)) (s : Store R)
      → sweeps_before c es ≡ true
      → All (MayBe c) s.devices
      → All (MayBe c) (run es s).devices
  unfolding run record_heartbeat update_statuses
  run-MayBe c [] s h v = v
  run-MayBe c (registers z id secret a now ∷ es) s h v =
      run-MayBe c es (after_register (register_device z id secret a now s) s) h
        (register_device-MayBe c z id secret a now s v)
  run-MayBe c (beats id r now ∷ es) s h v =
      run-MayBe c es (record_heartbeat id r now s) h (touch-MayBe c id r now s.devices v)
  run-MayBe c (sweeps timeout now ∷ es) s h v =
      let l : now - timeout * 60000000 ≤ c = ground (arith, h) in
      let rest : sweeps_before c es ≡ true = ground (arith, h) in
      run-MayBe c es (update_statuses timeout now s) rest
        (sweep-MayBe (now - timeout * 60000000) c s.devices l v)

  -- In a store that starts with no devices, after any run of registrations, heartbeats and sweeps whose cutoffs are
  -- at most that of the last sweep, this `update_statuses` leaves online exactly the devices whose last heartbeat is not before its
  -- cutoff.
  pub update_statuses-IsCurrent :
      (es : List (Event R)) (timeout now : ℕ) (metrics : List (Metric R)) (tasks : List Task)
      → sweeps_before (now - timeout * 60000000) es ≡ true
      → All
          (IsCurrent (now - timeout * 60000000))
          (update_statuses timeout now
            (run es (record { devices = []; metrics = metrics; tasks = tasks }))).devices
  unfolding update_statuses
  update_statuses-IsCurrent es timeout now metrics tasks h =
      let s : Store R = record { devices = []; metrics = metrics; tasks = tasks } in
      sweep-IsCurrent (now - timeout * 60000000) (run es s).devices
        (run-MayBe (now - timeout * 60000000) es s h tt)
