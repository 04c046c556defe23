-- ===== src/Rmm/Devices.antt =====
-- The devices with their metrics (the tables `devices` and `metrics`, emarefirewall/rmm.py). The random texts and the
-- times are arguments, the type of REAL is one, and a JSON text is a text.
pub mod Sweeps
pub mod Removal
use emarecloud.Prelude.{
  ℕ, zero, suc, ◌+◌, ◌-◌, ◌*◌, ◌/◌, ◌%◌, ◌≤◌, ◌<◌, min, max, String, ◌≡◌, refl, sym, ap, ◌∙◌, ◌≢◌,
  ◌↔◌, ◌⊎◌, inl, inr, Bool, true, false, not, ◌&&◌, ◌||◌, Option, none, some, List, [], ◌∷◌, map,
  reverse, arith, eq_iff, ltb, leb, nat_beq, if◌then◌else◌, is_some, nat_beq_iff, ltb→lt, leb→le,
  Bool-cases, Option-cases, Eq, ◌==◌, nat_eq, string_eq, pair_eq, pair_beq,
}
use Prim.Native.String.{◌++◌ as join_texts}
use mathlib.Core.List.{◌++◌}
use text.Mathlib.Text.{starts_with}
use emarecloud.Lists.{any, filter, sort, descending, take}
use emarecloud.Text.{is_empty}
use emarecloud.Integers.{ℤ}
use emarecloud.Rmm.Tasks.{Task}

-- The texts of the column `status`.
pub data Presence : Type 0 where
  online offline : Presence

abbrev pub status_text : Presence → String
status_text online = "online"
status_text offline = "offline"

abbrev pub is_online : Presence → Bool
is_online online = true
is_online offline = false

pub record Device (R : Type 0) : Type 0 where
  pub id : String
  pub agent_key : String
  pub hostname : String
  pub os_type : String
  pub os_version : String
  pub ip_address : String
  pub agent_version : String
  pub status : Presence
  pub last_heartbeat : ℕ
  pub cpu_usage : R
  pub ram_usage : R
  pub disk_usage : R
  pub tags : String
  pub extra : String
  pub tenant_id : String
  pub created_at : ℕ

pub record Metric (R : Type 0) : Type 0 where
  pub device_id : String
  pub ts : ℕ
  pub cpu : R
  pub ram : R
  pub disk : R
  pub net_in : ℤ
  pub net_out : ℤ
  pub custom : String

pub record Store (R : Type 0) : Type 0 where
  pub devices : List (Device R)
  pub metrics : List (Metric R)
  pub tasks : List Task

-- What an agent says of itself.
pub record Agent : Type 0 where
  pub hostname : String
  pub os_type : String
  pub os_version : String
  pub ip_address : String
  pub agent_version : String
  pub tenant_id : String
  pub tags : String

-- What a heartbeat brings.
pub record Reading (R : Type 0) : Type 0 where
  pub cpu : R
  pub ram : R
  pub disk : R
  pub net_in : ℤ
  pub net_out : ℤ
  pub extra : String

module _ {R : Type 0} where
  abbrev pub device_row : (zero : R) (id agent_key : String) → Agent → (now : ℕ) → Device R
  device_row z id agent_key a now = record {
    id = id;
    agent_key = agent_key;
    hostname = a.hostname;
    os_type = a.os_type;
    os_version = a.os_version;
    ip_address = a.ip_address;
    agent_version = a.agent_version;
    status = online;
    last_heartbeat = now;
    cpu_usage = z;
    ram_usage = z;
    disk_usage = z;
    tags = a.tags;
    extra = "{}";
    tenant_id = a.tenant_id;
    created_at = now;
  }

  abbrev pub is_taken : (id agent_key : String) → List (Device R) → Bool
  is_taken id agent_key rows = any (λ d. d.id == id || d.agent_key == agent_key) rows

  -- `register_device`: an identifier or a key that is in use raises (none). `secret` is the random part of the key.
  unfoldable pub register_device :
      (zero : R) (id secret : String) → Agent → (now : ℕ) → Store R → Option (String × Store R)
  register_device z id secret a now s =
      let agent_key = join_texts "eak_" secret in
      if is_taken id agent_key s.devices
      then none
      else some
          (agent_key, record s { devices = s.devices ++ (device_row z id agent_key a now ∷ []) })

  unfoldable pub find_agent : (agent_key : String) → List (Device R) → Option (Device R)
  find_agent k [] = none
  find_agent k (d ∷ rows) = if d.agent_key == k then some d else find_agent k rows

  -- `authenticate_agent`: the device whose identifier, host and status the answer has.
  unfoldable pub authenticate_agent : (agent_key : String) → Store R → Option (Device R)
  unfolding find_agent
  authenticate_agent k s =
      if is_empty k || not (starts_with k "eak_") then none else find_agent k s.devices

  unfoldable pub touch :
      (device_id : String) → Reading R → (now : ℕ) → List (Device R) → List (Device R)
  touch id r now [] = []
  touch id r now (d ∷ rows) =
      (if d.id == id
        then record d {
          status = online;
          last_heartbeat = now;
          cpu_usage = r.cpu;
          ram_usage = r.ram;
          disk_usage = r.disk;
          extra = r.extra;
        }
        else d)
      ∷ touch id r now rows

  abbrev pub metric_row : (device_id : String) → Reading R → (now : ℕ) → Metric R
  metric_row id r now = record {
    device_id = id;
    ts = now;
    cpu = r.cpu;
    ram = r.ram;
    disk = r.disk;
    net_in = r.net_in;
    net_out = r.net_out;
    custom = r.extra;
  }

  -- The first transaction of `heartbeat`.
  unfoldable pub record_heartbeat : (device_id : String) → Reading R → (now : ℕ) → Store R → Store R
  unfolding touch
  record_heartbeat id r now s = record s {
    devices = touch id r now s.devices;
    metrics = s.metrics ++ (metric_row id r now ∷ []);
  }

  unfoldable pub find_device : (device_id : String) → List (Device R) → Option (Device R)
  find_device id [] = none
  find_device id (d ∷ rows) = if d.id == id then some d else find_device id rows

  -- `get_device`
  unfoldable pub get_device : (device_id : String) → Store R → Option (Device R)
  unfolding find_device
  get_device id s = find_device id s.devices

  -- `list_devices`: an empty text asks for all.
  unfoldable pub list_devices : (tenant_id status : String) → Store R → List (Device R)
  list_devices tenant_id status s = sort (descending (λ d. d.last_heartbeat)) (
      filter
        (λ d.
          (is_empty tenant_id || d.tenant_id == tenant_id)
          && (is_empty status || status_text d.status == status))
        s.devices)

  -- `remove_device`
  unfoldable pub remove_device : (device_id : String) → Store R → Bool × Store R
  remove_device id s = (
    true,
    record {
      devices = filter (λ d. not (d.id == id)) s.devices;
      metrics = filter (λ m. not (m.device_id == id)) s.metrics;
      tasks = filter (λ t. not (t.device_id == id)) s.tasks;
    },
  )

  unfoldable pub sweep : (cutoff : ℕ) → List (Device R) → List (Device R)
  sweep cutoff [] = []
  sweep cutoff (d ∷ rows) =
      (if ltb d.last_heartbeat cutoff && is_online d.status
        then record d { status = offline }
        else d)
      ∷ sweep cutoff rows

  -- `update_statuses`, of the time and the timeout in minutes.
  unfoldable pub update_statuses : (timeout_minutes now : ℕ) → Store R → Store R
  unfolding sweep
  update_statuses timeout_minutes now s = record s {
    devices = sweep (now - timeout_minutes * 60000000) s.devices;
  }

  -- `get_metrics`: the newest rows of the window, oldest first. `since` is the start of the window.
  unfoldable pub get_metrics : (device_id : String) (since limit : ℕ) → Store R → List (Metric R)
  get_metrics id since limit s = reverse (
      take limit (
        sort (descending (λ m. m.ts))
          (filter (λ m. m.device_id == id && ltb since m.ts) s.metrics)))

  -- `cleanup_metrics`
  unfoldable pub cleanup_metrics : (cutoff : ℕ) → Store R → Store R
  cleanup_metrics cutoff s = record s { metrics = filter (λ m. not (ltb m.ts cutoff)) s.metrics }
