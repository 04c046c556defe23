-- ===== src/Failover/Monitor.antt =====
-- The run of the monitor (failover_monitor.py): the state of two data centres and the switch of the
-- names between them. The network is what the run finds of it: a probe, a request and its answer.
use emarecloud.Prelude.{
  ℕ, ◌+◌, String, Bool, true, false, ◌&&◌, Option, none, some, List, [], ◌∷◌, ◌++◌, map, ltb, leb,
  if◌then◌else◌, ◌==◌, nat_eq, string_eq, pair_eq,
}

abbrev pub dc1_ip : String
dc1_ip = "185.189.54.104"

abbrev pub dc2_ip : String
dc2_ip = "77.92.152.3"

abbrev pub threshold : ℕ
threshold = 3

-- A name with its record id and its `proxied` flag.
pub record DnsRecord : Type 0 where
  pub name : String
  pub record_id : String
  pub proxied : Bool

abbrev pub dc1_records : List DnsRecord
dc1_records =
    record {
      name = "emarecloud.tr";
      record_id = "dbb5a07502c3768d13bc720810949484";
      proxied = true;
    }
    ∷ record {
      name = "api.emarecloud.tr";
      record_id = "5aaf898780a7f34c8edeb41dc9797f70";
      proxied = true;
    }
    ∷ record {
      name = "token.emarecloud.tr";
      record_id = "503be16263bdbf47c50589c298ae5404";
      proxied = true;
    }
    ∷ record {
      name = "webdizayn.emarecloud.tr";
      record_id = "2e23f0fc369b30280d0b3769ccb68b27";
      proxied = true;
    }
    ∷ []

abbrev pub dc2_records : List DnsRecord
dc2_records =
    record {
      name = "asistan.emarecloud.tr";
      record_id = "f94b73ab3e3be741180c580d6c43531b";
      proxied = true;
    }
    ∷ record {
      name = "finans.emarecloud.tr";
      record_id = "b8abf8d44eea7b1b00e5228c873a9ed6";
      proxied = false;
    }
    ∷ []

pub record State : Type 0 where
  pub dc1_fails : ℕ
  pub dc1_active : String
  pub dc2_fails : ℕ
  pub dc2_active : String

-- `load_state`: the state of the file, or the initial one where there is no file.
unfoldable pub load_state : Option State → State
load_state none = record { dc1_fails = 0; dc1_active = dc1_ip; dc2_fails = 0; dc2_active = dc2_ip }
load_state (some s) = s

-- What a probe meets: an exception of the socket, the code of `connect_ex`, and behind it an answer
-- with its HTTP status (also the one of an `HTTPError`) or another exception.
pub data Probe : Type 0 where
  socket_error : Probe
  refused : (code : ℕ) → Probe
  answered : (status : ℕ) → Probe
  unreadable : Probe

-- `check_health`
unfoldable pub check_health : Probe → Bool
check_health socket_error = false
check_health (refused code) = false
check_health (answered status) = ltb status 500
check_health unreadable = true

-- A request to the name service: a record and the address that it is to have.
pub record Update : Type 0 where
  pub target : DnsRecord
  pub content : String
  pub ttl : ℕ

-- `update_dns`: one request for each record, in order, whether or not one of them fails.
unfoldable pub update_dns : List DnsRecord → (target_ip : String) → List Update
update_dns records target_ip =
    map (λ r. record { target = r; content = target_ip; ttl = 60 }) records

-- The check of one data centre: its count of failures and active address, with the requests sent.
unfoldable pub check_dc :
    (home backup : String)
    → List DnsRecord
    → (up : Bool) (fails : ℕ) (active : String) → ℕ × String × List Update
unfolding update_dns
check_dc home backup records true fails active =
    if active == home then (0, active, []) else (0, home, update_dns records home)
check_dc home backup records false fails active =
    if leb threshold (fails + 1) && active == home
    then (fails + 1, backup, update_dns records backup)
    else (fails + 1, active, [])

-- One run of the script.
unfoldable pub run : (dc1 dc2 : Probe) → State → State × List Update
unfolding check_dc check_health
run dc1 dc2 s =
    let (f1, a1, u1) =
      check_dc dc1_ip dc2_ip dc1_records (check_health dc1) s.dc1_fails s.dc1_active in
    let (f2, a2, u2) =
      check_dc dc2_ip dc1_ip dc2_records (check_health dc2) s.dc2_fails s.dc2_active in
    (record { dc1_fails = f1; dc1_active = a1; dc2_fails = f2; dc2_active = a2 }, u1 ++ u2)
