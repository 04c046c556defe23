-- ===== src/TenantStore/State.antt =====
-- The records of `DictTenantStore` and its state (emarefirewall/tenants.py). A time stamp is the
-- text that the clock gives; an `int(...)` of an argument is the number itself.
use emarecloud.Prelude.{ℕ, ◌+◌, Bool, Option, List, [], String}
use emarecloud.Dict.{Dict}

pub record Tenant : Type 0 where
  pub id : ℕ
  pub name : String
  pub email : String
  pub plan : String
  pub api_key_hash : String
  pub api_key_prefix : String
  pub active : Bool
  pub max_servers : ℕ
  pub max_rules : ℕ
  pub rate_limit : ℕ
  pub created_at : String
  pub updated_at : String
  pub metadata : Dict String String

pub record Server : Type 0 where
  pub server_id : String
  pub label : String
  pub ssh_host : String
  pub ssh_user : String
  pub ssh_port : ℕ
  pub active : Bool
  pub created_at : String

pub record Audit : Type 0 where
  pub id : ℕ
  pub ts : String
  pub tenant_id : ℕ
  pub user_ip : String
  pub action : String
  pub resource_type : String
  pub resource_id : String
  pub details : Dict String String
  pub success : Bool

pub record Webhook : Type 0 where
  pub id : ℕ
  pub tenant_id : ℕ
  pub url : String
  pub events : List String
  pub secret : String
  pub active : Bool
  pub fail_count : ℕ
  pub created_at : String
  pub last_triggered : Option String

pub record Alert : Type 0 where
  pub id : ℕ
  pub tenant_id : ℕ
  pub alert_type : String
  pub server_id : String
  pub severity : String
  pub message : String
  pub details : Dict String String
  pub acknowledged : Bool
  pub created_at : String

pub record Task : Type 0 where
  pub id : ℕ
  pub tenant_id : ℕ
  pub task_type : String
  pub server_id : String
  pub cron_expr : String
  pub active : Bool
  pub last_run : Option String
  pub next_run : Option String
  pub created_at : String

pub record Job : Type 0 where
  pub id : ℕ
  pub tenant_id : ℕ
  pub job_type : String
  pub status : String
  pub total : ℕ
  pub completed : ℕ
  pub failed : ℕ
  pub results : List String
  pub payload : Dict String String
  pub created_at : String
  pub finished_at : Option String

pub record Pool : Type 0 where
  pub id : ℕ
  pub tenant_id : ℕ
  pub pool_name : String
  pub public_ip : String
  pub port_start : ℕ
  pub port_end : ℕ
  pub ports_per_subscriber : ℕ
  pub active : Bool

pub record Mapping : Type 0 where
  pub id : ℕ
  pub pool_id : ℕ
  pub subscriber_ip : String
  pub public_ip : String
  pub port_start : ℕ
  pub port_end : ℕ
  pub created_at : String

pub record Block : Type 0 where
  pub id : ℕ
  pub tenant_id : ℕ
  pub cidr : String
  pub description : String
  pub block_type : String
  pub vlan : Option ℕ
  pub gateway : String

pub record Assignment : Type 0 where
  pub id : ℕ
  pub block_id : ℕ
  pub ip_address : String
  pub assigned_to : String
  pub mac_address : String
  pub status : String
  pub note : String
  pub created_at : String

pub record Store : Type 0 where
  pub tenants : Dict ℕ Tenant
  pub servers : Dict (ℕ × String) Server
  pub audits : List Audit
  pub webhooks : Dict ℕ Webhook
  pub scheduled : Dict ℕ Task
  pub bulk_jobs : Dict ℕ Job
  pub alerts : Dict ℕ Alert
  pub cgnat_pools : Dict ℕ Pool
  pub cgnat_mappings : Dict ℕ Mapping
  pub ipam_blocks : Dict ℕ Block
  pub ipam_assignments : Dict ℕ Assignment
  pub counter : ℕ

-- `__init__`
abbrev pub init : Store
init = record {
  tenants = [];
  servers = [];
  audits = [];
  webhooks = [];
  scheduled = [];
  bulk_jobs = [];
  alerts = [];
  cgnat_pools = [];
  cgnat_mappings = [];
  ipam_blocks = [];
  ipam_assignments = [];
  counter = 0;
}

-- `_next_id`: the number handed out, and the store that counts it.
unfoldable pub next_id : Store → ℕ × Store
next_id s = (s.counter + 1, record s { counter = s.counter + 1 })

-- A reply is its payload under `success: True`, or the message under `success: False`.
pub data Error : Type 0 where
  invalid_name invalid_plan tenant_not_found : Error
  server_assigned quota_full server_not_found : Error
  webhook_not_found alert_not_found : Error
  invalid_task_type invalid_cron task_not_found : Error
  pool_name_taken pool_not_found pool_full mapping_not_found division_by_zero : Error
  cidr_taken block_not_found ip_taken ip_not_found : Error

pub data Reply (A : Type 0) : Type 0 where
  ok : A → Reply A
  failure : Error → Reply A
