-- ===== src/LogEntry.antt =====
-- A row of the firewall log (the dictionary that `LogStore.add` builds, emarefirewall/store.py) with
-- the 5651 stamp that `Law5651Stamper.stamp_entry` writes into its `extra` field.
use emarecloud.Prelude.{ℕ, Bool, Option, String}
use emarecloud.Dict.{Dict}

-- What the time stamping authority answered.
pub record TsaResult : Type 0 where
  pub provider : String
  pub status : String
  pub tsa_time : String
  pub token_b64 : Option String
  pub error : Option String
  pub note : Option String

pub record Stamp : Type 0 where
  pub law : String
  pub version : String
  pub organization : String
  pub chain_index : ℕ
  pub prev_chain_hash : String
  pub entry_hash : String
  pub chain_hash : String
  pub generated_at : String
  pub tsa : TsaResult

pub data Value : Type 0 where
  text : String → Value
  number : ℕ → Value
  flag : Bool → Value

-- The `extra` dictionary: its `law_5651` key, and all others.
pub record Extra : Type 0 where
  pub others : Dict String Value
  pub law_5651 : Option Stamp

pub record Entry : Type 0 where
  pub id : ℕ
  pub ts : String
  pub level : String
  pub category : String
  pub method : String
  pub path : String
  pub ip : String
  pub status : ℕ
  pub message : String
  pub server_id : String
  pub extra : Extra
