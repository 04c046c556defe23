-- ===== src/LogStore/Store.antt =====
-- The state of the log and the operations that change it (`LogStore`, emarefirewall/store.py). The
-- database is a parameter. Each operation is one step: the flush of the timer, which takes no lock, is not interleaved.
pub mod Order
pub mod Durable
use emarecloud.Prelude.{
  ℕ, zero, suc, ◌+◌, ◌-◌, ◌*◌, ◌/◌, ◌%◌, ◌≤◌, ◌<◌, min, max, String, ◌≡◌, refl, sym, ap, ◌∙◌, ◌≢◌,
  ◌↔◌, ◌⊎◌, inl, inr, Bool, true, false, not, ◌&&◌, ◌||◌, Option, none, some, List, [], ◌∷◌, ◌++◌,
  map, reverse, arith, eq_iff, ltb, leb, nat_beq, if◌then◌else◌, is_some, nat_beq_iff, ltb→lt,
  leb→le, Bool-cases, Option-cases, Eq, ◌==◌, nat_eq, string_eq, pair_eq, pair_beq,
}
use mathlib.Core.List.{foldl}
use emarecloud.Dict.{Dict}
use emarecloud.Lists.{length, last}
use emarecloud.LogEntry.{TsaResult, Stamp, Value, Extra, Entry}
use emarecloud.Law5651.{
  Stamper, Verdict, stamped, stamp_entry, restore_from_entries, verify_entries,
}
use emarecloud.LogStore.Stats.{Stats, no_stats, update_stats}

-- What `LogStore` calls of its `db_backend`. A call that writes answers whether it ends without an exception, beside what
-- it leaves of the database, which after an exception is anything.
pub record Backend : Type 1 where
  pub Db : Type 0
  pub load_recent : ℕ → Db → Option (List Entry)
  pub insert_batch : List Entry → Db → Bool × Db
  pub delete_before : String → Db → Bool × Db
  pub delete_all : Db → Bool × Db

abbrev pub flush_size : ℕ
flush_size = 50

module _ (B : Backend) where
  open B use {Db, load_recent, insert_batch, delete_before, delete_all}

  pub record Log : Type 0 where
    pub max_entries : ℕ
    pub entries : List Entry
    pub counter : ℕ
    pub db : Option Db
    pub retention_days : ℕ
    pub law5651 : Option Stamper
    pub write_buf : List Entry
    pub flush_timer : Bool
    pub stats : Stats

  -- `self._entries.append(entry)` on a deque with a maximal length.
  unfoldable pub push_entry : Entry → Log → Log
  push_entry e s = record s { entries = last s.max_entries (s.entries ++ e ∷ []) }

  -- A statement under `try` whose exception is logged and dropped.
  abbrev pub on_db : (Db → Bool × Db) → Option Db → Option Db
  on_db f none = none
  on_db f (some d) = some (f d).1

  -- `_flush_db`: the buffer is emptied before it is written, so a batch that raises is gone.
  unfoldable pub flush_db : Log → Log
  flush_db s = elim s.write_buf [
    | [] ↦ record s { flush_timer = false }
    | e ∷ es ↦ record s {
      flush_timer = false;
      write_buf = [];
      db = on_db (insert_batch (e ∷ es)) s.db;
    }
  ]

  -- `_persist`
  unfoldable pub persist : Entry → Log → Log
  unfolding flush_db
  persist e s = elim s.db [
    | none ↦ s
    | some d ↦
        (let s' = record s { write_buf = s.write_buf ++ e ∷ [] } in
          if leb flush_size (length s'.write_buf)
          then flush_db s'
          else record s' { flush_timer = true })
  ]

  unfoldable pub cleanup_old_logs : (cutoff : String) → Log → Log
  cleanup_old_logs cutoff s = record s { db = on_db (delete_before cutoff) s.db }

  unfoldable pub load_entry : Log → Entry → Log
  unfolding push_entry
  load_entry s e =
      let s' = push_entry e s in
      record s' { counter = max s'.counter e.id; stats = update_stats e s'.stats }

  abbrev restore : Log → Log
  restore s = elim s.law5651 [
    | none ↦ s
    | some t ↦ record s { law5651 = some (restore_from_entries s.entries t) }
  ]

  -- `_load_from_db`, also under `try`.
  unfoldable pub load_from_db : Log → Log
  unfolding load_entry
  load_from_db s = elim s.db [
    | none ↦ s
    | some d ↦ elim (load_recent s.max_entries d) [
      | none ↦ s
      | some rows ↦ restore (foldl load_entry s rows)
    ]
  ]

  abbrev pub empty_log : (max_entries : ℕ) → Option Db → (retention_days : ℕ) → Option Stamper → Log
  empty_log max_entries db retention_days law5651 = record {
    max_entries = max_entries;
    entries = [];
    counter = 0;
    db = db;
    retention_days = retention_days;
    law5651 = law5651;
    write_buf = [];
    flush_timer = false;
    stats = no_stats;
  }

  -- `__init__`
  unfoldable pub new_log :
      (max_entries : ℕ)
      → Option Db
      → (retention_days : ℕ) → Option Stamper
      → (cutoff : String) → Log
  unfolding cleanup_old_logs load_from_db
  new_log max_entries db retention_days law5651 cutoff =
      load_from_db (cleanup_old_logs cutoff (empty_log max_entries db retention_days law5651))

  unfoldable pub set_5651_stamper : Option Stamper → Log → Log
  set_5651_stamper stamper s = restore (record s { law5651 = stamper })

  -- The counters and the entries are cleared, and the rows of the database. The write buffer is not.
  unfoldable pub clear : Log → Log
  clear s = record s { entries = []; counter = 0; stats = no_stats; db = on_db delete_all s.db }

  -- The arguments of `add`.
  pub record Request : Type 0 where
    pub level : String
    pub category : String
    pub method : String
    pub path : String
    pub ip : String
    pub status_code : ℕ
    pub message : String
    pub server_id : String
    pub extra : Dict String Value

  abbrev pub entry_of : (id : ℕ) (now : String) → Request → Entry
  entry_of id now r = record {
    id = id;
    ts = now;
    level = r.level;
    category = r.category;
    method = r.method;
    path = r.path;
    ip = r.ip;
    status = r.status_code;
    message = r.message;
    server_id = r.server_id;
    extra = record { others = r.extra; law_5651 = none };
  }

  -- What `add` does with the finished entry.
  unfoldable pub record_entry : Entry → Log → Log
  unfolding push_entry persist
  record_entry e s =
      let s' = push_entry e s in persist e (record s' { stats = update_stats e s'.stats })

  module _ (sha256_hex : String → String) (dumps : Entry → String)
      (request_timestamp : String → TsaResult) where
    unfoldable pub add : (now : String) → Request → Log → Entry × Log
    unfolding record_entry
    add now r s =
        let e = entry_of (s.counter + 1) now r in
        let s' = record s { counter = s.counter + 1 } in
        elim s.law5651 [
          | none ↦ (e, record_entry e s')
          | some t ↦
              (let (m, t') = stamp_entry sha256_hex dumps request_timestamp now e t in
                (stamped e m, record_entry (stamped e m) (record s' { law5651 = some t' })))
        ]

  -- `verify_5651_chain`: `none` where no stamper is set. At least one entry is looked at.
  unfoldable pub verify_5651_chain :
      (String → String) → (Entry → String) → (limit : ℕ) → Log → Option Verdict
  verify_5651_chain sha256_hex dumps limit s = elim s.law5651 [
    | none ↦ none
    | some t ↦ some (verify_entries sha256_hex dumps (last (max 1 limit) s.entries))
  ]
