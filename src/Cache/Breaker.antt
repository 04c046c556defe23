-- ===== src/Cache/Breaker.antt =====
-- `RedisCache` (emarefirewall/cache.py): Redis behind a circuit breaker, with a `DictCache` to fall back
-- on. A call of Redis that raises is `none`, and leaves the database as it was.
use emarecloud.Prelude.{
  ℕ, ◌+◌, ◌*◌, String, Bool, true, false, Option, none, some, [], ltb, leb, if◌then◌else◌, is_some,
  ◌==◌, nat_eq, string_eq, pair_eq,
}
use Prim.Native.String
use emarecloud.Integers.{ℤ, pos, int_eq}
use emarecloud.Cache.Memory.{second, Value, number, string, other, DictCache, ttl_or}
use emarecloud.Cache.Memory as Memory

-- What `RedisCache` calls of the Redis client, and of `json`.
pub record Redis : Type 1 where
  pub Db : Type 0
  pub ping : Db → Option (Unit {0})
  pub get : String → Db → Option (Option String)
  pub setex : String → ℕ → String → Db → Option Db
  pub delete : String → Db → Option Db
  pub incr : String → Db → Option (ℤ × Db)
  pub expire : String → ℕ → Db → Option Db
  pub loads : String → Option Value
  pub dumps : Value → String

abbrev pub circuit_threshold : ℕ
circuit_threshold = 5

abbrev pub circuit_reset_secs : ℕ
circuit_reset_secs = 30

module _ (R : Redis) where
  pub record RedisCache : Type 0 where
    pub db : R.Db
    pub default_ttl : ℕ
    pub key_prefix : String
    pub fallback : DictCache
    pub fail_count : ℕ
    pub circuit_open_until : ℕ

  -- `__init__`, behind the import of the client and its creation.
  unfoldable pub new_cache : R.Db → (default_ttl : ℕ) (key_prefix : String) → RedisCache
  new_cache db default_ttl key_prefix = record {
    db = db;
    default_ttl = default_ttl;
    key_prefix = key_prefix;
    fallback = record { entries = []; default_ttl = default_ttl };
    fail_count = if is_some (R.ping db) then 0 else circuit_threshold;
    circuit_open_until = 0;
  }

  unfoldable pub is_circuit_open : (now : ℕ) → RedisCache → Bool
  is_circuit_open now c =
      if ltb c.fail_count circuit_threshold
      then false
      else if ltb c.circuit_open_until now
      then false
      else true

  unfoldable pub record_success : RedisCache → RedisCache
  record_success c = if ltb 0 c.fail_count then record c { fail_count = 0 } else c

  unfoldable pub record_failure : (now : ℕ) → RedisCache → RedisCache
  record_failure now c =
      let c' = record c { fail_count = c.fail_count + 1 } in
      if leb circuit_threshold c'.fail_count
      then record c' { circuit_open_until = now + circuit_reset_secs * second }
      else c'

  -- `_key`
  abbrev pub full_key : String → RedisCache → String
  full_key key c = String.◌++◌ c.key_prefix key

  abbrev pub with_fallback : {A : Type 0} → RedisCache → A × DictCache → A × RedisCache
  with_fallback c (a, m) = (a, record c { fallback = m })

  -- The value of a text that Redis holds: what it is as JSON, or the text itself.
  abbrev pub decode : Option String → Option Value
  decode none = none
  decode (some raw) = elim (R.loads raw) [ none ↦ some (string raw) | some v ↦ some v ]

  abbrev pub got :
      (key : String) (now : ℕ) → Option (Option String) → RedisCache → Option Value × RedisCache
  got key now none c =
      let c' = record_failure now c in with_fallback c' (Memory.get key now c'.fallback)
  got key now (some raw) c = (decode raw, record_success c)

  unfoldable pub get : (key : String) (now : ℕ) → RedisCache → Option Value × RedisCache
  unfolding is_circuit_open record_failure record_success
  get key now c =
      if is_circuit_open now c
      then with_fallback c (Memory.get key now c.fallback)
      else got key now (R.get (full_key key c) c.db) c

  -- The state behind a call that changes the database.
  abbrev pub written : (now : ℕ) → Option R.Db → RedisCache → RedisCache
  written now none c = record_failure now c
  written now (some db) c = record_success (record c { db = db })

  unfoldable pub set : (key : String) → Value → Option ℕ → (now : ℕ) → RedisCache → RedisCache
  unfolding is_circuit_open record_failure record_success
  set key value ttl now c =
      let c' = record c { fallback = Memory.set key value ttl now c.fallback } in
      if is_circuit_open now c'
      then c'
      else written now (R.setex (full_key key c') (ttl_or c'.default_ttl ttl) (R.dumps value) c'.db)
          c'

  unfoldable pub delete : (key : String) (now : ℕ) → RedisCache → RedisCache
  unfolding is_circuit_open record_failure record_success
  delete key now c =
      let c' = record c { fallback = Memory.delete key c.fallback } in
      if is_circuit_open now c' then c' else written now (R.delete (full_key key c') c'.db) c'

  abbrev pub fall_back_incr :
      (key : String) → Option ℕ → (now : ℕ) → RedisCache → Option ℤ × RedisCache
  fall_back_incr key ttl now c = with_fallback c (Memory.incr key ttl now c.fallback)

  -- `incr` behind the answer of Redis; the first count of a key sets its time to live.
  abbrev pub counted :
      (key : String) → Option ℕ → (now : ℕ) → Option (ℤ × R.Db) → RedisCache → Option ℤ × RedisCache
  counted key ttl now none c = fall_back_incr key ttl now (record_failure now c)
  counted key ttl now (some (val, db)) c =
      let c' = record c { db = db } in
      if val == pos 1
      then elim (R.expire (full_key key c') (ttl_or c'.default_ttl ttl) db) [
        | none ↦ fall_back_incr key ttl now (record_failure now c')
        | some db' ↦ (some val, record_success (record c' { db = db' }))
      ]
      else (some val, record_success c')

  unfoldable pub incr : (key : String) → Option ℕ → (now : ℕ) → RedisCache → Option ℤ × RedisCache
  unfolding is_circuit_open record_failure record_success
  incr key ttl now c =
      if is_circuit_open now c
      then fall_back_incr key ttl now c
      else counted key ttl now (R.incr (full_key key c) c.db) c
