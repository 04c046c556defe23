-- ===== src/Cache/Open.antt =====
-- When the circuit breaker is open, and what an open circuit keeps from Redis.
use emarecloud.Prelude.{
  ℕ, ◌+◌, ◌*◌, ◌≤◌, String, ◌≡◌, refl, ap, ◌∙◌, ◌⊎◌, inl, inr, true, ◌&&◌, Option, none, some,
  arith, leb, Bool-cases, nat_eq, string_eq, pair_eq,
}
use emarecloud.Cache.Memory.{second, Value, DictCache, ttl_or}
use emarecloud.Cache.Memory as Memory
use emarecloud.Cache.Laws.{get-set_memory}
use emarecloud.Dict.Laws.{beq_refl}
use emarecloud.Cache.Breaker as Breaker
use emarecloud.Cache.Breaker.{
  Redis, RedisCache, circuit_threshold, circuit_reset_secs, is_circuit_open, record_failure,
  record_success, full_key, got, written, counted,
}

module _ (R : Redis) where
  -- A failure opens the circuit exactly if it is at least the fifth in a row, and for thirty seconds.
  pub is_circuit_open-record_failure :
      (t now : ℕ) (c : RedisCache R)
      → is_circuit_open R now (record_failure R t c)
        ≡ (leb circuit_threshold (c.fail_count + 1) && leb now (t + circuit_reset_secs * second))
  unfolding is_circuit_open record_failure
  is_circuit_open-record_failure t now c = ground arith

  -- The breaker and the database of a cache.
  abbrev pub SameOutside : RedisCache R → RedisCache R → Type 0
  SameOutside c c' =
      (c'.db ≡ c.db)
      × (c'.fail_count ≡ c.fail_count)
      × (c'.circuit_open_until ≡ c.circuit_open_until)

  -- While the circuit is open no operation reaches Redis, its answers are those of the fallback,
  -- and the breaker stays as it is.
  pub open_circuit :
      (key : String) (v : Value) (ttl : Option ℕ) (now : ℕ) (c : RedisCache R)
      → is_circuit_open R now c ≡ true
      → SameOutside c (Breaker.get R key now c).1
        × SameOutside c (Breaker.set R key v ttl now c)
        × SameOutside c (Breaker.delete R key now c)
        × SameOutside c (Breaker.incr R key ttl now c).1
        × ((Breaker.get R key now c).0 ≡ (Memory.get key now c.fallback).0)
        × ((Breaker.incr R key ttl now c).0 ≡ (Memory.incr key ttl now c.fallback).0)
  unfolding Breaker.get Breaker.set Breaker.delete Breaker.incr is_circuit_open
  open_circuit key v ttl now c h = (
    rw h (refl, refl, refl),
    rw h (refl, refl, refl),
    rw h (refl, refl, refl),
    rw h (refl, refl, refl),
    rw h refl,
    rw h refl,
  )

  record_failure-fallback :
      (now : ℕ) (c : RedisCache R) → (record_failure R now c).fallback ≡ c.fallback
  unfolding record_failure
  record_failure-fallback now c = ground arith

  written-fallback :
      (now : ℕ) (db : Option R.Db) (c : RedisCache R) → (written R now db c).fallback ≡ c.fallback
  unfolding record_success
  written-fallback now none c = record_failure-fallback now c
  written-fallback now (some db) c = ground arith

  set-fallback :
      (key : String) (v : Value) (ttl : Option ℕ) (now : ℕ) (c : RedisCache R)
      → (Breaker.set R key v ttl now c).fallback ≡ Memory.set key v ttl now c.fallback
  unfolding Breaker.set
  set-fallback key v ttl now c =
      let c' = record c { fallback = Memory.set key v ttl now c.fallback } in
      elim (Bool-cases (is_circuit_open R now c')) [
        | inl q ↦ rw q refl
        | inr q ↦ rw q (written-fallback now _ c')
      ]

  -- The answer of a cache whose circuit is open, or whose Redis raises, is that of its fallback.
  get-fallback :
      (key : String) (now : ℕ) (c : RedisCache R)
      → (is_circuit_open R now c ≡ true) ⊎ (R.get (full_key R key c) c.db ≡ none)
      → (Breaker.get R key now c).0 ≡ (Memory.get key now c.fallback).0
  unfolding Breaker.get
  get-fallback key now c (inl h) = rw h refl
  get-fallback key now c (inr h) = elim (Bool-cases (is_circuit_open R now c)) [
    | inl q ↦ rw q refl
    | inr q ↦ rw (q, h) (ap (λ m. (Memory.get key now m).0) (record_failure-fallback now c))
  ]

  -- A value that was set is read back up to its time of expiry whenever Redis cannot be asked: the
  -- circuit is open, or the call raises.
  pub get-set_falls_back :
      (key : String) (v : Value) (ttl : Option ℕ) (now later : ℕ) (c : RedisCache R)
      → (let c' = Breaker.set R key v ttl now c in
          (is_circuit_open R later c' ≡ true) ⊎ (R.get (full_key R key c') c'.db ≡ none))
      → later ≤ now + ttl_or c.fallback.default_ttl ttl * second
      → (Breaker.get R key later (Breaker.set R key v ttl now c)).0 ≡ some v
  get-set_falls_back key v ttl now later c down h =
      let soon : leb later (now + ttl_or c.fallback.default_ttl ttl * second) ≡ true =
        ground (arith, h) in
      get-fallback key later (Breaker.set R key v ttl now c) down
      ∙ ap (λ m. (Memory.get key later m).0) (set-fallback key v ttl now c)
      ∙ get-set_memory key key v ttl now later c.fallback
      ∙ rw (beq_refl key, soon) refl
