-- ===== src/Cache/Tests.antt =====
-- Runs of the caches, and their laws at concrete caches.
use emarecloud.Prelude.{
  ℕ, ◌≤◌, ◌≡◌, refl, inr, true, false, none, some, [], arith, nat_eq, string_eq, pair_eq,
}
use emarecloud.Cache.Memory.{second, Value, number, string, other, DictCache, ttl_or}
use emarecloud.Cache.Memory as Memory
use emarecloud.Cache.Breaker as Breaker
use emarecloud.Cache.Breaker.{
  Redis, RedisCache, circuit_threshold, circuit_reset_secs, is_circuit_open, record_failure,
  full_key,
}
use emarecloud.Cache.Laws.{get-set_memory}
use emarecloud.Cache.Open.{get-set_falls_back}

abbrev empty : DictCache
empty = record { entries = []; default_ttl = 5 }

get-set_memory_example :
    (Memory.get "a" 7000000001 (Memory.set "a" (string "x") (some 2) 5000000000 empty)).0 ≡ none
unfolding Memory.get
get-set_memory_example = get-set_memory "a" "a" (string "x") (some 2) 5000000000 7000000001 empty

empty_answers : (Memory.get "a" 10 empty).0 ≡ none
unfolding Memory.get emarecloud.Dict.get
empty_answers = refl

within : (10 ≤ 5000000010) × ((5000000010 ≤ 5000000010) × Unit {0})
within = (ground arith, (ground arith, tt))

-- A Redis whose calls all raise.
abbrev down : Redis
down = record {
  Db = ℕ;
  ping = λ d. none;
  get = λ k d. none;
  setex = λ k t v d. none;
  delete = λ k d. none;
  incr = λ k d. none;
  expire = λ k t d. none;
  loads = λ s. none;
  dumps = λ v. "";
}

-- A cache that has failed four times.
abbrev failing : RedisCache down
failing = record {
  db = 0;
  default_ttl = 5;
  key_prefix = "efw:";
  fallback = empty;
  fail_count = 4;
  circuit_open_until = 0;
}

abbrev opened : RedisCache down
opened = record failing { fail_count = 5; circuit_open_until = 100 }

opened_is_open : is_circuit_open down 50 opened ≡ true
unfolding is_circuit_open
opened_is_open = refl

get-set_falls_back_example :
    (Breaker.get down "a" 9 (Breaker.set down "a" (string "x") none 7 failing)).0
    ≡ some (string "x")
get-set_falls_back_example =
    get-set_falls_back down "a" (string "x") none 7 9 failing (inr refl) (ground arith)

-- A cache whose first probe of Redis failed does not start with an open circuit.
starts_closed : is_circuit_open down 1 (Breaker.new_cache down 0 5 "efw:") ≡ false
unfolding is_circuit_open Breaker.new_cache
starts_closed = refl
