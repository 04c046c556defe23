-- ===== src/Law5651.antt =====
-- The hash chain over the log (`Law5651Stamper`, emarefirewall/law5651.py). SHA-256 and the JSON
-- text of an entry are parameters; so is the answer of the time stamping authority.
pub mod Chain
pub mod Tamper
pub mod Tsa
mod Tests
use emarecloud.Prelude.{
  ℕ, zero, suc, ◌+◌, ◌-◌, ◌*◌, ◌/◌, ◌%◌, ◌≤◌, ◌<◌, min, max, String, ◌≡◌, refl, sym, ap, ◌∙◌, ◌≢◌,
  ◌↔◌, ◌⊎◌, inl, inr, Bool, true, false, not, ◌&&◌, ◌||◌, Option, none, some, List, [], ◌∷◌, ◌++◌,
  map, reverse, arith, eq_iff, ltb, leb, nat_beq, if◌then◌else◌, is_some, nat_beq_iff, ltb→lt,
  leb→le, Bool-cases, Option-cases, Eq, ◌==◌, nat_eq, string_eq, pair_eq, pair_beq,
}
use Prim.Native.String
use Prim.Native.String.{count}
use emarecloud.Lists.{sort, ascending}
use emarecloud.Dict.{Dict}
use emarecloud.Text.{is_empty, strip, lower}
use emarecloud.LogEntry.{TsaResult, Stamp, Value, Extra, Entry}

-- `'0' * 64`
abbrev pub genesis : String
genesis = "0000000000000000000000000000000000000000000000000000000000000000"

pub record Stamper : Type 0 where
  pub organization : String
  pub has_client : Bool
  pub enabled : Bool
  pub stamp_every : ℕ
  pub chain_index : ℕ
  pub last_chain_hash : String
  pub last_entry_id : ℕ
  pub total_stamped : ℕ
  pub total_failed : ℕ
  pub total_skipped : ℕ

-- `__init__`: the interval is at least one.
unfoldable pub new_stamper : String → (has_client enabled : Bool) → (stamp_every : ℕ) → Stamper
new_stamper organization has_client enabled stamp_every = record {
  organization = organization;
  has_client = has_client;
  enabled = enabled;
  stamp_every = max 1 stamp_every;
  chain_index = 0;
  last_chain_hash = genesis;
  last_entry_id = 0;
  total_stamped = 0;
  total_failed = 0;
  total_skipped = 0;
}

-- `_canonical_entry`: the entry without its stamp, before it is written as JSON.
abbrev pub unstamped : Entry → Entry
unstamped e = record e { extra = record { others = e.extra.others; law_5651 = none } }

abbrev pub stamped : Entry → Stamp → Entry
stamped e m = record e { extra = record { others = e.extra.others; law_5651 = some m } }

abbrev pub disabled : (now : String) → TsaResult
disabled now = record {
  provider = "TUBITAK-KamuSM";
  status = "skipped";
  tsa_time = now;
  token_b64 = none;
  error = none;
  note = some "damga devre disi";
}

abbrev tally : String → Stamper → Stamper
tally status t =
    if status == "stamped"
    then record t { total_stamped = t.total_stamped + 1 }
    else if status == "failed"
    then record t { total_failed = t.total_failed + 1 }
    else record t { total_skipped = t.total_skipped + 1 }

-- One restored entry: its stamp is taken over if it is further along the chain.
restore_one : Entry → Option Stamp → Stamper → Stamper
restore_one e none t = t
restore_one e (some m) t =
    let ch = lower (strip m.chain_hash) in
    if count ch == 64 && ltb t.chain_index m.chain_index
    then record t { chain_index = m.chain_index; last_chain_hash = ch; last_entry_id = e.id }
    else t

unfoldable pub restore_from_entries : List Entry → Stamper → Stamper
unfolding restore_one
restore_from_entries [] t = t
restore_from_entries (e ∷ es) t = restore_from_entries es (restore_one e e.extra.law_5651 t)

-- The outcome of `verify_entries`; a broken chain names the entry and the check that failed.
pub data Reason : Type 0 where
  missing_stamp entry_hash_differs prev_hash_broken chain_hash_differs : Reason

pub data Verdict : Type 0 where
  intact : (verified : ℕ) → Verdict
  broken : (verified broken_at : ℕ) → Reason → Verdict

module _ (sha256_hex : String → String) (dumps : Entry → String) where
  unfoldable pub entry_hash_of : Entry → String
  entry_hash_of e = sha256_hex (dumps (unstamped e))

  unfoldable pub chain_hash_of : (prev entry_hash : String) → String
  chain_hash_of prev entry_hash = sha256_hex (String.◌++◌ prev (String.◌++◌ ":" entry_hash))

  module _ (request_timestamp : String → TsaResult) where
    unfoldable pub stamp_entry : (now : String) → Entry → Stamper → Stamp × Stamper
    unfolding entry_hash_of chain_hash_of
    stamp_entry now e t =
        let index = t.chain_index + 1 in
        let prev = t.last_chain_hash in
        let entry_hash = entry_hash_of e in
        let chain_hash = chain_hash_of prev entry_hash in
        let answer =
          if t.enabled && t.has_client && index % t.stamp_every == 0
          then request_timestamp chain_hash
          else disabled now in
        let t' = tally answer.status t in
        (
          record {
            law = "5651";
            version = "1.0";
            organization = t.organization;
            chain_index = index;
            prev_chain_hash = prev;
            entry_hash = entry_hash;
            chain_hash = chain_hash;
            generated_at = now;
            tsa = answer;
          },
          record t' { chain_index = index; last_chain_hash = chain_hash; last_entry_id = e.id },
        )

  -- The loop of `verify_entries` from the hash that the next entry has to name.
  unfoldable pub verify_one : (prev : String) (verified : ℕ) → Entry → Option Stamp → Option Verdict
  unfolding entry_hash_of chain_hash_of
  verify_one prev verified e none = some (broken verified e.id missing_stamp)
  verify_one prev verified e (some m) =
      if not (m.entry_hash == entry_hash_of e)
      then some (broken verified e.id entry_hash_differs)
      else if not (m.prev_chain_hash == prev)
      then some (broken verified e.id prev_hash_broken)
      else if not (m.chain_hash == chain_hash_of prev (entry_hash_of e))
      then some (broken verified e.id chain_hash_differs)
      else none

  unfoldable pub verify_from : (prev : String) (verified : ℕ) → List Entry → Verdict
  verify_from prev verified [] = intact verified
  verify_from prev verified (e ∷ es) =
      let rest = verify_from (chain_hash_of prev (entry_hash_of e)) (verified + 1) es in
      elim (verify_one prev verified e e.extra.law_5651) [ some v ↦ v | none ↦ rest ]

  unfoldable pub verify_entries : List Entry → Verdict
  unfolding verify_from
  verify_entries es = verify_from genesis 0 (sort (ascending (λ e. e.id)) es)
