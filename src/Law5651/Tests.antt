-- ===== src/Law5651/Tests.antt =====
-- The theorems on the hash chain at concrete inputs.
use emarecloud.Prelude.{
  ℕ, String, ◌≡◌, refl, ◌≢◌, ◌⊎◌, true, false, none, List, [], ◌∷◌, map, arith, eq_iff, nat_eq,
  string_eq, pair_eq,
}
use emarecloud.Lists.{drop}
use emarecloud.LogEntry.{TsaResult, Entry}
use emarecloud.Law5651.{
  genesis, Stamper, disabled, stamp_entry, verify_entries, intact, broken, prev_hash_broken,
}
use emarecloud.Law5651.Chain.{stamp_all, stamp_all-verify_entries, stamp_all_dropped}
use emarecloud.Law5651.Tamper.{Collision, canonical, hashed, verify_entries_binds}
use emarecloud.Law5651.Tsa.{Client, Outcome, response}

abbrev digest : String
digest = "aaaaaaaaaaaaaaaaaaaaaaaaaaaaaaaaaaaaaaaaaaaaaaaaaaaaaaaaaaaaaaaa"

-- A stand-in for SHA-256 with digests of the right length, which collides everywhere.
abbrev coarse : String → String
coarse text = digest

abbrev message_of : Entry → String
message_of e = e.message

abbrev no_answer : String → TsaResult
no_answer hash = disabled "t0"

abbrev row : ℕ → String → Entry
row id message = record {
  id = id;
  ts = "2026-01-01T00:00:00";
  level = "INFO";
  category = "RESPONSE";
  method = "GET";
  path = "/";
  ip = "10.0.0.1";
  status = 200;
  message = message;
  server_id = "";
  extra = record { others = []; law_5651 = none };
}

abbrev stamper : Stamper
stamper = record {
  organization = "Emare";
  has_client = false;
  enabled = true;
  stamp_every = 1;
  chain_index = 0;
  last_chain_hash = genesis;
  last_entry_id = 0;
  total_stamped = 0;
  total_failed = 0;
  total_skipped = 0;
}

abbrev two_rows : List (String × Entry)
two_rows = ("t1", row 1 "first") ∷ ("t2", row 2 "second") ∷ []

stamp_all-verify_entries_example :
    verify_entries coarse message_of (stamp_all coarse message_of no_answer two_rows stamper).0
    ≡ intact 2
stamp_all-verify_entries_example =
    stamp_all-verify_entries coarse message_of no_answer two_rows stamper refl (refl, tt)

digest_ne_genesis : digest ≢ genesis
digest_ne_genesis = ground (arith, eq_iff digest genesis)

stamp_all_dropped_example :
    verify_entries coarse message_of
      (drop 1 (stamp_all coarse message_of no_answer two_rows stamper).0)
    ≡ broken 0 2 prev_hash_broken
unfolding stamp_entry
stamp_all_dropped_example =
    stamp_all_dropped coarse message_of no_answer ("t1", row 1 "first") ("t2", row 2 "second") []
      stamper tt digest_ne_genesis

-- The entries of two_rows with other messages.
abbrev forged_rows : List (String × Entry)
forged_rows = ("t1", row 1 "first") ∷ ("t2", row 2 "forged") ∷ []

abbrev log_of : List (String × Entry) → List Entry
log_of rows = (stamp_all coarse message_of no_answer rows stamper).0

verify_entries_binds_example :
    Collision coarse
      (hashed coarse message_of genesis (log_of two_rows))
      (hashed coarse message_of genesis (log_of forged_rows))
    ⊎ (map (canonical coarse message_of) (log_of two_rows)
        ≡ map (canonical coarse message_of) (log_of forged_rows))
unfolding stamp_all stamp_entry
verify_entries_binds_example =
    verify_entries_binds coarse message_of (λ a. refl) (log_of two_rows) (log_of forged_rows) 2 2
      (refl, tt) (refl, tt) refl stamp_all-verify_entries_example
      (stamp_all-verify_entries coarse message_of no_answer forged_rows stamper refl (refl, tt))
      refl

abbrev client : Client
client = record {
  tsa_url = "https://tsa.example.org";
  username = "u";
  password = "p";
  dry_run = false;
  ca_file = "";
}

abbrev outcome : Outcome
outcome = record {
  has_openssl = true;
  query_error = none;
  sent = response "dG9rZW4=";
  verify_error = none;
  mock_token = "";
}
