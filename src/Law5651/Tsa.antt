-- ===== src/Law5651/Tsa.antt =====
-- The client of the time stamping authority (`TubitakTimestampClient`, emarefirewall/law5651.py).
-- What `openssl` and the network do is given by the outcomes of one call.
use emarecloud.Prelude.{
  String, ◌≡◌, ◌⊎◌, Bool, true, false, not, Option, none, some, arith, eq_iff, if◌then◌else◌, ◌==◌,
  nat_eq, string_eq, pair_eq,
}
use Prim.Native.String
use Prim.Native.String.{count}
use emarecloud.Text.{is_empty, strip, lower}
use emarecloud.LogEntry.{TsaResult}

pub record Client : Type 0 where
  pub tsa_url : String
  pub username : String
  pub password : String
  pub dry_run : Bool
  pub ca_file : String

-- Sending the query: the response's bytes in base64, or the message of the exception.
pub data Sent : Type 0 where
  response : String → Sent
  url_error : String → Sent
  other_error : String → Sent

-- `some message` is a failed run of `openssl` with its error output.
pub record Outcome : Type 0 where
  pub has_openssl : Bool
  pub query_error : Option String
  pub sent : Sent
  pub verify_error : Option String
  pub mock_token : String

failed : (now message : String) → TsaResult
failed now message = record {
  provider = "TUBITAK-KamuSM";
  status = "failed";
  tsa_time = now;
  token_b64 = none;
  error = some message;
  note = none;
}

stamped_with : (now token : String) → TsaResult
stamped_with now token = record {
  provider = "TUBITAK-KamuSM";
  status = "stamped";
  tsa_time = now;
  token_b64 = some token;
  error = none;
  note = none;
}

skipped : (now token : String) → TsaResult
skipped now token = record {
  provider = "TUBITAK-KamuSM";
  status = "skipped";
  tsa_time = now;
  token_b64 = some token;
  error = none;
  note = some "dry-run modunda gercek TSA cagrisi yapilmadi";
}

-- The response is verified only where a certificate file is configured.
receive : Client → Outcome → (now tsr : String) → TsaResult
unfolding failed stamped_with
receive c o now tsr = if is_empty c.ca_file then stamped_with now tsr else elim o.verify_error [
  | some err ↦ failed now (String.◌++◌ "TSR dogrulama hatasi: " err)
  | none ↦ stamped_with now tsr
]

query : Client → Outcome → (now : String) → TsaResult
unfolding receive
query c o now = elim o.query_error [
  | some err ↦ failed now (String.◌++◌ "TSQ olusturulamadi: " err)
  | none ↦ elim o.sent [
    | url_error err ↦ failed now (String.◌++◌ "TSA erisim hatasi: " err)
    | other_error err ↦ failed now (String.◌++◌ "TSA isleme hatasi: " err)
    | response tsr ↦ receive c o now tsr
  ]
]

unfoldable pub request_timestamp : Client → Outcome → (now digest_hex : String) → TsaResult
unfolding query skipped
request_timestamp c o now digest_hex =
    if not (count (lower (strip digest_hex)) == 64)
    then failed now "Digest SHA-256 hex olmali."
    else if c.dry_run
    then skipped now o.mock_token
    else if is_empty c.tsa_url
    then failed now "TSA URL tanimli degil."
    else if not o.has_openssl
    then failed now "openssl bulunamadi."
    else query c o now

-- A stamp is reported only for a digest of 64 characters, outside a dry run, with openssl at hand,
-- after a query that succeeded and a response that arrived and verified where a certificate file
-- is set, and carries the token received.
pub request_timestamp_stamped :
    (c : Client) (o : Outcome) (now digest : String)
    → (request_timestamp c o now digest).status ≡ "stamped"
    → (count (lower (strip digest)) ≡ 64)
      × (c.dry_run ≡ false)
      × (o.has_openssl ≡ true)
      × (o.query_error ≡ none)
      × ((is_empty c.ca_file ≡ true) ⊎ (o.verify_error ≡ none))
      × ((tsr : String) × (o.sent ≡ response tsr)
          × ((request_timestamp c o now digest).token_b64 ≡ some tsr))
unfolding request_timestamp failed stamped_with
request_timestamp_stamped c o now digest h =
    ground (arith, eq_iff "failed" "stamped", eq_iff "skipped" "stamped")
