-- ===== src/License/Tests.antt =====
-- Runs of the check of a licence, and its laws at concrete files.
use emarecloud.Prelude.{
  ℕ, String, ◌≡◌, refl, true, false, Option, none, some, if◌then◌else◌, ◌==◌, nat_eq, string_eq,
  pair_eq,
}
use emarecloud.Text.{is_empty}
use emarecloud.License.Info.{
  Payload, license_info, is_expired, community_license, check_feature, check_server_limit,
}
use emarecloud.License.Verify.{parsed, SignatureCheck, valid, invalid, verify_license}

abbrev enterprise : Payload
enterprise = record {
  holder = some "Acme";
  email = none;
  plan = some "enterprise";
  max_servers = some 500;
  issued_at = none;
  expires_at = none;
  features = none;
  license_id = none;
}

-- A check under which only one signature is right.
abbrev check : ℕ → String → Payload → SignatureCheck
check key signature payload = if signature == "good" then valid else invalid

abbrev no_time : String → Option ℕ
no_time s = none

forged_falls_back :
    verify_license check no_time (some 1) 0 (parsed enterprise "bad") ≡ community_license
unfolding verify_license is_empty
forged_falls_back = refl

all_features : check_feature "raid" (license_info enterprise) ≡ true
unfolding check_feature emarecloud.Lists.Members.is_in license_info
all_features = refl

limit_reached : check_server_limit 3 community_license ≡ false
unfolding check_server_limit community_license
limit_reached = refl

enterprise_lasts : is_expired no_time 0 (license_info enterprise) ≡ false
unfolding is_expired is_empty license_info
enterprise_lasts = refl
