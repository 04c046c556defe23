-- ===== src/License/Info.antt =====
-- What a licence says (`LicenseInfo`, license_manager.py). A time is a number of seconds since the epoch.
-- `datetime.fromisoformat`, with the comparison that a time without a zone makes raise, is a parameter.
use emarecloud.Prelude.{
  ℕ, ◌-◌, ◌/◌, String, Bool, true, false, not, Option, none, some, List, [], ◌∷◌, ltb, leb,
  if◌then◌else◌, nat_eq, string_eq, pair_eq,
}
use emarecloud.Text.{is_empty, replace_code}
use emarecloud.Lists.{is_in}

-- The payload of a licence file; a key that is missing is `none`.
pub record Payload : Type 0 where
  pub holder : Option String
  pub email : Option String
  pub plan : Option String
  pub max_servers : Option ℕ
  pub issued_at : Option String
  pub expires_at : Option String
  pub features : Option (List String)
  pub license_id : Option String

pub record LicenseInfo : Type 0 where
  pub holder : String
  pub email : String
  pub plan : String
  pub max_servers : ℕ
  pub issued_at : String
  pub expires_at : String
  pub features : List String
  pub license_id : String

-- `data.get(key, default)`
abbrev pub or_default : {A : Type 0} → Option A → A → A
or_default none d = d
or_default (some a) d = a

-- `LicenseInfo(payload)`
unfoldable pub license_info : Payload → LicenseInfo
license_info p = record {
  holder = or_default p.holder "Bilinmeyen";
  email = or_default p.email "";
  plan = or_default p.plan "community";
  max_servers = or_default p.max_servers 3;
  issued_at = or_default p.issued_at "";
  expires_at = or_default p.expires_at "";
  features = or_default p.features [];
  license_id = or_default p.license_id "";
}

-- `s.replace('Z', '+00:00')`
abbrev pub zulu : String → String
zulu = replace_code 90 "+00:00"

module _ (fromisoformat : String → Option ℕ) where
  unfoldable pub is_expired : (now : ℕ) → LicenseInfo → Bool
  is_expired now info =
      if is_empty info.expires_at
      then false
      else elim (fromisoformat (zulu info.expires_at)) [ none ↦ true | some exp ↦ ltb exp now ]

  unfoldable pub days_remaining : (now : ℕ) → LicenseInfo → ℕ
  days_remaining now info =
      if is_empty info.expires_at
      then 9999
      else elim (fromisoformat (zulu info.expires_at)) [ none ↦ 0 | some exp ↦ (exp - now) / 86400 ]

-- `_community_license`
unfoldable pub community_license : LicenseInfo
unfolding license_info
community_license = license_info (record {
  holder = some "Community";
  email = none;
  plan = some "community";
  max_servers = some 3;
  issued_at = none;
  expires_at = none;
  features = some ("basic_monitoring" ∷ "ssh_terminal" ∷ "firewall" ∷ []);
  license_id = some "community-free";
})

-- Whether another server may be added (`check_server_limit`, without its message).
unfoldable pub check_server_limit : (current_count : ℕ) → LicenseInfo → Bool
check_server_limit current_count info = not (leb info.max_servers current_count)

unfoldable pub check_feature : (feature : String) → LicenseInfo → Bool
check_feature feature info =
    if is_in info.plan ("enterprise" ∷ "professional" ∷ [])
    then true
    else is_in feature info.features
