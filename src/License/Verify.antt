-- ===== src/License/Verify.antt =====
-- The check of the licence file (`verify_license`, license_manager.py). The check of a signature under a
-- public key is a parameter.
use emarecloud.Prelude.{
  ℕ, String, Bool, true, false, not, Option, none, some, if◌then◌else◌, nat_eq, string_eq, pair_eq,
}
use emarecloud.Text.{is_empty}
use emarecloud.License.Info.{Payload, LicenseInfo, license_info, is_expired, community_license}

-- The licence file: not there, not to be read as JSON, or read.
pub data File : Type 0 where
  missing unreadable : File
  parsed : Payload → (signature : String) → File

-- What the check of a signature gives: it is right, `InvalidSignature`, or another exception.
pub data SignatureCheck : Type 0 where
  valid invalid raised : SignatureCheck

abbrev pub is_valid : SignatureCheck → Bool
is_valid valid = true
is_valid invalid = false
is_valid raised = false

module _ {PublicKey : Type 0}
    (verify : PublicKey → (signature : String) → Payload → SignatureCheck) where
  -- Whether the file passes the part of the code on its signature.
  unfoldable pub signature_passes : Option PublicKey → (signature : String) → Payload → Bool
  signature_passes none signature payload = true
  signature_passes (some key) signature payload =
      if is_empty signature then true else is_valid (verify key signature payload)

  module _ (fromisoformat : String → Option ℕ) where
    unfoldable pub verify_license : Option PublicKey → (now : ℕ) → File → LicenseInfo
    unfolding signature_passes community_license
    verify_license key now missing = community_license
    verify_license key now unreadable = community_license
    verify_license key now (parsed payload signature) =
        let info = license_info payload in
        if not (signature_passes key signature payload)
        then community_license
        else if is_expired fromisoformat now info
        then community_license
        else info
