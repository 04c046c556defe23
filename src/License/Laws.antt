-- ===== src/License/Laws.antt =====
-- Which licences are accepted.
use emarecloud.Prelude.{
  ℕ, String, ◌≡◌, refl, ◌⊎◌, inl, inr, true, false, Option, none, some, arith, Bool-cases, nat_eq,
  string_eq, pair_eq,
}
use emarecloud.Text.{is_empty}
use emarecloud.License.Info.{Payload, license_info, is_expired, community_license}
use emarecloud.License.Verify.{
  parsed, SignatureCheck, is_valid, valid, invalid, raised, signature_passes, verify_license,
}

is_valid-valid : (c : SignatureCheck) → is_valid c ≡ true → c ≡ valid
is_valid-valid valid h = refl
is_valid-valid invalid h = absurd (ground (arith, h))
is_valid-valid raised h = absurd (ground (arith, h))

module _ {PublicKey : Type 0} (verify : PublicKey → (signature : String) → Payload → SignatureCheck)
    (fromisoformat : String → Option ℕ) where
  -- What stands behind the licence of a file that is accepted.
  abbrev pub IsAccepted : PublicKey → (now : ℕ) → Payload → (signature : String) → Type 0
  IsAccepted key now payload signature =
      (is_expired fromisoformat now (license_info payload) ≡ false)
      × ((verify key signature payload ≡ valid) ⊎ (is_empty signature ≡ true))

  signature_passes_valid :
      (key : PublicKey) (signature : String) (payload : Payload)
      → signature_passes verify (some key) signature payload ≡ true
      → (verify key signature payload ≡ valid) ⊎ (is_empty signature ≡ true)
  unfolding signature_passes
  signature_passes_valid key signature payload h = elim (Bool-cases (is_empty signature)) [
    | inl e ↦ inr e
    | inr e ↦ inl (is_valid-valid (verify key signature payload) (rw e at h))
  ]

  -- With a public key installed, the licence is that of the community, or that of a file that is not
  -- expired and whose signature is right or empty.
  pub verify_license_sound :
      (key : PublicKey) (now : ℕ) (payload : Payload) (signature : String)
      → (verify_license verify fromisoformat (some key) now (parsed payload signature)
          ≡ community_license)
        ⊎ ((verify_license verify fromisoformat (some key) now (parsed payload signature)
              ≡ license_info payload)
            × IsAccepted key now payload signature)
  unfolding verify_license
  verify_license_sound key now payload signature =
      elim (Bool-cases (signature_passes verify (some key) signature payload)) [
        | inr s ↦ inl (rw s refl)
        | inl s ↦ elim (Bool-cases (is_expired fromisoformat now (license_info payload))) [
          | inl e ↦ inl (rw (s, e) refl)
          | inr e ↦ inr (rw (s, e) refl, (e, signature_passes_valid key signature payload s))
        ]
      ]

  -- A file that is not expired is accepted without any signature, whatever public key is
  -- installed.
  pub verify_license_unsigned :
      (key : Option PublicKey) (now : ℕ) (payload : Payload)
      → is_expired fromisoformat now (license_info payload) ≡ false
      → verify_license verify fromisoformat key now (parsed payload "") ≡ license_info payload
  unfolding verify_license signature_passes is_empty
  verify_license_unsigned none now payload h = rw h refl
  verify_license_unsigned (some key) now payload h = rw h refl
