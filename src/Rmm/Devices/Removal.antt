-- ===== src/Rmm/Devices/Removal.antt =====
-- A key opens its device's account, until the device is removed.
use emarecloud.Prelude.{
  ℕ, String, ◌≡◌, refl, sym, ap, ◌∙◌, inl, inr, false, not, Option, none, some, List, [], ◌∷◌, ◌++◌,
  arith, Bool-cases, ◌==◌, nat_eq, string_eq, pair_eq,
}
use text.Mathlib.TextLemmas.{cons-append}
use text.Mathlib.TextPositions.{starts_with-append}
use Prim.Native.String.{◌++◌ as join_texts}
use mathlib.Core.Path.{subst}
use emarecloud.Dict.Laws.{beq_refl}
use emarecloud.Lists.{any, filter}
use emarecloud.Text.{is_empty}
use emarecloud.Rmm.Devices.{
  Device, Store, Agent, register_device, device_row, is_taken, find_agent, authenticate_agent,
  remove_device,
}

key_is_long : (secret : String) → is_empty (join_texts "eak_" secret) ≡ false
unfolding is_empty
key_is_long secret = rw cons-append refl

module _ {R : Type 0} where
  abbrev key_and_store : Option (String × Store R) → Store R → String × Store R
  key_and_store none s = ("", s)
  key_and_store (some (k, new_store)) s = (k, new_store)

  abbrev with_device : R → (id secret : String) → Agent → (now : ℕ) → Store R → Store R
  with_device z id secret a now s = record s {
    devices = s.devices ++ (device_row z id (join_texts "eak_" secret) a now ∷ []);
  }

  find_agent-append :
      (id k : String) (d : Device R) (rows : List (Device R))
      → is_taken id k rows ≡ false
      → d.agent_key ≡ k
      → find_agent k (rows ++ (d ∷ [])) ≡ some d
  unfolding find_agent any
  find_agent-append id k d [] n e = rw (e, beq_refl k) refl
  find_agent-append id k d (x ∷ rows) n e =
      let other : (x.agent_key == k) ≡ false = ground (arith, n) in
      let rest : is_taken id k rows ≡ false = ground (arith, n) in
      rw other (find_agent-append id k d rows rest e)

  find_agent-filter :
      (id k : String) (d : Device R) (rows : List (Device R))
      → is_taken id k rows ≡ false
      → d.id ≡ id
      → find_agent k (filter (λ x. not (x.id == id)) (rows ++ (d ∷ []))) ≡ none
  unfolding find_agent any filter
  find_agent-filter id k d [] n e = rw (e, beq_refl id) refl
  find_agent-filter id k d (x ∷ rows) n e =
      let other : (x.agent_key == k) ≡ false = ground (arith, n) in
      let apart : (x.id == id) ≡ false = ground (arith, n) in
      let rest : is_taken id k rows ≡ false = ground (arith, n) in
      rw (apart, other) (find_agent-filter id k d rows rest e)

  -- The key that a registration answers is that of a device with the given identifier, which is online.
  abbrev pub Opens : (key id : String) → Store R → Type 0
  Opens k id s = (d : Device R) × (authenticate_agent k s ≡ some d) × (d.id ≡ id)

  authenticate_agent-key :
      (secret : String) (s : Store R)
      → authenticate_agent (join_texts "eak_" secret) s
        ≡ find_agent (join_texts "eak_" secret) s.devices
  unfolding authenticate_agent
  authenticate_agent-key secret s = rw (key_is_long secret, starts_with-append "eak_" secret) refl

  register_device-new :
      (z : R) (id secret : String) (a : Agent) (now : ℕ) (s : Store R)
      → is_taken id (join_texts "eak_" secret) s.devices ≡ false
      → Opens (join_texts "eak_" secret) id (with_device z id secret a now s)
        × (authenticate_agent
              (join_texts "eak_" secret)
              (remove_device id (with_device z id secret a now s)).1
            ≡ none)
  unfolding remove_device
  register_device-new z id secret a now s free =
      let key = join_texts "eak_" secret in
      let d = device_row z id key a now in
      (
        (
          d,
          authenticate_agent-key secret (with_device z id secret a now s)
              ∙ find_agent-append id key d s.devices free refl,
          refl,
        ),
        authenticate_agent-key secret (remove_device id (with_device z id secret a now s)).1
            ∙ find_agent-filter id key d s.devices free refl,
      )

  -- `authenticate_agent` takes the key that `register_device` answers for the new device and, once the device is removed, for
  -- none.
  pub register_device-remove_device :
      (z : R) (id secret k : String) (a : Agent) (now : ℕ) (s new_store : Store R)
      → register_device z id secret a now s ≡ some (k, new_store)
      → Opens k id new_store × (authenticate_agent k (remove_device id new_store).1 ≡ none)
  unfolding register_device
  register_device-remove_device z id secret k a now s new_store h =
      elim (Bool-cases (is_taken id (join_texts "eak_" secret) s.devices)) [
        | inl e ↦ cc
        | inr e ↦
            let answer : key_and_store (register_device z id secret a now s) s ≡ (k, new_store) =
              ap (λ o. key_and_store o s) h in
            let computed : key_and_store (register_device z id secret a now s) s
                ≡ (join_texts "eak_" secret, with_device z id secret a now s) =
              rw e refl in
            subst (λ r. Opens r.0 id r.1 × (authenticate_agent r.0 (remove_device id r.1).1 ≡ none))
              (sym computed ∙ answer) (register_device-new z id secret a now s e)
      ]
