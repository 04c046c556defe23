-- ===== src/Prelude/Keys.antt =====
-- The equality test of Python's `==` at the types that serve as dictionary keys.
use Prim.Native.Nat.{ℕ}
use Prim.Native.String.{String}
use mathlib.Core.Path.{◌≡◌}
use mathlib.Core.Logic.{◌↔◌}
use mathlib.Core.Bool.{Bool, true, ◌&&◌}
use native.Mathlib.Omega.{arith}
use text.Mathlib.Text.{◌==◌ as str_eq}
use text.Mathlib.TextEquality.{eq_iff}
use emarecloud.Prelude.Tests.{nat_beq, nat_beq_iff}

abbrev pub pair_beq : ℕ × String → ℕ × String → Bool
pair_beq (a, s) (b, t) = nat_beq a b && str_eq s t

pub pair_beq_iff : (p q : ℕ × String) → (pair_beq p q ≡ true) ↔ (p ≡ q)
pair_beq_iff (a, s) (b, t) = ground (arith, eq_iff s t)

-- The keys of a dictionary have a test that decides their equality.
pub record Eq {κ} (K : Type κ) : Type κ where
  pub same : K → K → Bool
  pub same_iff : (j k : K) → (same j k ≡ true) ↔ (j ≡ k)

instance abbrev pub string_eq : Eq String
string_eq = record { same_iff = eq_iff; same = str_eq }

-- A dictionary key that is a tuple of a number and a text.
instance abbrev pub pair_eq : Eq (ℕ × String)
pair_eq = record { same_iff = pair_beq_iff; same = pair_beq }

instance abbrev pub nat_eq : Eq ℕ
nat_eq = record { same_iff = nat_beq_iff; same = nat_beq }

infix 50 ◌==◌
abbrev pub ◌==◌ {κ} : {K : Type κ} ⦃test : Eq K⦄ → K → K → Bool
◌==◌ ⦃test⦄ j k = test.same j k
