-- ===== src/Prelude/Keys.antt =====
-- Equality of dictionary keys as an interface, with the instances for numbers and texts.
use Prim.Native.Nat.{ℕ}
use Prim.Native.String.{String}
use mathlib.Core.Path.{◌≡◌, refl}
use mathlib.Core.Logic.{◌↔◌, ◌≢◌}
use mathlib.Core.Bool.{Bool, true, false}
use native.Mathlib.Omega.{arith}
use text.Mathlib.Text.{◌==◌ as str_eq}
use text.Mathlib.TextEquality.{eq_iff}
use qcbridge.Prelude.Tests.{eqb, eqb_iff}

infix 50 ◌==◌
-- A test of keys, and that it tells exactly the equal ones.
pub record Eq {ℓ} (K : Type ℓ) : Type ℓ where
  pub beq : K → K → Bool
  pub beq_iff : (x y : K) → (beq x y ≡ true) ↔ (x ≡ y)

-- Texts, such as uuids and paths.
instance abbrev pub string_eq : Eq String
string_eq = record { beq_iff = eq_iff; beq = str_eq }

-- The test of whichever type of keys.
abbrev pub ◌==◌ {ℓ} : {K : Type ℓ} ⦃k : Eq K⦄ → K → K → Bool
◌==◌ ⦃k⦄ x y = k.beq x y

module _ {ℓ} {K : Type ℓ} ⦃e : Eq K⦄ where
  pub ==_refl : (x : K) → (x == x) ≡ true
  ==_refl x = (e.beq_iff x x).1 refl

  pub ==-false : (x y : K) → x ≢ y → (x == y) ≡ false
  ==-false x y h = ground (arith, e.beq_iff x y)

  pub ==_comm : (x y : K) → (x == y) ≡ (y == x)
  ==_comm x y = ground (arith, e.beq_iff x y, e.beq_iff y x)

-- Numbers.
instance abbrev pub nat_eq : Eq ℕ
nat_eq = record { beq_iff = eqb_iff; beq = eqb }
