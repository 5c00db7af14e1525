-- ===== src/Common/Keys.antt =====
-- Comparable values: what a Go map may have as its keys, and Go strings.
use Prim.Native.Nat.{ℕ}
use Prim.Native.Char.{code}
use Prim.Native.String.{String}
use mathlib.Core.Path.{◌≡◌}
use mathlib.Core.Bool.{Bool, true, false}
use mathlib.Core.List.{List, [], ◌∷◌}
use native.Mathlib.Omega.{arith}
use native.Mathlib.Decide.{ℕ_discrete}

-- A type that `==` compares.
pub record Key {ℓ} (K : Type ℓ) : Type ℓ where
  pub same? : Discrete K

module _ {ℓ} {K : Type ℓ} ⦃e : Key K⦄ where
  infix 50 ◌=?◌
  abbrev pub ◌=?◌ : K → K → Bool
  a =? b = elim (e.same? a b) [ yes _ ↦ true | no _ ↦ false ]

  pub =?-refl : (a : K) → (a =? a) ≡ true
  =?-refl a = ground arith

instance abbrev pub nat_key : Key ℕ
nat_key = record { same? = ℕ_discrete }

-- A Go string: its code points. Two valid UTF-8 strings are equal, and compare as bytes, as
-- their code points do.
abbrev pub Text : Type 0
Text = List ℕ

unfoldable pub Text-discrete : Discrete Text
Text-discrete = hlevel ℕ_discrete

instance abbrev pub text_key : Key Text
text_key = record { same? = Text-discrete }

abbrev pub is_empty {ℓ} : {A : Type ℓ} → List A → Bool
is_empty [] = true
is_empty (_ ∷ _) = false

abbrev pub codes : String → Text
codes String.[] = []
codes (String.◌∷◌ c s) = code c ∷ codes s

abbrev pub same_bool : Bool → Bool → Bool
same_bool true b = b
same_bool false true = false
same_bool false false = true
