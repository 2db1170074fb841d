-- ===== src/Prelude/Text.antt =====
-- Text that the program walks: a list of code points, with Python's `==` on lists.
use Prim.Native.Nat.{ℕ}
use Prim.Native.Char.{code}
use Prim.Native.String.{String}
use mathlib.Core.Path.{◌≡◌}
use mathlib.Core.Logic.{◌↔◌, ◌≢◌}
use mathlib.Core.Bool.{Bool, true, false, ◌&&◌}
use mathlib.Core.List.{List, [], ◌∷◌}
use native.Mathlib.Omega.{arith}
use dockermock.Prelude.Tests.{Eq, nat_eq}

abbrev pub Text : Type 0
Text = List ℕ

-- The code points of a text literal.
abbrev pub codes : String → Text
codes String.[] = []
codes (String.◌∷◌ c s) = code c ∷ codes s

module _ {ℓ} {A : Type ℓ} (e : Eq A) where
  abbrev pub list_beq : List A → List A → Bool
  list_beq [] [] = true
  list_beq [] (y ∷ ys) = false
  list_beq (x ∷ xs) [] = false
  list_beq (x ∷ xs) (y ∷ ys) = e.beq x y && list_beq xs ys

  pub list_beq_iff : (xs ys : List A) → (list_beq xs ys ≡ true) ↔ (xs ≡ ys)
  list_beq_iff [] [] = ground arith
  list_beq_iff [] (y ∷ ys) = ground arith
  list_beq_iff (x ∷ xs) [] = ground arith
  list_beq_iff (x ∷ xs) (y ∷ ys) = ground (arith, list_beq_iff xs ys, e.beq_iff x y)

instance abbrev pub list_eq {ℓ} : {A : Type ℓ} ⦃e : Eq A⦄ → Eq (List A)
list_eq ⦃e⦄ = record { beq = list_beq e; beq_iff = list_beq_iff e }

abbrev pub text_beq : Text → Text → Bool
text_beq = list_beq nat_eq

pub text_beq_iff : (s t : Text) → (text_beq s t ≡ true) ↔ (s ≡ t)
text_beq_iff s t = list_beq_iff nat_eq s t

-- The same path of labels.
abbrev pub paths_beq : List Text → List Text → Bool
paths_beq = list_beq (list_eq ⦃e = nat_eq⦄)

pub paths_beq_iff : (ps qs : List Text) → (paths_beq ps qs ≡ true) ↔ (ps ≡ qs)
paths_beq_iff ps qs = list_beq_iff (list_eq ⦃e = nat_eq⦄) ps qs

-- Texts without a dot.
abbrev pub NoDot : Text → Type 0
NoDot [] = Unit
NoDot (c ∷ s) = (c ≢ b'.') × NoDot s
