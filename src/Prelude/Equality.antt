-- ===== src/Prelude/Equality.antt =====
-- `==` as an interface: a Boolean test that decides equality, and its instances.
use Prim.Native.Nat.{ℕ}
use mathlib.Core.Path.{◌≡◌, refl, ap}
use mathlib.Core.Logic.{◌↔◌}
use mathlib.Core.Bool.{Bool, true, false, ◌&&◌}
use mathlib.Core.List.{List, [], ◌∷◌}
use mathlib.Core.Option.{Option, none, some}
use native.Mathlib.Omega.{arith}
use shlop.Prelude.Tests.{eqb, eqb_iff}

pub record Eq {ℓ} (A : Type ℓ) : Type ℓ where
  pub same : A → A → Bool
  pub decides : (x y : A) → (same x y ≡ true) ↔ (x ≡ y)

instance abbrev pub nat_eq : Eq ℕ
nat_eq = record { same = eqb; decides = eqb_iff }

module _ {ℓ} {A : Type ℓ} ⦃e : Eq A⦄ where
  infix 50 ◌==◌
  abbrev pub ◌==◌ : A → A → Bool
  x == y = e.same x y

  pub ==_iff : (x y : A) → ((x == y) ≡ true) ↔ (x ≡ y)
  ==_iff = e.decides

  pub ==_refl : (x : A) → (x == x) ≡ true
  ==_refl x = (e.decides x x).1 refl

  abbrev pub list_beq : List A → List A → Bool
  list_beq [] [] = true
  list_beq (x ∷ xs) (y ∷ ys) = e.same x y && list_beq xs ys
  list_beq _ _ = false

  pub list_beq_iff : (xs ys : List A) → (list_beq xs ys ≡ true) ↔ (xs ≡ ys)
  list_beq_iff [] [] = ((λ _. refl), λ _. refl)
  list_beq_iff [] (y ∷ ys) = ((λ h. cc), λ h. cc)
  list_beq_iff (x ∷ xs) [] = ((λ h. cc), λ h. cc)
  list_beq_iff (x ∷ xs) (y ∷ ys) = (
    (λ h. ground (arith, e.decides x y, list_beq_iff xs ys)),
    λ h. ground (arith, e.decides x y, list_beq_iff xs ys),
  )

  abbrev pub option_beq : Option A → Option A → Bool
  option_beq none none = true
  option_beq (some x) (some y) = e.same x y
  option_beq _ _ = false

  pub option_beq_iff : (a b : Option A) → (option_beq a b ≡ true) ↔ (a ≡ b)
  option_beq_iff none none = ((λ _. refl), λ _. refl)
  option_beq_iff none (some y) = ((λ h. cc), λ h. cc)
  option_beq_iff (some x) none = ((λ h. cc), λ h. cc)
  option_beq_iff (some x) (some y) =
      ((λ h. ap some ((e.decides x y).0 h)), λ h. ground (arith, e.decides x y))

instance abbrev pub list_eq {ℓ} : {A : Type ℓ} ⦃e : Eq A⦄ → Eq (List A)
list_eq = record { same = list_beq; decides = list_beq_iff }

instance abbrev pub option_eq {ℓ} : {A : Type ℓ} ⦃e : Eq A⦄ → Eq (Option A)
option_eq = record { same = option_beq; decides = option_beq_iff }
