-- ===== src/Base/Equality.antt =====
-- Strict equality of keys, as an interface with instances for numbers, lists and pairs.
use Prim.Native.Nat.{ℕ}
use mathlib.Core.Path.{◌≡◌, refl}
use mathlib.Core.Logic.{◌↔◌}
use mathlib.Core.Bool.{Bool, true, false, ◌&&◌}
use mathlib.Core.List.{List, [], ◌∷◌}
use native.Mathlib.Omega.{arith}
use cf_sync.Base.Tests.{nat_beq, nat_beq_iff}

pub record KeyEq {ℓ} (A : Type ℓ) : Type ℓ where
  pub same_key : A → A → Bool
  pub same_key_iff : (j k : A) → (same_key j k ≡ true) ↔ (j ≡ k)

infix 50 ◌==◌
abbrev pub ◌==◌ {ℓ} : {A : Type ℓ} ⦃e : KeyEq A⦄ → A → A → Bool
◌==◌ ⦃e⦄ = e.same_key

pub eq_iff {ℓ} : {A : Type ℓ} ⦃e : KeyEq A⦄ (a b : A) → ((a == b) ≡ true) ↔ (a ≡ b)
eq_iff ⦃e⦄ a b = e.same_key_iff a b

pub eq_refl {ℓ} : {A : Type ℓ} ⦃e : KeyEq A⦄ (a : A) → (a == a) ≡ true
eq_refl a = (eq_iff a a).1 refl

instance abbrev pub nat_eq : KeyEq ℕ
nat_eq = record { same_key = nat_beq; same_key_iff = nat_beq_iff }

module _ {ℓ} {A : Type ℓ} ⦃e : KeyEq A⦄ where
  abbrev pub list_beq : List A → List A → Bool
  list_beq [] [] = true
  list_beq [] (y ∷ ys) = false
  list_beq (x ∷ xs) [] = false
  list_beq (x ∷ xs) (y ∷ ys) = x == y && list_beq xs ys

  pub list_beq_iff : (xs ys : List A) → (list_beq xs ys ≡ true) ↔ (xs ≡ ys)
  list_beq_iff [] [] = ((λ h. refl), λ h. refl)
  list_beq_iff [] (y ∷ ys) = ((λ h. cc), λ h. cc)
  list_beq_iff (x ∷ xs) [] = ((λ h. cc), λ h. cc)
  list_beq_iff (x ∷ xs) (y ∷ ys) = ground (arith, eq_iff x y, list_beq_iff xs ys)

  instance abbrev pub list_eq : KeyEq (List A)
  list_eq = record { same_key = list_beq; same_key_iff = list_beq_iff }

module _ {ℓ} {A B : Type ℓ} ⦃e : KeyEq A⦄ ⦃f : KeyEq B⦄ where
  abbrev pub pair_beq : A × B → A × B → Bool
  pair_beq (a, b) (c, d) = a == c && b == d

  pub pair_beq_iff : (p q : A × B) → (pair_beq p q ≡ true) ↔ (p ≡ q)
  pair_beq_iff (a, b) (c, d) = ground (arith, e.same_key_iff a c, f.same_key_iff b d)

  instance abbrev pub pair_eq : KeyEq (A × B)
  pair_eq = record { same_key = pair_beq; same_key_iff = pair_beq_iff }
