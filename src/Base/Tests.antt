-- ===== src/Base/Tests.antt =====
-- Boolean tests, the conditional, and equality of keys.
use Prim.Native.Nat.{ℕ, ◌≤◌, ◌<◌, compare, Ordering}
use mathlib.Core.Path.{◌≡◌, refl}
use mathlib.Core.Logic.{◌≢◌, ◌⊎◌, inl, inr}
use mathlib.Core.Bool.{Bool, true, false}
use mathlib.Core.Option.{Option, none, some}
use native.Mathlib.Omega.{arith}
use native.Mathlib.Decide.{ℕ_discrete}

abbrev pub ltb : ℕ → ℕ → Bool
ltb a b = elim (compare a b) [ Ordering.lt ↦ true | _ ↦ false ]

abbrev pub leb : ℕ → ℕ → Bool
leb a b = elim (compare a b) [ Ordering.gt ↦ false | _ ↦ true ]

infix 1 if◌then◌else◌
abbrev pub if◌then◌else◌ {ℓ} : {A : Type ℓ} → Bool → A → A → A
if true then x else y = x
if false then x else y = y

pub ltb→lt : (a b : ℕ) → ltb a b ≡ true → a < b
ltb→lt a b h = ground arith

pub leb→le : (a b : ℕ) → leb a b ≡ true → a ≤ b
leb→le a b h = ground arith

-- To split on a computed value and keep the equation.
pub Bool-cases : (b : Bool) → (b ≡ true) ⊎ (b ≡ false)
Bool-cases true = inl refl
Bool-cases false = inr refl

pub Option-cases {ℓ} : {A : Type ℓ} (o : Option A) → (o ≡ none) ⊎ ((a : A) × (o ≡ some a))
Option-cases none = inl refl
Option-cases (some a) = inr (a, refl)

-- A type whose values can be keys of a dict or members of a set.
pub record Key {ℓ} (K : Type ℓ) : Type ℓ where
  pub decide_eq : Discrete K

instance abbrev pub nat_key : Key ℕ
nat_key = record { decide_eq = ℕ_discrete }

infix 50 ◌==◌
abbrev pub ◌==◌ {ℓ} : {K : Type ℓ} ⦃k : Key K⦄ → K → K → Bool
◌==◌ ⦃k⦄ a b = elim (k.decide_eq a b) [ yes _ ↦ true | no _ ↦ false ]

module _ {ℓ} {K : Type ℓ} ⦃k : Key K⦄ where
  pub ==_refl : (a : K) → (a == a) ≡ true
  ==_refl a = ground arith

  pub eq_of_== : (a b : K) → (a == b) ≡ true → a ≡ b
  eq_of_== a b h = ground arith

  pub ==_of_ne : (a b : K) → a ≢ b → (a == b) ≡ false
  ==_of_ne a b h = ground arith

-- A tuple of keys is a key.
unfoldable pub pair_discrete {ℓ} : {A B : Type ℓ} → Discrete A → Discrete B → Discrete (A × B)
pair_discrete da db (a, b) (c, d) = elim (da a c) [
  | yes p ↦ elim (db b d) [ yes q ↦ yes (λ i. (p i, q i)) | no n ↦ no (λ e. n (λ i. (e i).1)) ]
  | no n ↦ no (λ e. n (λ i. (e i).0))
]

instance abbrev pub pair_key {ℓ} : {A B : Type ℓ} ⦃ka : Key A⦄ ⦃kb : Key B⦄ → Key (A × B)
pair_key ⦃ka⦄ ⦃kb⦄ = record { decide_eq = pair_discrete ka.decide_eq kb.decide_eq }
