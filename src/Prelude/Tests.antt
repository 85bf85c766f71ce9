-- ===== src/Prelude/Tests.antt =====
-- Boolean tests, the conditional, the equality interface and signed ranks.
use Prim.Native.Nat.{ℕ, compare, Ordering}
use Prim.Native.String.{String, compare as compare_text}
use mathlib.Core.Path.{◌≡◌, refl}
use mathlib.Core.Logic.{◌↔◌, ◌⊎◌, inl, inr}
use mathlib.Core.Bool.{Bool, true, false}
use mathlib.Core.Option.{Option, none, some}
use native.Mathlib.Omega.{arith}
use text.Mathlib.Text.{◌==◌ as str_eq}
use text.Mathlib.TextEquality.{eq_iff}

abbrev pub ltb : ℕ → ℕ → Bool
ltb a b = elim (compare a b) [ Ordering.lt ↦ true | _ ↦ false ]

abbrev pub leb : ℕ → ℕ → Bool
leb a b = elim (compare a b) [ Ordering.gt ↦ false | _ ↦ true ]

abbrev pub nat_eq : ℕ → ℕ → Bool
nat_eq a b = elim (compare a b) [ Ordering.eq ↦ true | _ ↦ false ]

infix 1 if◌then◌else◌
abbrev pub if◌then◌else◌ {ℓ} : {A : Type ℓ} → Bool → A → A → A
if true then x else y = x
if false then x else y = y

pub nat_eq_iff : (a b : ℕ) → (nat_eq a b ≡ true) ↔ (a ≡ b)
nat_eq_iff a b = ground arith

-- A type whose values the program compares with `==`, Go's comparison of strings and integers.
pub record Eq (A : Type 0) : Type 0 where
  pub same? : A → A → Bool
  pub same-iff : (left right : A) → (same? left right ≡ true) ↔ (left ≡ right)

instance abbrev pub Eq-string : Eq String
Eq-string = record { same-iff = eq_iff; same? = str_eq }

instance abbrev pub Eq-nat : Eq ℕ
Eq-nat = record { same-iff = nat_eq_iff; same? = nat_eq }

infix 50 ◌==◌
abbrev pub ◌==◌ : {A : Type 0} ⦃comparison : Eq A⦄ → (left right : A) → Bool
◌==◌ ⦃comparison⦄ left right = comparison.same? left right

-- `a < b` on texts, by code points, which is the order of their bytes too.
abbrev pub less_text : String → String → Bool
less_text a b = elim (compare_text a b) [ Ordering.lt ↦ true | _ ↦ false ]

-- `-n` for the ranks that stand outside an order: `negsuc n` is -(n + 1).
pub data ℤ : Type 0 where
  pos : ℕ → ℤ
  negsuc : ℕ → ℤ

abbrev pub ltbℤ : ℤ → ℤ → Bool
ltbℤ (pos a) (pos b) = ltb a b
ltbℤ (pos a) (negsuc b) = false
ltbℤ (negsuc a) (pos b) = true
ltbℤ (negsuc a) (negsuc b) = ltb b a

-- To split on a computed value and keep the equation.
pub Bool-cases : (b : Bool) → (b ≡ true) ⊎ (b ≡ false)
Bool-cases true = inl refl
Bool-cases false = inr refl

pub Option-cases {ℓ} : {A : Type ℓ} (o : Option A) → (o ≡ none) ⊎ ((a : A) × (o ≡ some a))
Option-cases none = inl refl
Option-cases (some a) = inr (a, refl)
