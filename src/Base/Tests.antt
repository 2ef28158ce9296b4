-- ===== src/Base/Tests.antt =====
-- Boolean tests on native numbers and texts, the conditional, and splits that keep the equation.
use Prim.Native.Nat.{ℕ, compare, Ordering}
use Prim.Native.String.{String}
use mathlib.Core.Path.{◌≡◌, refl}
use mathlib.Core.Logic.{◌≢◌, ◌⊎◌, inl, inr}
use mathlib.Core.Bool.{Bool, true, false, ◌||◌}
use mathlib.Core.Option.{Option, none, some}
use mathlib.Core.List.{List, [], ◌∷◌}
use native.Mathlib.Omega.{arith}
use text.Mathlib.Text.{◌==◌ as text_eq}
use text.Mathlib.TextEquality.{eq_iff}

abbrev pub ltb : ℕ → ℕ → Bool
ltb a b = elim (compare a b) [ Ordering.lt ↦ true | _ ↦ false ]

abbrev pub leb : ℕ → ℕ → Bool
leb a b = elim (compare a b) [ Ordering.gt ↦ false | _ ↦ true ]

-- Equality of numbers.
abbrev pub eqb : ℕ → ℕ → Bool
eqb a b = elim (compare a b) [ Ordering.eq ↦ true | _ ↦ false ]

-- Equality of texts.
infix 50 ◌==◌
abbrev pub ◌==◌ : String → String → Bool
s == t = text_eq s t

infix 1 if◌then◌else◌
abbrev pub if◌then◌else◌ {ℓ} : {A : Type ℓ} → Bool → A → A → A
if true then x else _ = x
if false then _ else y = y

pub Bool-cases : (b : Bool) → (b ≡ true) ⊎ (b ≡ false)
Bool-cases true = inl refl
Bool-cases false = inr refl

pub Option-cases {ℓ} : {A : Type ℓ} (o : Option A) → (o ≡ none) ⊎ ((a : A) × (o ≡ some a))
Option-cases none = inl refl
Option-cases (some a) = inr (a, refl)

-- A comparison of two texts, decided with its proof.
pub text-cases : (s t : String) → ((s == t) ≡ true) × (s ≡ t) ⊎ ((s == t) ≡ false) × (s ≢ t)
text-cases s t = elim (Bool-cases (s == t)) [
  | inl same ↦ inl (same, (eq_iff s t).0 same)
  | inr other ↦ inr (other, ground (arith, eq_iff s t))
]

abbrev pub contains : List String → String → Bool
contains [] k = false
contains (x ∷ xs) k = x == k || contains xs k

-- A comparison of two numbers, decided with its proof.
pub eqb-cases : (a b : ℕ) → ((eqb a b ≡ true) × (a ≡ b)) ⊎ ((eqb a b ≡ false) × (a ≢ b))
eqb-cases a b = elim (Bool-cases (eqb a b)) [
  | inl same ↦ inl (same, ground arith)
  | inr different ↦ inr (different, ground arith)
]
