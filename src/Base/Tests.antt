-- ===== src/Base/Tests.antt =====
-- Boolean tests on the native numbers, and the conditional.
use Prim.Native.Nat.{ℕ, ◌≤◌, ◌<◌, compare, Ordering}
use mathlib.Core.Path.{◌≡◌, refl}
use mathlib.Core.Logic.{◌↔◌, ◌⊎◌, inl, inr}
use mathlib.Core.Bool.{Bool, true, false}
use mathlib.Core.Option.{Option, none, some}
use native.Mathlib.Omega.{arith}

-- These compute to `compare`, which `ground` and `grind` read with no lemma listed.
abbrev pub ltb : ℕ → ℕ → Bool
ltb a b = elim (compare a b) [ Ordering.lt ↦ true | _ ↦ false ]

abbrev pub leb : ℕ → ℕ → Bool
leb a b = elim (compare a b) [ Ordering.gt ↦ false | _ ↦ true ]

infix 50 ◌==◌
abbrev pub ◌==◌ : ℕ → ℕ → Bool
a == b = elim (compare a b) [ Ordering.eq ↦ true | _ ↦ false ]

infix 1 if◌then◌else◌
abbrev pub if◌then◌else◌ {ℓ} : {A : Type ℓ} → Bool → A → A → A
if true then x else y = x
if false then x else y = y

pub ltb→lt : (a b : ℕ) → ltb a b ≡ true → a < b
ltb→lt a b h = ground arith

pub leb→le : (a b : ℕ) → leb a b ≡ true → a ≤ b
leb→le a b h = ground arith

pub ==_iff : (a b : ℕ) → ((a == b) ≡ true) ↔ (a ≡ b)
==_iff a b = ground arith

pub Bool-cases : (b : Bool) → (b ≡ true) ⊎ (b ≡ false)
Bool-cases true = inl refl
Bool-cases false = inr refl

pub Option-cases {ℓ} : {A : Type ℓ} (o : Option A) → (o ≡ none) ⊎ ((a : A) × (o ≡ some a))
Option-cases none = inl refl
Option-cases (some a) = inr (a, refl)

abbrev pub is_some {ℓ} : {A : Type ℓ} → Option A → Bool
is_some none = false
is_some (some a) = true

-- What a piece of code comes to: a value, a failed `assert`, or a loop whose fuel ran out.
pub data Outcome (A : Type 0) : Type 0 where
  done : A → Outcome A
  aborted : Outcome A
  out_of_fuel : Outcome A

infixl 5 ◌>>=◌
abbrev pub ◌>>=◌ : {A B : Type 0} → Outcome A → (A → Outcome B) → Outcome B
done a >>= f = f a
aborted >>= f = aborted
out_of_fuel >>= f = out_of_fuel

-- What holds of both branches holds of the conditional.
pub if-all {ℓ κ} :
    {A : Type ℓ} (P : A → Type κ) (b : Bool) {x y : A} → P x → P y → P (if b then x else y)
if-all P true px py = px
if-all P false px py = py

-- A run that ends: in a value with a property, or in a failed `assert`.
abbrev pub Settles : {A : Type 0} → Outcome A → (A → Type 0) → Type 0
Settles (done a) P = P a
Settles aborted P = Unit
Settles out_of_fuel P = ⊥

-- No property but to settle.
abbrev pub Any : {A : Type 0} → A → Type 0
Any x = Unit

pub Settles-bind :
    {A B : Type 0} (P : A → Type 0) (Q : B → Type 0) (x : Outcome A) (f : A → Outcome B)
    → Settles x P
    → ((a : A) → P a → Settles (f a) Q)
    → Settles (x >>= f) Q
Settles-bind P Q (done a) f e g = g a e
Settles-bind P Q aborted f e g = tt
Settles-bind P Q out_of_fuel f e g = absurd e

pub Settles-map :
    {A : Type 0} (P Q : A → Type 0) (x : Outcome A)
    → Settles x P
    → ((a : A) → P a → Q a)
    → Settles x Q
Settles-map P Q (done a) e g = g a e
Settles-map P Q aborted e g = tt
Settles-map P Q out_of_fuel e g = absurd e
