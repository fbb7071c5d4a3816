-- ===== src/Base/Lists.antt =====
-- Lists measured and indexed by native numbers, under the library's names, and predicates on them.
use Prim.Native.Nat.{ℕ, zero, suc, ◌+◌}
use mathlib.Core.Path.{◌≡◌, refl, ap}
use mathlib.Core.Logic.{◌⊎◌, inl, inr}
use mathlib.Core.Bool.{Bool, false, ◌||◌}
use mathlib.Core.List.{List, [], ◌∷◌, ◌++◌}
use mathlib.Core.Option.{Option, none, some}
use native.Mathlib.Omega.{arith}

module _ {ℓ} {A : Type ℓ} where
  abbrev pub length : List A → ℕ
  length [] = 0
  length (x ∷ xs) = suc (length xs)

  abbrev pub get_elem? : List A → ℕ → Option A
  get_elem? [] i = none
  get_elem? (x ∷ xs) zero = some x
  get_elem? (x ∷ xs) (suc i) = get_elem? xs i

  -- The entry at a position is replaced by its image; a position out of range changes nothing.
  abbrev pub modify : List A → ℕ → (A → A) → List A
  modify [] i f = []
  modify (x ∷ xs) zero f = f x ∷ xs
  modify (x ∷ xs) (suc i) f = x ∷ modify xs i f

  -- Some entry passes the test.
  abbrev pub any : (A → Bool) → List A → Bool
  any p [] = false
  any p (x ∷ xs) = p x || any p xs

  abbrev pub All {κ} : (A → Type κ) → List A → Type κ
  All P [] = Unit
  All P (x ∷ xs) = P x × All P xs

  pub length-append : (xs ys : List A) → length (xs ++ ys) ≡ length xs + length ys
  length-append [] ys = omega arith
  length-append (x ∷ xs) ys = omega (arith, length-append xs ys)

  pub length-modify : (xs : List A) (i : ℕ) (f : A → A) → length (modify xs i f) ≡ length xs
  length-modify [] i f = refl
  length-modify (x ∷ xs) zero f = refl
  length-modify (x ∷ xs) (suc i) f = ap suc (length-modify xs i f)

-- `x` stands in the list. It computes, and is read by the tactics.
module _ {A : Type 0} where
  abbrev pub In : A → List A → Type 0
  In x [] = ⊥
  In x (y ∷ ys) = (x ≡ y) ⊎ In x ys

module _ {A : Type 0} where
  pub In-middle : (xs : List A) (a : A) (ys : List A) → In a (xs ++ a ∷ ys)
  In-middle [] a ys = inl refl
  In-middle (x ∷ xs) a ys = inr (In-middle xs a ys)

  pub In-append : (xs ys : List A) (a : A) → In a (xs ++ ys) → In a xs ⊎ In a ys
  In-append [] ys a i = inr i
  In-append (x ∷ xs) ys a (inl same) = inl (inl same)
  In-append (x ∷ xs) ys a (inr i) = elim (In-append xs ys a i) [
    | inl j ↦ inl (inr j)
    | inr j ↦ inr j
  ]

  pub In-append_left : (xs ys : List A) (a : A) → In a xs → In a (xs ++ ys)
  In-append_left [] ys a i = absurd i
  In-append_left (x ∷ xs) ys a (inl same) = inl same
  In-append_left (x ∷ xs) ys a (inr i) = inr (In-append_left xs ys a i)

-- Arrays that are kept packed: the last entry moves into the place of one that is taken out.
module _ {A : Type 0} where
  abbrev pub last_of : A → List A → A
  last_of x [] = x
  last_of x (y ∷ ys) = last_of y ys

  abbrev pub init_of : A → List A → List A
  init_of x [] = []
  init_of x (y ∷ ys) = x ∷ init_of y ys

  -- The entries behind a removed one, with the last of them moved to the removed one's place.
  abbrev pub fill : List A → List A
  fill [] = []
  fill (x ∷ xs) = last_of x xs ∷ init_of x xs
