-- ===== src/Base/Packed.antt =====
-- Lists without repetition, and what the removal of an entry from a packed array does to them.
use Prim.Native.Nat.{suc}
use mathlib.Core.Path.{◌≡◌, refl, ap, sym, subst}
use mathlib.Core.Logic.{◌⊎◌, inl, inr}
use mathlib.Core.List.{List, [], ◌∷◌, ◌++◌}
use pwospf.Base.Lists.{length, In, In-middle, In-append, last_of, init_of, fill}

module _ {A : Type 0} where
  -- No entry stands twice.
  abbrev pub Nodup : List A → Type 0
  Nodup [] = Unit
  Nodup (x ∷ xs) = ¬ In x xs × Nodup xs

  last_of-In : (x : A) (xs : List A) → In (last_of x xs) (x ∷ xs)
  last_of-In x [] = inl refl
  last_of-In x (y ∷ ys) = inr (last_of-In y ys)

  init_of-In : (x : A) (xs : List A) (z : A) → In z (init_of x xs) → In z (x ∷ xs)
  init_of-In x [] z i = absurd i
  init_of-In x (y ∷ ys) z (inl same) = inl same
  init_of-In x (y ∷ ys) z (inr i) = inr (init_of-In y ys z i)

  last-init : (x : A) (xs : List A) → Nodup (x ∷ xs) → ¬ In (last_of x xs) (init_of x xs)
  last-init x [] d i = absurd i
  last-init x (y ∷ ys) d (inl same) = d.0 (subst (λ z. In z (y ∷ ys)) same (last_of-In y ys))
  last-init x (y ∷ ys) d (inr i) = last-init y ys d.1 i

  init_of-Nodup : (x : A) (xs : List A) → Nodup (x ∷ xs) → Nodup (init_of x xs)
  init_of-Nodup x [] d = tt
  init_of-Nodup x (y ∷ ys) d = (λ i. d.0 (init_of-In y ys x i), init_of-Nodup y ys d.1)

  pub fill-In : (xs : List A) (z : A) → In z (fill xs) → In z xs
  fill-In [] z i = i
  fill-In (x ∷ xs) z (inl same) = subst (λ w. In w (x ∷ xs)) (sym same) (last_of-In x xs)
  fill-In (x ∷ xs) z (inr i) = init_of-In x xs z i

  pub fill-Nodup : (xs : List A) → Nodup xs → Nodup (fill xs)
  fill-Nodup [] d = tt
  fill-Nodup (x ∷ xs) d = (last-init x xs d, init_of-Nodup x xs d)

  pub Nodup-snoc : (xs : List A) (a : A) → Nodup xs → ¬ In a xs → Nodup (xs ++ a ∷ [])
  Nodup-snoc [] a d new = (λ i. absurd i, tt)
  Nodup-snoc (x ∷ xs) a d new = (
    λ i. elim (In-append xs (a ∷ []) x i) [
      | inl j ↦ d.0 j
      | inr (inl same) ↦ new (inl (sym same))
      | inr (inr none_left) ↦ absurd none_left
    ],
    Nodup-snoc xs a d.1 (λ i. new (inr i)),
  )

  pub In-drop : (xs : List A) (a : A) (ys : List A) (z : A) → In z (xs ++ ys) → In z (xs ++ a ∷ ys)
  In-drop [] a ys z i = inr i
  In-drop (x ∷ xs) a ys z (inl same) = inl same
  In-drop (x ∷ xs) a ys z (inr i) = inr (In-drop xs a ys z i)

  pub In-keep :
      (xs : List A) (a : A) (ys : List A) (z : A) → In z (xs ++ a ∷ ys) → (z ≡ a) ⊎ In z (xs ++ ys)
  In-keep [] a ys z i = i
  In-keep (x ∷ xs) a ys z (inl same) = inr (inl same)
  In-keep (x ∷ xs) a ys z (inr i) = elim (In-keep xs a ys z i) [
    | inl same ↦ inl same
    | inr j ↦ inr (inr j)
  ]

  pub Nodup-drop : (xs : List A) (a : A) (ys : List A) → Nodup (xs ++ a ∷ ys) → Nodup (xs ++ ys)
  Nodup-drop [] a ys d = d.1
  Nodup-drop (x ∷ xs) a ys d = (λ i. d.0 (In-drop xs a ys x i), Nodup-drop xs a ys d.1)

  pub Nodup-gone : (xs : List A) (a : A) (ys : List A) → Nodup (xs ++ a ∷ ys) → ¬ In a (xs ++ ys)
  Nodup-gone [] a ys d i = d.0 i
  Nodup-gone (x ∷ xs) a ys d (inl same) = d.0 (rw (← same) (In-middle xs a ys))
  Nodup-gone (x ∷ xs) a ys d (inr i) = Nodup-gone xs a ys d.1 i

  length-init : (x : A) (xs : List A) → length (init_of x xs) ≡ length xs
  length-init x [] = refl
  length-init x (y ∷ ys) = ap suc (length-init y ys)

  pub length-fill : (xs : List A) → length (fill xs) ≡ length xs
  length-fill [] = refl
  length-fill (x ∷ xs) = ap suc (length-init x xs)

  last-or-init : (x : A) (xs : List A) (z : A) → In z (x ∷ xs) → In z (last_of x xs ∷ init_of x xs)
  last-or-init x [] z i = i
  last-or-init x (y ∷ ys) z (inl same) = inr (inl same)
  last-or-init x (y ∷ ys) z (inr i) = elim (last-or-init y ys z i) [
    | inl last ↦ inl last
    | inr j ↦ inr (inr j)
  ]

  pub In-fill : (xs : List A) (z : A) → In z xs → In z (fill xs)
  In-fill [] z i = i
  In-fill (x ∷ xs) z i = last-or-init x xs z i
