-- ===== src/Base/Lists.antt =====
-- Lists measured by native numbers, filters by a Boolean test, and predicates on all entries.
use Prim.Native.Nat.{ℕ, suc, ◌+◌}
use mathlib.Core.Path.{◌≡◌, refl, ap, ◌∙◌}
use mathlib.Core.Bool.{Bool, true, false, ◌&&◌, ◌||◌}
use mathlib.Core.List.{List, [], ◌∷◌, ◌++◌}
use mathlib.Core.Option.{Option, none, some}
use native.Mathlib.Omega.{arith}
use mathlib.Core.Logic.{inl, inr}
use one_issuer.Base.Tests.{if◌then◌else◌, Bool-cases}

module _ {ℓ} {A : Type ℓ} where
  abbrev pub length : List A → ℕ
  length [] = 0
  length (x ∷ xs) = suc (length xs)

  abbrev pub is_empty : List A → Bool
  is_empty [] = true
  is_empty (x ∷ xs) = false

  -- The entries that pass a test, in order.
  abbrev pub keep : (A → Bool) → List A → List A
  keep p [] = []
  keep p (x ∷ xs) = if p x then x ∷ keep p xs else keep p xs

  -- The first entry that passes a test.
  abbrev pub find : (A → Bool) → List A → Option A
  find p [] = none
  find p (x ∷ xs) = if p x then some x else find p xs

  abbrev pub any : (A → Bool) → List A → Bool
  any p [] = false
  any p (x ∷ xs) = p x || any p xs

  abbrev pub all : (A → Bool) → List A → Bool
  all p [] = true
  all p (x ∷ xs) = p x && all p xs

  abbrev pub All {κ} : (A → Type κ) → List A → Type κ
  All P [] = Unit
  All P (x ∷ xs) = P x × All P xs

  pub length-append : (xs ys : List A) → length (xs ++ ys) ≡ length xs + length ys
  length-append [] ys = omega arith
  length-append (x ∷ xs) ys = omega (arith, length-append xs ys)

  pub find_sound : (p : A → Bool) (xs : List A) {a : A} → find p xs ≡ some a → p a ≡ true
  find_sound p [] h = cc
  find_sound p (x ∷ xs) {a} h = ground (arith, find_sound p xs {a = a})

  pub any_of_find :
      (p q : A → Bool) (xs : List A) {a : A} → find p xs ≡ some a → q a ≡ true → any q xs ≡ true
  any_of_find p q [] found h = cc
  any_of_find p q (x ∷ xs) {a} found h = elim (Bool-cases (p x)) [
    | inl this ↦ let same : x ≡ a = ground arith in rw (ap q same ∙ h) refl
    | inr other ↦ ground (arith, any_of_find p q xs {a = a} (ground arith) h)
  ]

  pub none_of_find :
      (p q : A → Bool) (xs : List A) {a : A} → find p xs ≡ some a → any q xs ≡ false → q a ≡ false
  none_of_find p q xs {a} found h = elim (Bool-cases (q a)) [
    | inl so ↦ absurd (ground (arith, any_of_find p q xs found so))
    | inr not_so ↦ not_so
  ]
