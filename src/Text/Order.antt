-- ===== src/Text/Order.antt =====
-- Equality of Go strings decides equality, and `<` is a strict total order.
use one_issuer.Base.{
  ◌≡◌, refl, ap, ◌∙◌, ◌↔◌, ◌⊎◌, inl, inr, Bool, true, false, List, [], ◌∷◌, arith, Bool-cases, any,
  all,
}
use one_issuer.Text.{Bytes, str_eq, str_lt, mem}

pub str_eq→eq : (s t : Bytes) → str_eq s t ≡ true → s ≡ t
unfolding str_eq
str_eq→eq [] [] h = refl
str_eq→eq [] (b ∷ t) h = cc
str_eq→eq (a ∷ s) [] h = cc
str_eq→eq (a ∷ s) (b ∷ t) h = ground (arith, str_eq→eq s t)

pub str_eq_refl : (s : Bytes) → str_eq s s ≡ true
unfolding str_eq
str_eq_refl [] = refl
str_eq_refl (a ∷ s) = ground (arith, str_eq_refl s)

pub str_eq_iff : (s t : Bytes) → (str_eq s t ≡ true) ↔ (s ≡ t)
str_eq_iff s t = (str_eq→eq s t, λ e. rw e (str_eq_refl t))

pub str_lt_irrefl : (s : Bytes) → str_lt s s ≡ false
unfolding str_lt
str_lt_irrefl [] = refl
str_lt_irrefl (a ∷ s) = ground (arith, str_lt_irrefl s)

pub str_lt_trans : (s t u : Bytes) → str_lt s t ≡ true → str_lt t u ≡ true → str_lt s u ≡ true
unfolding str_lt
str_lt_trans [] [] u h k = k
str_lt_trans [] (b ∷ t) [] h k = k
str_lt_trans [] (b ∷ t) (c ∷ u) h k = refl
str_lt_trans (a ∷ s) [] u h k = cc
str_lt_trans (a ∷ s) (b ∷ t) [] h k = k
str_lt_trans (a ∷ s) (b ∷ t) (c ∷ u) h k = ground (arith, str_lt_trans s t u)

-- Of two different strings one is less.
pub str_lt_total : (s t : Bytes) → (str_lt s t ≡ true) ⊎ ((s ≡ t) ⊎ (str_lt t s ≡ true))
unfolding str_lt
str_lt_total [] [] = inr (inl refl)
str_lt_total [] (b ∷ t) = inl refl
str_lt_total (a ∷ s) [] = inr (inr refl)
str_lt_total (a ∷ s) (b ∷ t) = ground (arith, str_lt_total s t)

-- What holds of all entries, or of none, holds or fails of each.
pub all_of_mem :
    (p : Bytes → Bool) (s : Bytes) (ss : List Bytes)
    → all p ss ≡ true
    → mem s ss ≡ true
    → p s ≡ true
unfolding mem
all_of_mem p s [] h m = cc
all_of_mem p s (t ∷ ts) h m = elim (Bool-cases (str_eq s t)) [
  | inl same ↦ ap p (str_eq→eq s t same) ∙ ground arith
  | inr other ↦ all_of_mem p s ts (ground arith) (ground arith)
]

pub any_of_mem :
    (p : Bytes → Bool) (s : Bytes) (ss : List Bytes)
    → any p ss ≡ false
    → mem s ss ≡ true
    → p s ≡ false
unfolding mem
any_of_mem p s [] h m = cc
any_of_mem p s (t ∷ ts) h m = elim (Bool-cases (str_eq s t)) [
  | inl same ↦ ap p (str_eq→eq s t same) ∙ ground arith
  | inr other ↦ any_of_mem p s ts (ground arith) (ground arith)
]
