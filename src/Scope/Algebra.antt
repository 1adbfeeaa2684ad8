-- ===== src/Scope/Algebra.antt =====
-- Union, Intersection, Difference and subset have the members that their names promise, and their
-- results are in canonical order.
use one_issuer.Base.{
  ◌≡◌, refl, ap, ◌∙◌, ◌↔◌, Bool, true, false, not, ◌&&◌, ◌||◌, List, [], ◌∷◌, ◌++◌, arith, keep,
  all, is_empty, Bool-cases, inl, inr,
}
use one_issuer.Text.{Bytes, str_eq, mem}
use one_issuer.Text.Order.{str_eq→eq, str_eq_refl}
use one_issuer.Text.Sort.{Ascending}
use one_issuer.Text.Ascending.{mem_congr, mem-sort_strings-keys, sort_strings-keys-Ascending}
use one_issuer.Scope.{supported, union, intersection, difference, subset}

mem-keep : (p : Bytes → Bool) (s : Bytes) (ts : List Bytes) → mem s (keep p ts) ≡ (p s && mem s ts)
unfolding mem
mem-keep p s [] = ground arith
mem-keep p s (t ∷ ts) = elim (Bool-cases (str_eq s t)) [
  | inl same ↦ rw (str_eq→eq s t same) (ground (arith, mem-keep p t ts, str_eq_refl t))
  | inr other ↦ ground (arith, mem-keep p s ts)
]

pub mem-append : (s : Bytes) (ts us : List Bytes) → mem s (ts ++ us) ≡ (mem s ts || mem s us)
unfolding mem
mem-append s [] us = refl
mem-append s (t ∷ ts) us = ground (arith, mem-append s ts us)

pub mem-intersection :
    (s : Bytes) (left right : List Bytes)
    → mem s (intersection left right) ≡ (supported s && mem s right && mem s left)
unfolding intersection
mem-intersection s left right =
    mem-sort_strings-keys s (keep (λ scope. supported scope && mem scope right) left)
    ∙ ground (arith, mem-keep (λ scope. supported scope && mem scope right) s left)

pub mem-difference :
    (s : Bytes) (left right : List Bytes)
    → mem s (difference left right) ≡ (supported s && not (mem s right) && mem s left)
unfolding difference
mem-difference s left right =
    mem-sort_strings-keys s (keep (λ scope. supported scope && not (mem scope right)) left)
    ∙ ground (arith, mem-keep (λ scope. supported scope && not (mem scope right)) s left)

pub mem-union :
    (s : Bytes) (left right : List Bytes)
    → mem s (union left right) ≡ (supported s && (mem s left || mem s right))
unfolding union
mem-union s left right =
    mem-sort_strings-keys s (keep supported left ++ keep supported right)
    ∙ ground (
      arith,
      mem-append s (keep supported left) (keep supported right),
      mem-keep supported s left,
      mem-keep supported s right,
    )

pub intersection-Ascending : (left right : List Bytes) → Ascending (intersection left right)
unfolding intersection
intersection-Ascending left right = sort_strings-keys-Ascending _

pub difference-Ascending : (left right : List Bytes) → Ascending (difference left right)
unfolding difference
difference-Ascending left right = sort_strings-keys-Ascending _

pub union-Ascending : (left right : List Bytes) → Ascending (union left right)
unfolding union
union-Ascending left right = sort_strings-keys-Ascending _

-- Every member of the first list is in the second.
abbrev pub IsSubset : List Bytes → List Bytes → Type 0
IsSubset ss ts = (s : Bytes) → mem s ss ≡ true → mem s ts ≡ true

pub subset_sound : (ss ts : List Bytes) → subset ss ts ≡ true → IsSubset ss ts
unfolding subset mem
subset_sound [] ts h s m = cc
subset_sound (u ∷ ss) ts h s m =
    ground (arith, subset_sound ss ts (ground arith) s, mem_congr s u ts)

pub subset_complete : (ss ts : List Bytes) → IsSubset ss ts → subset ss ts ≡ true
unfolding subset mem
subset_complete [] ts h = refl
subset_complete (u ∷ ss) ts h =
    ground (
      arith,
      h u (ground (arith, str_eq_refl u)),
      subset_complete ss ts (λ s m. h s (ground arith)),
    )

pub empty_of_no_member : (ts : List Bytes) → ((s : Bytes) → mem s ts ≡ false) → ts ≡ []
unfolding mem
empty_of_no_member [] h = refl
empty_of_no_member (t ∷ ts) h = ground (arith, h t, str_eq_refl t)

-- The difference is empty exactly when every supported value on the left stands on the right.
pub difference-empty_iff :
    (left right : List Bytes)
    → (difference left right ≡ [])
      ↔ ((s : Bytes) → supported s ≡ true → mem s left ≡ true → mem s right ≡ true)
unfolding mem
difference-empty_iff left right = (
  λ e s sup m. ground (arith, mem-difference s left right, ap (mem s) e),
  λ h.
      empty_of_no_member (difference left right)
        (λ s. ground (arith, mem-difference s left right, h s)),
)

pub supported_of_mem :
    (s : Bytes) (ts : List Bytes) → all supported ts ≡ true → mem s ts ≡ true → supported s ≡ true
unfolding mem
supported_of_mem s [] h m = cc
supported_of_mem s (t ∷ ts) h m = elim (Bool-cases (str_eq s t)) [
  | inl same ↦ rw (str_eq→eq s t same) (ground arith)
  | inr other ↦ supported_of_mem s ts (ground arith) (ground arith)
]

pub is_empty→eq : (ts : List Bytes) → is_empty ts ≡ true → ts ≡ []
is_empty→eq [] h = refl
is_empty→eq (t ∷ ts) h = cc

-- A canonical request has no difference to a list exactly when the list holds all of it.
pub difference-is_empty_iff :
    (left right : List Bytes)
    → all supported left ≡ true
    → (is_empty (difference left right) ≡ true) ↔ IsSubset left right
difference-is_empty_iff left right sup = (
  λ h s m.
      (difference-empty_iff left right).0 (is_empty→eq _ h) s (supported_of_mem s left sup m) m,
  λ h. ap is_empty ((difference-empty_iff left right).1 (λ s _ m. h s m)),
)
