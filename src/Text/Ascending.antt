-- ===== src/Text/Ascending.antt =====
-- Strictly ascending lists of strings are the canonical forms of finite sets of strings.
use one_issuer.Base.{
  ◌≡◌, refl, ap, ap₂, ◌∙◌, sym, inl, inr, true, false, List, [], ◌∷◌, arith, Bool-cases,
  if◌then◌else◌,
}
use one_issuer.Text.{Bytes, str_eq, str_lt, mem}
use one_issuer.Text.Order.{
  str_eq→eq, str_eq_refl, str_eq_iff, str_lt_irrefl, str_lt_trans, str_lt_total,
}
use one_issuer.Text.Sort.{
  insert_string, mem-insert_string, sort_strings, contains, has_repeat, Above, Ascending, NotBelow,
  IsSorted, mem-sort_strings, sort_strings-IsSorted,
}

-- The keys of a `map[string]bool` to which the strings were added.
unfoldable pub keys : List Bytes → List Bytes
keys [] = []
keys (s ∷ ss) = if mem s ss then keys ss else s ∷ keys ss

pub mem-eq_true_of_eq : (s t : Bytes) (ts : List Bytes) → s ≡ t → mem s (t ∷ ts) ≡ true
unfolding mem
mem-eq_true_of_eq s t ts e = ground (arith, str_eq_iff s t)

pub mem_congr : (s t : Bytes) (ts : List Bytes) → str_eq s t ≡ true → mem s ts ≡ mem t ts
mem_congr s t ts h = ap (λ u. mem u ts) (str_eq→eq s t h)

pub mem-keys : (s : Bytes) (ts : List Bytes) → mem s (keys ts) ≡ mem s ts
unfolding keys mem
mem-keys s [] = refl
mem-keys s (t ∷ ts) = ground (arith, mem-keys s ts, mem_congr s t ts)

-- No string stands twice.
abbrev pub Distinct : List Bytes → Type 0
Distinct [] = Unit
Distinct (s ∷ ss) = (mem s ss ≡ false) × Distinct ss

pub keys-Distinct : (ts : List Bytes) → Distinct (keys ts)
unfolding keys
keys-Distinct [] = tt
keys-Distinct (t ∷ ts) = elim (Bool-cases (mem t ts)) [
  | inl old ↦ rw (old, keys) (keys-Distinct ts)
  | inr new ↦ rw (new, keys) (mem-keys t ts ∙ new, keys-Distinct ts)
]

-- What is above the head of a sorted list with no repetition.
Above-of_first :
    (s t : Bytes) (ts : List Bytes)
    → str_eq s t ≡ false
    → str_lt t s ≡ false
    → NotBelow t ts
    → Above s (t ∷ ts)
Above-of_first s t [] ne h k = (ground (arith, str_lt_total s t, str_eq_iff s t), tt)
Above-of_first s t (u ∷ ts) ne h (k, ks) =
    let first : str_lt s t ≡ true = ground (arith, str_lt_total s t, str_eq_iff s t) in
    (first, above s t (u ∷ ts) first (k, ks))
  where
    above : (s t : Bytes) (us : List Bytes) → str_lt s t ≡ true → NotBelow t us → Above s us
    above s t [] lt k = tt
    above s t (v ∷ vs) lt (k, ks) =
        (ground (arith, str_lt_total t v, str_lt_trans s t v), above s t vs lt ks)

-- The adjacent comparison of a sorted list finds every repetition.
pub Ascending-of_IsSorted : (ts : List Bytes) → IsSorted ts → has_repeat ts ≡ false → Ascending ts
unfolding has_repeat
Ascending-of_IsSorted [] h r = tt
Ascending-of_IsSorted (s ∷ []) h r = (tt, tt)
Ascending-of_IsSorted (s ∷ t ∷ ts) (h, hs) r = (
  Above-of_first s t ts (ground arith) h.0 hs.0,
  Ascending-of_IsSorted (t ∷ ts) hs (ground arith),
)

pub mem_of_Above :
    (s t : Bytes) (ts : List Bytes) → Above s ts → mem t ts ≡ true → str_lt s t ≡ true
unfolding mem
mem_of_Above s t [] h m = cc
mem_of_Above s t (u ∷ ts) (h, hs) m = ground (arith, str_eq_iff t u, mem_of_Above s t ts hs)

pub not_mem_of_Above : (s : Bytes) (ts : List Bytes) → Above s ts → mem s ts ≡ false
not_mem_of_Above s ts h = ground (arith, mem_of_Above s s ts h, str_lt_irrefl s)

pub Ascending-Distinct : (ts : List Bytes) → Ascending ts → Distinct ts
Ascending-Distinct [] h = tt
Ascending-Distinct (t ∷ ts) (h, hs) = (not_mem_of_Above t ts h, Ascending-Distinct ts hs)

heads_eq :
    (s t : Bytes) (ss ts : List Bytes)
    → Above s ss
    → Above t ts
    → mem s (t ∷ ts) ≡ true
    → mem t (s ∷ ss) ≡ true
    → s ≡ t
unfolding mem
heads_eq s t ss ts h k ms mt = ground (
  arith,
  str_eq_iff s t,
  str_eq_iff t s,
  mem_of_Above s t ss h,
  mem_of_Above t s ts k,
  str_lt_trans s t s,
  str_lt_irrefl s,
)

tails_agree :
    (s u : Bytes) (ss ts : List Bytes)
    → Above s ss
    → Above s ts
    → mem u (s ∷ ss) ≡ mem u (s ∷ ts)
    → mem u ss ≡ mem u ts
unfolding mem
tails_agree s u ss ts h k e = ground (
  arith,
  str_eq_iff u s,
  not_mem_of_Above s ss h,
  not_mem_of_Above s ts k,
  mem_congr u s ss,
  mem_congr u s ts,
)

-- Two ascending lists with the same members are the same list.
pub Ascending-ext :
    (ss ts : List Bytes)
    → Ascending ss
    → Ascending ts
    → ((u : Bytes) → mem u ss ≡ mem u ts)
    → ss ≡ ts
unfolding mem
Ascending-ext [] [] h k e = refl
Ascending-ext [] (t ∷ ts) h k e = ground (arith, e t, str_eq_refl t)
Ascending-ext (s ∷ ss) [] h k e = ground (arith, e s, str_eq_refl s)
Ascending-ext (s ∷ ss) (t ∷ ts) (h, hs) (k, ks) e =
    let same : s ≡ t =
      heads_eq s t ss ts h k (sym (e s) ∙ mem-eq_true_of_eq s s ss refl)
        (e t ∙ mem-eq_true_of_eq t t ts refl) in
    let k' : Above s ts = rw same k in
    let e' : (u : Bytes) → mem u (s ∷ ss) ≡ mem u (s ∷ ts) =
      λ u. e u ∙ ap (λ v. mem u (v ∷ ts)) (sym same) in
    ap₂ ◌∷◌ same (Ascending-ext ss ts hs ks (λ u. tails_agree s u ss ts h k' (e' u)))

Distinct-insert_string :
    (t : Bytes) (ts : List Bytes) → mem t ts ≡ false → Distinct ts → Distinct (insert_string t ts)
unfolding insert_string mem
Distinct-insert_string t [] h d = (refl, tt)
Distinct-insert_string t (u ∷ ts) h (d, ds) = elim (Bool-cases (str_lt u t)) [
  | inl below ↦
      rw (below, insert_string)
        (
          mem-insert_string u t ts ∙ ground (arith, str_eq_iff u t, str_eq_iff t u),
          Distinct-insert_string t ts (ground arith) ds,
        )
  | inr not_below ↦ rw (not_below, insert_string) (h, (d, ds))
]

Distinct-sort_strings : (ts : List Bytes) → Distinct ts → Distinct (sort_strings ts)
unfolding sort_strings
Distinct-sort_strings [] d = tt
Distinct-sort_strings (t ∷ ts) (d, ds) =
    Distinct-insert_string t (sort_strings ts) (mem-sort_strings t ts ∙ d)
      (Distinct-sort_strings ts ds)

has_repeat_of_Distinct : (ts : List Bytes) → Distinct ts → has_repeat ts ≡ false
unfolding has_repeat mem
has_repeat_of_Distinct [] d = refl
has_repeat_of_Distinct (t ∷ []) d = refl
has_repeat_of_Distinct (t ∷ u ∷ ts) (d, ds) = ground (arith, has_repeat_of_Distinct (u ∷ ts) ds)

-- Sorting the keys of a set makes an ascending list.
pub sort_strings-keys-Ascending : (ts : List Bytes) → Ascending (sort_strings (keys ts))
sort_strings-keys-Ascending ts =
    Ascending-of_IsSorted (sort_strings (keys ts)) (sort_strings-IsSorted (keys ts))
      (has_repeat_of_Distinct _ (Distinct-sort_strings (keys ts) (keys-Distinct ts)))

pub mem-sort_strings-keys :
    (s : Bytes) (ts : List Bytes) → mem s (sort_strings (keys ts)) ≡ mem s ts
mem-sort_strings-keys s ts = mem-sort_strings s (keys ts) ∙ mem-keys s ts

Distinct-of_insert_string :
    (t : Bytes) (ts : List Bytes) → Distinct (insert_string t ts) → (mem t ts ≡ false) × Distinct ts
unfolding insert_string mem
Distinct-of_insert_string t [] d = (refl, tt)
Distinct-of_insert_string t (u ∷ ts) d = elim (Bool-cases (str_lt u t)) [
  | inl below ↦
      let (first, rest) : Distinct (u ∷ insert_string t ts) = rw (below, insert_string) at d in
      let (absent, distinct) = Distinct-of_insert_string t ts rest in
      let apart = sym (mem-insert_string u t ts) ∙ first in
      (ground (arith, str_eq_iff u t, str_eq_iff t u), (ground arith, distinct))
  | inr not_below ↦ rw (not_below, insert_string) at d
]

-- The repetition test after sorting finds every repetition.
pub Distinct-of_sort_strings : (ts : List Bytes) → Distinct (sort_strings ts) → Distinct ts
unfolding sort_strings
Distinct-of_sort_strings [] d = tt
Distinct-of_sort_strings (t ∷ ts) d =
    let (absent, rest) = Distinct-of_insert_string t (sort_strings ts) d in
    (sym (mem-sort_strings t ts) ∙ absent, Distinct-of_sort_strings ts rest)

pub has_repeat-sort_strings : (ts : List Bytes) → Distinct ts → has_repeat (sort_strings ts) ≡ false
has_repeat-sort_strings ts d = has_repeat_of_Distinct _ (Distinct-sort_strings ts d)

-- On an ascending list the search finds exactly the members.
pub contains-mem : (ts : List Bytes) (s : Bytes) → Ascending ts → contains ts s ≡ mem s ts
unfolding contains mem
contains-mem [] s h = refl
contains-mem (t ∷ ts) s (h, hs) = ground (
  arith,
  contains-mem ts s hs,
  str_eq_iff t s,
  str_eq_iff s t,
  str_lt_irrefl s,
  mem_of_Above t s ts h,
)
