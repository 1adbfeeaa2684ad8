-- ===== src/Text/Sort.antt =====
-- sort.Strings and sort.SearchStrings, and the strictly ascending lists that they make and use.
use one_issuer.Base.{
  ℕ, zero, suc, ◌≡◌, refl, ap, ◌∙◌, inl, inr, Bool, true, false, ◌||◌, List, [], ◌∷◌, arith, length,
  All, Bool-cases, if◌then◌else◌,
}
use one_issuer.Text.{Bytes, str_eq, str_lt, mem}
use one_issuer.Text.Order.{str_lt_irrefl, str_lt_trans, str_lt_total}

unfoldable pub insert_string : Bytes → List Bytes → List Bytes
insert_string s [] = s ∷ []
insert_string s (t ∷ ts) = if str_lt t s then t ∷ insert_string s ts else s ∷ t ∷ ts

-- `sort.Strings`: equal strings are indistinguishable, so any sorting algorithm is this one.
unfoldable pub sort_strings : List Bytes → List Bytes
unfolding insert_string
sort_strings [] = []
sort_strings (s ∷ ss) = insert_string s (sort_strings ss)

-- `sort.SearchStrings`: the least index whose entry is not below the target.
unfoldable pub search_strings : List Bytes → Bytes → ℕ
search_strings [] target = 0
search_strings (s ∷ ss) target = if str_lt s target then suc (search_strings ss target) else 0

abbrev pub entry_is : List Bytes → ℕ → Bytes → Bool
entry_is [] i target = false
entry_is (s ∷ ss) zero target = str_eq s target
entry_is (s ∷ ss) (suc i) target = entry_is ss i target

-- `index < len(scopes) && scopes[index] == target` at the index that the search finds.
unfoldable pub contains : List Bytes → Bytes → Bool
unfolding search_strings
contains scopes target = entry_is scopes (search_strings scopes target) target

-- Some entry equals the one before it.
unfoldable pub has_repeat : List Bytes → Bool
has_repeat [] = false
has_repeat (s ∷ []) = false
has_repeat (s ∷ t ∷ ts) = str_eq s t || has_repeat (t ∷ ts)

abbrev pub Above : Bytes → List Bytes → Type 0
Above s ts = All (λ t. str_lt s t ≡ true) ts

-- Strictly ascending: sorted, and no entry twice.
abbrev pub Ascending : List Bytes → Type 0
Ascending [] = Unit
Ascending (s ∷ ss) = Above s ss × Ascending ss

abbrev pub NotBelow : Bytes → List Bytes → Type 0
NotBelow s ts = All (λ t. str_lt t s ≡ false) ts

abbrev pub IsSorted : List Bytes → Type 0
IsSorted [] = Unit
IsSorted (s ∷ ss) = NotBelow s ss × IsSorted ss

pub mem-insert_string :
    (s t : Bytes) (ts : List Bytes) → mem s (insert_string t ts) ≡ (str_eq s t || mem s ts)
unfolding insert_string mem
mem-insert_string s t [] = refl
mem-insert_string s t (u ∷ ts) = ground (arith, mem-insert_string s t ts)

-- Sorting keeps the members.
pub mem-sort_strings : (s : Bytes) (ts : List Bytes) → mem s (sort_strings ts) ≡ mem s ts
unfolding sort_strings mem
mem-sort_strings s [] = refl
mem-sort_strings s (t ∷ ts) = rw (mem-insert_string s t (sort_strings ts), mem-sort_strings s ts)

length-insert_string : (t : Bytes) (ts : List Bytes) → length (insert_string t ts) ≡ suc (length ts)
unfolding insert_string
length-insert_string t [] = refl
length-insert_string t (u ∷ ts) = ground (arith, length-insert_string t ts)

pub length-sort_strings : (ts : List Bytes) → length (sort_strings ts) ≡ length ts
unfolding sort_strings
length-sort_strings [] = refl
length-sort_strings (t ∷ ts) =
    length-insert_string t (sort_strings ts) ∙ ap suc (length-sort_strings ts)

pub str_lt_asym : (s t : Bytes) → str_lt s t ≡ true → str_lt t s ≡ false
str_lt_asym s t h = ground (arith, str_lt_irrefl s, str_lt_trans s t s)

-- What is not below t, which is not below s, is not below s.
not_below_trans : (s t u : Bytes) → str_lt t s ≡ false → str_lt u t ≡ false → str_lt u s ≡ false
not_below_trans s t u h k = ground (arith, str_lt_total u t, str_lt_trans t u s, str_lt_total t u)

NotBelow-trans :
    (s t : Bytes) (ts : List Bytes) → str_lt t s ≡ false → NotBelow t ts → NotBelow s ts
NotBelow-trans s t [] h k = tt
NotBelow-trans s t (u ∷ ts) h (k, ks) = (not_below_trans s t u h k, NotBelow-trans s t ts h ks)

NotBelow-insert_string :
    (s t : Bytes) (ts : List Bytes)
    → str_lt t s ≡ false
    → NotBelow s ts
    → NotBelow s (insert_string t ts)
unfolding insert_string
NotBelow-insert_string s t [] h k = (h, tt)
NotBelow-insert_string s t (u ∷ ts) h (k, ks) = ground (arith, NotBelow-insert_string s t ts h ks)

insert_string-IsSorted : (t : Bytes) (ts : List Bytes) → IsSorted ts → IsSorted (insert_string t ts)
unfolding insert_string
insert_string-IsSorted t [] h = (tt, tt)
insert_string-IsSorted t (u ∷ ts) (h, hs) = elim (Bool-cases (str_lt u t)) [
  | inl below ↦
      rw (below, insert_string)
        (NotBelow-insert_string u t ts (str_lt_asym u t below) h, insert_string-IsSorted t ts hs)
  | inr not_below ↦
      rw (not_below, insert_string) ((not_below, NotBelow-trans t u ts not_below h), (h, hs))
]

pub sort_strings-IsSorted : (ts : List Bytes) → IsSorted (sort_strings ts)
unfolding sort_strings
sort_strings-IsSorted [] = tt
sort_strings-IsSorted (t ∷ ts) =
    insert_string-IsSorted t (sort_strings ts) (sort_strings-IsSorted ts)
