-- ===== src/Text.antt =====
-- Go strings and byte slices, as lists of bytes, with the comparisons of the language and what the
-- code uses of package strings.
use Prim.Native.Char.{code}
use Prim.Native.String.{String}
use one_issuer.Base.{
  ℕ, zero, suc, ◌≡◌, refl, Bool, true, false, ◌&&◌, ◌||◌, List, [], ◌∷◌, ◌++◌, ltb, ◌==◌,
  if◌then◌else◌,
}
pub mod Order
pub mod Sort
pub mod Ascending
pub mod Base64
pub mod Split
pub mod Utf8
pub mod Decimal

abbrev pub Bytes : Type 0
Bytes = List ℕ

-- The bytes of an ASCII literal.
abbrev pub codes : String → Bytes
codes String.[] = []
codes (String.◌∷◌ c s) = code c ∷ codes s

-- `a == b`
unfoldable pub str_eq : Bytes → Bytes → Bool
str_eq [] [] = true
str_eq (a ∷ s) (b ∷ t) = a == b && str_eq s t
str_eq _ _ = false

-- `a < b`
unfoldable pub str_lt : Bytes → Bytes → Bool
str_lt [] [] = false
str_lt [] (b ∷ t) = true
str_lt (a ∷ s) [] = false
str_lt (a ∷ s) (b ∷ t) = ltb a b || (a == b && str_lt s t)

-- `slices.Contains`, and a lookup in a set built from a slice.
unfoldable pub mem : Bytes → List Bytes → Bool
mem s [] = false
mem s (t ∷ ts) = str_eq s t || mem s ts

-- `slices.Equal` of string slices
unfoldable pub strs_eq : List Bytes → List Bytes → Bool
strs_eq [] [] = true
strs_eq (s ∷ ss) (t ∷ ts) = str_eq s t && strs_eq ss ts
strs_eq _ _ = false

-- `strings.HasPrefix`
unfoldable pub has_prefix : Bytes → Bytes → Bool
has_prefix s [] = true
has_prefix [] (p ∷ ps) = false
has_prefix (c ∷ s) (p ∷ ps) = c == p && has_prefix s ps

-- `strings.TrimPrefix`, where the prefix is known to be there: the slice after its length.
unfoldable pub drop : ℕ → Bytes → Bytes
drop zero s = s
drop (suc n) [] = []
drop (suc n) (c ∷ s) = drop n s

-- `s[:n]`, where n is not beyond the end.
unfoldable pub take : ℕ → Bytes → Bytes
take zero s = []
take (suc n) [] = []
take (suc n) (c ∷ s) = c ∷ take n s

-- `strings.Join(parts, " ")`
unfoldable pub join_space : List Bytes → Bytes
join_space [] = []
join_space (s ∷ []) = s
join_space (s ∷ t ∷ ts) = s ++ (b' ' ∷ join_space (t ∷ ts))
