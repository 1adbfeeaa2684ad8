-- ===== src/Text/Split.antt =====
-- What the parsers use of package strings: Split and Cut at one byte, ContainsAny, Count, and the
-- test strings.TrimSpace(s) != s.
use one_issuer.Base.{
  ℕ, zero, suc, ◌+◌, ◌≡◌, refl, Bool, true, false, not, ◌&&◌, ◌||◌, List, [], ◌∷◌, ◌++◌, arith, leb,
  ◌==◌, if◌then◌else◌, any, All,
}
use one_issuer.Text.{Bytes, codes, str_eq, mem, has_prefix, join_space}
pub mod Laws
pub mod Tokens

-- `strings.ContainsAny(s, chars)`, for ASCII characters
unfoldable pub contains_any : Bytes → Bytes → Bool
contains_any s chars = any (λ c. any (λ d. c == d) chars) s

-- `strings.ContainsRune(s, c)`, for an ASCII character
unfoldable pub has_byte : ℕ → Bytes → Bool
has_byte c s = any (λ d. d == c) s

-- `strings.Count(s, c)`, for a separator of one byte
unfoldable pub count_byte : ℕ → Bytes → ℕ
count_byte c [] = 0
count_byte c (d ∷ s) = (if d == c then 1 else 0) + count_byte c s

abbrev pub onto_first : ℕ → List Bytes → List Bytes
onto_first c [] = (c ∷ []) ∷ []
onto_first c (s ∷ ss) = (c ∷ s) ∷ ss

-- `strings.Split(s, sep)`, for a separator of one byte
unfoldable pub split_on : ℕ → Bytes → List Bytes
split_on sep [] = [] ∷ []
split_on sep (c ∷ s) =
    let rest = split_on sep s in if c == sep then [] ∷ rest else onto_first c rest

abbrev pub onto_head : ℕ → Bytes × Bytes → Bytes × Bytes
onto_head c (before, after) = (c ∷ before, after)

-- `before, after, _ := strings.Cut(s, sep)`
unfoldable pub cut : ℕ → Bytes → Bytes × Bytes
cut sep [] = ([], [])
cut sep (c ∷ s) = let rest = cut sep s in if c == sep then ([], s) else onto_head c rest

-- The encodings of the characters above ASCII that unicode.IsSpace accepts.
abbrev pub wide_spaces : List Bytes
wide_spaces =
    (0xC2 ∷ 0x85 ∷ [])
    ∷ (0xC2 ∷ 0xA0 ∷ [])
    ∷ (0xE1 ∷ 0x9A ∷ 0x80 ∷ [])
    ∷ (0xE2 ∷ 0x80 ∷ 0x80 ∷ [])
    ∷ (0xE2 ∷ 0x80 ∷ 0x81 ∷ [])
    ∷ (0xE2 ∷ 0x80 ∷ 0x82 ∷ [])
    ∷ (0xE2 ∷ 0x80 ∷ 0x83 ∷ [])
    ∷ (0xE2 ∷ 0x80 ∷ 0x84 ∷ [])
    ∷ (0xE2 ∷ 0x80 ∷ 0x85 ∷ [])
    ∷ (0xE2 ∷ 0x80 ∷ 0x86 ∷ [])
    ∷ (0xE2 ∷ 0x80 ∷ 0x87 ∷ [])
    ∷ (0xE2 ∷ 0x80 ∷ 0x88 ∷ [])
    ∷ (0xE2 ∷ 0x80 ∷ 0x89 ∷ [])
    ∷ (0xE2 ∷ 0x80 ∷ 0x8A ∷ [])
    ∷ (0xE2 ∷ 0x80 ∷ 0xA8 ∷ [])
    ∷ (0xE2 ∷ 0x80 ∷ 0xA9 ∷ [])
    ∷ (0xE2 ∷ 0x80 ∷ 0xAF ∷ [])
    ∷ (0xE2 ∷ 0x81 ∷ 0x9F ∷ [])
    ∷ (0xE3 ∷ 0x80 ∷ 0x80 ∷ [])
    ∷ []

-- Tab, line feed, vertical tab, form feed, carriage return and space.
unfoldable pub is_ascii_space : ℕ → Bool
is_ascii_space c = (leb 9 c && leb c 13) || (c == 32)

unfoldable pub starts_with_space : Bytes → Bool
unfolding is_ascii_space
starts_with_space [] = false
starts_with_space (c ∷ s) = is_ascii_space c || any (λ w. has_prefix (c ∷ s) w) wide_spaces

-- The string ends in a space: some suffix is the encoding of one.
unfoldable pub ends_with_space : Bytes → Bool
unfolding is_ascii_space
ends_with_space [] = false
ends_with_space (c ∷ []) = is_ascii_space c
ends_with_space (c ∷ d ∷ s) = mem (c ∷ d ∷ s) wide_spaces || ends_with_space (d ∷ s)

-- `strings.TrimSpace(s) != s`
unfoldable pub has_outer_space : Bytes → Bool
has_outer_space s = starts_with_space s || ends_with_space s
