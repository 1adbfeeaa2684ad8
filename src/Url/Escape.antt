-- ===== src/Url/Escape.antt =====
-- QueryUnescape reads back what QueryEscape wrote, and an escaped string holds no separator.
use one_issuer.Base.{
  ℕ, ◌+◌, ◌*◌, ◌/◌, ◌%◌, ◌<◌, ◌≡◌, refl, ◌∙◌, ap, Bool, true, ◌||◌, some, List, [], ◌∷◌, ◌++◌,
  arith, ◌==◌, All, Bool-cases, inl, inr,
}
use one_issuer.Text.{Bytes}
use one_issuer.Url.{
  hex_value, hex_digit, plain, with_byte, unescape_from, query_unescape, is_unreserved, escape_byte,
  query_escape,
}

hex_value-hex_digit : (v : ℕ) → v < 16 → hex_value (hex_digit v) ≡ some v
unfolding hex_value hex_digit
hex_value-hex_digit v h = ground arith

unescape-unreserved :
    (c : ℕ) (s : Bytes)
    → is_unreserved c ≡ true
    → unescape_from plain (c ∷ s) ≡ with_byte c (unescape_from plain s)
unfolding unescape_from is_unreserved
unescape-unreserved c s h = ground arith

unescape-digits :
    (d e h l : ℕ) (s : Bytes)
    → hex_value d ≡ some h
    → hex_value e ≡ some l
    → unescape_from plain (b'%' ∷ d ∷ e ∷ s) ≡ with_byte (h * 16 + l) (unescape_from plain s)
unfolding unescape_from
unescape-digits d e h l s p q = ground arith

unescape-hex :
    (c : ℕ) (s : Bytes)
    → c < 256
    → unescape_from plain (b'%' ∷ hex_digit (c / 16) ∷ hex_digit (c % 16) ∷ s)
      ≡ with_byte c (unescape_from plain s)
unescape-hex c s h =
    unescape-digits _ _ (c / 16) (c % 16) s (hex_value-hex_digit (c / 16) (omega arith))
      (hex_value-hex_digit (c % 16) (omega arith))
    ∙ ap (λ (d : ℕ). with_byte d (unescape_from plain s)) (omega arith)

unescape-space :
    (c : ℕ) (s : Bytes)
    → (c == b' ') ≡ true
    → unescape_from plain (b'+' ∷ s) ≡ with_byte c (unescape_from plain s)
unfolding unescape_from
unescape-space c s h = ground arith

unescape-escape_byte :
    (c : ℕ) (s : Bytes)
    → c < 256
    → unescape_from plain (escape_byte c ++ s) ≡ with_byte c (unescape_from plain s)
unfolding escape_byte
unescape-escape_byte c s h = elim (Bool-cases (is_unreserved c)) [
  | inl kept ↦ rw kept (unescape-unreserved c s kept)
  | inr other ↦ elim (Bool-cases (c == b' ')) [
    | inl space ↦ rw (other, space) (unescape-space c s space)
    | inr coded ↦ rw (other, coded) (unescape-hex c s h)
  ]
]

unescape-nil : unescape_from plain [] ≡ some []
unfolding unescape_from
unescape-nil = refl

unescape_from-query_escape :
    (s : Bytes) → All (λ c. c < 256) s → unescape_from plain (query_escape s) ≡ some s
unfolding query_escape
unescape_from-query_escape [] h = unescape-nil
unescape_from-query_escape (c ∷ s) (h, hs) =
    unescape-escape_byte c (query_escape s) h ∙ ap (with_byte c) (unescape_from-query_escape s hs)

-- QueryUnescape reads back what QueryEscape wrote.
pub query_unescape-query_escape :
    (s : Bytes) → All (λ c. c < 256) s → query_unescape (query_escape s) ≡ some s
unfolding query_unescape
query_unescape-query_escape s h = unescape_from-query_escape s h

-- What an escaped string is made of.
unfoldable pub is_escaped : ℕ → Bool
is_escaped c = is_unreserved c || (c == b'+') || (c == b'%')

hex_digit-is_escaped : (v : ℕ) → v < 16 → is_escaped (hex_digit v) ≡ true
unfolding is_escaped is_unreserved hex_digit
hex_digit-is_escaped v h = ground arith

All-append {ℓ κ} :
    {A : Type ℓ} (P : A → Type κ) (xs ys : List A) → All P xs → All P ys → All P (xs ++ ys)
All-append P [] ys hx hy = hy
All-append P (x ∷ xs) ys hx hy = (hx.0, All-append P xs ys hx.1 hy)

unreserved-is_escaped : (c : ℕ) → is_unreserved c ≡ true → is_escaped c ≡ true
unfolding is_escaped
unreserved-is_escaped c h = ground arith

plus-is_escaped : is_escaped b'+' ≡ true
unfolding is_escaped is_unreserved
plus-is_escaped = refl

percent-is_escaped : is_escaped b'%' ≡ true
unfolding is_escaped is_unreserved
percent-is_escaped = refl

escape_byte-is_escaped : (c : ℕ) → c < 256 → All (λ d. is_escaped d ≡ true) (escape_byte c)
unfolding escape_byte
escape_byte-is_escaped c h = elim (Bool-cases (is_unreserved c)) [
  | inl kept ↦ rw kept (unreserved-is_escaped c kept, tt)
  | inr other ↦ elim (Bool-cases (c == b' ')) [
    | inl space ↦ rw (other, space) (plus-is_escaped, tt)
    | inr coded ↦
        rw (other, coded)
          (
            percent-is_escaped,
            (
              hex_digit-is_escaped (c / 16) (omega arith),
              (hex_digit-is_escaped (c % 16) (omega arith), tt),
            ),
          )
  ]
]

pub query_escape-is_escaped :
    (s : Bytes) → All (λ c. c < 256) s → All (λ d. is_escaped d ≡ true) (query_escape s)
unfolding query_escape
query_escape-is_escaped [] h = tt
query_escape-is_escaped (c ∷ s) (h, hs) =
    All-append _ (escape_byte c) (query_escape s) (escape_byte-is_escaped c h)
      (query_escape-is_escaped s hs)
