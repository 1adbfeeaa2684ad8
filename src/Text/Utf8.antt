-- ===== src/Text/Utf8.antt =====
-- utf8.ValidString, as an automaton over the bytes: how many continuation bytes are due, and the
-- range of the next one.
use one_issuer.Base.{
  ℕ, zero, suc, ◌≡◌, ◌<◌, refl, Bool, true, false, ◌&&◌, ◌||◌, [], ◌∷◌, arith, leb, ltb, ◌==◌,
  if◌then◌else◌, All,
}
use one_issuer.Text.{Bytes}

-- The continuation bytes that a first byte announces.
unfoldable pub following : ℕ → ℕ
following c = if ltb c 0xC0 then 0 else if ltb c 0xE0 then 1 else if ltb c 0xF0 then 2 else 3

-- ASCII, or a byte from 0xC2 to 0xF4.
unfoldable pub is_first : ℕ → Bool
is_first c = ltb c 0x80 || (leb 0xC2 c && leb c 0xF4)

-- The first continuation byte excludes overlong forms, surrogates and what lies above U+10FFFF.
unfoldable pub second_low : ℕ → ℕ
second_low c = if c == 0xE0 then 0xA0 else if c == 0xF0 then 0x90 else 0x80

unfoldable pub second_high : ℕ → ℕ
second_high c = if c == 0xED then 0x9F else if c == 0xF4 then 0x8F else 0xBF

unfoldable pub utf8_from : ℕ → ℕ → ℕ → Bytes → Bool
utf8_from low high zero [] = true
utf8_from low high (suc n) [] = false
utf8_from low high zero (c ∷ s) =
    is_first c && utf8_from (second_low c) (second_high c) (following c) s
utf8_from low high (suc n) (c ∷ s) = leb low c && leb c high && utf8_from 0x80 0xBF n s

unfoldable pub valid_utf8 : Bytes → Bool
unfolding utf8_from is_first second_low second_high following
valid_utf8 s = utf8_from 0x80 0xBF 0 s

-- ASCII is valid.
utf8_from-ascii : (low high : ℕ) (s : Bytes) → All (λ c. c < 128) s → utf8_from low high 0 s ≡ true
unfolding utf8_from is_first following
utf8_from-ascii low high [] h = refl
utf8_from-ascii low high (c ∷ s) (h, hs) =
    let rest = utf8_from-ascii (second_low c) (second_high c) s hs in ground arith

pub valid_utf8-ascii : (s : Bytes) → All (λ c. c < 128) s → valid_utf8 s ≡ true
unfolding valid_utf8
valid_utf8-ascii s h = utf8_from-ascii 0x80 0xBF s h
