-- ===== src/Text/Base64/Padded.antt =====
-- encoding/base64: StdEncoding.EncodeToString and StdEncoding.Strict().DecodeString, the alphabet with
-- `+` and `/` and with padding.
use one_issuer.Base.{
  ℕ, ◌+◌, ◌*◌, ◌/◌, ◌%◌, ◌<◌, ◌≡◌, refl, ap, ◌∙◌, Bool, true, not, ◌&&◌, ◌||◌, Option, none, some,
  [], ◌∷◌, arith, length, keep, All, leb, ltb, ◌==◌, if◌then◌else◌,
}
use one_issuer.Text.{Bytes}
use one_issuer.Text.Base64.{
  ◌>>=◌, digit_of, value_of, two_digits, three_digits, four_digits, is_newline, passes, passes_at,
  value_is, eq-some_of_value_is, AreBytes, keep-All,
}

unfoldable pub std_digit_of : ℕ → ℕ
unfolding digit_of
std_digit_of v = if ltb v 62 then digit_of v else if v == 62 then b'+' else b'/'

unfoldable pub std_value_of : ℕ → Option ℕ
unfolding value_of
std_value_of c =
    if c == b'+'
    then some 62
    else if c == b'/'
    then some 63
    else if (c == b'-') || (c == b'_')
    then none
    else value_of c

unfoldable pub std_encode : Bytes → Bytes
std_encode [] = []
std_encode (a ∷ []) = std_digit_of (a / 4) ∷ std_digit_of (a % 4 * 16) ∷ b'=' ∷ b'=' ∷ []
std_encode (a ∷ b ∷ []) =
    std_digit_of (a / 4)
    ∷ std_digit_of (a % 4 * 16 + b / 16)
    ∷ std_digit_of (b % 16 * 4)
    ∷ b'='
    ∷ []
std_encode (a ∷ b ∷ c ∷ rest) =
    std_digit_of (a / 4)
    ∷ std_digit_of (a % 4 * 16 + b / 16)
    ∷ std_digit_of (b % 16 * 4 + c / 64)
    ∷ std_digit_of (c % 64)
    ∷ std_encode rest

-- Four digits before others, or at the end with up to two of them padding.
std_group : ℕ → ℕ → ℕ → ℕ → Option Bytes → Option Bytes
unfolding four_digits
std_group a b c d tail = do
  v ← std_value_of a
  w ← std_value_of b
  x ← std_value_of c
  y ← std_value_of d
  bytes ← tail
  some (four_digits v w x y bytes)

std_one_byte : ℕ → ℕ → Option Bytes
unfolding two_digits
std_one_byte a b = do v ← std_value_of a; w ← std_value_of b; two_digits v w

std_two_bytes : ℕ → ℕ → ℕ → Option Bytes
unfolding three_digits
std_two_bytes a b c = do
  v ← std_value_of a
  w ← std_value_of b
  x ← std_value_of c
  three_digits v w x

std_last : ℕ → ℕ → ℕ → ℕ → Option Bytes
unfolding std_group std_one_byte std_two_bytes
std_last a b c d =
    if d == b'='
    then (if c == b'=' then std_one_byte a b else std_two_bytes a b c)
    else std_group a b c d (some [])

std_decode_digits : Bytes → Option Bytes
unfolding std_group std_last
std_decode_digits [] = some []
std_decode_digits (a ∷ []) = none
std_decode_digits (a ∷ b ∷ []) = none
std_decode_digits (a ∷ b ∷ c ∷ []) = none
std_decode_digits (a ∷ b ∷ c ∷ d ∷ []) = std_last a b c d
std_decode_digits (a ∷ b ∷ c ∷ d ∷ e ∷ rest) =
    let tail = std_decode_digits (e ∷ rest) in std_group a b c d tail

-- `none` where the decoder reports an error.
unfoldable pub std_decode : Bytes → Option Bytes
unfolding std_decode_digits std_value_of
std_decode s = std_decode_digits (keep (λ c. not (is_newline c)) s)

std_value_table : passes (λ v. value_is (std_value_of (std_digit_of v)) v) 0 64 ≡ true
unfolding passes std_value_of std_digit_of
std_value_table = refl

std_value_of-std_digit_of : (v : ℕ) → v < 64 → std_value_of (std_digit_of v) ≡ some v
std_value_of-std_digit_of v h =
    eq-some_of_value_is _ v (passes_at _ 0 64 v std_value_table (omega arith) h)

-- What an encoded string is made of: digits and padding.
abbrev pub is_std_character : ℕ → Bool
is_std_character c = leb 33 c && ltb c 127 && not (c == b',') && not (c == b':')

std_character_table : passes (λ v. is_std_character (std_digit_of v)) 0 64 ≡ true
unfolding passes std_digit_of
std_character_table = refl

std_digit_of-character : (v : ℕ) → v < 64 → is_std_character (std_digit_of v) ≡ true
std_digit_of-character v h = passes_at _ 0 64 v std_character_table (omega arith) h

padding_table : passes (λ v. not (std_digit_of v == b'=')) 0 64 ≡ true
unfolding passes std_digit_of
padding_table = refl

std_digit_of-not_padding : (v : ℕ) → v < 64 → not (std_digit_of v == b'=') ≡ true
std_digit_of-not_padding v h = passes_at _ 0 64 v padding_table (omega arith) h

pub std_encode-characters :
    (s : Bytes) → AreBytes s → All (λ c. is_std_character c ≡ true) (std_encode s)
unfolding std_encode
std_encode-characters [] h = tt
std_encode-characters (a ∷ []) (ha, _) = (
  std_digit_of-character (a / 4) (omega arith),
  (std_digit_of-character (a % 4 * 16) (omega arith), (refl, (refl, tt))),
)
std_encode-characters (a ∷ b ∷ []) (ha, (hb, _)) = (
  std_digit_of-character (a / 4) (omega arith),
  (
    std_digit_of-character (a % 4 * 16 + b / 16) (omega arith),
    (std_digit_of-character (b % 16 * 4) (omega arith), (refl, tt)),
  ),
)
std_encode-characters (a ∷ b ∷ c ∷ rest) (ha, (hb, (hc, h))) = (
  std_digit_of-character (a / 4) (omega arith),
  (
    std_digit_of-character (a % 4 * 16 + b / 16) (omega arith),
    (
      std_digit_of-character (b % 16 * 4 + c / 64) (omega arith),
      (std_digit_of-character (c % 64) (omega arith), std_encode-characters rest h),
    ),
  ),
)

std_group-digits :
    (a b c : ℕ) (tail : Bytes)
    → a < 256
    → b < 256
    → c < 256
    → std_group
        (std_digit_of (a / 4))
        (std_digit_of (a % 4 * 16 + b / 16))
        (std_digit_of (b % 16 * 4 + c / 64))
        (std_digit_of (c % 64))
        (some tail)
      ≡ some (a ∷ b ∷ c ∷ tail)
unfolding std_group
std_group-digits a b c tail ha hb hc =
    rw
      (
        std_value_of-std_digit_of (a / 4) (omega arith),
        std_value_of-std_digit_of (a % 4 * 16 + b / 16) (omega arith),
        std_value_of-std_digit_of (b % 16 * 4 + c / 64) (omega arith),
        std_value_of-std_digit_of (c % 64) (omega arith),
      )
      (ground arith)

std_one_byte-digits :
    (a : ℕ)
    → a < 256
    → std_one_byte (std_digit_of (a / 4)) (std_digit_of (a % 4 * 16)) ≡ some (a ∷ [])
unfolding std_one_byte
std_one_byte-digits a h =
    rw
      (
        std_value_of-std_digit_of (a / 4) (omega arith),
        std_value_of-std_digit_of (a % 4 * 16) (omega arith),
      )
      (ground arith)

std_two_bytes-digits :
    (a b : ℕ)
    → a < 256
    → b < 256
    → std_two_bytes
        (std_digit_of (a / 4))
        (std_digit_of (a % 4 * 16 + b / 16))
        (std_digit_of (b % 16 * 4))
      ≡ some (a ∷ b ∷ [])
unfolding std_two_bytes
std_two_bytes-digits a b ha hb =
    rw
      (
        std_value_of-std_digit_of (a / 4) (omega arith),
        std_value_of-std_digit_of (a % 4 * 16 + b / 16) (omega arith),
        std_value_of-std_digit_of (b % 16 * 4) (omega arith),
      )
      (ground arith)

std_decode_digits-step :
    (a b c d : ℕ) (tail t : Bytes)
    → not (d == b'=') ≡ true
    → std_decode_digits tail ≡ some t
    → std_decode_digits (a ∷ b ∷ c ∷ d ∷ tail) ≡ std_group a b c d (some t)
unfolding std_decode_digits std_last
std_decode_digits-step a b c d [] t h e = ground arith
std_decode_digits-step a b c d (x ∷ tail) t h e = ap (std_group a b c d) e

std_last-one : (a b : ℕ) → std_decode_digits (a ∷ b ∷ b'=' ∷ b'=' ∷ []) ≡ std_one_byte a b
unfolding std_decode_digits std_last
std_last-one a b = refl

std_last-two :
    (a b c : ℕ)
    → not (c == b'=') ≡ true
    → std_decode_digits (a ∷ b ∷ c ∷ b'=' ∷ []) ≡ std_two_bytes a b c
unfolding std_decode_digits std_last
std_last-two a b c h = ground arith

decoded_nil : std_decode_digits [] ≡ some []
unfolding std_decode_digits
decoded_nil = refl

std_decode_digits-std_encode : (s : Bytes) → AreBytes s → std_decode_digits (std_encode s) ≡ some s
unfolding std_encode
std_decode_digits-std_encode [] h = decoded_nil
std_decode_digits-std_encode (a ∷ []) (ha, _) = std_last-one _ _ ∙ std_one_byte-digits a ha
std_decode_digits-std_encode (a ∷ b ∷ []) (ha, (hb, _)) =
    std_last-two _ _ _ (std_digit_of-not_padding (b % 16 * 4) (omega arith))
    ∙ std_two_bytes-digits a b ha hb
std_decode_digits-std_encode (a ∷ b ∷ c ∷ rest) (ha, (hb, (hc, h))) =
    std_decode_digits-step _ _ _ _ (std_encode rest) rest
      (std_digit_of-not_padding (c % 64) (omega arith)) (std_decode_digits-std_encode rest h)
    ∙ std_group-digits a b c rest ha hb hc

characters-not_newline :
    (s : Bytes) → All (λ c. is_std_character c ≡ true) s → All (λ c. not (is_newline c) ≡ true) s
characters-not_newline [] h = tt
characters-not_newline (c ∷ s) (h, hs) = (ground arith, characters-not_newline s hs)

-- Decoding what was encoded gives the bytes back.
pub std_decode-std_encode : (s : Bytes) → AreBytes s → std_decode (std_encode s) ≡ some s
unfolding std_decode
std_decode-std_encode s h =
    ap std_decode_digits (
      keep-All _ (std_encode s) (characters-not_newline (std_encode s) (std_encode-characters s h)))
    ∙ std_decode_digits-std_encode s h

pub length-std_encode : (s : Bytes) → length (std_encode s) ≡ (length s + 2) / 3 * 4
unfolding std_encode
length-std_encode [] = omega arith
length-std_encode (a ∷ []) = omega arith
length-std_encode (a ∷ b ∷ []) = omega arith
length-std_encode (a ∷ b ∷ c ∷ rest) = omega (arith, length-std_encode rest)
