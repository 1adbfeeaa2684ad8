-- ===== src/Text/Base64.antt =====
-- encoding/base64: RawURLEncoding.EncodeToString and RawURLEncoding.Strict().DecodeString. The
-- decoder ignores CR and LF, and the strict one refuses a last digit with stray low bits.
use one_issuer.Base.{
  ℕ, zero, suc, ◌+◌, ◌-◌, ◌*◌, ◌/◌, ◌%◌, ◌<◌, ◌≡◌, refl, ap, ◌∙◌, Bool, true, false, not, ◌&&◌,
  ◌||◌, Option, none, some, [], ◌∷◌, arith, length, keep, All, leb, ltb, ◌==◌, if◌then◌else◌,
  ==_iff, Bool-cases, inl, inr, sym, ◌≤◌,
}
use one_issuer.Text.{Bytes}
pub mod Padded

infixl 5 ◌>>=◌
abbrev ◌>>=◌ {ℓ κ} : {A : Type ℓ} {B : Type κ} → Option A → (A → Option B) → Option B
none >>= f = none
some a >>= f = f a

-- The digit for a value below 64.
unfoldable pub digit_of : ℕ → ℕ
digit_of v =
    if ltb v 26
    then b'A' + v
    else if ltb v 52
    then b'a' + (v - 26)
    else if ltb v 62
    then b'0' + (v - 52)
    else if v == 62
    then b'-'
    else b'_'

-- The value of a digit.
unfoldable pub value_of : ℕ → Option ℕ
value_of c =
    if leb b'A' c && leb c b'Z'
    then some (c - b'A')
    else if leb b'a' c && leb c b'z'
    then some (c - b'a' + 26)
    else if leb b'0' c && leb c b'9'
    then some (c - b'0' + 52)
    else if c == b'-'
    then some 62
    else if c == b'_'
    then some 63
    else none

unfoldable pub encode : Bytes → Bytes
encode [] = []
encode (a ∷ []) = digit_of (a / 4) ∷ digit_of (a % 4 * 16) ∷ []
encode (a ∷ b ∷ []) = digit_of (a / 4) ∷ digit_of (a % 4 * 16 + b / 16) ∷ digit_of (b % 16 * 4) ∷ []
encode (a ∷ b ∷ c ∷ rest) =
    digit_of (a / 4)
    ∷ digit_of (a % 4 * 16 + b / 16)
    ∷ digit_of (b % 16 * 4 + c / 64)
    ∷ digit_of (c % 64)
    ∷ encode rest

-- The bytes that two, three or four digits spell.
two_digits : ℕ → ℕ → Option Bytes
two_digits v w = if w % 16 == 0 then some ((v * 4 + w / 16) ∷ []) else none

three_digits : ℕ → ℕ → ℕ → Option Bytes
three_digits v w x =
    if x % 4 == 0 then some ((v * 4 + w / 16) ∷ (w % 16 * 16 + x / 4) ∷ []) else none

four_digits : ℕ → ℕ → ℕ → ℕ → Bytes → Bytes
four_digits v w x y rest = (v * 4 + w / 16) ∷ (w % 16 * 16 + x / 4) ∷ (x % 4 * 64 + y) ∷ rest

decode_digits : Bytes → Option Bytes
unfolding value_of two_digits three_digits four_digits
decode_digits [] = some []
decode_digits (a ∷ []) = none
decode_digits (a ∷ b ∷ []) = do v ← value_of a; w ← value_of b; two_digits v w
decode_digits (a ∷ b ∷ c ∷ []) = do
  v ← value_of a
  w ← value_of b
  x ← value_of c
  three_digits v w x
decode_digits (a ∷ b ∷ c ∷ d ∷ rest) =
    let tail = decode_digits rest in
    do
      v ← value_of a
      w ← value_of b
      x ← value_of c
      y ← value_of d
      bytes ← tail
      some (four_digits v w x y bytes)

abbrev is_newline : ℕ → Bool
is_newline c = (c == 10) || (c == 13)

unfoldable pub decode : Bytes → Option Bytes
unfolding decode_digits
decode s = decode_digits (keep (λ c. not (is_newline c)) s)

-- A test of each number from `first` on, `count` of them.
passes : (ℕ → Bool) → ℕ → ℕ → Bool
passes test first zero = true
passes test first (suc count) = test first && passes test (suc first) count

passes_at :
    (test : ℕ → Bool) (first count v : ℕ)
    → passes test first count ≡ true
    → first ≤ v
    → v < first + count
    → test v ≡ true
unfolding passes
passes_at test first zero v h low high = absurd (omega arith)
passes_at test first (suc count) v h low high = elim (Bool-cases (first == v)) [
  | inl here ↦ let same : first ≡ v = (==_iff first v).0 here in sym (ap test same) ∙ ground arith
  | inr later ↦ passes_at test (suc first) count v (ground arith) (ground arith) (ground arith)
]

abbrev value_is : Option ℕ → ℕ → Bool
value_is none v = false
value_is (some w) v = w == v

value_table : passes (λ v. value_is (value_of (digit_of v)) v) 0 64 ≡ true
unfolding passes value_of digit_of
value_table = refl

eq-some_of_value_is : (o : Option ℕ) (v : ℕ) → value_is o v ≡ true → o ≡ some v
eq-some_of_value_is none v h = cc
eq-some_of_value_is (some w) v h = ap some ((==_iff w v).0 h)

value_of-digit_of : (v : ℕ) → v < 64 → value_of (digit_of v) ≡ some v
value_of-digit_of v h = eq-some_of_value_is _ v (passes_at _ 0 64 v value_table (omega arith) h)

newline_table : passes (λ v. not (is_newline (digit_of v))) 0 64 ≡ true
unfolding passes digit_of
newline_table = refl

-- Every entry is a byte.
abbrev pub AreBytes : Bytes → Type 0
AreBytes s = All (λ b. b < 256) s

decode_digits-encode : (s : Bytes) → AreBytes s → decode_digits (encode s) ≡ some s
unfolding decode_digits encode
decode_digits-encode [] h = refl
decode_digits-encode (a ∷ []) (ha, _) =
    rw (value_of-digit_of (a / 4) (omega arith), value_of-digit_of (a % 4 * 16) (omega arith))
      (ground arith)
decode_digits-encode (a ∷ b ∷ []) (ha, (hb, _)) =
    rw
      (
        value_of-digit_of (a / 4) (omega arith),
        value_of-digit_of (a % 4 * 16 + b / 16) (omega arith),
        value_of-digit_of (b % 16 * 4) (omega arith),
      )
      (ground arith)
decode_digits-encode (a ∷ b ∷ c ∷ rest) (ha, (hb, (hc, h))) =
    rw
      (
        value_of-digit_of (a / 4) (omega arith),
        value_of-digit_of (a % 4 * 16 + b / 16) (omega arith),
        value_of-digit_of (b % 16 * 4 + c / 64) (omega arith),
        value_of-digit_of (c % 64) (omega arith),
        decode_digits-encode rest h,
      )
      (ground arith)

keep-All : (p : ℕ → Bool) (s : Bytes) → All (λ c. p c ≡ true) s → keep p s ≡ s
keep-All p [] h = refl
keep-All p (c ∷ s) (h, hs) = rw (h, keep-All p s hs)

is_digit : (v : ℕ) → v < 64 → not (is_newline (digit_of v)) ≡ true
is_digit v h = passes_at _ 0 64 v newline_table (omega arith) h

-- The digits hold no newline, so the decoder skips none of them.
encode_digits : (s : Bytes) → AreBytes s → All (λ c. not (is_newline c) ≡ true) (encode s)
unfolding encode
encode_digits [] h = tt
encode_digits (a ∷ []) (ha, _) =
    (is_digit (a / 4) (omega arith), (is_digit (a % 4 * 16) (omega arith), tt))
encode_digits (a ∷ b ∷ []) (ha, (hb, _)) = (
  is_digit (a / 4) (omega arith),
  (is_digit (a % 4 * 16 + b / 16) (omega arith), (is_digit (b % 16 * 4) (omega arith), tt)),
)
encode_digits (a ∷ b ∷ c ∷ rest) (ha, (hb, (hc, h))) = (
  is_digit (a / 4) (omega arith),
  (
    is_digit (a % 4 * 16 + b / 16) (omega arith),
    (
      is_digit (b % 16 * 4 + c / 64) (omega arith),
      (is_digit (c % 64) (omega arith), encode_digits rest h),
    ),
  ),
)

-- Decoding what was encoded gives the bytes back.
pub decode-encode : (s : Bytes) → AreBytes s → decode (encode s) ≡ some s
unfolding decode
decode-encode s h =
    ap decode_digits (keep-All _ (encode s) (encode_digits s h)) ∙ decode_digits-encode s h

pub length-encode : (s : Bytes) → length (encode s) ≡ (length s * 4 + 2) / 3
unfolding encode
length-encode [] = omega arith
length-encode (a ∷ []) = omega arith
length-encode (a ∷ b ∷ []) = omega arith
length-encode (a ∷ b ∷ c ∷ rest) = omega (arith, length-encode rest)
