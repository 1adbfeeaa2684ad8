-- ===== src/Text/Decimal.antt =====
-- Unsigned decimal numbers: the digits of a number, and strconv.ParseUint in base 10.
use one_issuer.Base.{
  ℕ, zero, suc, ◌+◌, ◌-◌, ◌*◌, ◌/◌, ◌%◌, ◌≤◌, ◌<◌, ◌≡◌, refl, Bool, true, ◌&&◌, [], ◌∷◌, ◌++◌,
  arith, leb, ltb, if◌then◌else◌, Option, none, some, sym, ap, ap₂, ◌∙◌, Bool-cases, inl, inr, All,
  ◌⊎◌, ◌≢◌, subst,
}
use one_issuer.Text.{Bytes}

unfoldable pub is_digit : ℕ → Bool
is_digit c = leb b'0' c && leb c b'9'

-- The number that digits spell, after those that spell `n`.
unfoldable pub value_from : ℕ → Bytes → ℕ
value_from n [] = n
value_from n (c ∷ s) = value_from (n * 10 + (c - b'0')) s

-- The digits of `n`, before `rest`; the fuel bounds how many there are.
unfoldable pub decimal_onto : ℕ → ℕ → Bytes → Bytes
decimal_onto zero n rest = rest
decimal_onto (suc fuel) n rest =
    let more = decimal_onto fuel (n / 10) ((b'0' + n % 10) ∷ rest) in
    if ltb n 10 then (b'0' + n) ∷ rest else more

-- `strconv.FormatUint(n, 10)`
unfoldable pub decimal : ℕ → Bytes
unfolding decimal_onto
decimal n = decimal_onto (suc n) n []

-- `strconv.ParseUint(s, 10, 32)`, for a string of digits: `none` where it is out of range.
unfoldable pub parse_uint32 : Bytes → Option ℕ
parse_uint32 s = if ltb 4_294_967_295 (value_from 0 s) then none else some (value_from 0 s)

pub le-value_from : (n : ℕ) (s : Bytes) → n ≤ value_from n s
unfolding value_from
le-value_from n [] = omega arith
le-value_from n (c ∷ s) = omega (arith, le-value_from (n * 10 + (c - b'0')) s)

-- One digit is the number itself, and the last of several is the remainder by ten.
decimal_onto-digit :
    (f n : ℕ) (rest : Bytes) → n < 10 → decimal_onto (suc f) n rest ≡ (b'0' + n) ∷ rest
unfolding decimal_onto
decimal_onto-digit f n rest h = ground arith

decimal_onto-more :
    (f n : ℕ) (rest : Bytes)
    → 10 ≤ n
    → decimal_onto (suc f) n rest ≡ decimal_onto f (n / 10) ((b'0' + n % 10) ∷ rest)
unfolding decimal_onto
decimal_onto-more f n rest h = ground arith

-- Any fuel above the number is enough, and it does not matter which.
decimal_onto-fuel :
    (f g n : ℕ) (rest : Bytes) → n < f → n < g → decimal_onto f n rest ≡ decimal_onto g n rest
decimal_onto-fuel zero g n rest hf hg = absurd (omega arith)
decimal_onto-fuel (suc f) zero n rest hf hg = absurd (omega arith)
decimal_onto-fuel (suc f) (suc g) n rest hf hg = elim (Bool-cases (ltb n 10)) [
  | inl small ↦
      decimal_onto-digit f n rest (ground arith) ∙ sym (decimal_onto-digit g n rest (ground arith))
  | inr large ↦
      decimal_onto-more f n rest (ground arith)
      ∙ decimal_onto-fuel f g (n / 10) ((b'0' + n % 10) ∷ rest) (ground arith) (ground arith)
      ∙ sym (decimal_onto-more g n rest (ground arith))
]

abbrev pub AreDigits : Bytes → Type 0
AreDigits s = All (λ c. is_digit c ≡ true) s

digit_value :
    (n c : ℕ)
    → is_digit c ≡ true
    → (b'0' + (n * 10 + (c - b'0')) % 10 ≡ c) × ((n * 10 + (c - b'0')) / 10 ≡ n)
unfolding is_digit
digit_value n c h = ground arith

decimal_onto-value_from :
    (f g n : ℕ) (s rest : Bytes)
    → 0 < n
    → AreDigits s
    → value_from n s < f
    → n < g
    → decimal_onto f (value_from n s) rest ≡ decimal_onto g n (s ++ rest)
unfolding value_from
decimal_onto-value_from f g n [] rest pos h hf hg = decimal_onto-fuel f g n rest hf hg
decimal_onto-value_from f g n (c ∷ s) rest pos (h, hs) hf hg =
    let m = n * 10 + (c - b'0') in
    let (last, front) = digit_value n c h in
    decimal_onto-value_from f (suc m) m s rest (omega arith) hs hf (omega arith)
    ∙ decimal_onto-more m m (s ++ rest) (omega arith)
    ∙ ap₂ (λ (a d : ℕ). decimal_onto m a (d ∷ s ++ rest)) front last
    ∙ decimal_onto-fuel m g n (c ∷ s ++ rest) (omega arith) hg

append-nil : (s : Bytes) → s ++ [] ≡ s
append-nil [] = refl
append-nil (c ∷ s) = ap (λ (t : Bytes). c ∷ t) (append-nil s)

value_from-first : (c : ℕ) (s : Bytes) → value_from 0 (c ∷ s) ≡ value_from (c - b'0') s
unfolding value_from
value_from-first c s = ap (λ (n : ℕ). value_from n s) (omega arith)

decimal-digit : (c : ℕ) → is_digit c ≡ true → decimal (c - b'0') ≡ c ∷ []
unfolding decimal is_digit
decimal-digit c h =
    decimal_onto-digit _ (c - b'0') [] (ground arith) ∙ ap (λ (d : ℕ). d ∷ []) (ground arith)

decimal-first :
    (c : ℕ) (s : Bytes)
    → is_digit c ≡ true
    → AreDigits s
    → c ≢ b'0'
    → decimal (value_from (c - b'0') s) ≡ c ∷ s
unfolding decimal is_digit
decimal-first c s h hs lead =
    decimal_onto-value_from (suc (value_from (c - b'0') s)) (suc (c - b'0')) (c - b'0') s []
      (ground arith) hs (omega arith) (omega arith)
    ∙ decimal_onto-digit (c - b'0') (c - b'0') (s ++ []) (ground arith)
    ∙ ap₂ (λ (a : ℕ) (t : Bytes). a ∷ t) (ground arith) (append-nil s)

-- Digits without a leading zero are the digits of their value.
pub decimal-value_from :
    (c : ℕ) (s : Bytes)
    → is_digit c ≡ true
    → AreDigits s
    → (s ≡ []) ⊎ (c ≢ b'0')
    → decimal (value_from 0 (c ∷ s)) ≡ c ∷ s
unfolding value_from
decimal-value_from c s h hs (inl alone) =
    ap decimal (value_from-first c s)
    ∙ ap (λ (t : Bytes). decimal (value_from (c - b'0') t)) alone
    ∙ decimal-digit c h
    ∙ ap (λ (t : Bytes). c ∷ t) (sym alone)
decimal-value_from c s h hs (inr lead) =
    ap decimal (value_from-first c s) ∙ decimal-first c s h hs lead

value_from-decimal_onto :
    (f n : ℕ) (rest : Bytes) → n < f → value_from 0 (decimal_onto f n rest) ≡ value_from n rest
unfolding value_from
value_from-decimal_onto zero n rest h = absurd (omega arith)
value_from-decimal_onto (suc f) n rest h = elim (Bool-cases (ltb n 10)) [
  | inl small ↦
      ap (value_from 0) (decimal_onto-digit f n rest (ground arith))
      ∙ ap (λ (m : ℕ). value_from m rest) (omega arith)
  | inr large ↦
      ap (value_from 0) (decimal_onto-more f n rest (ground arith))
      ∙ value_from-decimal_onto f (n / 10) _ (ground arith)
      ∙ ap (λ (m : ℕ). value_from m rest) (omega arith)
]

-- The digits of a number spell it.
pub value_from-decimal : (n : ℕ) → value_from 0 (decimal n) ≡ n
unfolding decimal value_from
value_from-decimal n = value_from-decimal_onto (suc n) n [] (omega arith)

-- Digits, and the first of them not zero unless it is alone.
abbrev pub IsNumeral : Bytes → Type 0
IsNumeral [] = ⊥
IsNumeral (c ∷ s) = (is_digit c ≡ true) × AreDigits s × ((s ≡ []) ⊎ (c ≢ b'0'))

digit_is_digit : (d : ℕ) → d < 10 → is_digit (b'0' + d) ≡ true
unfolding is_digit
digit_is_digit d h = ground arith

decimal_onto-IsNumeral :
    (f n : ℕ) (rest : Bytes) → n < f → 0 < n → AreDigits rest → IsNumeral (decimal_onto f n rest)
decimal_onto-IsNumeral zero n rest h pos hs = absurd (omega arith)
decimal_onto-IsNumeral (suc f) n rest h pos hs = elim (Bool-cases (ltb n 10)) [
  | inl small ↦
      subst IsNumeral (sym (decimal_onto-digit f n rest (ground arith)))
        (digit_is_digit n (ground arith), hs, inr (omega arith))
  | inr large ↦ subst IsNumeral (sym (decimal_onto-more f n rest (ground arith))) (
      decimal_onto-IsNumeral f (n / 10) _ (ground arith) (ground arith)
        (digit_is_digit (n % 10) (omega arith), hs))
]

pub decimal-IsNumeral : (n : ℕ) → IsNumeral (decimal n)
unfolding decimal
decimal-IsNumeral zero = (digit_is_digit 0 (omega arith), tt, inl refl)
decimal-IsNumeral (suc n) =
    decimal_onto-IsNumeral (suc (suc n)) (suc n) [] (omega arith) (omega arith) tt
