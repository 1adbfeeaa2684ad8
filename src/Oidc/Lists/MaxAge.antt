-- ===== src/Oidc/Lists/MaxAge.antt =====
-- What parseMaxAge of internal/oidc/authorize.go accepts.
use one_issuer.Base.{
  ℕ, ◌≤◌, ◌≡◌, refl, sym, ap, ◌∙◌, ◌↔◌, inl, inr, true, some, [], ◌∷◌, arith, all, subst,
}
use one_issuer.Text.{Bytes, has_prefix}
use one_issuer.Text.Decimal.{
  is_digit, value_from, parse_uint32, decimal, AreDigits, IsNumeral, decimal-IsNumeral,
  decimal-value_from, value_from-decimal,
}
use one_issuer.Oidc.Lists.{max_age_seconds, bounded_age, parse_max_age}

all-is_digit : (s : Bytes) → all is_digit s ≡ true → AreDigits s
all-is_digit [] h = tt
all-is_digit (c ∷ s) h = (ground arith, all-is_digit s (ground arith))

AreDigits-all : (s : Bytes) → AreDigits s → all is_digit s ≡ true
AreDigits-all [] h = refl
AreDigits-all (c ∷ s) (h, hs) = ground (arith, AreDigits-all s hs)

bounded_age-eq-some :
    (s : Bytes) (n : ℕ)
    → bounded_age (parse_uint32 s) ≡ some (some n)
    → (value_from 0 s ≡ n) × (n ≤ max_age_seconds)
unfolding parse_uint32
bounded_age-eq-some s n h = ground arith

bounded_age-value :
    (s : Bytes)
    → value_from 0 s ≤ max_age_seconds
    → bounded_age (parse_uint32 s) ≡ some (some (value_from 0 s))
unfolding parse_uint32
bounded_age-value s h = ground arith

accepted-IsNumeral :
    (c : ℕ) (s : Bytes) (n : ℕ)
    → parse_max_age ((c ∷ s) ∷ []) ≡ some (some n)
    → IsNumeral (c ∷ s) × (bounded_age (parse_uint32 (c ∷ s)) ≡ some (some n))
unfolding parse_max_age has_prefix
accepted-IsNumeral c [] n h = ((ground arith, tt, inl refl), ground arith)
accepted-IsNumeral c (d ∷ s) n h =
    ((ground arith, all-is_digit (d ∷ s) (ground arith), inr (ground arith)), ground arith)

parse_max_age-numeral :
    (c : ℕ) (s : Bytes)
    → IsNumeral (c ∷ s)
    → parse_max_age ((c ∷ s) ∷ []) ≡ bounded_age (parse_uint32 (c ∷ s))
unfolding parse_max_age has_prefix
parse_max_age-numeral c [] (h, hs, lead) = ground arith
parse_max_age-numeral c (d ∷ s) (h, hs, inl alone) = cc
parse_max_age-numeral c (d ∷ s) (h, hs, inr lead) = ground (arith, AreDigits-all (d ∷ s) hs)

-- `parse_max_age`, of a string that is not empty.
parse_max_age-decimal :
    (raw : Bytes) (n : ℕ)
    → IsNumeral raw
    → raw ≡ decimal n
    → n ≤ max_age_seconds
    → parse_max_age (raw ∷ []) ≡ some (some n)
parse_max_age-decimal [] n h e bound = absurd h
parse_max_age-decimal (c ∷ s) n h e bound =
    let value : value_from 0 (c ∷ s) ≡ n = ap (value_from 0) e ∙ value_from-decimal n in
    parse_max_age-numeral c s h
    ∙ bounded_age-value (c ∷ s) (omega arith)
    ∙ ap (λ (m : ℕ). some (some m)) value

parsed_decimal :
    (raw : Bytes) (n : ℕ)
    → parse_max_age (raw ∷ []) ≡ some (some n)
    → (raw ≡ decimal n) × (n ≤ max_age_seconds)
unfolding parse_max_age
parsed_decimal [] n h = cc
parsed_decimal (c ∷ s) n h =
    let ((digit, digits, lead), bounded) = accepted-IsNumeral c s n h in
    let (value, bound) = bounded_age-eq-some (c ∷ s) n bounded in
    (sym (decimal-value_from c s digit digits lead) ∙ ap decimal value, bound)

-- A max_age is accepted as a number exactly when it is that number written in decimal, without sign
-- or leading zero, and the number is at most 30 days in seconds.
pub parse_max_age_iff :
    (raw : Bytes) (n : ℕ)
    → (parse_max_age (raw ∷ []) ≡ some (some n)) ↔ ((raw ≡ decimal n) × (n ≤ max_age_seconds))
parse_max_age_iff raw n = (
  parsed_decimal raw n,
  λ h. parse_max_age-decimal raw n (subst IsNumeral (sym h.0) (decimal-IsNumeral n)) h.0 h.1,
)
