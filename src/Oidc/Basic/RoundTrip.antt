-- ===== src/Oidc/Basic/RoundTrip.antt =====
-- A header that a Client writes by RFC 6749 is read back by parseStrictBasic of
-- internal/oidc/token_request.go.
use one_issuer.Base.{
  ℕ, ◌+◌, ◌≤◌, ◌<◌, ◌≡◌, refl, ap, ap₂, ◌∙◌, true, false, some, List, [], ◌∷◌, ◌++◌, arith, length,
  ◌==◌, is_empty, All,
}
use one_issuer.Text.{Bytes, codes, str_eq}
use one_issuer.Text.Split.{cut, has_byte, count_byte}
use one_issuer.Text.Utf8.{valid_utf8-ascii}
use one_issuer.Text.Base64.{AreBytes}
use one_issuer.Text.Base64.Padded.{
  std_encode, std_decode, is_std_character, std_encode-characters, std_decode-std_encode,
}
use one_issuer.Url.{query_escape, is_unreserved}
use one_issuer.Url.Escape.{query_unescape-query_escape, is_escaped, query_escape-is_escaped}
use one_issuer.Oidc.Basic.{
  max_basic_authorization_bytes, has_ascii_control, is_basic, fold_case, bad_value,
  parse_credential, parse_strict_basic, basic_header,
}

-- Printable ASCII but the comma.
abbrev ArePrintable : Bytes → Type 0
ArePrintable s = All (λ c. (32 ≤ c) × (c < 127) × ((c == b',') ≡ false)) s

printable-ascii : (s : Bytes) → ArePrintable s → All (λ c. c < 128) s
printable-ascii [] h = tt
printable-ascii (c ∷ s) (h, hs) = (omega arith, printable-ascii s hs)

printable-clean :
    (s : Bytes) → ArePrintable s → (has_ascii_control s ≡ false) × (has_byte b',' s ≡ false)
unfolding has_ascii_control has_byte
printable-clean [] h = (refl, refl)
printable-clean (c ∷ s) (h, hs) =
    let (control, comma) = printable-clean s hs in (ground arith, ground arith)

-- Characters of an encoded string.
abbrev AreStd : Bytes → Type 0
AreStd s = All (λ c. is_std_character c ≡ true) s

std-ArePrintable : (s : Bytes) → AreStd s → ArePrintable s
std-ArePrintable [] h = tt
std-ArePrintable (c ∷ s) (h, hs) =
    ((ground arith, ground arith, ground arith), std-ArePrintable s hs)

std-no_space : (s : Bytes) → AreStd s → has_byte b' ' s ≡ false
unfolding has_byte
std-no_space [] h = refl
std-no_space (c ∷ s) (h, hs) = ground (arith, std-no_space s hs)

-- Escaped characters.
abbrev AreEscaped : Bytes → Type 0
AreEscaped s = All (λ c. is_escaped c ≡ true) s

escaped_character :
    (c : ℕ)
    → is_escaped c ≡ true
    → (33 ≤ c) × (c < 127) × ((c == b',') ≡ false) × ((c == b':') ≡ false)
unfolding is_escaped is_unreserved
escaped_character c h = (ground arith, ground arith, ground arith, ground arith)

escaped-ArePrintable : (s : Bytes) → AreEscaped s → ArePrintable s
escaped-ArePrintable [] h = tt
escaped-ArePrintable (c ∷ s) (h, hs) =
    let (low, high, comma, colon) = escaped_character c h in
    ((omega arith, high, comma), escaped-ArePrintable s hs)

escaped-no_colon : (s : Bytes) → AreEscaped s → (has_byte b':' s ≡ false) × (count_byte b':' s ≡ 0)
unfolding has_byte count_byte
escaped-no_colon [] h = (refl, refl)
escaped-no_colon (c ∷ s) (h, hs) =
    let (low, high, comma, colon) = escaped_character c h in
    let (has, count) = escaped-no_colon s hs in (ground arith, ground arith)

All-append {ℓ κ} :
    {A : Type ℓ} (P : A → Type κ) (xs ys : List A) → All P xs → All P ys → All P (xs ++ ys)
All-append P [] ys hx hy = hy
All-append P (x ∷ xs) ys hx hy = (hx.0, All-append P xs ys hx.1 hy)

cut-append : (sep : ℕ) (p s : Bytes) → has_byte sep p ≡ false → cut sep (p ++ (sep ∷ s)) ≡ (p, s)
unfolding cut has_byte
cut-append sep [] s h = ground arith
cut-append sep (c ∷ p) s h = ground (arith, cut-append sep p s)

count_byte-append :
    (sep : ℕ) (p s : Bytes) → count_byte sep (p ++ s) ≡ count_byte sep p + count_byte sep s
unfolding count_byte
count_byte-append sep [] s = omega arith
count_byte-append sep (c ∷ p) s = omega (arith, count_byte-append sep p s)

count_colon : (s : Bytes) → count_byte b':' s ≡ 0 → count_byte b':' (b':' ∷ s) ≡ 1
unfolding count_byte
count_colon s h = omega arith

std_encode-nonempty : (p s : Bytes) → is_empty (std_encode (p ++ (b':' ∷ s))) ≡ false
unfolding std_encode
std_encode-nonempty [] [] = refl
std_encode-nonempty [] (a ∷ []) = refl
std_encode-nonempty [] (a ∷ b ∷ s) = refl
std_encode-nonempty (a ∷ []) [] = refl
std_encode-nonempty (a ∷ []) (b ∷ s) = refl
std_encode-nonempty (a ∷ b ∷ p) s = third a b p s
  where
    third : (a b : ℕ) (p s : Bytes) → is_empty (std_encode (a ∷ b ∷ p ++ (b':' ∷ s))) ≡ false
    third a b [] s = refl
    third a b (c ∷ p) s = refl

printable-AreBytes : (s : Bytes) → ArePrintable s → AreBytes s
printable-AreBytes [] h = tt
printable-AreBytes (c ∷ s) (h, hs) = (omega arith, printable-AreBytes s hs)

-- A value that may stand in a credential.
pub record IsCredential (s : Bytes) : Type 0 where
  pub bytes : AreBytes s
  pub good : bad_value s ≡ false

scheme-ArePrintable : ArePrintable (codes "Basic ")
scheme-ArePrintable = ground arith

-- The header at the first space, and the name of its scheme.
cut-header : (s : Bytes) → cut b' ' (codes "Basic " ++ s) ≡ (codes "Basic", s)
unfolding cut
cut-header s = refl

scheme-is_basic : is_basic (codes "Basic") ≡ true
unfolding is_basic fold_case str_eq
scheme-is_basic = refl

read_header :
    (s : Bytes)
    → ArePrintable (codes "Basic " ++ s)
    → AreStd s
    → is_empty s ≡ false
    → length (codes "Basic " ++ s) ≤ max_basic_authorization_bytes
    → parse_strict_basic (codes "Basic " ++ s) ≡ parse_credential (std_decode s)
unfolding parse_strict_basic
read_header s printable std present fits =
    rw
      (
        valid_utf8-ascii (codes "Basic " ++ s) (printable-ascii (codes "Basic " ++ s) printable),
        (printable-clean (codes "Basic " ++ s) printable).0,
        (printable-clean (codes "Basic " ++ s) printable).1,
        cut-header s,
        scheme-is_basic,
        std-no_space s std,
        present,
      )
      (ground arith)

module _ (client_id secret : Bytes) (a : IsCredential client_id) (b : IsCredential secret) where
  abbrev credential : Bytes
  credential = query_escape client_id ++ (b':' ∷ query_escape secret)

  credential-ArePrintable : ArePrintable credential
  credential-ArePrintable =
      All-append _ (query_escape client_id) (b':' ∷ query_escape secret)
        (escaped-ArePrintable _ (query_escape-is_escaped client_id a.bytes))
        (
          (omega arith, omega arith, refl),
          escaped-ArePrintable _ (query_escape-is_escaped secret b.bytes),
        )

  credential-AreStd : AreStd (std_encode credential)
  credential-AreStd =
      std_encode-characters credential (printable-AreBytes credential credential-ArePrintable)

  one_colon : count_byte b':' credential ≡ 1
  one_colon =
      count_byte-append b':' (query_escape client_id) (b':' ∷ query_escape secret)
      ∙ ap₂ (λ (m n : ℕ). m + n) (escaped-no_colon _ (query_escape-is_escaped client_id a.bytes)).1
          (count_colon (query_escape secret)
            (escaped-no_colon _ (query_escape-is_escaped secret b.bytes)).1)

  parsed_credential : parse_credential (some credential) ≡ some (client_id, secret)
  unfolding parse_credential
  parsed_credential =
      rw
        (
          valid_utf8-ascii credential (printable-ascii credential credential-ArePrintable),
          (printable-clean credential credential-ArePrintable).0,
          one_colon,
          cut-append b':' (query_escape client_id) (query_escape secret)
              (escaped-no_colon _ (query_escape-is_escaped client_id a.bytes)).0,
          query_unescape-query_escape client_id a.bytes,
          query_unescape-query_escape secret b.bytes,
          a.good,
          b.good,
        )
        refl

  header-ArePrintable : ArePrintable (basic_header client_id secret)
  unfolding basic_header
  header-ArePrintable =
      All-append _ (codes "Basic ") (std_encode credential) scheme-ArePrintable
        (std-ArePrintable _ credential-AreStd)

-- A Client that sends its identifier and secret as RFC 6749 says, both escaped, joined by a colon and
-- encoded after the scheme's name, is read as sending just these, provided that both are not empty,
-- valid UTF-8 without control characters, and the header is at most 256 bytes.
pub parse_strict_basic-basic_header :
    (client_id secret : Bytes)
    → IsCredential client_id
    → IsCredential secret
    → length (basic_header client_id secret) ≤ max_basic_authorization_bytes
    → parse_strict_basic (basic_header client_id secret) ≡ some (client_id, secret)
unfolding basic_header
parse_strict_basic-basic_header client_id secret a b fits =
    let text = credential client_id secret a b in
    read_header (std_encode text) (header-ArePrintable client_id secret a b)
      (credential-AreStd client_id secret a b)
      (std_encode-nonempty (query_escape client_id) (query_escape secret)) fits
    ∙ ap parse_credential (
        std_decode-std_encode text
          (printable-AreBytes text (credential-ArePrintable client_id secret a b)))
    ∙ parsed_credential client_id secret a b
