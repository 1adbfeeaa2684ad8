-- ===== src/Oidc/Basic.antt =====
-- parseStrictBasic of internal/oidc/token_request.go: the Authorization header by which a
-- confidential Client authenticates.
use one_issuer.Base.{
  ℕ, ◌+◌, Bool, true, false, not, ◌&&◌, ◌||◌, Option, none, some, List, [], ◌∷◌, ◌++◌, length, leb,
  ltb, ◌==◌, if◌then◌else◌, is_empty, any,
}
use one_issuer.Text.{Bytes, codes, str_eq}
use one_issuer.Text.Split.{cut, has_byte, count_byte}
use one_issuer.Text.Utf8.{valid_utf8}
use one_issuer.Text.Base64.Padded.{std_encode, std_decode}
use one_issuer.Url.{query_unescape, query_escape}
pub mod RoundTrip

abbrev pub max_basic_authorization_bytes : ℕ
max_basic_authorization_bytes = 256

-- `hasASCIIControl`
unfoldable pub has_ascii_control : Bytes → Bool
has_ascii_control value = any (λ c. ltb c 0x20 || (c == 0x7F)) value

abbrev pub to_lower : ℕ → ℕ
to_lower c = if leb b'A' c && leb c b'Z' then c + 32 else c

-- The letters that strings.EqualFold takes for those of "basic": the other case, and U+017F for `s`.
unfoldable pub fold_case : Bytes → Bytes
fold_case [] = []
fold_case (c ∷ []) = to_lower c ∷ []
fold_case (c ∷ d ∷ s) = elim ((c == 0xC5) && (d == 0xBF)) [
  | true ↦ b's' ∷ fold_case s
  | false ↦ to_lower c ∷ fold_case (d ∷ s)
]

-- `strings.EqualFold(scheme, "Basic")`
unfoldable pub is_basic : Bytes → Bool
is_basic scheme = str_eq (fold_case scheme) (codes "basic")

abbrev pub bad_value : Bytes → Bool
bad_value s = is_empty s || not (valid_utf8 s) || has_ascii_control s

abbrev pub clear_credential : Option Bytes → Option Bytes → Option (Bytes × Bytes)
clear_credential (some client_id) (some secret) =
    if bad_value client_id || bad_value secret then none else some (client_id, secret)
clear_credential (some client_id) none = none
clear_credential none secret = none

-- The decoded text: an identifier and a secret around one colon, each escaped.
unfoldable pub parse_credential : Option Bytes → Option (Bytes × Bytes)
parse_credential none = none
parse_credential (some credential) =
    if not (valid_utf8 credential)
      || has_ascii_control credential
      || not (count_byte b':' credential == 1)
    then none
    else let (encoded_id, encoded_secret) = cut b':' credential in
      clear_credential (query_unescape encoded_id) (query_unescape encoded_secret)

-- `none` where the header is refused.
unfoldable pub parse_strict_basic : Bytes → Option (Bytes × Bytes)
unfolding parse_credential
parse_strict_basic value =
    if is_empty value
      || ltb max_basic_authorization_bytes (length value)
      || not (valid_utf8 value)
      || has_ascii_control value
      || has_byte b',' value
    then none
    else let (scheme, rest) = cut b' ' value in
      if is_empty scheme || not (is_basic scheme) || is_empty rest || has_byte b' ' rest
      then none
      else parse_credential (std_decode rest)

-- The header that RFC 6749 has a Client send.
unfoldable pub basic_header : Bytes → Bytes → Bytes
basic_header client_id secret =
    codes "Basic " ++ std_encode (query_escape client_id ++ (b':' ∷ query_escape secret))
