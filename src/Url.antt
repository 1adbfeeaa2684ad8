-- ===== src/Url.antt =====
-- What the code uses of net/url: Values, QueryUnescape and ParseQuery, and QueryEscape, by which a
-- client writes what QueryUnescape reads. Values are an association list with each key once.
use one_issuer.Base.{
  ℕ, ◌+◌, ◌-◌, ◌*◌, ◌/◌, ◌%◌, Bool, true, false, not, ◌&&◌, ◌||◌, Option, none, some, List, [], ◌∷◌,
  ◌++◌, leb, ltb, ◌==◌, if◌then◌else◌, length, is_empty, all,
}
use one_issuer.Text.{Bytes, codes, str_eq, mem}
use one_issuer.Text.Split.{split_on, cut, has_byte}
use one_issuer.Text.Utf8.{valid_utf8}
pub mod Escape

abbrev pub Values : Type 0
Values = List (Bytes × List Bytes)

-- `values[name]`, nil where the key is missing
unfoldable pub entries : Values → Bytes → List Bytes
entries [] name = []
entries ((key, found) ∷ rest) name = if str_eq key name then found else entries rest name

abbrev pub first_entry : List Bytes → Bytes
first_entry [] = []
first_entry (s ∷ ss) = s

-- `values.Get(name)`
abbrev pub get : Values → Bytes → Bytes
get values name = first_entry (entries values name)

-- `len(values[name])`
abbrev pub count_of : Values → Bytes → ℕ
count_of values name = length (entries values name)

-- `values[name] = append(values[name], value)`
unfoldable pub add_value : Bytes → Bytes → Values → Values
add_value name value [] = (name, value ∷ []) ∷ []
add_value name value ((key, found) ∷ rest) =
    if str_eq key name
    then (key, found ++ (value ∷ [])) ∷ rest
    else (key, found) ∷ add_value name value rest

-- The value of a hexadecimal digit.
unfoldable pub hex_value : ℕ → Option ℕ
hex_value c =
    if leb b'0' c && leb c b'9'
    then some (c - b'0')
    else if leb b'a' c && leb c b'f'
    then some (c - b'a' + 10)
    else if leb b'A' c && leb c b'F'
    then some (c - b'A' + 10)
    else none

-- Where the scan stands: before a character, after a `%`, or after a `%` and one digit.
pub data Scan : Type 0 where
  plain percent : Scan
  high : ℕ → Scan

abbrev pub with_byte : ℕ → Option Bytes → Option Bytes
with_byte c none = none
with_byte c (some s) = some (c ∷ s)

abbrev pub plus_to_space : ℕ → ℕ
plus_to_space c = if c == b'+' then b' ' else c

unfoldable pub unescape_from : Scan → Bytes → Option Bytes
unescape_from plain [] = some []
unescape_from percent [] = none
unescape_from (high h) [] = none
unescape_from plain (c ∷ s) = elim (c == b'%') [
  | true ↦ unescape_from percent s
  | false ↦ with_byte (plus_to_space c) (unescape_from plain s)
]
unescape_from percent (c ∷ s) = elim (hex_value c) [
  | none ↦ none
  | some h ↦ unescape_from (high h) s
]
unescape_from (high h) (c ∷ s) = elim (hex_value c) [
  | none ↦ none
  | some l ↦ with_byte (h * 16 + l) (unescape_from plain s)
]

-- `url.QueryUnescape`
unfoldable pub query_unescape : Bytes → Option Bytes
unfolding unescape_from hex_value
query_unescape s = unescape_from plain s

-- `url.QueryEscape` leaves these as they are.
unfoldable pub is_unreserved : ℕ → Bool
is_unreserved c =
    (leb b'A' c && leb c b'Z')
    || (leb b'a' c && leb c b'z')
    || (leb b'0' c && leb c b'9')
    || (c == b'-')
    || (c == b'.')
    || (c == b'_')
    || (c == b'~')

unfoldable pub hex_digit : ℕ → ℕ
hex_digit v = if ltb v 10 then b'0' + v else b'A' + (v - 10)

unfoldable pub escape_byte : ℕ → Bytes
unfolding is_unreserved hex_digit
escape_byte c =
    if is_unreserved c
    then c ∷ []
    else if c == b' '
    then b'+' ∷ []
    else b'%' ∷ hex_digit (c / 16) ∷ hex_digit (c % 16) ∷ []

-- `url.QueryEscape`
unfoldable pub query_escape : Bytes → Bytes
unfolding escape_byte
query_escape [] = []
query_escape (c ∷ s) = escape_byte c ++ query_escape s

abbrev pub add_pair : Option Bytes → Option Bytes → Values → Option Values
add_pair (some key) (some value) values = some (add_value key value values)
add_pair (some key) none values = none
add_pair none value values = none

-- One piece between ampersands: a semicolon in it is an error, and an empty piece is skipped.
abbrev pub add_piece : Bytes → Values → Option Values
add_piece piece values =
    if has_byte b';' piece
    then none
    else if is_empty piece
    then some values
    else let (key, value) = cut b'=' piece in
      add_pair (query_unescape key) (query_unescape value) values

unfoldable pub add_pieces : List Bytes → Values → Option Values
unfolding add_value query_unescape
add_pieces [] values = some values
add_pieces (piece ∷ rest) values = elim (add_piece piece values) [
  | none ↦ none
  | some more ↦ add_pieces rest more
]

-- `url.ParseQuery`: `none` where it reports an error.
unfoldable pub parse_query : Bytes → Option Values
unfolding add_pieces
parse_query query = add_pieces (split_on b'&' query) []

-- `utf8.ValidString(s) && !strings.ContainsRune(s, '\x00')`
abbrev pub clean_text : Bytes → Bool
clean_text s = valid_utf8 s && not (has_byte 0 s)

-- `validQueryUTF8` of internal/oidc/authorize.go and `validTokenFormUTF8` of token_request.go
unfoldable pub valid_values_utf8 : Values → Bool
valid_values_utf8 [] = true
valid_values_utf8 ((key, found) ∷ rest) =
    clean_text key && all clean_text found && valid_values_utf8 rest
