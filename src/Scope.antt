-- ===== src/Scope.antt =====
-- The Scope algebra of internal/consent/consent.go: canonical Scope lists and the set operations on
-- them. A map[string]bool is the list of its keys.
use one_issuer.Base.{
  ℕ, suc, Bool, true, false, not, ◌&&◌, ◌||◌, List, [], ◌∷◌, ◌++◌, length, keep, all, ltb,
  if◌then◌else◌,
}
use one_issuer.Errors.{Result, ok, err, consent_invalid}
use one_issuer.Text.{Bytes, codes, str_eq, mem}
use one_issuer.Text.Sort.{sort_strings, contains, has_repeat}
use one_issuer.Text.Ascending.{keys}
pub mod Canonical
pub mod Algebra

abbrev pub openid : Bytes
openid = codes "openid"

abbrev pub profile : Bytes
profile = codes "profile"

abbrev pub email : Bytes
email = codes "email"

abbrev pub offline_access : Bytes
offline_access = codes "offline_access"

unfoldable pub supported : Bytes → Bool
supported scope =
    str_eq scope openid || str_eq scope profile || str_eq scope email || str_eq scope offline_access

-- `sortedSet` of the set of these strings.
unfoldable pub sorted_set : List Bytes → List Bytes
sorted_set entries = sort_strings (keys entries)

unfoldable pub canonical_scopes : List Bytes → Result (List Bytes)
canonical_scopes scopes =
    if ltb (length scopes) 1 || ltb 4 (length scopes)
    then err consent_invalid
    else if not (all supported scopes)
    then err consent_invalid
    else if has_repeat (sort_strings scopes)
    then err consent_invalid
    else if not (contains (sort_strings scopes) openid)
    then err consent_invalid
    else ok (sort_strings scopes)

unfoldable pub union : List Bytes → List Bytes → List Bytes
unfolding sorted_set
union left right = sorted_set (keep supported left ++ keep supported right)

unfoldable pub intersection : List Bytes → List Bytes → List Bytes
unfolding sorted_set
intersection left right = sorted_set (keep (λ scope. supported scope && mem scope right) left)

unfoldable pub difference : List Bytes → List Bytes → List Bytes
unfolding sorted_set
difference left right = sorted_set (keep (λ scope. supported scope && not (mem scope right)) left)

-- `subset` of internal/consent, and `scopeSubset` of internal/token and internal/storage/postgres.
unfoldable pub subset : List Bytes → List Bytes → Bool
subset values allowed = all (λ value. mem value allowed) values
