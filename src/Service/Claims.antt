-- ===== src/Service/Claims.antt =====
-- The claims of the tokens of internal/token/token.go, their Scope text and their identifier. A time in
-- a claim is a number of seconds since 1970; the checks refuse a negative one as they refuse 0.
use one_issuer.Base.{
  ℕ, ◌+◌, ◌-◌, ◌*◌, ◌/◌, Bool, true, false, not, ◌&&◌, ◌||◌, Option, none, some, List, [], ◌∷◌,
  ◌++◌, length, if◌then◌else◌, is_empty,
}
use one_issuer.Errors.{Result, ok, err, invalid_token}
use one_issuer.Text.{Bytes, codes, str_eq, mem, has_prefix, drop, join_space}
use one_issuer.Text.Split.{split_on, has_outer_space, contains_any}
use one_issuer.Text.Base64.{encode}
use one_issuer.Domain.{User}
use one_issuer.Scope.{profile, email, canonical_scopes}
use one_issuer.Token.{second}
use one_issuer.Token.Secret.{decodes_to_length}

-- `IDTokenClaims`; an optional claim that is left out is `none`.
pub record IdTokenClaims : Type 0 where
  pub issuer : Bytes
  pub subject : Bytes
  pub audience : Bytes
  pub authorized_party : Bytes
  pub expires_at : ℕ
  pub issued_at : ℕ
  pub auth_time : ℕ
  pub nonce : Bytes
  pub name : Option Bytes
  pub preferred_username : Option Bytes
  pub email : Option Bytes
  pub email_verified : Option Bool

pub record AccessTokenClaims : Type 0 where
  pub issuer : Bytes
  pub subject : Bytes
  pub audience : Bytes
  pub client_id : Bytes
  pub scope : Bytes
  pub issued_at : ℕ
  pub expires_at : ℕ
  pub jwt_id : Bytes

pub record UserInfo : Type 0 where
  pub subject : Bytes
  pub name : Option Bytes
  pub preferred_username : Option Bytes
  pub email : Option Bytes
  pub email_verified : Option Bool

-- The seconds from Go's zero time to 1970.
abbrev pub unix_epoch : ℕ
unix_epoch = 62_135_596_800

-- `t.Unix()`, for a time from 1970 on.
abbrev pub unix : ℕ → ℕ
unix t = t / second - unix_epoch

-- `time.Unix(s, 0)`
abbrev pub from_unix : ℕ → ℕ
from_unix s = (s + unix_epoch) * second

abbrev when : {A : Type 0} → Bool → A → Option A
when true a = some a
when false a = none

-- `applyProfileClaims`
unfoldable pub apply_profile_claims : List Bytes → User → IdTokenClaims → IdTokenClaims
apply_profile_claims scopes user claims = record claims {
  name = when (mem profile scopes) user.display_name;
  preferred_username = when (mem profile scopes) user.username;
  email = when (mem one_issuer.Scope.email scopes) user.email;
  email_verified = when (mem one_issuer.Scope.email scopes) user.email_verified;
}

-- The `UserInfo` that `applyUserInfoClaims` fills, from one that has only the subject.
unfoldable pub user_info_of : List Bytes → User → UserInfo
user_info_of scopes user = record {
  subject = user.subject;
  name = when (mem profile scopes) user.display_name;
  preferred_username = when (mem profile scopes) user.username;
  email = when (mem one_issuer.Scope.email scopes) user.email;
  email_verified = when (mem one_issuer.Scope.email scopes) user.email_verified;
}

abbrev pub canonical_claim : Bytes → Result (List Bytes) → Result (List Bytes)
canonical_claim raw (err e) = err invalid_token
canonical_claim raw (ok canonical) =
    if not (str_eq (join_space canonical) raw) then err invalid_token else ok canonical

unfoldable pub parse_scope_claim : Bytes → Result (List Bytes)
parse_scope_claim raw =
    if is_empty raw || has_outer_space raw || contains_any raw (9 ∷ 13 ∷ 10 ∷ [])
    then err invalid_token
    else canonical_claim raw (canonical_scopes (split_on b' ' raw))

abbrev pub jti_prefix : Bytes
jti_prefix = codes "jti_"

-- `newJTI`, from the 16 bytes that the random source gave.
unfoldable pub new_jti : Bytes → Bytes
new_jti raw = jti_prefix ++ encode raw

unfoldable pub valid_jti : Bytes → Bool
valid_jti value =
    has_prefix value jti_prefix && decodes_to_length (drop (length jti_prefix) value) 16
