-- ===== src/Service/Verify.antt =====
-- verifyAccessToken of internal/token/token.go. The go-jose library, with the decoder of the claims,
-- is the parameter `Jose`.
use one_issuer.Base.{
  ℕ, ◌+◌, ◌-◌, ◌*◌, ◌%◌, Bool, false, not, ◌&&◌, ◌||◌, Option, none, some, List, [], ◌∷◌, length,
  leb, ltb, ◌==◌, if◌then◌else◌, is_empty,
}
use one_issuer.Errors.{Result, ok, err, ◌>>=◌, ◌>>◌, reject_if, invalid_token}
use one_issuer.Text.{Bytes, codes, str_eq, mem}
use one_issuer.Text.Split.{has_outer_space, count_byte}
use one_issuer.Scope.{openid}
use one_issuer.Service.Claims.{
  AccessTokenClaims, from_unix, unix_epoch, parse_scope_claim, valid_jti,
}

-- A parsed compact token: what is read of its signatures and of the first one's protected header.
pub record SignedObject : Type 0 where
  pub signatures : ℕ
  pub algorithm : Bytes
  pub key_id : Bytes
  pub has_jwk : Bool
  pub nonce : Bytes
  pub typ : Option Bytes
  pub extra_headers : ℕ

-- A published key; `rsa_bits` is the length of the modulus where it is an RSA public key.
pub record PublicKey : Type 0 where
  pub key_id : Bytes
  pub algorithm : Bytes
  pub use_for : Bytes
  pub is_public : Bool
  pub rsa_bits : Option ℕ

pub record Jose : Type 0 where
  pub parse_signed_compact : Bytes → Option SignedObject
  pub public_keys : List PublicKey
  pub verify : Bytes → PublicKey → Option Bytes
  pub decode_claims : Bytes → Option AccessTokenClaims

abbrev pub rs256 : Bytes
rs256 = codes "RS256"

abbrev pub max_compact_token_bytes : ℕ
max_compact_token_bytes = 16 * 1024

abbrev is_typ : Option Bytes → Bytes → Bool
is_typ none s = false
is_typ (some typ) s = str_eq typ s

unfoldable pub valid_header : SignedObject → Bool
valid_header object =
    (object.signatures == 1)
    && str_eq object.algorithm rs256
    && not (is_empty object.key_id)
    && not object.has_jwk
    && is_empty object.nonce
    && is_typ object.typ (codes "at+jwt")
    && (object.extra_headers == 1)

abbrev long_enough : Option ℕ → Bool
long_enough none = false
long_enough (some bits) = leb 2048 bits

unfoldable pub key_matches : Bytes → PublicKey → Bool
key_matches key_id candidate =
    str_eq candidate.key_id key_id
    && str_eq candidate.algorithm rs256
    && str_eq candidate.use_for (codes "sig")
    && candidate.is_public
    && long_enough candidate.rsa_bits

-- The loop over the keys: `none` where a second key matches, and where none does.
unfoldable pub select_key : Bytes → List PublicKey → Option PublicKey → Option PublicKey
select_key key_id [] key = key
select_key key_id (candidate ∷ rest) none =
    select_key key_id rest (if key_matches key_id candidate then some candidate else none)
select_key key_id (candidate ∷ rest) (some key) =
    let more = select_key key_id rest (some key) in
    if key_matches key_id candidate then none else more

-- `time.Duration(n) * time.Second > 30 * time.Minute`, in signed 64-bit nanoseconds.
unfoldable pub longer_than_30_minutes : ℕ → Bool
longer_than_30_minutes n =
    let wrapped = n * 1_000_000_000 % 18_446_744_073_709_551_616 in
    ltb wrapped 9_223_372_036_854_775_808 && ltb 1_800_000_000_000 wrapped

-- `time.Unix(s, 0)` counts from Go's zero time in a signed 64-bit number, so that such a time is
-- before every other.
abbrev pub wraps : ℕ → Bool
wraps s = leb 9_223_372_036_854_775_808 (s + unix_epoch)

abbrev pub or_invalid : {A : Type 0} → Option A → Result A
or_invalid none = err invalid_token
or_invalid (some a) = ok a

module _ (jose : Jose) (issuer userinfo_audience : Bytes) (clock_skew : ℕ) where
  -- The claims are not those of a live token of this issuer.
  unfoldable pub claims_refused : AccessTokenClaims → ℕ → Bool
  claims_refused claims now =
      not (str_eq claims.issuer issuer)
      || not (str_eq claims.audience userinfo_audience)
      || is_empty claims.subject
      || is_empty claims.client_id
      || (claims.issued_at == 0)
      || leb claims.expires_at claims.issued_at
      || wraps claims.expires_at
      || ltb (from_unix claims.expires_at + clock_skew) now
      || (not (wraps claims.issued_at) && ltb (now + clock_skew) (from_unix claims.issued_at))
      || longer_than_30_minutes (claims.expires_at - claims.issued_at)
      || not (valid_jti claims.jwt_id)

  unfoldable pub bad_compact : Bytes → Bool
  bad_compact compact =
      is_empty compact
      || ltb max_compact_token_bytes (length compact)
      || has_outer_space compact
      || not (count_byte b'.' compact == 2)

  unfoldable pub verify_access_token : Bytes → ℕ → Result AccessTokenClaims
  verify_access_token compact now = do
    reject_if (bad_compact compact) invalid_token
    object ← or_invalid (jose.parse_signed_compact compact)
    reject_if (not (valid_header object)) invalid_token
    key ← or_invalid (select_key object.key_id jose.public_keys none)
    payload ← or_invalid (jose.verify compact key)
    claims ← or_invalid (jose.decode_claims payload)
    reject_if (claims_refused claims now) invalid_token
    scopes ← parse_scope_claim claims.scope
    reject_if (not (mem openid scopes)) invalid_token
    ok claims
