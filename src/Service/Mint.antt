-- ===== src/Service/Mint.antt =====
-- mint and mintRefresh of internal/token/token.go, the callbacks that make tokens inside the
-- transaction. The signing keys, the JSON encoding of the claims, SHA-256 and the UUID of 16 random
-- bytes are the parameter `Signer`; the random source is the list of the bytes that it gives.
use one_issuer.Base.{
  ℕ, ◌+◌, ◌*◌, ◌≤◌, Bool, true, false, not, ◌&&◌, ◌||◌, Option, none, some, List, [], ◌∷◌, ◌++◌,
  length, ltb, leb, ◌==◌, if◌then◌else◌, is_some,
}
use one_issuer.Errors.{
  Error, Result, ok, err, ◌>>=◌, ◌>>◌, reject_if, invalid_grant, generation_failed, signing_failed,
}
use one_issuer.Text.{Bytes, codes, mem, take, drop, join_space}
use one_issuer.Domain.{User, Client, is_active, active_client}
use one_issuer.Scope.{offline_access, canonical_scopes, subset}
use one_issuer.Token.{
  Authority, Minted, InitialRefresh, RefreshAuthority, RefreshMinted, second, minute, hour, day,
}
use one_issuer.Token.Secret.{generate_refresh_token, hash_jti}
use one_issuer.Token.Lifetime.{refresh_deadlines, replacement_refresh_expiry}
use one_issuer.Service.Claims.{
  IdTokenClaims, AccessTokenClaims, apply_profile_claims, new_jti, unix,
}
pub mod Valid
pub mod Rotation

-- The lifetimes that the service is made with.
pub record Settings : Type 0 where
  pub issuer : Bytes
  pub id_token_ttl : ℕ
  pub access_token_ttl : ℕ
  pub clock_skew : ℕ
  pub refresh_token_ttl : ℕ
  pub refresh_absolute_ttl : ℕ

-- The bounds that NewService checks.
unfoldable pub valid_lifetimes : Settings → Bool
valid_lifetimes s = not (
    ltb s.id_token_ttl minute
    || ltb (15 * minute) s.id_token_ttl
    || ltb s.access_token_ttl minute
    || ltb (30 * minute) s.access_token_ttl
    || ltb (2 * minute) s.clock_skew)

-- json.Marshal cannot fail on the claims, which are texts, numbers and Booleans.
pub record Signer : Type 0 where
  pub sha256 : Bytes → Bytes
  pub uuid_of : Bytes → ℕ
  pub encode_id : IdTokenClaims → Bytes
  pub encode_access : AccessTokenClaims → Bytes
  -- `Sign(payload, typ)`, nil where it fails
  pub sign : Bytes → Bytes → Option Bytes

-- `io.ReadFull` of n bytes; the bytes, and what the source gives next.
unfoldable pub draw : ℕ → Bytes → Result (Bytes × Bytes)
draw n source =
    if ltb (length source) n then err generation_failed else ok (take n source, drop n source)

abbrev pub signed : Option Bytes → Result Bytes
signed none = err signing_failed
signed (some token) = ok token

-- The Scopes in canonical form; any error is ErrInvalidGrant.
abbrev pub minted_scopes : Result (List Bytes) → Result (List Bytes)
minted_scopes (err e) = err invalid_grant
minted_scopes (ok scopes) = ok scopes

-- `optional == nil || *optional == uuid.Nil`
abbrev pub is_nil_id : Option ℕ → Bool
is_nil_id none = true
is_nil_id (some id) = id == 0

abbrev pub some_initial : Result InitialRefresh → Result (Option InitialRefresh)
some_initial (err e) = err e
some_initial (ok initial) = ok (some initial)

module _ (signer : Signer) (settings : Settings) where
  abbrev pub access_claims : Client → User → List Bytes → ℕ → Bytes → AccessTokenClaims
  access_claims client user scopes issued_at jti = record {
    issuer = settings.issuer;
    subject = user.subject;
    audience = settings.issuer ++ codes "/oauth2/userinfo";
    client_id = client.client_id;
    scope = join_space scopes;
    issued_at = unix issued_at;
    expires_at = unix (issued_at + settings.access_token_ttl);
    jwt_id = jti;
  }

  abbrev pub id_claims : Authority → IdTokenClaims
  id_claims a = record {
    issuer = settings.issuer;
    subject = a.user.subject;
    audience = a.client.client_id;
    authorized_party = a.client.client_id;
    expires_at = unix (a.issued_at + settings.id_token_ttl);
    issued_at = unix a.issued_at;
    auth_time = unix a.authenticated_at;
    nonce = a.nonce;
    name = none;
    preferred_username = none;
    email = none;
    email_verified = none;
  }

  unfoldable pub authority_refused : Authority → List Bytes → Bool
  authority_refused a scopes =
      (a.code_id == 0)
      || (a.grant_id == 0)
      || (a.user.id == 0)
      || not (is_active a.user.status)
      || not (active_client a.client)
      || (a.authenticated_at == 0)
      || ltb a.issued_at a.authenticated_at
      || not (subset scopes a.client.scopes)

  -- The first Refresh Token of a family, from what the random source gives.
  unfoldable pub mint_initial : Authority → Bytes → Result InitialRefresh
  mint_initial a source = do
    reject_if (is_nil_id a.origin_session_id || is_nil_id a.session_binding_id) invalid_grant
    (raw, s1) ← draw 32 source
    (family_raw, s2) ← draw 16 s1
    (token_raw, s3) ← draw 16 s2
    (rolling, absolute) ←
        refresh_deadlines a.issued_at settings.refresh_token_ttl settings.refresh_absolute_ttl
    ok (record {
      family_id = signer.uuid_of family_raw;
      token_id = signer.uuid_of token_raw;
      token_hash = (generate_refresh_token signer.sha256 raw).1;
      clear_token = (generate_refresh_token signer.sha256 raw).0;
      expires_at = rolling;
      absolute_expires_at = absolute;
    })

  unfoldable pub initial_refresh : Bool → Authority → Bytes → Result (Option InitialRefresh)
  initial_refresh offline a source =
      if offline then some_initial (mint_initial a source) else ok none

  abbrev pub minted_tokens :
      Authority → Bytes → Bytes → Bytes → Bytes → Option InitialRefresh → Minted
  minted_tokens a jti_raw id_raw id_token access_token initial = record {
    access_token_id = signer.uuid_of id_raw;
    jti_hash = hash_jti signer.sha256 (new_jti jti_raw);
    access_token = access_token;
    id_token = id_token;
    issued_at = a.issued_at;
    access_expires_at = a.issued_at + settings.access_token_ttl;
    id_expires_at = a.issued_at + settings.id_token_ttl;
    initial_refresh = initial;
  }

  unfoldable pub mint_tokens : Bytes → Authority → List Bytes → Result Minted
  mint_tokens source a scopes = do
    reject_if (authority_refused a scopes) invalid_grant
    (jti_raw, s1) ← draw 16 source
    (id_raw, s2) ← draw 16 s1
    id_token ← signed (
        signer.sign (signer.encode_id (apply_profile_claims scopes a.user (id_claims a)))
          (codes "JWT"))
    access_token ← signed (
        signer.sign
          (signer.encode_access
            (access_claims a.client a.user scopes a.issued_at (new_jti jti_raw)))
          (codes "at+jwt"))
    initial ← initial_refresh (mem offline_access scopes) a s2
    ok (minted_tokens a jti_raw id_raw id_token access_token initial)

  unfoldable pub mint : Bytes → Authority → Result Minted
  mint source a = minted_scopes (canonical_scopes a.scopes) >>= mint_tokens source a

  unfoldable pub refresh_authority_refused : RefreshAuthority → List Bytes → Bool
  refresh_authority_refused a scopes =
      (a.presented.id == 0)
      || (a.family.id == 0)
      || not (a.presented.family_id == a.family.id)
      || not (a.user.id == a.family.user_id)
      || not (a.client.id == a.family.client_id)
      || not (a.grant.id == a.family.consent_grant_id)
      || not (is_active a.user.status)
      || not (active_client a.client)
      || (a.issued_at == 0)
      || is_some a.family.revoked_at
      || not (ltb a.issued_at a.family.absolute_expires_at)
      || not (subset scopes a.family.scopes)
      || not (subset scopes a.client.scopes)

  abbrev pub rotated_tokens :
      RefreshAuthority → Bytes → Bytes → Bytes → Bytes → Bytes → ℕ → RefreshMinted
  rotated_tokens a raw replacement_raw jti_raw id_raw access_token expires = record {
    access_token_id = signer.uuid_of id_raw;
    jti_hash = hash_jti signer.sha256 (new_jti jti_raw);
    access_token = access_token;
    issued_at = a.issued_at;
    access_expires_at = a.issued_at + settings.access_token_ttl;
    replacement_token_id = signer.uuid_of replacement_raw;
    replacement_token_hash = (generate_refresh_token signer.sha256 raw).1;
    replacement_clear_token = (generate_refresh_token signer.sha256 raw).0;
    replacement_expires_at = expires;
  }

  unfoldable pub mint_rotation : Bytes → RefreshAuthority → List Bytes → Result RefreshMinted
  mint_rotation source a scopes = do
    reject_if (refresh_authority_refused a scopes) invalid_grant
    (raw, s1) ← draw 32 source
    (replacement_raw, s2) ← draw 16 s1
    expires ←
        replacement_refresh_expiry a.issued_at settings.refresh_token_ttl
          a.family.absolute_expires_at
    (jti_raw, s3) ← draw 16 s2
    (id_raw, s4) ← draw 16 s3
    access_token ← signed (
        signer.sign
          (signer.encode_access
            (access_claims a.client a.user scopes a.issued_at (new_jti jti_raw)))
          (codes "at+jwt"))
    ok (rotated_tokens a raw replacement_raw jti_raw id_raw access_token expires)

  unfoldable pub mint_refresh : Bytes → RefreshAuthority → Result RefreshMinted
  mint_refresh source a =
      minted_scopes (canonical_scopes a.access_scopes) >>= mint_rotation source a
