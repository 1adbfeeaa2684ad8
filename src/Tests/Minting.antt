-- ===== src/Tests/Minting.antt =====
-- Runs of the token service's minting callbacks.
use one_issuer.Base.{◌+◌, ◌-◌, ◌*◌, ◌≡◌, refl, true, some, [], ◌∷◌, ◌++◌, arith}
use one_issuer.Errors.{ok}
use one_issuer.Text.{Bytes, codes, mem}
use one_issuer.Text.Base64.{AreBytes, encode}
use one_issuer.Scope.{openid, profile, offline_access}
use one_issuer.Token.{
  Authority, Minted, RefreshAuthority, RefreshMinted, AccessMetadata, authorization_code, second,
  minute, hour, day,
}
use one_issuer.Token.Secret.{hash_jti, refresh_token_prefix}
use one_issuer.Store.Refresh.{valid_refresh_minted}
use one_issuer.Store.Minted.{valid_minted_tokens}
use one_issuer.Service.Claims.{AccessTokenClaims, UserInfo, unix, new_jti}
use one_issuer.Service.Mint.{Settings, valid_lifetimes, Signer, mint, mint_refresh}
use one_issuer.Service.Mint.Valid.{IsSigner, mint-valid}
use one_issuer.Service.Mint.Rotation.{mint_refresh-valid}
use one_issuer.Tests.Samples.{alice, app, consented, family, first_generation, now, repeat}

-- A stand-in for SHA-256 whose digests have 32 bytes.
abbrev pub sha256 : Bytes → Bytes
sha256 s = repeat 32 7

abbrev pub signer : Signer
signer = record {
  sha256 = sha256;
  uuid_of = λ raw. 77;
  encode_id = λ claims. claims.nonce;
  encode_access = λ claims. claims.jwt_id;
  sign = λ payload typ. some (codes "a.b.c");
}

signer-IsSigner : IsSigner signer
signer-IsSigner = record {
  digest_size = λ s. refl;
  uuid_set = λ raw h. omega (arith, h);
  token_set = λ payload typ token h. ground arith;
}

abbrev pub settings : Settings
settings = record {
  issuer = codes "https://issuer.example.com";
  id_token_ttl = 5 * minute;
  access_token_ttl = 10 * minute;
  clock_skew = minute;
  refresh_token_ttl = 30 * day;
  refresh_absolute_ttl = 90 * day;
}

settings_valid : valid_lifetimes settings ≡ true
unfolding valid_lifetimes
settings_valid = refl

abbrev pub random : Bytes
random = repeat 100 5

abbrev authority : Authority
authority = record {
  code_id = 9;
  grant_id = 3;
  origin_session_id = some 11;
  session_binding_id = some 8;
  user = alice;
  client = app;
  scopes = offline_access ∷ openid ∷ profile ∷ [];
  nonce = codes "n-1";
  authenticated_at = now - minute;
  issued_at = now;
}

abbrev pub refresh_value : Bytes
refresh_value = refresh_token_prefix ++ encode (repeat 32 5)

abbrev minted : Minted
minted = record {
  access_token_id = 77;
  jti_hash = repeat 32 7;
  access_token = codes "a.b.c";
  id_token = codes "a.b.c";
  issued_at = now;
  access_expires_at = now + 10 * minute;
  id_expires_at = now + 5 * minute;
  initial_refresh = some (record {
    family_id = 77;
    token_id = 77;
    token_hash = repeat 32 7;
    clear_token = refresh_value;
    expires_at = now + 30 * day;
    absolute_expires_at = now + 90 * day;
  });
}

mints : mint signer settings random authority ≡ ok minted
unfolding mint encode hash_jti mem new_jti one_issuer.Scope.canonical_scopes one_issuer.Scope.subset
    one_issuer.Scope.supported one_issuer.Service.Claims.apply_profile_claims
    one_issuer.Service.Mint.authority_refused one_issuer.Service.Mint.draw
    one_issuer.Service.Mint.initial_refresh one_issuer.Service.Mint.mint_initial
    one_issuer.Service.Mint.mint_tokens one_issuer.Text.Base64.digit_of
    one_issuer.Text.Sort.contains one_issuer.Text.Sort.has_repeat one_issuer.Text.Sort.insert_string
    one_issuer.Text.Sort.search_strings one_issuer.Text.Sort.sort_strings one_issuer.Text.drop
    one_issuer.Text.join_space one_issuer.Text.str_eq one_issuer.Text.str_lt one_issuer.Text.take
    one_issuer.Token.Lifetime.refresh_deadlines one_issuer.Token.Secret.generate_refresh_token
    one_issuer.Token.Secret.hash_refresh_token
mints = refl

mint-valid_example :
    valid_minted_tokens sha256 minted now
      (mem offline_access (offline_access ∷ openid ∷ profile ∷ []))
    ≡ true
mint-valid_example =
    mint-valid signer settings random authority minted signer-IsSigner settings_valid (ground arith)
      mints

abbrev rotation : RefreshAuthority
rotation = record {
  presented = first_generation;
  family = family;
  grant = consented;
  user = alice;
  client = app;
  access_scopes = openid ∷ profile ∷ [];
  issued_at = now;
}

abbrev rotated : RefreshMinted
rotated = record {
  access_token_id = 77;
  jti_hash = repeat 32 7;
  access_token = codes "a.b.c";
  issued_at = now;
  access_expires_at = now + 10 * minute;
  replacement_token_id = 77;
  replacement_token_hash = repeat 32 7;
  replacement_clear_token = refresh_value;
  replacement_expires_at = now + 30 * day;
}

rotates : mint_refresh signer settings random rotation ≡ ok rotated
unfolding mint_refresh hash_jti mem one_issuer.Scope.canonical_scopes one_issuer.Scope.subset
    one_issuer.Scope.supported one_issuer.Service.Mint.draw one_issuer.Service.Mint.mint_rotation
    one_issuer.Service.Mint.refresh_authority_refused one_issuer.Text.Sort.contains
    one_issuer.Text.Sort.has_repeat one_issuer.Text.Sort.sort_strings one_issuer.Text.drop
    one_issuer.Text.str_eq one_issuer.Text.str_lt one_issuer.Text.take
    one_issuer.Token.Lifetime.replacement_refresh_expiry
    one_issuer.Token.Secret.generate_refresh_token
rotates = refl

mint_refresh-valid_example : valid_refresh_minted sha256 rotated first_generation family now ≡ true
mint_refresh-valid_example =
    mint_refresh-valid signer settings random rotation rotated signer-IsSigner settings_valid
      (ground arith) (λ h. omega (arith, h)) (λ h. omega (arith, h)) rotates
