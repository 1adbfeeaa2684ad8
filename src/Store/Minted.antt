-- ===== src/Store/Minted.antt =====
-- The rows and the response of an exchanged Authorization Code, and `validMintedTokens` of
-- internal/storage/postgres/token.go, the check of what the mint callback made.
use one_issuer.Base.{
  ℕ, ◌+◌, ◌-◌, ◌*◌, ◌/◌, Bool, not, ◌&&◌, Option, none, some, List, [], length, ltb, ◌==◌, is_empty,
}
use one_issuer.Text.{Bytes, codes, join_space}
use one_issuer.Domain.{Grant}
use one_issuer.Token.{
  RefreshFamily, RefreshGeneration, AccessMetadata, Minted, InitialRefresh, Response,
  authorization_code, second, minute, day,
}
use one_issuer.Store.{AuthorizationCode}
use one_issuer.Store.Refresh.{digest_is}

abbrev pub initial_family :
    AuthorizationCode → Grant → List Bytes → Minted → InitialRefresh → ℕ → RefreshFamily
initial_family code grant scopes minted initial binding = record {
  id = initial.family_id;
  origin_authorization_code_id = some code.id;
  consent_grant_id = grant.id;
  user_id = code.user_id;
  client_id = code.client_id;
  origin_session_id = code.origin_session_id;
  session_binding_id = binding;
  scopes = scopes;
  created_at = minted.issued_at;
  absolute_expires_at = initial.absolute_expires_at;
  revoked_at = none;
  revoke_reason = [];
}

abbrev pub initial_generation : Minted → InitialRefresh → RefreshGeneration
initial_generation minted initial = record {
  id = initial.token_id;
  family_id = initial.family_id;
  token_hash = initial.token_hash;
  generation = 0;
  issued_at = minted.issued_at;
  expires_at = initial.expires_at;
  consumed_at = none;
}

abbrev pub code_access : AuthorizationCode → Grant → List Bytes → Minted → Option ℕ → AccessMetadata
code_access code grant scopes minted family = record {
  id = minted.access_token_id;
  jti_hash = minted.jti_hash;
  authorization_code_id = some code.id;
  consent_grant_id = grant.id;
  user_id = code.user_id;
  client_id = code.client_id;
  scopes = scopes;
  issued_at = minted.issued_at;
  expires_at = minted.access_expires_at;
  issuance_source = authorization_code;
  source_refresh_token_id = none;
  refresh_family_id = family;
  origin_session_id = code.origin_session_id;
  session_binding_id = code.session_binding_id;
  revoked_at = none;
  revoke_reason = [];
}

abbrev clear_token_of : Option InitialRefresh → Bytes
clear_token_of none = []
clear_token_of (some initial) = initial.clear_token

abbrev pub code_response : List Bytes → Minted → Response
code_response scopes minted = record {
  access_token = minted.access_token;
  token_type = codes "Bearer";
  expires_in = (minted.access_expires_at - minted.issued_at) / second;
  id_token = minted.id_token;
  refresh_token = clear_token_of minted.initial_refresh;
  scope = join_space scopes;
}

module _ (sha256 : Bytes → Bytes) where
  unfoldable pub valid_initial : Minted → InitialRefresh → Bool
  valid_initial value initial =
      not (initial.family_id == 0)
      && not (initial.token_id == 0)
      && (length initial.token_hash == 32)
      && not (is_empty initial.clear_token)
      && ltb value.issued_at initial.expires_at
      && not (ltb initial.absolute_expires_at initial.expires_at)
      && ltb value.issued_at initial.absolute_expires_at
      && not (ltb (value.issued_at + 30 * day) initial.expires_at)
      && not (ltb (value.issued_at + 365 * day) initial.absolute_expires_at)
      && digest_is sha256 initial.clear_token initial.token_hash

  unfoldable pub valid_refresh_part : Minted → Bool → Option InitialRefresh → Bool
  unfolding valid_initial
  valid_refresh_part value offline none = not offline
  valid_refresh_part value offline (some initial) = offline && valid_initial value initial

  -- `validMintedTokens`
  unfoldable pub valid_minted_tokens : Minted → ℕ → Bool → Bool
  unfolding valid_refresh_part
  valid_minted_tokens value now offline =
      not (value.access_token_id == 0)
      && (length value.jti_hash == 32)
      && not (is_empty value.access_token)
      && not (is_empty value.id_token)
      && (value.issued_at == now)
      && ltb value.issued_at value.access_expires_at
      && ltb value.issued_at value.id_expires_at
      && not (ltb (value.issued_at + 30 * minute) value.access_expires_at)
      && not (ltb (value.issued_at + 15 * minute) value.id_expires_at)
      && valid_refresh_part value offline value.initial_refresh
