-- ===== src/Service/Operations.antt =====
-- Exchange and Refresh of internal/token/token.go and Revoke of internal/token/lifecycle.go: the
-- service over its repository. `random n` is what the random source gives to the n-th attempt.
use one_issuer.Base.{
  ℕ, ◌*◌, Bool, true, false, not, ◌&&◌, ◌||◌, Option, none, some, List, [], length, ltb, ◌==◌,
  if◌then◌else◌, is_empty,
}
use one_issuer.Errors.{Result, ok, err, invalid_grant, invalid_scope}
use one_issuer.Text.{Bytes, strs_eq}
use one_issuer.Text.Split.{has_outer_space}
use one_issuer.Domain.{Client, active_client}
use one_issuer.Scope.{canonical_scopes}
use one_issuer.Token.{ExchangeInput, RefreshInput, Response}
use one_issuer.Token.Secret.{digest_presented_refresh_token, hash_jti, valid_verifier}
use one_issuer.Store.{Db, Tx, ◌>>=◌, ◌>>◌, raise_if}
use one_issuer.Store.Code.{exchange_authorization_code}
use one_issuer.Store.Refresh.{exchange_refresh_token}
use one_issuer.Store.Revoke.{RevocationLookup, skip_if, revoke_token}
use one_issuer.Service.Claims.{AccessTokenClaims}
use one_issuer.Service.Verify.{Jose}
use one_issuer.Service.Access.{verified}
use one_issuer.Service.Mint.{Settings, Signer, mint, mint_refresh}
pub mod Authorized

pub record RevocationInput : Type 0 where
  pub client : Client
  pub token : Bytes
  pub hint : Bytes
  pub request_id : Bytes
  pub now : ℕ

abbrev not_same : List Bytes → Result (List Bytes) → Bool
not_same requested (err e) = true
not_same requested (ok canonical) = not (strs_eq canonical requested)

-- The Scopes that a refresh requests are not as CanonicalScopes returns them.
abbrev pub bad_requested : Option (List Bytes) → Bool
bad_requested none = false
bad_requested (some requested) = not_same requested (canonical_scopes requested)

unfoldable pub exchange_input_refused : ExchangeInput → Bool
exchange_input_refused input =
    not (length input.code_hash == 32)
    || is_empty input.redirect_uri
    || (input.now == 0)
    || not (active_client input.client)
    || not (valid_verifier input.code_verifier)

unfoldable pub refresh_input_refused : RefreshInput → Bool
refresh_input_refused input =
    not (length input.token_hash == 32) || (input.now == 0) || not (active_client input.client)

-- Such a revocation succeeds and does nothing.
unfoldable pub revocation_input_skipped : RevocationInput → Bool
revocation_input_skipped input =
    not (active_client input.client)
    || (input.now == 0)
    || is_empty input.token
    || ltb (16 * 1024) (length input.token)
    || has_outer_space input.token

module _ (signer : Signer) (settings : Settings) (others : ℕ → Db → Db) where
  unfoldable pub exchange : (ℕ → Bytes) → ExchangeInput → Tx Response
  exchange random input =
      raise_if (exchange_input_refused input) invalid_grant
      >> exchange_authorization_code signer.sha256 others (λ n. mint signer settings (random n))
          input

  unfoldable pub refresh : (ℕ → Bytes) → RefreshInput → Tx Response
  refresh random input = do
    raise_if (refresh_input_refused input) invalid_grant
    raise_if (bad_requested input.requested_scopes) invalid_scope
    exchange_refresh_token signer.sha256 others (λ n. mint_refresh signer settings (random n)) input

  abbrev pub jti_hash_of : Result AccessTokenClaims → Bytes
  jti_hash_of (err e) = []
  jti_hash_of (ok claims) = hash_jti signer.sha256 claims.jwt_id

  abbrev pub or_no_hash : Result Bytes → Bytes
  or_no_hash (err e) = []
  or_no_hash (ok digest) = digest

  unfoldable pub revocation_lookup : Jose → RevocationInput → RevocationLookup
  revocation_lookup jose input = record {
    client = input.client;
    access_jti_hash = jti_hash_of (
        verified signer.sha256 jose settings.issuer settings.clock_skew others input.token
          input.now);
    refresh_token_hash = or_no_hash (digest_presented_refresh_token signer.sha256 input.token);
    request_id = input.request_id;
    now = input.now;
  }

  unfoldable pub revoke : Jose → RevocationInput → Tx (Unit {0})
  revoke jose input =
      let lookup = revocation_lookup jose input in
      skip_if (revocation_input_skipped input) (
        skip_if (is_empty lookup.access_jti_hash && is_empty lookup.refresh_token_hash)
          (revoke_token others lookup))
