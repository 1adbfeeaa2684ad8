-- ===== src/Store/Code.antt =====
-- ExchangeAuthorizationCode of internal/storage/postgres/token.go: a Code is exchanged once, and a
-- consumed Code that comes back is recorded once. SHA-256 and the mint callback are parameters.
pub mod Branches
pub mod Redeemed
pub mod Ending
pub mod Once
pub mod Replay
use one_issuer.Base.{
  ℕ, ◌+◌, ◌-◌, ◌*◌, ◌/◌, Bool, true, false, not, ◌&&◌, ◌||◌, Option, none, some, List, [], ◌∷◌,
  length, ltb, ◌==◌, is_some, is_empty,
}
use one_issuer.Errors.{Result, ok, err, invalid_grant, token_invalid}
use one_issuer.Text.{Bytes, codes, str_eq, mem, join_space}
use one_issuer.Domain.{User, Client, Grant}
use one_issuer.Scope.{offline_access, canonical_scopes, intersection, difference, subset}
use one_issuer.Token.{
  RefreshFamily, RefreshGeneration, AccessMetadata, ExchangeInput, Authority, Minted,
  InitialRefresh, Response, authorization_code, second, minute, day,
}
use one_issuer.Token.Secret.{verify_s256}
use one_issuer.Audit.{
  success, rejected, target_authorization_code, target_access_token, target_refresh_token,
  authorization_code_exchange_succeeded, authorization_code_exchange_rejected, access_token_issued,
  refresh_token_issued,
}
use one_issuer.Store.{
  AuthorizationCode, Db, Tx, ◌>>=◌, ◌>>◌, pure, raise, raise_if, or_raise, lift, in_tx,
}
use one_issuer.Store.Queries.{
  lock_authorization_code_by_hash, has_authorization_code_exchange_rejection,
  create_refresh_token_family, create_refresh_token, create_access_token,
  consume_authorization_code, insert_protocol_audit,
}
use one_issuer.Store.Locks.{lock_active_user, lock_same_client, lock_grant}
use one_issuer.Store.Refresh.{digest_is}
use one_issuer.Store.Minted.{
  initial_family, initial_generation, code_access, code_response, valid_minted_tokens,
}

-- What the transaction reports: tokens, or that the Code was consumed before.
pub data CodeExchange : Type 0 where
  redeemed : Response → CodeExchange
  replayed : CodeExchange

-- `valueString`
abbrev value_string : Option Bytes → Bytes
value_string none = []
value_string (some s) = s

-- The scopes, where they are canonical; any error is ErrInvalidGrant.
abbrev canonical_code_scopes : List Bytes → Result (List Bytes)
canonical_code_scopes scopes = elim (canonical_scopes scopes) [
  | err e ↦ err invalid_grant
  | ok canonical ↦ ok canonical
]

abbrev pub code_grant_refused : AuthorizationCode → List Bytes → Client → Grant → Bool
code_grant_refused code scopes client g =
    not (g.id == code.consent_grant_id)
    || not (g.version == code.consent_grant_version)
    || is_some g.revoked_at
    || not (is_empty (difference scopes (intersection g.scopes client.scopes)))

record_replay : Bool → AuthorizationCode → ExchangeInput → Tx (Unit {0})
record_replay true code input = pure tt
record_replay false code input =
    insert_protocol_audit authorization_code_exchange_rejected rejected code.user_id
      target_authorization_code code.id input.request_id [] input.now

-- The branch of a consumed Code.
unfoldable pub replay_code : AuthorizationCode → ExchangeInput → Tx CodeExchange
unfolding record_replay
replay_code code input = do
  recorded ← has_authorization_code_exchange_rejection code.id
  record_replay recorded code input
  pure replayed

-- The family of the initial Refresh Token, where one was minted; its identifier.
unfoldable pub start_family :
    AuthorizationCode → Grant → List Bytes → Minted → Option InitialRefresh → Tx (Option ℕ)
start_family code grant scopes minted none = pure none
start_family code grant scopes minted (some initial) = do
  raise_if (not (is_some code.origin_session_id)) invalid_grant
  binding ← or_raise code.session_binding_id invalid_grant
  create_refresh_token_family (initial_family code grant scopes minted initial binding)
  create_refresh_token (initial_generation minted initial)
  pure (some initial.family_id)

unfoldable pub audit_initial :
    AuthorizationCode → ExchangeInput → Option InitialRefresh → Tx (Unit {0})
audit_initial code input none = pure tt
audit_initial code input (some initial) =
    insert_protocol_audit refresh_token_issued success code.user_id target_refresh_token
      initial.token_id input.request_id (codes "issued" ∷ []) input.now

-- The writes of an exchange, from the tokens that were minted.
unfoldable pub redeem_writes :
    AuthorizationCode → Grant → List Bytes → Minted → ExchangeInput → Tx CodeExchange
redeem_writes code grant scopes minted input = do
  family ← start_family code grant scopes minted minted.initial_refresh
  create_access_token (code_access code grant scopes minted family)
  taken ← consume_authorization_code code.id input.now
  raise_if (not taken) invalid_grant
  insert_protocol_audit authorization_code_exchange_succeeded success code.user_id
      target_authorization_code code.id input.request_id (codes "consumed" ∷ []) input.now
  insert_protocol_audit access_token_issued success code.user_id target_access_token
      minted.access_token_id input.request_id (codes "issued" ∷ []) input.now
  audit_initial code input minted.initial_refresh
  pure (redeemed (code_response scopes minted))

module _ (sha256 : Bytes → Bytes) where
  -- The Code is not this Client's, or for another redirection, or the verifier does not fit.
  abbrev pub code_mismatch : AuthorizationCode → ExchangeInput → Bool
  code_mismatch code input =
      not (code.client_id == input.client.id)
      || not (str_eq code.redirect_uri input.redirect_uri)
      || not (str_eq code.pkce_method (codes "S256"))
      || not (verify_s256 sha256 input.code_verifier code.pkce_challenge)

module _ (sha256 : Bytes → Bytes) (others : ℕ → Db → Db)
    (mint : ℕ → Authority → Result Minted) where
  abbrev pub code_authority :
      AuthorizationCode → User → Client → Grant → List Bytes → ExchangeInput → Authority
  code_authority code user client grant scopes input = record {
    code_id = code.id;
    grant_id = grant.id;
    origin_session_id = code.origin_session_id;
    session_binding_id = code.session_binding_id;
    user = user;
    client = client;
    scopes = scopes;
    nonce = value_string code.nonce_value;
    authenticated_at = code.auth_time;
    issued_at = input.now;
  }

  -- The branch of an unconsumed Code.
  unfoldable pub redeem_code : ℕ → AuthorizationCode → ExchangeInput → Tx CodeExchange
  redeem_code attempt code input = do
    raise_if (not (ltb input.now code.expires_at)) invalid_grant
    raise_if (code_mismatch sha256 code input) invalid_grant
    user ← lock_active_user code.user_id
    client ← lock_same_client code.client_id input.client
    raise_if (not (mem code.redirect_uri client.redirect_uris)) invalid_grant
    scopes ← lift (canonical_code_scopes code.scopes)
    raise_if (not (subset scopes client.scopes)) invalid_grant
    grant ← lock_grant code.user_id code.client_id (code_grant_refused code scopes client)
    minted ← lift (mint attempt (code_authority code user client grant scopes input))
    raise_if (not (valid_minted_tokens sha256 minted input.now (mem offline_access scopes)))
        token_invalid
    redeem_writes code grant scopes minted input

  abbrev pub exchange_found : ℕ → ExchangeInput → AuthorizationCode → Tx CodeExchange
  exchange_found attempt input code = elim code.consumed_at [
    | some at ↦ replay_code code input
    | none ↦ redeem_code attempt code input
  ]

  unfoldable pub exchange_code_tx : ExchangeInput → ℕ → Tx CodeExchange
  exchange_code_tx input attempt = do
    row ← lock_authorization_code_by_hash input.code_hash
    code ← or_raise row invalid_grant
    exchange_found attempt input code

  unfoldable pub report_code : CodeExchange → Tx Response
  report_code (redeemed response) = pure response
  report_code replayed = raise invalid_grant

  unfoldable pub exchange_authorization_code : ExchangeInput → Tx Response
  exchange_authorization_code input = do
    raise_if
        (not (length input.code_hash == 32)
          || (input.client.id == 0)
          || is_empty input.redirect_uri
          || is_empty input.code_verifier
          || (input.now == 0))
        invalid_grant
    exchange ← in_tx others (exchange_code_tx input)
    report_code exchange
