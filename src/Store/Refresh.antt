-- ===== src/Store/Refresh.antt =====
-- ExchangeRefreshToken of internal/storage/postgres/token.go: the rotation of a Refresh Token, and
-- the revocation of its family when a consumed one comes back. SHA-256 is a parameter, and so is
-- the mint callback, which is called once for each attempt of the transaction.
pub mod Authority
pub mod Writes
pub mod Branches
pub mod Ending
pub mod Authorized
pub mod Count
pub mod Replay
pub mod Reuse
pub mod Dead
pub mod Invariant
pub mod Failing
pub mod Successor
use one_issuer.Base.{
  ℕ, zero, suc, ◌+◌, ◌-◌, ◌*◌, ◌/◌, Bool, true, false, not, ◌&&◌, ◌||◌, Option, none, some, List,
  [], ◌∷◌, length, ltb, ◌==◌, if◌then◌else◌, is_some, is_empty,
}
use one_issuer.Errors.{Error, Result, ok, err, invalid_grant, token_invalid, query_error, no_rows}
use one_issuer.Text.{Bytes, codes, str_eq, join_space}
use one_issuer.Domain.{User, Client, Grant}
use one_issuer.Token.{
  RefreshFamily, RefreshGeneration, AccessMetadata, RefreshInput, RefreshAuthority, RefreshMinted,
  Response, refresh_token, second, minute, day,
}
use one_issuer.Token.Secret.{digest_presented_refresh_token}
use one_issuer.Token.Narrowing.{select_refresh_access_scopes}
use one_issuer.Audit.{
  success, rejected, target_access_token, target_refresh_token, target_refresh_family,
  access_token_issued, refresh_token_rotated, refresh_token_reuse_detected,
  refresh_token_family_revoked,
}
use one_issuer.Store.{
  Db, Conn, Outcome, returned, raised, Tx, ◌>>=◌, ◌>>◌, pure, raise, raise_if, or_raise, lift,
  in_tx,
}
use one_issuer.Store.Queries.{
  get_refresh_token_by_hash, lock_refresh_token_family_by_id, consume_refresh_token,
  create_refresh_token, create_access_token, revoke_refresh_token_family,
  revoke_live_access_tokens_by_family, insert_protocol_audit,
}
use one_issuer.Store.Locks.{
  lock_active_user, lock_same_client, lock_grant, lock_family, lock_generation,
}

pub record Locked : Type 0 where
  pub user : User
  pub client : Client
  pub grant : Grant
  pub family : RefreshFamily
  pub presented : RefreshGeneration

-- What the transaction reports: tokens, or that a consumed token was presented.
pub data Exchange : Type 0 where
  rotated : Response → Exchange
  reuse_detected : Exchange

abbrev pub max_int64 : ℕ
max_int64 = 9_223_372_036_854_775_807

abbrev pub grant_refused : RefreshFamily → Grant → Bool
grant_refused candidate_family g =
    not (g.id == candidate_family.consent_grant_id) || is_some g.revoked_at || ltb g.version 1

abbrev pub family_refused : RefreshFamily → User → Client → Grant → ℕ → RefreshFamily → Bool
family_refused candidate_family user client grant now f =
    not (f.id == candidate_family.id)
    || not (f.user_id == user.id)
    || not (f.client_id == client.id)
    || not (f.consent_grant_id == grant.id)
    || is_some f.revoked_at
    || not (ltb now f.absolute_expires_at)

abbrev pub presented_refused : RefreshFamily → Bytes → RefreshGeneration → Bool
presented_refused family hash p = not (p.family_id == family.id) || not (str_eq p.token_hash hash)

-- The locks, in the order User, Client, Grant, Family, Generation.
unfoldable pub lock_refresh : RefreshGeneration → RefreshFamily → RefreshInput → Tx Locked
lock_refresh candidate candidate_family input = do
  user ← lock_active_user candidate_family.user_id
  client ← lock_same_client candidate_family.client_id input.client
  grant ←
      lock_grant candidate_family.user_id candidate_family.client_id
        (grant_refused candidate_family)
  family ←
      lock_family candidate.family_id (family_refused candidate_family user client grant input.now)
  presented ← lock_generation candidate.id (presented_refused family input.token_hash)
  pure (record {
    user = user;
    client = client;
    grant = grant;
    family = family;
    presented = presented;
  })

-- The branch of a consumed token: the family and its live Access Tokens are revoked.
unfoldable pub reuse : Locked → RefreshInput → Tx Exchange
reuse l input = do
  revoked ← revoke_refresh_token_family l.family.id input.now (codes "reuse")
  raise_if (not revoked) (query_error no_rows)
  revoke_live_access_tokens_by_family l.family.id input.now
  insert_protocol_audit refresh_token_reuse_detected rejected l.family.user_id target_refresh_token
      l.presented.id input.request_id (codes "reused" ∷ []) input.now
  insert_protocol_audit refresh_token_family_revoked success l.family.user_id target_refresh_family
      l.family.id input.request_id (codes "revoked" ∷ []) input.now
  pure reuse_detected

module _ (sha256 : Bytes → Bytes) where
  unfoldable pub digest_is : Bytes → Bytes → Bool
  digest_is clear hash = elim (digest_presented_refresh_token sha256 clear) [
    | err e ↦ false
    | ok digest ↦ str_eq digest hash
  ]

  -- `validRefreshMinted`
  unfoldable pub valid_refresh_minted : RefreshMinted → RefreshGeneration → RefreshFamily → ℕ → Bool
  unfolding digest_is
  valid_refresh_minted value presented family now =
      not (value.access_token_id == 0)
      && not (value.replacement_token_id == 0)
      && not (value.replacement_token_id == presented.id)
      && (length value.jti_hash == 32)
      && (length value.replacement_token_hash == 32)
      && not (is_empty value.access_token)
      && not (is_empty value.replacement_clear_token)
      && (value.issued_at == now)
      && ltb value.issued_at value.access_expires_at
      && not (ltb (value.issued_at + 30 * minute) value.access_expires_at)
      && ltb value.issued_at value.replacement_expires_at
      && not (ltb (value.issued_at + 30 * day) value.replacement_expires_at)
      && not (ltb family.absolute_expires_at value.replacement_expires_at)
      && not (presented.generation == max_int64)
      && digest_is value.replacement_clear_token value.replacement_token_hash

abbrev pub replacement : Locked → RefreshMinted → RefreshGeneration
replacement l minted = record {
  id = minted.replacement_token_id;
  family_id = l.family.id;
  token_hash = minted.replacement_token_hash;
  generation = l.presented.generation + 1;
  issued_at = minted.issued_at;
  expires_at = minted.replacement_expires_at;
  consumed_at = none;
}

abbrev pub refreshed_access : Locked → List Bytes → RefreshMinted → AccessMetadata
refreshed_access l scopes minted = record {
  id = minted.access_token_id;
  jti_hash = minted.jti_hash;
  authorization_code_id = none;
  consent_grant_id = l.grant.id;
  user_id = l.family.user_id;
  client_id = l.family.client_id;
  scopes = scopes;
  issued_at = minted.issued_at;
  expires_at = minted.access_expires_at;
  issuance_source = refresh_token;
  source_refresh_token_id = some l.presented.id;
  refresh_family_id = some l.family.id;
  origin_session_id = l.family.origin_session_id;
  session_binding_id = some l.family.session_binding_id;
  revoked_at = none;
  revoke_reason = [];
}

abbrev pub refresh_response : List Bytes → RefreshMinted → Response
refresh_response scopes minted = record {
  access_token = minted.access_token;
  token_type = codes "Bearer";
  expires_in = (minted.access_expires_at - minted.issued_at) / second;
  id_token = [];
  refresh_token = minted.replacement_clear_token;
  scope = join_space scopes;
}

-- The writes of a rotation.
unfoldable pub rotate : Locked → List Bytes → RefreshMinted → RefreshInput → Tx Exchange
rotate l scopes minted input = do
  taken ← consume_refresh_token l.presented.id input.now
  raise_if (not taken) invalid_grant
  create_refresh_token (replacement l minted)
  create_access_token (refreshed_access l scopes minted)
  insert_protocol_audit refresh_token_rotated success l.family.user_id target_refresh_token
      l.presented.id input.request_id (codes "consumed" ∷ codes "rotated" ∷ []) input.now
  insert_protocol_audit access_token_issued success l.family.user_id target_access_token
      minted.access_token_id input.request_id (codes "issued" ∷ []) input.now
  pure (rotated (refresh_response scopes minted))

module _ (sha256 : Bytes → Bytes) (others : ℕ → Db → Db)
    (mint : ℕ → RefreshAuthority → Result RefreshMinted) where
  abbrev authority_of : Locked → List Bytes → RefreshInput → RefreshAuthority
  authority_of l scopes input = record {
    presented = l.presented;
    family = l.family;
    grant = l.grant;
    user = l.user;
    client = l.client;
    access_scopes = scopes;
    issued_at = input.now;
  }

  -- The branch of an unconsumed token.
  unfoldable pub issue : ℕ → Locked → RefreshInput → Tx Exchange
  issue attempt l input = do
    raise_if (not (ltb input.now l.presented.expires_at)) invalid_grant
    scopes ← lift (
        select_refresh_access_scopes input.requested_scopes l.family.scopes l.grant.scopes
          l.client.scopes)
    minted ← lift (mint attempt (authority_of l scopes input))
    raise_if (not (valid_refresh_minted sha256 minted l.presented l.family input.now)) token_invalid
    rotate l scopes minted input

  abbrev pub exchange_locked : ℕ → RefreshInput → Locked → Tx Exchange
  exchange_locked attempt input l = elim l.presented.consumed_at [
    | some at ↦ reuse l input
    | none ↦ issue attempt l input
  ]

  -- The body of the transaction, from the rows that were found before it began.
  unfoldable pub exchange_refresh_tx :
      RefreshGeneration → RefreshFamily → RefreshInput → ℕ → Tx Exchange
  exchange_refresh_tx candidate candidate_family input attempt = do
    l ← lock_refresh candidate candidate_family input
    exchange_locked attempt input l

  report : Exchange → Tx Response
  report (rotated response) = pure response
  report reuse_detected = raise invalid_grant

  unfoldable pub exchange_refresh_token : RefreshInput → Tx Response
  unfolding report
  exchange_refresh_token input = do
    raise_if (not (length input.token_hash == 32) || (input.client.id == 0) || (input.now == 0))
        invalid_grant
    row ← get_refresh_token_by_hash input.token_hash
    candidate ← or_raise row invalid_grant
    family_row ← lock_refresh_token_family_by_id candidate.family_id
    candidate_family ← or_raise family_row invalid_grant
    exchange ← in_tx others (exchange_refresh_tx candidate candidate_family input)
    report exchange
