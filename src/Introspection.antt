-- ===== src/Introspection.antt =====
-- introspectRefresh of internal/token/lifecycle.go: what a confidential Client learns of one of its
-- Refresh Tokens. SHA-256, the issuer's name and the repository's other transactions are parameters.
use one_issuer.Base.{
  ℕ, ◌-◌, ◌/◌, Bool, true, false, not, ◌&&◌, ◌||◌, Option, none, some, List, [], ◌∷◌, ltb, ◌==◌,
  if◌then◌else◌, is_some,
}
use one_issuer.Errors.{Error, Result, ok, err, invalid_grant}
use one_issuer.Text.{Bytes, str_eq, join_space}
use one_issuer.Domain.{User, Client, Grant, is_active, active_client}
use one_issuer.Token.{second}
use one_issuer.Token.Secret.{digest_presented_refresh_token}
use one_issuer.Token.Narrowing.{select_refresh_access_scopes}
use one_issuer.Store.{Db, Conn, Outcome, returned, raised, Tx, pure}
use one_issuer.Store.Snapshot.{RefreshTokenAuthority, get_refresh_token_authority}
pub mod Agreement

pub record IntrospectionInput : Type 0 where
  pub client : Client
  pub token : Bytes
  pub hint : Bytes
  pub now : ℕ

pub record IntrospectionResponse : Type 0 where
  pub active : Bool
  pub token_type : Bytes
  pub client_id : Bytes
  pub scope : Bytes
  pub subject : Bytes
  pub issuer : Bytes
  pub audience : Bytes
  pub issued_at : ℕ
  pub expires_at : ℕ

abbrev pub inactive : IntrospectionResponse
inactive = record {
  active = false;
  token_type = [];
  client_id = [];
  scope = [];
  subject = [];
  issuer = [];
  audience = [];
  issued_at = 0;
  expires_at = 0;
}

-- `t.Unix()`, for a time from 1970 on.
abbrev unix : ℕ → ℕ
unix t = t / second - 62_135_596_800

abbrev pub is_invalid_grant : Error → Bool
is_invalid_grant invalid_grant = true
is_invalid_grant _ = false

-- `if errors.Is(err, ErrInvalidGrant) { return other }`
abbrev pub unless_invalid_grant : {A B : Type 0} → Tx A → Tx B → (A → Tx B) → Tx B
unless_invalid_grant m other next c = elim (m c) [
  | returned a c1 ↦ next a c1
  | raised e c1 ↦ if is_invalid_grant e then other c1 else raised e c1
]

-- The snapshot is not of a usable token of this Client.
abbrev pub introspection_refused : IntrospectionInput → Bytes → RefreshTokenAuthority → Bool
introspection_refused input digest a =
    not (a.client.id == input.client.id)
    || not (str_eq a.client.client_id input.client.client_id)
    || (a.generation.id == 0)
    || not (a.generation.family_id == a.family.id)
    || not (str_eq a.generation.token_hash digest)
    || is_some a.generation.consumed_at
    || not (ltb input.now a.generation.expires_at)
    || is_some a.family.revoked_at
    || not (ltb input.now a.family.absolute_expires_at)
    || not (a.user.id == a.family.user_id)
    || not (is_active a.user.status)
    || not (a.client.id == a.family.client_id)
    || not (active_client a.client)
    || not (a.grant.id == a.family.consent_grant_id)
    || not (a.grant.user_id == a.family.user_id)
    || not (a.grant.client_id == a.family.client_id)
    || is_some a.grant.revoked_at
    || ltb a.grant.version 1

module _ (sha256 : Bytes → Bytes) (issuer : Bytes) (others : ℕ → Db → Db) where
  abbrev pub active_response : RefreshTokenAuthority → List Bytes → IntrospectionResponse
  active_response a effective = record {
    active = true;
    token_type = [];
    client_id = a.client.client_id;
    scope = join_space effective;
    subject = a.user.subject;
    issuer = issuer;
    audience = [];
    issued_at = unix a.generation.issued_at;
    expires_at = unix a.generation.expires_at;
  }

  abbrev pub described : RefreshTokenAuthority → Result (List Bytes) → IntrospectionResponse
  described a (err e) = inactive
  described a (ok effective) = active_response a effective

  abbrev pub judged : IntrospectionInput → Bytes → RefreshTokenAuthority → IntrospectionResponse
  judged input digest a =
      if introspection_refused input digest a
      then inactive
      else described a
          (select_refresh_access_scopes none a.family.scopes a.grant.scopes a.client.scopes)

  -- `none` where the value is not a Refresh Token by its form.
  abbrev pub introspect_digest :
      IntrospectionInput → Result Bytes → Tx (Option IntrospectionResponse)
  introspect_digest input (err e) = pure none
  introspect_digest input (ok digest) =
      unless_invalid_grant (get_refresh_token_authority others digest) (pure (some inactive))
        (λ a. pure (some (judged input digest a)))

  unfoldable pub introspect_refresh : IntrospectionInput → Tx (Option IntrospectionResponse)
  introspect_refresh input =
      introspect_digest input (digest_presented_refresh_token sha256 input.token)
