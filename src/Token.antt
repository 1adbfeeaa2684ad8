-- ===== src/Token.antt =====
-- internal/token: the records of the token service. JWT text is opaque bytes here.
use one_issuer.Base.{ℕ, Bool, Option, List}
use one_issuer.Text.{Bytes}
use one_issuer.Domain.{User, Client, Grant}
pub mod Secret
pub mod Lifetime
pub mod Narrowing

-- `IssuanceSource`
pub data IssuanceSource : Type 0 where
  authorization_code refresh_token : IssuanceSource

pub record RefreshFamily : Type 0 where
  pub id : ℕ
  pub origin_authorization_code_id : Option ℕ
  pub consent_grant_id : ℕ
  pub user_id : ℕ
  pub client_id : ℕ
  pub origin_session_id : Option ℕ
  pub session_binding_id : ℕ
  pub scopes : List Bytes
  pub created_at : ℕ
  pub absolute_expires_at : ℕ
  pub revoked_at : Option ℕ
  pub revoke_reason : Bytes

pub record RefreshGeneration : Type 0 where
  pub id : ℕ
  pub family_id : ℕ
  pub token_hash : Bytes
  pub generation : ℕ
  pub issued_at : ℕ
  pub expires_at : ℕ
  pub consumed_at : Option ℕ

pub record AccessMetadata : Type 0 where
  pub id : ℕ
  pub jti_hash : Bytes
  pub authorization_code_id : Option ℕ
  pub consent_grant_id : ℕ
  pub user_id : ℕ
  pub client_id : ℕ
  pub scopes : List Bytes
  pub issued_at : ℕ
  pub expires_at : ℕ
  pub issuance_source : IssuanceSource
  pub source_refresh_token_id : Option ℕ
  pub refresh_family_id : Option ℕ
  pub origin_session_id : Option ℕ
  pub session_binding_id : Option ℕ
  pub revoked_at : Option ℕ
  pub revoke_reason : Bytes

-- A nil slice of requested Scopes is `none`.
pub record RefreshInput : Type 0 where
  pub token_hash : Bytes
  pub client : Client
  pub requested_scopes : Option (List Bytes)
  pub request_id : Bytes
  pub now : ℕ

pub record RefreshAuthority : Type 0 where
  pub presented : RefreshGeneration
  pub family : RefreshFamily
  pub grant : Grant
  pub user : User
  pub client : Client
  pub access_scopes : List Bytes
  pub issued_at : ℕ

pub record RefreshMinted : Type 0 where
  pub access_token_id : ℕ
  pub jti_hash : Bytes
  pub access_token : Bytes
  pub issued_at : ℕ
  pub access_expires_at : ℕ
  pub replacement_token_id : ℕ
  pub replacement_token_hash : Bytes
  pub replacement_clear_token : Bytes
  pub replacement_expires_at : ℕ

pub record InitialRefresh : Type 0 where
  pub family_id : ℕ
  pub token_id : ℕ
  pub token_hash : Bytes
  pub clear_token : Bytes
  pub expires_at : ℕ
  pub absolute_expires_at : ℕ

pub record ExchangeInput : Type 0 where
  pub code_hash : Bytes
  pub client : Client
  pub redirect_uri : Bytes
  pub code_verifier : Bytes
  pub request_id : Bytes
  pub now : ℕ

pub record Authority : Type 0 where
  pub code_id : ℕ
  pub grant_id : ℕ
  pub origin_session_id : Option ℕ
  pub session_binding_id : Option ℕ
  pub user : User
  pub client : Client
  pub scopes : List Bytes
  pub nonce : Bytes
  pub authenticated_at : ℕ
  pub issued_at : ℕ

pub record Minted : Type 0 where
  pub access_token_id : ℕ
  pub jti_hash : Bytes
  pub access_token : Bytes
  pub id_token : Bytes
  pub issued_at : ℕ
  pub access_expires_at : ℕ
  pub id_expires_at : ℕ
  pub initial_refresh : Option InitialRefresh

pub record Response : Type 0 where
  pub access_token : Bytes
  pub token_type : Bytes
  pub expires_in : ℕ
  pub id_token : Bytes
  pub refresh_token : Bytes
  pub scope : Bytes

-- Durations, in microseconds.
abbrev pub second : ℕ
second = 1_000_000

abbrev pub minute : ℕ
minute = 60_000_000

abbrev pub hour : ℕ
hour = 3_600_000_000

abbrev pub day : ℕ
day = 86_400_000_000
