-- ===== src/Domain.antt =====
-- The records that the packages exchange: identity.User, client.Client and consent.Grant. An
-- identifier is the number that its UUID spells, uuid.Nil being 0; a time is the number of
-- microseconds since Go's zero time, which is 0.
use one_issuer.Base.{ℕ, Bool, true, false, not, ◌&&◌, ◌||◌, Option, List, ◌==◌, is_empty}
use one_issuer.Text.{Bytes}

-- identity.Status and client.Status
pub data Status : Type 0 where
  active disabled : Status

-- identity.Role
pub data Role : Type 0 where
  user admin : Role

-- client.Type
pub data ClientType : Type 0 where
  public confidential : ClientType

-- client.AuthMethod
pub data AuthMethod : Type 0 where
  auth_none client_secret_basic : AuthMethod

abbrev pub is_active : Status → Bool
is_active active = true
is_active disabled = false

abbrev pub is_public : ClientType → Bool
is_public public = true
is_public confidential = false

abbrev pub is_confidential : ClientType → Bool
is_confidential public = false
is_confidential confidential = true

abbrev pub is_auth_none : AuthMethod → Bool
is_auth_none auth_none = true
is_auth_none client_secret_basic = false

abbrev pub is_secret_basic : AuthMethod → Bool
is_secret_basic auth_none = false
is_secret_basic client_secret_basic = true

abbrev pub same_type : ClientType → ClientType → Bool
same_type public t = is_public t
same_type confidential t = is_confidential t

abbrev pub same_method : AuthMethod → AuthMethod → Bool
same_method auth_none m = is_auth_none m
same_method client_secret_basic m = is_secret_basic m

pub record User : Type 0 where
  pub id : ℕ
  pub subject : Bytes
  pub username : Bytes
  pub display_name : Bytes
  pub email : Bytes
  pub email_verified : Bool
  pub status : Status
  pub role : Role

pub record Client : Type 0 where
  pub id : ℕ
  pub client_id : Bytes
  pub type : ClientType
  pub token_endpoint_auth_method : AuthMethod
  pub name : Bytes
  pub status : Status
  pub registration_enabled : Bool
  pub redirect_uris : List Bytes
  pub logout_uris : List Bytes
  pub scopes : List Bytes

pub record Grant : Type 0 where
  pub id : ℕ
  pub user_id : ℕ
  pub client_id : ℕ
  pub scopes : List Bytes
  pub created_at : ℕ
  pub updated_at : ℕ
  pub revoked_at : Option ℕ
  pub version : ℕ

-- The pairing that every check repeats: a public Client authenticates by none, a confidential one
-- by its secret.
abbrev pub method_fits_type : Client → Bool
method_fits_type c =
    (is_public c.type && is_auth_none c.token_endpoint_auth_method)
    || (is_confidential c.type && is_secret_basic c.token_endpoint_auth_method)

-- `validActiveClient` of internal/consent
abbrev pub valid_active_client : Client → Bool
valid_active_client c = not (c.id == 0) && is_active c.status && method_fits_type c

-- `activeClient` of internal/token
abbrev pub active_client : Client → Bool
active_client c =
    not (c.id == 0) && not (is_empty c.client_id) && is_active c.status && method_fits_type c
