-- ===== src/Tests/Samples.antt =====
-- A User, a Client, a Grant and a Refresh Token family as the tables hold them, and stand-ins for
-- SHA-256, for the minting callback and for the other transactions.
use one_issuer.Base.{
  ℕ, ◌+◌, ◌-◌, ◌*◌, true, none, some, [], ◌∷◌, ◌++◌, length, zero, suc, refl, arith,
}
use one_issuer.Errors.{Result, ok}
use one_issuer.Text.{Bytes, codes, drop}
use one_issuer.Text.Base64.{encode}
use one_issuer.Scope.{openid, offline_access, profile}
use one_issuer.Domain.{User, Client, Grant, active, user, public, auth_none}
use one_issuer.Token.{
  RefreshFamily, RefreshGeneration, RefreshInput, RefreshAuthority, RefreshMinted, minute, hour,
  day,
}
use one_issuer.Token.Secret.{refresh_token_prefix, hash_refresh_token}
use one_issuer.Store.{Db}
use one_issuer.Store.Refresh.Invariant.{IsRefreshStore}

-- The last 32 bytes.
abbrev pub digest : Bytes → Bytes
digest s = drop (length s - 32) s

abbrev pub repeat : ℕ → ℕ → Bytes
repeat zero c = []
repeat (suc n) c = c ∷ repeat n c

abbrev pub alone : ℕ → Db → Db
alone n db = db

abbrev pub now : ℕ
now = 63_000_000 * 1_000_000_000

abbrev pub alice : User
alice = record {
  id = 1;
  subject = codes "alice";
  username = codes "alice";
  display_name = codes "Alice";
  email = codes "alice@example.com";
  email_verified = true;
  status = active;
  role = user;
}

abbrev pub app : Client
app = record {
  id = 2;
  client_id = codes "app";
  type = public;
  token_endpoint_auth_method = auth_none;
  name = codes "App";
  status = active;
  registration_enabled = true;
  redirect_uris = codes "https://app.example.com/callback" ∷ [];
  logout_uris = [];
  scopes = offline_access ∷ openid ∷ profile ∷ [];
}

abbrev pub consented : Grant
consented = record {
  id = 3;
  user_id = 1;
  client_id = 2;
  scopes = offline_access ∷ openid ∷ profile ∷ [];
  created_at = now - day;
  updated_at = now - day;
  revoked_at = none;
  version = 1;
}

abbrev pub family : RefreshFamily
family = record {
  id = 4;
  origin_authorization_code_id = some 9;
  consent_grant_id = 3;
  user_id = 1;
  client_id = 2;
  origin_session_id = none;
  session_binding_id = 8;
  scopes = offline_access ∷ openid ∷ profile ∷ [];
  created_at = now - hour;
  absolute_expires_at = now + 90 * day;
  revoked_at = none;
  revoke_reason = [];
}

abbrev pub token_a : Bytes
token_a = refresh_token_prefix ++ encode (repeat 32 1)

abbrev pub token_b : Bytes
token_b = refresh_token_prefix ++ encode (repeat 32 2)

abbrev pub first_generation : RefreshGeneration
first_generation = record {
  id = 5;
  family_id = 4;
  token_hash = hash_refresh_token digest token_a;
  generation = 0;
  issued_at = now - hour;
  expires_at = now + day;
  consumed_at = none;
}

abbrev pub store : Db
store = record {
  users = alice ∷ [];
  clients = app ∷ [];
  grants = consented ∷ [];
  codes = [];
  families = family ∷ [];
  generations = first_generation ∷ [];
  accesses = [];
  audits = [];
}

abbrev pub request : RefreshInput
request = record {
  token_hash = hash_refresh_token digest token_a;
  client = app;
  requested_scopes = some (openid ∷ profile ∷ []);
  request_id = codes "req-1";
  now = now;
}

-- The callback of the service: an Access Token of ten minutes and a replacement of 30 days.
abbrev pub mint : ℕ → RefreshAuthority → Result RefreshMinted
mint attempt authority = ok (record {
  access_token_id = 20;
  jti_hash = repeat 32 7;
  access_token = codes "jwt";
  issued_at = authority.issued_at;
  access_expires_at = authority.issued_at + 10 * minute;
  replacement_token_id = 21;
  replacement_token_hash = hash_refresh_token digest token_b;
  replacement_clear_token = token_b;
  replacement_expires_at = authority.issued_at + 30 * day;
})

pub store-IsRefreshStore : IsRefreshStore store
store-IsRefreshStore = record { one_live = λ f. ground arith; no_clash = (refl, tt) }
