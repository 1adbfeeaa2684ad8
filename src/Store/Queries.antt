-- ===== src/Store/Queries.antt =====
-- The statements of queries/*.sql that the token lifecycle uses, as sqlc compiled them into
-- internal/storage/postgres/sqlcgen. An insert checks the keys that its table declares unique.
use one_issuer.Base.{
  ℕ, Bool, false, not, ◌&&◌, ◌||◌, Option, none, some, List, [], ◌∷◌, ltb, ◌==◌, if◌then◌else◌,
  find, any, is_some,
}
use one_issuer.Errors.{ok, err, query_error, unique_violation}
use one_issuer.Text.{Bytes, codes, str_eq}
use one_issuer.Domain.{User, Client, Grant}
use one_issuer.Token.{RefreshFamily, RefreshGeneration, AccessMetadata}
use one_issuer.Audit.{
  EventType, EventResult, TargetType, Event, new_event, authorization_code_exchange_rejected,
  refresh_token_exchange_rejected, refresh_token_reuse_detected, target_authorization_code,
  target_refresh_token,
}
use one_issuer.Store.{AuthorizationCode, Db, Tx, ◌>>=◌, pure, lift, query, select}

-- `UPDATE … WHERE`: the rows that pass the test are rewritten.
abbrev pub amend {ℓ} : {A : Type ℓ} → (A → Bool) → (A → A) → List A → List A
amend p f [] = []
amend p f (x ∷ xs) = (if p x then f x else x) ∷ amend p f xs

abbrev pub is_id : Option ℕ → ℕ → Bool
is_id none id = false
is_id (some i) id = i == id

-- GetUserByID, LockUserByID
unfoldable pub lock_user_by_id : ℕ → Tx (Option User)
lock_user_by_id id = select (λ db. find (λ u. u.id == id) db.users)

unfoldable pub find_client : ℕ → Db → Option Client
find_client id db = find (λ c. c.id == id) db.clients

-- LockOIDCClientByID and `mapClient`: the children are not loaded yet.
unfoldable pub lock_oidc_client_by_id : ℕ → Tx (Option Client)
unfolding find_client
lock_oidc_client_by_id id = select (λ db. elim (find_client id db) [
  | none ↦ none
  | some c ↦ some (record c { redirect_uris = []; logout_uris = []; scopes = [] })
])

abbrev children : (Client → List Bytes) → Option Client → List Bytes
children f none = []
children f (some c) = f c

-- `loadClientChildren`
unfoldable pub load_client_children : Client → Tx Client
unfolding find_client
load_client_children c = do
  redirects ← select (λ db. children (λ r. r.redirect_uris) (find_client c.id db))
  logouts ← select (λ db. children (λ r. r.logout_uris) (find_client c.id db))
  scopes ← select (λ db. children (λ r. r.scopes) (find_client c.id db))
  pure (record c { redirect_uris = redirects; logout_uris = logouts; scopes = scopes })

-- GetConsentGrantByUserClient, LockConsentGrantByUserClient
unfoldable pub lock_consent_grant_by_user_client : ℕ → ℕ → Tx (Option Grant)
lock_consent_grant_by_user_client user_id client_id =
    select (λ db. find (λ g. g.user_id == user_id && g.client_id == client_id) db.grants)

unfoldable pub lock_authorization_code_by_hash : Bytes → Tx (Option AuthorizationCode)
lock_authorization_code_by_hash hash = select (λ db. find (λ r. str_eq r.code_hash hash) db.codes)

abbrev pub code_is_live : ℕ → ℕ → AuthorizationCode → Bool
code_is_live id at r = r.id == id && not (is_some r.consumed_at) && ltb at r.expires_at

abbrev pub code_consumed : ℕ → AuthorizationCode → AuthorizationCode
code_consumed at r = record r { consumed_at = some at }

-- ConsumeAuthorizationCode; `false` is pgx.ErrNoRows.
unfoldable pub consume_authorization_code : ℕ → ℕ → Tx Bool
consume_authorization_code id at = query (λ db. ok (
  any (code_is_live id at) db.codes,
  record db { codes = amend (code_is_live id at) (code_consumed at) db.codes },
))

abbrev on_code : TargetType → ℕ
on_code target_authorization_code = 1
on_code _ = 0

abbrev on_refresh_token : ℕ → TargetType → ℕ
on_refresh_token kind target_refresh_token = kind
on_refresh_token kind _ = 0

-- The partial unique indexes of audit_events that an event falls under, numbered; 0 is none.
abbrev pub unique_kind : Event → ℕ
unique_kind e = elim e.type [
  | authorization_code_exchange_rejected ↦ on_code e.target_type
  | refresh_token_exchange_rejected ↦ on_refresh_token 2 e.target_type
  | refresh_token_reuse_detected ↦ on_refresh_token 3 e.target_type
  | _ ↦ 0
]

abbrev pub is_of_kind : ℕ → ℕ → Event → Bool
is_of_kind kind target e = unique_kind e == kind && e.target_id == target

abbrev pub audit_clashes : Event → Event → Bool
audit_clashes new e = not (unique_kind new == 0) && is_of_kind (unique_kind new) new.target_id e

unfoldable pub has_authorization_code_exchange_rejection : ℕ → Tx Bool
has_authorization_code_exchange_rejection id = select (λ db. any (is_of_kind 1 id) db.audits)

unfoldable pub get_refresh_token_by_hash : Bytes → Tx (Option RefreshGeneration)
get_refresh_token_by_hash hash = select (λ db. find (λ r. str_eq r.token_hash hash) db.generations)

unfoldable pub lock_refresh_token_by_id : ℕ → Tx (Option RefreshGeneration)
lock_refresh_token_by_id id = select (λ db. find (λ r. r.id == id) db.generations)

-- GetRefreshTokenFamilyByID, LockRefreshTokenFamilyByID
unfoldable pub lock_refresh_token_family_by_id : ℕ → Tx (Option RefreshFamily)
lock_refresh_token_family_by_id id = select (λ db. find (λ r. r.id == id) db.families)

abbrev pub is_unconsumed : ℕ → RefreshGeneration → Bool
is_unconsumed id r = r.id == id && not (is_some r.consumed_at)

abbrev pub consumed : ℕ → RefreshGeneration → RefreshGeneration
consumed at r = record r { consumed_at = some at }

-- ConsumeRefreshToken; `false` is pgx.ErrNoRows.
unfoldable pub consume_refresh_token : ℕ → ℕ → Tx Bool
consume_refresh_token id at = query (λ db. ok (
  any (is_unconsumed id) db.generations,
  record db { generations = amend (is_unconsumed id) (consumed at) db.generations },
))

abbrev pub clashes : RefreshGeneration → RefreshGeneration → Bool
clashes new r =
    r.id == new.id
    || str_eq r.token_hash new.token_hash
    || (r.family_id == new.family_id && r.generation == new.generation)

unfoldable pub create_refresh_token : RefreshGeneration → Tx (Unit {0})
create_refresh_token new = query (λ db.
    if any (clashes new) db.generations
    then err (query_error unique_violation)
    else ok (tt, record db { generations = new ∷ db.generations }))

abbrev pub same_origin : Option ℕ → Option ℕ → Bool
same_origin none o = false
same_origin (some id) o = is_id o id

unfoldable pub create_refresh_token_family : RefreshFamily → Tx (Unit {0})
create_refresh_token_family new = query (λ db.
    if any
      (λ r.
        r.id == new.id
        || same_origin r.origin_authorization_code_id new.origin_authorization_code_id)
      db.families
    then err (query_error unique_violation)
    else ok (tt, record db { families = new ∷ db.families }))

abbrev pub is_unrevoked : ℕ → RefreshFamily → Bool
is_unrevoked id r = r.id == id && not (is_some r.revoked_at)

abbrev pub family_revoked : ℕ → Bytes → RefreshFamily → RefreshFamily
family_revoked at reason r = record r { revoked_at = some at; revoke_reason = reason }

-- RevokeRefreshTokenFamily; `false` is pgx.ErrNoRows.
unfoldable pub revoke_refresh_token_family : ℕ → ℕ → Bytes → Tx Bool
revoke_refresh_token_family id at reason = query (λ db. ok (
  any (is_unrevoked id) db.families,
  record db { families = amend (is_unrevoked id) (family_revoked at reason) db.families },
))

abbrev pub is_live_access : ℕ → ℕ → AccessMetadata → Bool
is_live_access family at r =
    is_id r.refresh_family_id family && not (is_some r.revoked_at) && ltb at r.expires_at

abbrev pub access_revoked : ℕ → Bytes → AccessMetadata → AccessMetadata
access_revoked at reason r = record r { revoked_at = some at; revoke_reason = reason }

unfoldable pub revoke_live_access_tokens_by_family : ℕ → ℕ → Tx (Unit {0})
revoke_live_access_tokens_by_family family at = query (λ db. ok (
  tt,
  record db {
    accesses =
        amend (is_live_access family at) (access_revoked at (codes "family_revoked")) db.accesses;
  },
))

abbrev pub access_clashes : AccessMetadata → AccessMetadata → Bool
access_clashes new r =
    r.id == new.id
    || str_eq r.jti_hash new.jti_hash
    || same_origin r.authorization_code_id new.authorization_code_id
    || same_origin r.source_refresh_token_id new.source_refresh_token_id

-- CreateAccessToken, CreateRefreshAccessToken
unfoldable pub create_access_token : AccessMetadata → Tx (Unit {0})
create_access_token new = query (λ db.
    if any (access_clashes new) db.accesses
    then err (query_error unique_violation)
    else ok (tt, record db { accesses = new ∷ db.accesses }))

unfoldable pub get_access_token_by_jti_hash : Bytes → Tx (Option AccessMetadata)
get_access_token_by_jti_hash hash = select (λ db. find (λ r. str_eq r.jti_hash hash) db.accesses)

unfoldable pub lock_access_token_by_id : ℕ → Tx (Option AccessMetadata)
lock_access_token_by_id id = select (λ db. find (λ r. r.id == id) db.accesses)

abbrev pub is_unrevoked_access : ℕ → AccessMetadata → Bool
is_unrevoked_access id r = r.id == id && not (is_some r.revoked_at)

-- RevokeAccessToken; `false` is pgx.ErrNoRows.
unfoldable pub revoke_access_token : ℕ → ℕ → Bytes → Tx Bool
revoke_access_token id at reason = query (λ db. ok (
  any (is_unrevoked_access id) db.accesses,
  record db { accesses = amend (is_unrevoked_access id) (access_revoked at reason) db.accesses },
))

-- `insertProtocolAudit`: the event is made, checked and appended.
unfoldable pub insert_protocol_audit :
    EventType → EventResult → ℕ → TargetType → ℕ → Bytes → List Bytes → ℕ → Tx (Unit {0})
insert_protocol_audit type result actor target_type target request_id changed at = do
  event ← lift (new_event type result actor target_type target request_id changed at)
  query (λ db.
      if any (audit_clashes event) db.audits
      then err (query_error unique_violation)
      else ok (tt, record db { audits = event ∷ db.audits }))
