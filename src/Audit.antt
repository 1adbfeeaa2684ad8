-- ===== src/Audit.antt =====
-- internal/audit/audit.go: the value-free audit event, its constructor and its validation. The
-- event's own identifier is a fresh random UUID that nothing reads, and is left out.
use one_issuer.Base.{
  ℕ, Bool, true, not, ◌&&◌, ◌||◌, List, [], ◌∷◌, length, all, leb, ◌==◌, if◌then◌else◌,
}
use one_issuer.Errors.{Result, ok, err, invalid_event}
use one_issuer.Text.{Bytes, codes, str_eq, mem}
use one_issuer.Text.Sort.{sort_strings}

pub data EventType : Type 0 where
  admin_bootstrap_succeeded admin_bootstrap_rejected user_registered user_registration_rejected
        user_created user_updated user_status_changed user_role_changed login_succeeded login_failed
        login_disabled_user session_created session_revoked sessions_revoked_all client_created
        client_updated client_disabled client_secret_rotated authorization_transaction_created
        authorization_transaction_consumed authorization_transaction_expired
        authorization_transaction_rejected authorization_granted authorization_denied
        authorization_code_issued authorization_code_exchange_succeeded
        authorization_code_exchange_rejected consent_grant_created consent_grant_expanded
        access_token_issued signing_key_loaded refresh_token_issued refresh_token_rotated
        refresh_token_exchange_rejected refresh_token_reuse_detected refresh_token_family_revoked
        access_token_revoked consent_grant_revoked consent_grant_reactivated rp_logout_completed
        logout_transaction_rejected :
      EventType

pub data EventResult : Type 0 where
  success rejected failure : EventResult

pub data TargetType : Type 0 where
  target_user target_client target_session target_auth_transaction target_consent_grant
        target_authorization_code target_access_token target_refresh_token target_refresh_family
        target_logout_transaction :
      TargetType

pub record Event : Type 0 where
  pub type : EventType
  pub result : EventResult
  pub actor_user_id : ℕ
  pub target_type : TargetType
  pub target_id : ℕ
  pub request_id : Bytes
  pub changed_fields : List Bytes
  pub occurred_at : ℕ

abbrev pub valid_changed_fields : List Bytes
valid_changed_fields =
    codes "status"
    ∷ codes "role"
    ∷ codes "username"
    ∷ codes "display_name"
    ∷ codes "email"
    ∷ codes "name"
    ∷ codes "description"
    ∷ codes "logo_uri"
    ∷ codes "registration_enabled"
    ∷ codes "redirect_uris"
    ∷ codes "logout_uris"
    ∷ codes "scopes"
    ∷ codes "secret"
    ∷ codes "revoked"
    ∷ codes "created"
    ∷ codes "expanded"
    ∷ codes "issued"
    ∷ codes "consumed"
    ∷ codes "rotated"
    ∷ codes "reused"
    ∷ codes "reactivated"
    ∷ []

-- A byte of `[A-Za-z0-9._:-]`.
is_request_id_byte : ℕ → Bool
is_request_id_byte c =
    (leb b'A' c && leb c b'Z')
    || (leb b'a' c && leb c b'z')
    || (leb b'0' c && leb c b'9')
    || (c == b'.')
    || (c == b'_')
    || (c == b':')
    || (c == b'-')

-- Empty, or a match of `requestIDPattern`.
unfoldable pub valid_request_id : Bytes → Bool
unfolding is_request_id_byte
valid_request_id [] = true
valid_request_id (c ∷ s) = leb (length (c ∷ s)) 128 && all is_request_id_byte (c ∷ s)

-- `Event.Validate() == nil`: the type, the result and the target's type are of their fixed sets.
unfoldable pub valid_event : Event → Bool
unfolding valid_request_id
valid_event e =
    not (e.occurred_at == 0)
    && valid_request_id e.request_id
    && not (e.target_id == 0)
    && all (λ field. mem field valid_changed_fields) e.changed_fields

-- Drops an entry that equals the one before it.
unfoldable pub compact : List Bytes → List Bytes
compact [] = []
compact (s ∷ []) = s ∷ []
compact (s ∷ t ∷ ts) = let rest = compact (t ∷ ts) in if str_eq s t then rest else s ∷ rest

abbrev pub event_of : EventType → EventResult → ℕ → TargetType → ℕ → Bytes → List Bytes → ℕ → Event
event_of type result actor target_type target request_id changed at = record {
  type = type;
  result = result;
  actor_user_id = actor;
  target_type = target_type;
  target_id = target;
  request_id = request_id;
  changed_fields = compact (sort_strings changed);
  occurred_at = at;
}

-- `New`, for an event with an actor and a target.
unfoldable pub new_event :
    EventType → EventResult → ℕ → TargetType → ℕ → Bytes → List Bytes → ℕ → Result Event
new_event type result actor target_type target request_id changed at =
    let event = event_of type result actor target_type target request_id changed at in
    if valid_event event then ok event else err invalid_event
