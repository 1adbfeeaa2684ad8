-- ===== src/Store/Revoke.antt =====
-- RevokeToken of internal/storage/postgres/token.go: a Client revokes one of its own tokens. A value
-- that is unknown, inactive or another Client's is no error, and changes nothing.
pub mod Steps
pub mod Writes
pub mod Owner
use one_issuer.Base.{
  ℕ, Bool, true, false, not, ◌&&◌, ◌||◌, Option, none, some, List, [], ◌∷◌, length, ltb, ◌==◌,
  is_some, is_empty,
}
use one_issuer.Errors.{query_error, no_rows}
use one_issuer.Text.{Bytes, codes, str_eq}
use one_issuer.Domain.{User, Client, Grant, is_active}
use one_issuer.Scope.{intersection, difference}
use one_issuer.Token.{RefreshFamily, RefreshGeneration, AccessMetadata}
use one_issuer.Audit.{
  success, target_access_token, target_refresh_family, access_token_revoked,
  refresh_token_family_revoked,
}
use one_issuer.Store.{Db, Conn, Outcome, returned, raised, Tx, ◌>>=◌, ◌>>◌, pure, raise_if, in_tx}
use one_issuer.Store.Queries.{
  lock_user_by_id, lock_oidc_client_by_id, load_client_children, lock_consent_grant_by_user_client,
  lock_refresh_token_family_by_id, lock_refresh_token_by_id, lock_access_token_by_id,
  get_access_token_by_jti_hash, get_refresh_token_by_hash, revoke_access_token,
  revoke_refresh_token_family, revoke_live_access_tokens_by_family, insert_protocol_audit,
}
use one_issuer.Store.Locks.{same_authenticated_client}

-- `token.RevocationLookup`
pub record RevocationLookup : Type 0 where
  pub client : Client
  pub access_jti_hash : Bytes
  pub refresh_token_hash : Bytes
  pub request_id : Bytes
  pub now : ℕ

-- `if isNoRows(err) || … { return nil }`: the rest is skipped.
abbrev pub skip_if : Bool → Tx (Unit {0}) → Tx (Unit {0})
skip_if true next = pure tt
skip_if false next = next

abbrev pub kept : {A : Type 0} → Option A → (A → Bool) → (A → Tx (Unit {0})) → Tx (Unit {0})
kept none refused next = pure tt
kept (some row) refused next = skip_if (refused row) (next row)

abbrev pub with_row :
    {A : Type 0} → Tx (Option A) → (A → Bool) → (A → Tx (Unit {0})) → Tx (Unit {0})
with_row lock refused next = lock >>= λ row. kept row refused next

abbrev pub whole_client : Option Client → Tx (Option Client)
whole_client none = pure none
whole_client (some bare) = load_client_children bare >>= λ client. pure (some client)

-- The Client's row with its children.
unfoldable pub lock_whole_client : ℕ → Tx (Option Client)
lock_whole_client id = lock_oidc_client_by_id id >>= λ row. whole_client row

abbrev pub access_grant_refused : AccessMetadata → Client → Grant → Bool
access_grant_refused candidate client g =
    not (g.id == candidate.consent_grant_id)
    || is_some g.revoked_at
    || not (is_empty (difference candidate.scopes (intersection g.scopes client.scopes)))

abbrev pub access_family_refused : AccessMetadata → ℕ → RefreshFamily → Bool
access_family_refused candidate now f =
    is_some f.revoked_at
    || not (ltb now f.absolute_expires_at)
    || not (f.user_id == candidate.user_id)
    || not (f.client_id == candidate.client_id)
    || not (f.consent_grant_id == candidate.consent_grant_id)
    || not (is_empty (difference candidate.scopes f.scopes))

abbrev pub access_refused : RevocationLookup → AccessMetadata → Bool
access_refused lookup metadata =
    not (metadata.client_id == lookup.client.id)
    || is_some metadata.revoked_at
    || not (ltb lookup.now metadata.expires_at)
    || not (str_eq metadata.jti_hash lookup.access_jti_hash)

-- The family of the candidate, where it has one.
abbrev pub with_family_of : AccessMetadata → ℕ → Option ℕ → Tx (Unit {0}) → Tx (Unit {0})
with_family_of candidate now none next = next
with_family_of candidate now (some id) next =
    with_row (lock_refresh_token_family_by_id id) (access_family_refused candidate now) (λ _. next)

unfoldable pub revoke_access_writes : RevocationLookup → AccessMetadata → Tx (Unit {0})
revoke_access_writes lookup metadata = do
  revoked ← revoke_access_token metadata.id lookup.now (codes "client_revocation")
  raise_if (not revoked) (query_error no_rows)
  insert_protocol_audit access_token_revoked success metadata.user_id target_access_token
      metadata.id lookup.request_id (codes "revoked" ∷ []) lookup.now

unfoldable pub revoke_access_tx : RevocationLookup → AccessMetadata → ℕ → Tx (Unit {0})
revoke_access_tx lookup candidate attempt =
    with_row (lock_user_by_id candidate.user_id) (λ u. not (is_active u.status))
      (λ user.
        with_row (lock_whole_client candidate.client_id)
          (λ c. not (same_authenticated_client c lookup.client))
          (λ client.
            with_row (lock_consent_grant_by_user_client candidate.user_id candidate.client_id)
              (access_grant_refused candidate client)
              (λ grant. with_family_of candidate lookup.now candidate.refresh_family_id (
                with_row (lock_access_token_by_id candidate.id) (access_refused lookup)
                  (revoke_access_writes lookup)))))

abbrev pub refresh_grant_refused : RefreshFamily → Grant → Bool
refresh_grant_refused candidate_family g =
    not (g.id == candidate_family.consent_grant_id) || is_some g.revoked_at

abbrev pub refresh_family_refused : ℕ → User → Client → Grant → RefreshFamily → Bool
refresh_family_refused now user client grant f =
    is_some f.revoked_at
    || not (ltb now f.absolute_expires_at)
    || not (f.user_id == user.id)
    || not (f.client_id == client.id)
    || not (f.consent_grant_id == grant.id)

abbrev pub generation_refused : RevocationLookup → RefreshFamily → RefreshGeneration → Bool
generation_refused lookup family p =
    not (p.family_id == family.id) || not (str_eq p.token_hash lookup.refresh_token_hash)

unfoldable pub revoke_family_writes : RevocationLookup → RefreshFamily → Tx (Unit {0})
revoke_family_writes lookup family = do
  revoked ← revoke_refresh_token_family family.id lookup.now (codes "client_revocation")
  raise_if (not revoked) (query_error no_rows)
  revoke_live_access_tokens_by_family family.id lookup.now
  insert_protocol_audit refresh_token_family_revoked success family.user_id target_refresh_family
      family.id lookup.request_id (codes "revoked" ∷ []) lookup.now

unfoldable pub revoke_refresh_tx :
    RevocationLookup → RefreshGeneration → RefreshFamily → ℕ → Tx (Unit {0})
revoke_refresh_tx lookup candidate candidate_family attempt =
    with_row (lock_user_by_id candidate_family.user_id) (λ u. not (is_active u.status))
      (λ user.
        with_row (lock_whole_client candidate_family.client_id)
          (λ c. not (same_authenticated_client c lookup.client))
          (λ client.
            with_row
              (lock_consent_grant_by_user_client candidate_family.user_id
                candidate_family.client_id)
              (refresh_grant_refused candidate_family)
              (λ grant.
                with_row (lock_refresh_token_family_by_id candidate.family_id)
                  (refresh_family_refused lookup.now user client grant)
                  (λ family.
                    with_row (lock_refresh_token_by_id candidate.id)
                      (generation_refused lookup family)
                      (λ presented. revoke_family_writes lookup family)))))

module _ (others : ℕ → Db → Db) where
  revoke_refresh_candidate : RevocationLookup → RefreshGeneration → Tx (Unit {0})
  revoke_refresh_candidate lookup candidate =
      with_row (lock_refresh_token_family_by_id candidate.family_id) (λ _. false)
        (λ family. in_tx others (revoke_refresh_tx lookup candidate family))

  -- The second lookup, where the first found nothing.
  unfoldable pub revoke_refresh_hash : RevocationLookup → Tx (Unit {0})
  unfolding revoke_refresh_candidate
  revoke_refresh_hash lookup = skip_if (not (length lookup.refresh_token_hash == 32)) (
      with_row (get_refresh_token_by_hash lookup.refresh_token_hash) (λ _. false)
        (λ candidate. revoke_refresh_candidate lookup candidate))

  abbrev pub revoke_access_candidate : RevocationLookup → Option AccessMetadata → Tx (Unit {0})
  revoke_access_candidate lookup none = revoke_refresh_hash lookup
  revoke_access_candidate lookup (some candidate) = in_tx others (revoke_access_tx lookup candidate)

  abbrev pub revoke_by_hash : RevocationLookup → Bool → Tx (Unit {0})
  revoke_by_hash lookup true =
      get_access_token_by_jti_hash lookup.access_jti_hash >>= revoke_access_candidate lookup
  revoke_by_hash lookup false = revoke_refresh_hash lookup

  unfoldable pub revoke_token : RevocationLookup → Tx (Unit {0})
  revoke_token lookup =
      skip_if ((lookup.client.id == 0) || (lookup.now == 0))
        (revoke_by_hash lookup (length lookup.access_jti_hash == 32))
