-- ===== src/Store/Effects.antt =====
-- What each write of Store/Queries does to the tables when it returns.
use one_issuer.Base.{ℕ, ◌≡◌, Bool, false, List, ◌∷◌, arith, any}
use one_issuer.Errors.{ok}
use one_issuer.Text.{Bytes, codes}
use one_issuer.Token.{RefreshGeneration, AccessMetadata, RefreshFamily}
use one_issuer.Audit.{EventType, EventResult, TargetType, Event, new_event}
use one_issuer.Store.{Conn, returned, lift}
use one_issuer.Store.Laws.{>>=-eq-returned, query-eq-returned, lift-eq-returned}
use one_issuer.Store.Queries.{
  amend, is_unconsumed, consumed, consume_refresh_token, clashes, create_refresh_token,
  is_unrevoked, family_revoked, revoke_refresh_token_family, is_live_access, access_revoked,
  revoke_live_access_tokens_by_family, access_clashes, create_access_token, insert_protocol_audit,
  create_refresh_token_family, consume_authorization_code, code_is_live, code_consumed,
  is_unrevoked_access, revoke_access_token,
}

module _ (c : Conn) {c' : Conn} where
  pub consume_refresh_token-eq-returned :
      (id at : ℕ) {taken : Bool}
      → consume_refresh_token id at c ≡ returned taken c'
      → (any (is_unconsumed id) c.db.generations ≡ taken)
        × (record c.db { generations = amend (is_unconsumed id) (consumed at) c.db.generations }
            ≡ c'.db)
  unfolding consume_refresh_token
  consume_refresh_token-eq-returned id at h =
      let e = query-eq-returned _ c h in (ground (arith, e), ground (arith, e))

  pub create_refresh_token-eq-returned :
      (new : RefreshGeneration)
      → create_refresh_token new c ≡ returned tt c'
      → (any (clashes new) c.db.generations ≡ false)
        × (record c.db { generations = new ∷ c.db.generations } ≡ c'.db)
  unfolding create_refresh_token
  create_refresh_token-eq-returned new h =
      let e = query-eq-returned _ c h in (ground (arith, e), ground (arith, e))

  pub create_access_token-eq-returned :
      (new : AccessMetadata)
      → create_access_token new c ≡ returned tt c'
      → (any (access_clashes new) c.db.accesses ≡ false)
        × (record c.db { accesses = new ∷ c.db.accesses } ≡ c'.db)
  unfolding create_access_token
  create_access_token-eq-returned new h =
      let e = query-eq-returned _ c h in (ground (arith, e), ground (arith, e))

  pub revoke_refresh_token_family-eq-returned :
      (id at : ℕ) (reason : Bytes) {revoked : Bool}
      → revoke_refresh_token_family id at reason c ≡ returned revoked c'
      → (any (is_unrevoked id) c.db.families ≡ revoked)
        × (record c.db {
          families = amend (is_unrevoked id) (family_revoked at reason) c.db.families;
        }
            ≡ c'.db)
  unfolding revoke_refresh_token_family
  revoke_refresh_token_family-eq-returned id at reason h =
      let e = query-eq-returned _ c h in (ground (arith, e), ground (arith, e))

  pub revoke_live_access_tokens_by_family-eq-returned :
      (family at : ℕ)
      → revoke_live_access_tokens_by_family family at c ≡ returned tt c'
      → record c.db {
        accesses =
            amend
              (is_live_access family at)
              (access_revoked at (codes "family_revoked"))
              c.db.accesses;
      }
        ≡ c'.db
  unfolding revoke_live_access_tokens_by_family
  revoke_live_access_tokens_by_family-eq-returned family at h =
      let e = query-eq-returned _ c h in ground (arith, e)

-- One valid event is added.
pub insert_protocol_audit-eq-returned :
    (type : EventType) (result : EventResult) (actor : ℕ) (target_type : TargetType) (target : ℕ)
    (request_id : Bytes) (changed : List Bytes) (at : ℕ) (c : Conn) {c' : Conn}
    → insert_protocol_audit type result actor target_type target request_id changed at c
      ≡ returned tt c'
    → (event : Event) × (new_event type result actor target_type target request_id changed at
        ≡ ok event)
      × (record c.db { audits = event ∷ c.db.audits } ≡ c'.db)
unfolding insert_protocol_audit
insert_protocol_audit-eq-returned type result actor target_type target request_id changed at c h =
    let (event, c1, made, h1) = >>=-eq-returned (lift _) _ c h in
    let (event_eq, same) = lift-eq-returned _ c made in
    let e = query-eq-returned _ c1 h1 in (event, event_eq, ground (arith, e))

module _ (c : Conn) {c' : Conn} where
  pub create_refresh_token_family-eq-returned :
      (new : RefreshFamily)
      → create_refresh_token_family new c ≡ returned tt c'
      → record c.db { families = new ∷ c.db.families } ≡ c'.db
  unfolding create_refresh_token_family
  create_refresh_token_family-eq-returned new h =
      let e = query-eq-returned _ c h in ground (arith, e)

  pub consume_authorization_code-eq-returned :
      (id at : ℕ) {taken : Bool}
      → consume_authorization_code id at c ≡ returned taken c'
      → (any (code_is_live id at) c.db.codes ≡ taken)
        × (record c.db { codes = amend (code_is_live id at) (code_consumed at) c.db.codes } ≡ c'.db)
  unfolding consume_authorization_code
  consume_authorization_code-eq-returned id at h =
      let e = query-eq-returned _ c h in (ground (arith, e), ground (arith, e))

  pub revoke_access_token-eq-returned :
      (id at : ℕ) (reason : Bytes) {revoked : Bool}
      → revoke_access_token id at reason c ≡ returned revoked c'
      → (any (is_unrevoked_access id) c.db.accesses ≡ revoked)
        × (record c.db {
          accesses = amend (is_unrevoked_access id) (access_revoked at reason) c.db.accesses;
        }
            ≡ c'.db)
  unfolding revoke_access_token
  revoke_access_token-eq-returned id at reason h =
      let e = query-eq-returned _ c h in (ground (arith, e), ground (arith, e))
