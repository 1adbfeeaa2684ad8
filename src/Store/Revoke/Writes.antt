-- ===== src/Store/Revoke/Writes.antt =====
-- What a revocation leaves in the tables.
use one_issuer.Base.{
  ◌<◌, ==_iff, none, [], none_of_not_some, ◌≡◌, ap, ◌∙◌, true, false, not, some, ◌∷◌, ◌==◌, arith,
  find,
}
use one_issuer.Errors.{ok, query_error, no_rows}
use one_issuer.Text.Order.{str_eq→eq}
use one_issuer.Text.{codes}
use one_issuer.Domain.{Client}
use one_issuer.Token.{RefreshFamily, RefreshGeneration, AccessMetadata}
use one_issuer.Audit.{
  Event, new_event, success, access_token_revoked, refresh_token_family_revoked,
  target_access_token, target_refresh_family,
}
use one_issuer.Store.{Db, Conn, returned, raise_if}
use one_issuer.Store.Laws.{>>=-elim, raise_if-eq-returned}
use one_issuer.Store.Queries.{
  amend, find_client, is_unrevoked, family_revoked, is_live_access, access_revoked,
  is_unrevoked_access, revoke_access_token, revoke_refresh_token_family,
  revoke_live_access_tokens_by_family,
}
use one_issuer.Store.Effects.{
  revoke_refresh_token_family-eq-returned, revoke_live_access_tokens_by_family-eq-returned,
  insert_protocol_audit-eq-returned, revoke_access_token-eq-returned,
}
use one_issuer.Store.Locks.{same_authenticated_client}
use one_issuer.Store.Revoke.{
  RevocationLookup, access_refused, revoke_access_writes, generation_refused, revoke_family_writes,
}

-- The Access Token is revoked, and one event is added.
pub record AccessRevoked (db left : Db) (lookup : RevocationLookup) : Type 0 where
  pub metadata : AccessMetadata
  pub stored : find (λ r. r.id == metadata.id) db.accesses ≡ some metadata
  pub owned : metadata.client_id ≡ lookup.client.id
  pub live : metadata.revoked_at ≡ none
  pub unexpired : lookup.now < metadata.expires_at
  pub hash : metadata.jti_hash ≡ lookup.access_jti_hash
  pub event : Event
  pub recorded :
      new_event access_token_revoked success metadata.user_id target_access_token metadata.id
        lookup.request_id
        (codes "revoked" ∷ [])
        lookup.now
      ≡ ok event
  pub left_eq :
      record db {
        accesses =
            amend
              (is_unrevoked_access metadata.id)
              (access_revoked lookup.now (codes "client_revocation"))
              db.accesses;
        audits = event ∷ db.audits;
      }
      ≡ left

-- The family is revoked with its live Access Tokens, and one event is added.
pub record FamilyRevoked (db left : Db) (lookup : RevocationLookup) : Type 0 where
  pub family : RefreshFamily
  pub presented : RefreshGeneration
  pub client : Client
  pub client_stored : find_client client.id db ≡ some client
  pub client_same : same_authenticated_client client lookup.client ≡ true
  pub family_stored : find (λ r. r.id == family.id) db.families ≡ some family
  pub owned : family.client_id ≡ lookup.client.id
  pub presented_stored : find (λ r. r.id == presented.id) db.generations ≡ some presented
  pub live : family.revoked_at ≡ none
  pub unexpired : lookup.now < family.absolute_expires_at
  pub of_family : presented.family_id ≡ family.id
  pub hash : presented.token_hash ≡ lookup.refresh_token_hash
  pub event : Event
  pub recorded :
      new_event refresh_token_family_revoked success family.user_id target_refresh_family family.id
        lookup.request_id
        (codes "revoked" ∷ [])
        lookup.now
      ≡ ok event
  pub left_eq :
      record db {
        families =
            amend
              (is_unrevoked family.id)
              (family_revoked lookup.now (codes "client_revocation"))
              db.families;
        accesses =
            amend
              (is_live_access family.id lookup.now)
              (access_revoked lookup.now (codes "family_revoked"))
              db.accesses;
        audits = event ∷ db.audits;
      }
      ≡ left

pub access-writes :
    (lookup : RevocationLookup) (metadata : AccessMetadata) (db : Db) (c c' : Conn)
    → c.db ≡ db
    → find (λ r. r.id == metadata.id) db.accesses ≡ some metadata
    → access_refused lookup metadata ≡ false
    → revoke_access_writes lookup metadata c ≡ returned tt c'
    → AccessRevoked db c'.db lookup
unfolding revoke_access_writes
access-writes lookup metadata db c c' start stored passed h =
    >>=-elim (revoke_access_token metadata.id lookup.now (codes "client_revocation")) _ c h
      (λ revoked c1 q1 h1.
        >>=-elim (raise_if (not revoked) (query_error no_rows)) _ c1 h1 (λ _ c2 q2 h2.
          let (_, db1) =
            revoke_access_token-eq-returned c metadata.id lookup.now (codes "client_revocation")
              q1 in
          let (_, same2) = raise_if-eq-returned (not revoked) (query_error no_rows) c1 q2 in
          let (event, recorded, db3) = insert_protocol_audit-eq-returned _ _ _ _ _ _ _ _ c2 h2 in
          record {
            metadata = metadata;
            stored = stored;
            owned = ground (arith, passed);
            live = none_of_not_some metadata.revoked_at (ground (arith, passed));
            unexpired = ground (arith, passed);
            hash = str_eq→eq metadata.jti_hash lookup.access_jti_hash (ground (arith, passed));
            event = event;
            recorded = recorded;
            left_eq = chain db c.db c1.db c2.db c'.db event start db1 (ap (λ c. c.db) same2) db3;
          }))
  where
    chain :
        (d0 d1 d2 d3 d4 : Db) (event : Event)
        → d1 ≡ d0
        → record d1 {
          accesses =
              amend
                (is_unrevoked_access metadata.id)
                (access_revoked lookup.now (codes "client_revocation"))
                d1.accesses;
        }
          ≡ d2
        → d3 ≡ d2
        → record d3 { audits = event ∷ d3.audits } ≡ d4
        → record d0 {
          accesses =
              amend
                (is_unrevoked_access metadata.id)
                (access_revoked lookup.now (codes "client_revocation"))
                d0.accesses;
          audits = event ∷ d0.audits;
        }
          ≡ d4
    chain d0 d1 d2 d3 d4 event e1 e2 e3 e4 = ground arith

same_id : (a b : Client) → same_authenticated_client a b ≡ true → a.id ≡ b.id
unfolding same_authenticated_client
same_id a b h = ground arith

pub family-writes :
    (lookup : RevocationLookup) (client : Client) (family : RefreshFamily)
    (presented : RefreshGeneration) (db : Db) (c c' : Conn)
    → c.db ≡ db
    → find_client client.id db ≡ some client
    → same_authenticated_client client lookup.client ≡ true
    → find (λ r. r.id == family.id) db.families ≡ some family
    → family.client_id ≡ client.id
    → family.revoked_at ≡ none
    → lookup.now < family.absolute_expires_at
    → find (λ r. r.id == presented.id) db.generations ≡ some presented
    → generation_refused lookup family presented ≡ false
    → revoke_family_writes lookup family c ≡ returned tt c'
    → FamilyRevoked db c'.db lookup
unfolding revoke_family_writes
family-writes lookup client family presented db c c' start client_stored same family_stored of live
      unexpired presented_stored passed h =
    >>=-elim (revoke_refresh_token_family family.id lookup.now (codes "client_revocation")) _ c h
      (λ revoked c1 q1 h1.
        >>=-elim (raise_if (not revoked) (query_error no_rows)) _ c1 h1 (λ _ c2 q2 h2.
          >>=-elim (revoke_live_access_tokens_by_family family.id lookup.now) _ c2 h2 (λ _ c3 q3 h3.
            let (_, db1) =
              revoke_refresh_token_family-eq-returned c family.id lookup.now
                (codes "client_revocation") q1 in
            let (_, same2) = raise_if-eq-returned (not revoked) (query_error no_rows) c1 q2 in
            let db3 = revoke_live_access_tokens_by_family-eq-returned c2 family.id lookup.now q3 in
            let (event, recorded, db4) = insert_protocol_audit-eq-returned _ _ _ _ _ _ _ _ c3 h3 in
            record {
              family = family;
              presented = presented;
              client = client;
              client_stored = client_stored;
              client_same = same;
              family_stored = family_stored;
              owned = of ∙ same_id client lookup.client same;
              presented_stored = presented_stored;
              live = live;
              unexpired = unexpired;
              of_family = (==_iff presented.family_id family.id).0 (ground (arith, passed));
              hash =
                  str_eq→eq presented.token_hash lookup.refresh_token_hash (ground (arith, passed));
              event = event;
              recorded = recorded;
              left_eq =
                  chain db c.db c1.db c2.db c3.db c'.db event start db1 (ap (λ c. c.db) same2) db3
                    db4;
            })))
  where
    chain :
        (d0 d1 d2 d3 d4 d5 : Db) (event : Event)
        → d1 ≡ d0
        → record d1 {
          families =
              amend
                (is_unrevoked family.id)
                (family_revoked lookup.now (codes "client_revocation"))
                d1.families;
        }
          ≡ d2
        → d3 ≡ d2
        → record d3 {
          accesses =
              amend
                (is_live_access family.id lookup.now)
                (access_revoked lookup.now (codes "family_revoked"))
                d3.accesses;
        }
          ≡ d4
        → record d4 { audits = event ∷ d4.audits } ≡ d5
        → record d0 {
          families =
              amend
                (is_unrevoked family.id)
                (family_revoked lookup.now (codes "client_revocation"))
                d0.families;
          accesses =
              amend
                (is_live_access family.id lookup.now)
                (access_revoked lookup.now (codes "family_revoked"))
                d0.accesses;
          audits = event ∷ d0.audits;
        }
          ≡ d5
    chain d0 d1 d2 d3 d4 d5 event e1 e2 e3 e4 e5 = ground arith
