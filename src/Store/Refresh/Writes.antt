-- ===== src/Store/Refresh/Writes.antt =====
-- What the two branches of ExchangeRefreshToken leave in the tables: `rotate` and `reuse`.
use one_issuer.Base.{ℕ, ◌≡◌, refl, sym, ap, ◌∙◌, true, false, not, List, ◌∷◌, arith, any}
use one_issuer.Errors.{invalid_grant, query_error, no_rows}
use one_issuer.Text.{Bytes, codes}
use one_issuer.Token.{RefreshInput, RefreshMinted}
use one_issuer.Audit.{Event}
use one_issuer.Store.{Db, Conn, returned, raise_if}
use one_issuer.Store.Laws.{>>=-eq-returned, raise_if-eq-returned, pure-eq-returned}
use one_issuer.Store.Queries.{
  amend, is_unconsumed, consumed, consume_refresh_token, clashes, create_refresh_token,
  is_unrevoked, family_revoked, revoke_refresh_token_family, is_live_access, access_revoked,
  revoke_live_access_tokens_by_family, access_clashes, create_access_token, insert_protocol_audit,
}
use one_issuer.Store.Effects.{
  consume_refresh_token-eq-returned, create_refresh_token-eq-returned,
  create_access_token-eq-returned, revoke_refresh_token_family-eq-returned,
  revoke_live_access_tokens_by_family-eq-returned, insert_protocol_audit-eq-returned,
}
use one_issuer.Store.Refresh.{
  Locked, Exchange, rotated, reuse_detected, replacement, refreshed_access, refresh_response,
  rotate, reuse,
}

-- The tables after a rotation: the presented generation is consumed, its replacement and the new
-- Access Token are added, two events are appended, and all else is as it was.
pub record Rotated (db left : Db) (l : Locked) (scopes : List Bytes) (minted : RefreshMinted)
    (now : ℕ) : Type 0 where
  pub was_live : any (is_unconsumed l.presented.id) db.generations ≡ true
  pub no_clash :
      any
        (clashes (replacement l minted))
        (amend (is_unconsumed l.presented.id) (consumed now) db.generations)
      ≡ false
  pub no_access_clash : any (access_clashes (refreshed_access l scopes minted)) db.accesses ≡ false
  pub issued_event : Event
  pub rotated_event : Event
  pub left_eq :
      record db {
        generations =
            replacement l minted
            ∷ amend (is_unconsumed l.presented.id) (consumed now) db.generations;
        accesses = refreshed_access l scopes minted ∷ db.accesses;
        audits = issued_event ∷ rotated_event ∷ db.audits;
      }
      ≡ left

-- The writes of a rotation, one after the other.
rotate-writes :
    (db d1 d2 d3 d4 left : Db) (l : Locked) (scopes : List Bytes) (minted : RefreshMinted) (now : ℕ)
    (first second : Event)
    → any (is_unconsumed l.presented.id) db.generations ≡ true
    → record db { generations = amend (is_unconsumed l.presented.id) (consumed now) db.generations }
      ≡ d1
    → any (clashes (replacement l minted)) d1.generations ≡ false
    → record d1 { generations = replacement l minted ∷ d1.generations } ≡ d2
    → any (access_clashes (refreshed_access l scopes minted)) d2.accesses ≡ false
    → record d2 { accesses = refreshed_access l scopes minted ∷ d2.accesses } ≡ d3
    → record d3 { audits = first ∷ d3.audits } ≡ d4
    → record d4 { audits = second ∷ d4.audits } ≡ left
    → Rotated db left l scopes minted now
rotate-writes db d1 d2 d3 d4 left l scopes minted now first second live e1 fresh e2 fresh_access e3
      e4 e5 =
    record {
      was_live = live;
      no_clash = ap (λ db. any (clashes (replacement l minted)) db.generations) e1 ∙ fresh;
      no_access_clash = ground arith;
      issued_event = second;
      rotated_event = first;
      left_eq = ground arith;
    }

pub rotate-eq-returned :
    (l : Locked) (scopes : List Bytes) (minted : RefreshMinted) (input : RefreshInput) (c : Conn)
    {exchange : Exchange} {c' : Conn}
    → rotate l scopes minted input c ≡ returned exchange c'
    → Rotated c.db c'.db l scopes minted input.now
      × (rotated (refresh_response scopes minted) ≡ exchange)
unfolding rotate
rotate-eq-returned l scopes minted input c h =
    let (taken, c1, q1, h1) =
      >>=-eq-returned (consume_refresh_token l.presented.id input.now) _ c h in
    let (_, c2, q2, h2) = >>=-eq-returned (raise_if (not taken) invalid_grant) _ c1 h1 in
    let (_, c3, q3, h3) = >>=-eq-returned (create_refresh_token (replacement l minted)) _ c2 h2 in
    let (_, c4, q4, h4) =
      >>=-eq-returned (create_access_token (refreshed_access l scopes minted)) _ c3 h3 in
    let (_, c5, q5, h5) = >>=-eq-returned (insert_protocol_audit _ _ _ _ _ _ _ _) _ c4 h4 in
    let (_, c6, q6, h6) = >>=-eq-returned (insert_protocol_audit _ _ _ _ _ _ _ _) _ c5 h5 in
    let (was, db1) = consume_refresh_token-eq-returned c l.presented.id input.now q1 in
    let (live, same2) = raise_if-eq-returned (not taken) invalid_grant c1 q2 in
    let (no_clash, db3) = create_refresh_token-eq-returned c2 (replacement l minted) q3 in
    let (no_access_clash, db4) =
      create_access_token-eq-returned c3 (refreshed_access l scopes minted) q4 in
    let (rotated_event, _, db5) = insert_protocol_audit-eq-returned _ _ _ _ _ _ _ _ c4 q5 in
    let (issued_event, _, db6) = insert_protocol_audit-eq-returned _ _ _ _ _ _ _ _ c5 q6 in
    pure-eq-returned
      (λ exchange c'.
        Rotated c.db c'.db l scopes minted input.now
        × (rotated (refresh_response scopes minted) ≡ exchange))
      _ c6 h6
      (
        rotate-writes c.db c1.db c3.db c4.db c5.db c6.db l scopes minted input.now rotated_event
            issued_event (was ∙ ground arith) db1
            (ap (λ c. any (clashes (replacement l minted)) c.db.generations) (sym same2) ∙ no_clash)
            (ap (λ c. record c.db { generations = replacement l minted ∷ c.db.generations })
                (sym same2)
              ∙ db3)
            no_access_clash db4 db5 db6,
        refl,
      )

-- The tables after a reuse: the family and its live Access Tokens are revoked, two events are
-- appended, and all else is as it was.
pub record Revoked (db left : Db) (l : Locked) (now : ℕ) : Type 0 where
  pub was_live : any (is_unrevoked l.family.id) db.families ≡ true
  pub revoked_event : Event
  pub reused_event : Event
  pub left_eq :
      record db {
        families =
            amend (is_unrevoked l.family.id) (family_revoked now (codes "reuse")) db.families;
        accesses =
            amend
              (is_live_access l.family.id now)
              (access_revoked now (codes "family_revoked"))
              db.accesses;
        audits = revoked_event ∷ reused_event ∷ db.audits;
      }
      ≡ left

reuse-writes :
    (db d1 d2 d3 left : Db) (l : Locked) (now : ℕ) (first second : Event)
    → any (is_unrevoked l.family.id) db.families ≡ true
    → record db {
      families = amend (is_unrevoked l.family.id) (family_revoked now (codes "reuse")) db.families;
    }
      ≡ d1
    → record d1 {
      accesses =
          amend
            (is_live_access l.family.id now)
            (access_revoked now (codes "family_revoked"))
            d1.accesses;
    }
      ≡ d2
    → record d2 { audits = first ∷ d2.audits } ≡ d3
    → record d3 { audits = second ∷ d3.audits } ≡ left
    → Revoked db left l now
reuse-writes db d1 d2 d3 left l now first second live e1 e2 e3 e4 = record {
  was_live = live;
  revoked_event = second;
  reused_event = first;
  left_eq = ground arith;
}

pub reuse-eq-returned :
    (l : Locked) (input : RefreshInput) (c : Conn) {exchange : Exchange} {c' : Conn}
    → reuse l input c ≡ returned exchange c'
    → Revoked c.db c'.db l input.now × (reuse_detected ≡ exchange)
unfolding reuse
reuse-eq-returned l input c h =
    let (revoked, c1, q1, h1) =
      >>=-eq-returned (revoke_refresh_token_family l.family.id input.now (codes "reuse")) _ c h in
    let (_, c2, q2, h2) = >>=-eq-returned (raise_if (not revoked) (query_error no_rows)) _ c1 h1 in
    let (_, c3, q3, h3) =
      >>=-eq-returned (revoke_live_access_tokens_by_family l.family.id input.now) _ c2 h2 in
    let (_, c4, q4, h4) = >>=-eq-returned (insert_protocol_audit _ _ _ _ _ _ _ _) _ c3 h3 in
    let (_, c5, q5, h5) = >>=-eq-returned (insert_protocol_audit _ _ _ _ _ _ _ _) _ c4 h4 in
    let (was, db1) =
      revoke_refresh_token_family-eq-returned c l.family.id input.now (codes "reuse") q1 in
    let (live, same2) = raise_if-eq-returned (not revoked) (query_error no_rows) c1 q2 in
    let db3 = revoke_live_access_tokens_by_family-eq-returned c2 l.family.id input.now q3 in
    let (reused_event, _, db4) = insert_protocol_audit-eq-returned _ _ _ _ _ _ _ _ c3 q4 in
    let (revoked_event, _, db5) = insert_protocol_audit-eq-returned _ _ _ _ _ _ _ _ c4 q5 in
    pure-eq-returned (λ exchange c'. Revoked c.db c'.db l input.now × (reuse_detected ≡ exchange)) _
      c5 h5
      (
        reuse-writes c.db c1.db c3.db c4.db c5.db l input.now reused_event revoked_event
            (was ∙ ground arith) db1
            (ap
                (λ c. record c.db {
                  accesses =
                      amend (is_live_access l.family.id input.now)
                        (access_revoked input.now (codes "family_revoked")) c.db.accesses;
                })
                (sym same2)
              ∙ db3)
            db4 db5,
        refl,
      )
