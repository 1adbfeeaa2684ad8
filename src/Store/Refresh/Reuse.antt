-- ===== src/Store/Refresh/Reuse.antt =====
-- A consumed Refresh Token that comes back: its family and the family's Access Tokens are revoked,
-- and no token of the family is exchanged any more.
use one_issuer.Base.{
  ℕ, ◌≡◌, refl, ◌∙◌, inl, inr, Bool, true, false, ◌&&◌, some, List, [], ◌∷◌, ◌==◌, arith, find, any,
  any_of_find, Bool-cases, length, ltb,
}
use one_issuer.Errors.{Result, ok, invalid_grant}
use one_issuer.Text.{Bytes, codes, str_eq, mem}
use one_issuer.Token.{
  RefreshFamily, RefreshGeneration, RefreshInput, RefreshAuthority, RefreshMinted,
}
use one_issuer.Audit.{
  Event, valid_request_id, new_event, compact, success, rejected, target_refresh_token,
  target_refresh_family, refresh_token_reuse_detected, refresh_token_family_revoked, event_of,
}
use one_issuer.Store.{Db, returned, raised, ◌>>=◌, query, select, in_tx}
use one_issuer.Store.Quiet.{
  quiet, >>=-returned, query-quiet, new_event-eq-ok, insert_protocol_audit-quiet, in_tx-quiet,
  any-audit_clashes,
}
use one_issuer.Store.Queries.{
  amend, is_unrevoked, family_revoked, revoke_refresh_token_family, is_live_access, access_revoked,
  revoke_live_access_tokens_by_family, insert_protocol_audit, get_refresh_token_by_hash,
  lock_refresh_token_family_by_id, is_id, audit_clashes, is_of_kind,
}
use one_issuer.Store.Locks.{
  lock_active_user, lock_same_client, lock_grant, lock_family, lock_generation,
}
use one_issuer.Store.Locks.Complete.{
  lock_active_user-quiet, lock_same_client-quiet, lock_grant-quiet, lock_family-quiet,
  lock_generation-quiet,
}
use one_issuer.Store.Refresh.{
  Locked, reuse_detected, lock_refresh, reuse, exchange_locked, exchange_refresh_tx, report,
  exchange_refresh_token, grant_refused, family_refused, presented_refused,
}
use one_issuer.Store.Refresh.Authority.{LockedIn, Passed, LockedIn-Passed}
use one_issuer.Text.Sort.{sort_strings}

-- The locks are taken when the rows pass their tests.
lock_refresh-quiet :
    (db : Db) (candidate : RefreshGeneration) (candidate_family : RefreshFamily)
    (input : RefreshInput) (l : Locked)
    → LockedIn db candidate candidate_family input l
    → lock_refresh candidate candidate_family input (quiet db) ≡ returned l (quiet db)
unfolding lock_refresh
lock_refresh-quiet db candidate candidate_family input l k =
    >>=-returned (lock_active_user candidate_family.user_id) _ (quiet db)
      (lock_active_user-quiet db candidate_family.user_id l.user k.user_found k.user_active)
    ∙ >>=-returned (lock_same_client candidate_family.client_id input.client) _ (quiet db) (
        lock_same_client-quiet db candidate_family.client_id input.client l.client k.client_found
          k.client_same)
    ∙ >>=-returned
        (lock_grant candidate_family.user_id candidate_family.client_id
          (grant_refused candidate_family))
        _ (quiet db)
        (lock_grant-quiet db candidate_family.user_id candidate_family.client_id
          (grant_refused candidate_family) l.grant k.grant_found k.grant_kept)
    ∙ >>=-returned
        (lock_family candidate.family_id
          (family_refused candidate_family l.user l.client l.grant input.now))
        _ (quiet db)
        (lock_family-quiet db candidate.family_id
          (family_refused candidate_family l.user l.client l.grant input.now) l.family
          k.family_found k.family_kept)
    ∙ >>=-returned (lock_generation candidate.id (presented_refused l.family input.token_hash)) _
        (quiet db)
        (lock_generation-quiet db candidate.id (presented_refused l.family input.token_hash)
          l.presented k.presented_found k.presented_kept)

-- The tables after a reuse.
abbrev pub after_reuse : Db → RefreshFamily → ℕ → Event → Event → Db
after_reuse db family now revoked_event reused_event = record db {
  families = amend (is_unrevoked family.id) (family_revoked now (codes "reuse")) db.families;
  accesses =
      amend (is_live_access family.id now) (access_revoked now (codes "family_revoked"))
        db.accesses;
  audits = revoked_event ∷ reused_event ∷ db.audits;
}

reuse-quiet :
    (db : Db) (l : Locked) (input : RefreshInput) (reused_event revoked_event : Event)
    → any (is_unrevoked l.family.id) db.families ≡ true
    → new_event refresh_token_reuse_detected rejected l.family.user_id target_refresh_token
        l.presented.id input.request_id
        (codes "reused" ∷ [])
        input.now
      ≡ ok reused_event
    → new_event refresh_token_family_revoked success l.family.user_id target_refresh_family
        l.family.id input.request_id
        (codes "revoked" ∷ [])
        input.now
      ≡ ok revoked_event
    → any (audit_clashes reused_event) db.audits ≡ false
    → any (audit_clashes revoked_event) (reused_event ∷ db.audits) ≡ false
    → reuse l input (quiet db)
      ≡ returned reuse_detected
          (quiet (after_reuse db l.family input.now revoked_event reused_event))
unfolding reuse revoke_refresh_token_family revoke_live_access_tokens_by_family
reuse-quiet db l input reused_event revoked_event live made1 made2 fresh1 fresh2 =
    let d1 : Db = record db {
      families =
          amend (is_unrevoked l.family.id) (family_revoked input.now (codes "reuse")) db.families;
    } in
    let d2 : Db = record d1 {
      accesses =
          amend (is_live_access l.family.id input.now)
            (access_revoked input.now (codes "family_revoked")) db.accesses;
    } in
    let d3 : Db = record d2 { audits = reused_event ∷ db.audits } in
    >>=-returned (revoke_refresh_token_family l.family.id input.now (codes "reuse")) _ (quiet db)
      (query-quiet _ db {a = true} {left = d1} (ground arith))
    ∙ >>=-returned (revoke_live_access_tokens_by_family l.family.id input.now) _ (quiet d1)
        (query-quiet _ d1 {a = tt} {left = d2} refl)
    ∙ >>=-returned
        (insert_protocol_audit refresh_token_reuse_detected rejected l.family.user_id
          target_refresh_token l.presented.id input.request_id (codes "reused" ∷ []) input.now)
        _ (quiet d2) (insert_protocol_audit-quiet _ _ _ _ _ _ _ _ d2 reused_event made1 fresh1)
    ∙ >>=-returned
        (insert_protocol_audit refresh_token_family_revoked success l.family.user_id
          target_refresh_family l.family.id input.request_id (codes "revoked" ∷ []) input.now)
        _ (quiet d3) (insert_protocol_audit-quiet _ _ _ _ _ _ _ _ d3 revoked_event made2 fresh2)

-- A test that no rewritten row passes is passed by none.
pub any-amend :
    {A : Type 0} (p : A → Bool) (f : A → A) (xs : List A)
    → ((x : A) → p (f x) ≡ false)
    → any p (amend p f xs) ≡ false
any-amend p f [] gone = refl
any-amend p f (x ∷ xs) gone = elim (Bool-cases (p x)) [
  | inl hit ↦ rw hit (ground (arith, gone x, any-amend p f xs gone))
  | inr miss ↦ rw miss (ground (arith, any-amend p f xs gone))
]

family_is_unrevoked :
    (db : Db) (input : RefreshInput) (l : Locked)
    → Passed db input l
    → any (is_unrevoked l.family.id) db.families ≡ true
family_is_unrevoked db input l p =
    any_of_find (λ r. r.id == l.presented.family_id) (is_unrevoked l.family.id) db.families
      p.family_stored (ground (arith, p.family_live))

module _ (sha256 : Bytes → Bytes) (others : ℕ → Db → Db)
    (mint : ℕ → RefreshAuthority → Result RefreshMinted) where
  -- The rows that an exchange finds before its transaction, for a request that is not refused.
  pub record Found (db : Db) (candidate : RefreshGeneration) (family : RefreshFamily)
      (input : RefreshInput) : Type 0 where
    pub size : (length input.token_hash == 32) ≡ true
    pub client_set : (input.client.id == 0) ≡ false
    pub now_set : (input.now == 0) ≡ false
    pub candidate_found :
        find (λ r. str_eq r.token_hash input.token_hash) db.generations ≡ some candidate
    pub family_found : find (λ r. r.id == candidate.family_id) db.families ≡ some family

  Found-quiet :
      (db : Db) (candidate : RefreshGeneration) (family : RefreshFamily) (input : RefreshInput)
      → Found db candidate family input
      → exchange_refresh_token sha256 others mint input (quiet db)
        ≡ (do
          exchange ← in_tx others (exchange_refresh_tx sha256 others mint candidate family input)
          report sha256 others mint exchange)
            (quiet db)
  unfolding exchange_refresh_token get_refresh_token_by_hash lock_refresh_token_family_by_id select
      query
  Found-quiet db candidate family input f =
      rw (f.size, f.client_set, f.now_set, f.candidate_found, f.family_found) refl

  -- A consumed Refresh Token whose User, Client, Grant and family pass the checks under lock, and
  -- whose reuse is not recorded yet: the call, with no database failure, commits and reports ErrInvalidGrant, and leaves tables in which
  -- the family is revoked, no Access Token of the family is live, and the generations, the Users,
  -- the Clients and the Grants are those that the transaction found.
  pub exchange_refresh_token-reuse :
      (db : Db) (candidate : RefreshGeneration) (family : RefreshFamily) (input : RefreshInput)
      (l : Locked) (at : ℕ)
      → Found db candidate family input
      → LockedIn (others 0 db) candidate family input l
      → l.presented.consumed_at ≡ some at
      → valid_request_id input.request_id ≡ true
      → (l.presented.id == 0) ≡ false
      → (l.family.id == 0) ≡ false
      → any (is_of_kind 3 l.presented.id) (others 0 db).audits ≡ false
      → (left : Db) × (exchange_refresh_token sha256 others mint input (quiet db)
          ≡ raised invalid_grant (quiet left))
        × (any (is_unrevoked l.family.id) left.families ≡ false)
        × (any (is_live_access l.family.id input.now) left.accesses ≡ false)
        × (left.generations ≡ (others 0 db).generations)
        × (left.users ≡ (others 0 db).users)
        × (left.clients ≡ (others 0 db).clients)
        × (left.grants ≡ (others 0 db).grants)
  unfolding exchange_refresh_tx report compact sort_strings mem str_eq
  exchange_refresh_token-reuse db candidate family input l at found k consumed request present_id
        family_id unrecorded =
      let start = others 0 db in
      let p = LockedIn-Passed start candidate family input l k in
      let made1 =
        new_event-eq-ok refresh_token_reuse_detected rejected l.family.user_id target_refresh_token
          l.presented.id input.request_id (codes "reused" ∷ []) input.now present_id found.now_set
          request refl in
      let made2 =
        new_event-eq-ok refresh_token_family_revoked success l.family.user_id target_refresh_family
          l.family.id input.request_id (codes "revoked" ∷ []) input.now family_id found.now_set
          request refl in
      let reused_event : Event =
        event_of refresh_token_reuse_detected rejected l.family.user_id target_refresh_token
          l.presented.id input.request_id (codes "reused" ∷ []) input.now in
      let revoked_event : Event =
        event_of refresh_token_family_revoked success l.family.user_id target_refresh_family
          l.family.id input.request_id (codes "revoked" ∷ []) input.now in
      let left = after_reuse start l.family input.now revoked_event reused_event in
      let body : exchange_refresh_tx sha256 others mint candidate family input 0 (quiet start)
          ≡ returned reuse_detected (quiet left) =
        >>=-returned (lock_refresh candidate family input) _ (quiet start)
          (lock_refresh-quiet start candidate family input l k)
        ∙ branch
        ∙ reuse-quiet start l input reused_event revoked_event (family_is_unrevoked start input l p)
            made1 made2 unrecorded
            (any-audit_clashes revoked_event (reused_event ∷ start.audits) refl) in
      (
        left,
        Found-quiet db candidate family input found
            ∙ >>=-returned
                (in_tx others (exchange_refresh_tx sha256 others mint candidate family input)) _
                (quiet db)
                (in_tx-quiet others (exchange_refresh_tx sha256 others mint candidate family input)
                  db left reuse_detected body),
        any-amend (is_unrevoked l.family.id) (family_revoked input.now (codes "reuse"))
            start.families (λ r. and-false (r.id == l.family.id)),
        any-amend (is_live_access l.family.id input.now)
            (access_revoked input.now (codes "family_revoked")) start.accesses
            (λ r. not_live (is_id r.refresh_family_id l.family.id) (ltb input.now r.expires_at)),
        refl,
        refl,
        refl,
        refl,
      )
    where
      branch :
          exchange_locked sha256 others mint 0 input l (quiet (others 0 db))
          ≡ reuse l input (quiet (others 0 db))
      branch = rw consumed refl

      and-false : (b : Bool) → (b && false) ≡ false
      and-false b = ground arith

      not_live : (a b : Bool) → (a && false && b) ≡ false
      not_live a b = ground arith
