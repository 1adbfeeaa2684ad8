-- ===== src/Store/Refresh/Authority.antt =====
-- What holds of the tables once lock_refresh returned: the checks under lock of
-- ExchangeRefreshToken.
use one_issuer.Base.{
  none_of_not_some, ◌≡◌, refl, sym, ap, ◌∙◌, true, false, ◌&&◌, none, some, ◌==◌, arith, find,
  find_sound, ==_iff, ◌<◌, ap₂,
}
use one_issuer.Text.Order.{str_eq→eq}
use one_issuer.Domain.{Status, active, disabled, is_active}
use one_issuer.Token.{RefreshFamily, RefreshGeneration, RefreshInput}
use one_issuer.Store.{Db, Conn, returned}
use one_issuer.Store.Laws.{>>=-eq-returned, pure-eq-returned}
use one_issuer.Store.Queries.{find_client}
use one_issuer.Store.Locks.{
  same_authenticated_client, lock_active_user, lock_same_client, lock_grant, lock_family,
  lock_generation,
}
use one_issuer.Store.Locks.Sound.{
  find_client-id, lock_active_user-eq-returned, lock_same_client-eq-returned,
  lock_grant-eq-returned, lock_family-eq-returned, lock_generation-eq-returned,
}
use one_issuer.Store.Refresh.{
  Locked, grant_refused, family_refused, presented_refused, lock_refresh,
}

-- The rows of l stand in the tables, and each passed its test.
pub record LockedIn (db : Db) (candidate : RefreshGeneration) (candidate_family : RefreshFamily)
    (input : RefreshInput) (l : Locked) : Type 0 where
  pub user_found : find (λ u. u.id == candidate_family.user_id) db.users ≡ some l.user
  pub user_active : is_active l.user.status ≡ true
  pub client_found : find_client candidate_family.client_id db ≡ some l.client
  pub client_same : same_authenticated_client l.client input.client ≡ true
  pub grant_found :
      find
        (λ g. g.user_id == candidate_family.user_id && g.client_id == candidate_family.client_id)
        db.grants
      ≡ some l.grant
  pub grant_kept : grant_refused candidate_family l.grant ≡ false
  pub family_found : find (λ f. f.id == candidate.family_id) db.families ≡ some l.family
  pub family_kept :
      family_refused candidate_family l.user l.client l.grant input.now l.family ≡ false
  pub presented_found : find (λ p. p.id == candidate.id) db.generations ≡ some l.presented
  pub presented_kept : presented_refused l.family input.token_hash l.presented ≡ false

pub lock_refresh-eq-returned :
    (candidate : RefreshGeneration) (candidate_family : RefreshFamily) (input : RefreshInput)
    (c : Conn) {l : Locked} {c' : Conn}
    → lock_refresh candidate candidate_family input c ≡ returned l c'
    → LockedIn c.db candidate candidate_family input l × (c'.db ≡ c.db)
unfolding lock_refresh
lock_refresh-eq-returned candidate candidate_family input c h =
    let (user, c1, locked1, h1) =
      >>=-eq-returned (lock_active_user candidate_family.user_id) _ c h in
    let (client, c2, locked2, h2) =
      >>=-eq-returned (lock_same_client candidate_family.client_id input.client) _ c1 h1 in
    let (grant, c3, locked3, h3) =
      >>=-eq-returned
        (lock_grant candidate_family.user_id candidate_family.client_id
          (grant_refused candidate_family))
        _ c2 h2 in
    let (family, c4, locked4, h4) =
      >>=-eq-returned
        (lock_family candidate.family_id
          (family_refused candidate_family user client grant input.now))
        _ c3 h3 in
    let (presented, c5, locked5, h5) =
      >>=-eq-returned (lock_generation candidate.id (presented_refused family input.token_hash)) _
        c4 h4 in
    let (user_found, user_active, db1) =
      lock_active_user-eq-returned c candidate_family.user_id locked1 in
    let (client_found, client_same, db2) =
      lock_same_client-eq-returned candidate_family.client_id input.client c1 locked2 in
    let (grant_found, grant_kept, db3) =
      lock_grant-eq-returned c2 candidate_family.user_id candidate_family.client_id
        (grant_refused candidate_family) locked3 in
    let (family_found, family_kept, db4) =
      lock_family-eq-returned c3 candidate.family_id
        (family_refused candidate_family user client grant input.now) locked4 in
    let (presented_found, presented_kept, db5) =
      lock_generation-eq-returned c4 candidate.id (presented_refused family input.token_hash)
        locked5 in
    let same2 = db2 ∙ db1 in
    let same3 = db3 ∙ same2 in
    let same4 = db4 ∙ same3 in
    pure-eq-returned (λ l c'. LockedIn c.db candidate candidate_family input l × (c'.db ≡ c.db)) _
      c5 h5
      (
        record {
          user_found = user_found;
          user_active = user_active;
          client_found = ap (find_client candidate_family.client_id) (sym db1) ∙ client_found;
          client_same = client_same;
          grant_found =
              ap
                (λ db.
                  find
                    (λ g.
                      g.user_id == candidate_family.user_id
                      && g.client_id == candidate_family.client_id)
                    db.grants)
                (sym same2)
              ∙ grant_found;
          grant_kept = grant_kept;
          family_found =
              ap (λ db. find (λ f. f.id == candidate.family_id) db.families) (sym same3)
              ∙ family_found;
          family_kept = family_kept;
          presented_found =
              ap (λ db. find (λ p. p.id == candidate.id) db.generations) (sym same4)
              ∙ presented_found;
          presented_kept = presented_kept;
        },
        db5 ∙ same4,
      )

-- The same, read off the tests.
pub record Passed (db : Db) (input : RefreshInput) (l : Locked) : Type 0 where
  pub user_stored : find (λ r. r.id == l.family.user_id) db.users ≡ some l.user
  pub user_active : l.user.status ≡ active
  pub client_stored : find_client l.family.client_id db ≡ some l.client
  pub client_same : same_authenticated_client l.client input.client ≡ true
  pub grant_stored :
      find (λ r. r.user_id == l.family.user_id && r.client_id == l.family.client_id) db.grants
      ≡ some l.grant
  pub grant_id : l.grant.id ≡ l.family.consent_grant_id
  pub grant_live : l.grant.revoked_at ≡ none
  pub family_stored : find (λ r. r.id == l.presented.family_id) db.families ≡ some l.family
  pub family_live : l.family.revoked_at ≡ none
  pub family_unexpired : input.now < l.family.absolute_expires_at
  pub generation_stored : find (λ r. r.id == l.presented.id) db.generations ≡ some l.presented
  pub generation_family : l.presented.family_id ≡ l.family.id
  pub generation_hash : l.presented.token_hash ≡ input.token_hash

is_active→eq : (s : Status) → is_active s ≡ true → s ≡ active
is_active→eq active h = refl
is_active→eq disabled h = cc

pub LockedIn-Passed :
    (db : Db) (candidate : RefreshGeneration) (candidate_family : RefreshFamily)
    (input : RefreshInput) (l : Locked)
    → LockedIn db candidate candidate_family input l
    → Passed db input l
LockedIn-Passed db candidate candidate_family input l k =
    let user_id =
      (==_iff l.user.id candidate_family.user_id).0
        (find_sound (λ u. u.id == candidate_family.user_id) db.users k.user_found) in
    let client_id = find_client-id db candidate_family.client_id k.client_found in
    let family_id =
      (==_iff l.family.id candidate.family_id).0
        (find_sound (λ f. f.id == candidate.family_id) db.families k.family_found) in
    let presented_id =
      (==_iff l.presented.id candidate.id).0
        (find_sound (λ p. p.id == candidate.id) db.generations k.presented_found) in
    let f_user : candidate_family.user_id ≡ l.family.user_id =
      ground (arith, k.family_kept, user_id) in
    let f_client : candidate_family.client_id ≡ l.family.client_id =
      ground (arith, k.family_kept, client_id) in
    let p_family : candidate.family_id ≡ l.presented.family_id =
      ground (arith, k.presented_kept, family_id) in
    record {
      user_stored = ap (λ id. find (λ r. r.id == id) db.users) (sym f_user) ∙ k.user_found;
      user_active = is_active→eq l.user.status k.user_active;
      client_stored = ap (λ id. find_client id db) (sym f_client) ∙ k.client_found;
      client_same = k.client_same;
      grant_stored =
          ap₂ (λ u c. find (λ r. r.user_id == u && r.client_id == c) db.grants) (sym f_user)
            (sym f_client)
          ∙ k.grant_found;
      grant_id = ground (arith, k.family_kept);
      grant_live = none_of_not_some l.grant.revoked_at (ground (arith, k.grant_kept));
      family_stored = ap (λ id. find (λ r. r.id == id) db.families) (sym p_family) ∙ k.family_found;
      family_live = none_of_not_some l.family.revoked_at (ground (arith, k.family_kept));
      family_unexpired = ground (arith, k.family_kept);
      generation_stored =
          ap (λ id. find (λ r. r.id == id) db.generations) presented_id ∙ k.presented_found;
      generation_family = ground (arith, k.presented_kept);
      generation_hash = str_eq→eq _ _ (ground (arith, k.presented_kept));
    }
