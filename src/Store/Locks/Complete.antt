-- ===== src/Store/Locks/Complete.antt =====
-- On a quiet connection, a lock step returns the stored row that passes its test.
use one_issuer.Base.{ℕ, ◌≡◌, refl, ap, ◌∙◌, Bool, true, false, ◌&&◌, some, ◌==◌, find}
use one_issuer.Domain.{User, Client, Grant, is_active}
use one_issuer.Token.{RefreshFamily, RefreshGeneration}
use one_issuer.Store.{Db, returned, select, query}
use one_issuer.Store.Quiet.{quiet}
use one_issuer.Store.Queries.{
  lock_user_by_id, find_client, lock_oidc_client_by_id, load_client_children,
  lock_consent_grant_by_user_client, lock_refresh_token_family_by_id, lock_refresh_token_by_id,
}
use one_issuer.Store.Locks.{
  same_authenticated_client, lock_active_user, lock_same_client, lock_grant, lock_family,
  lock_generation,
}
use one_issuer.Store.Locks.Sound.{find_client-id}

module _ (db : Db) where
  pub lock_active_user-quiet :
      (id : ℕ) (u : User)
      → find (λ u. u.id == id) db.users ≡ some u
      → is_active u.status ≡ true
      → lock_active_user id (quiet db) ≡ returned u (quiet db)
  unfolding lock_active_user lock_user_by_id select query
  lock_active_user-quiet id u found kept = rw (found, kept) refl

  pub lock_grant-quiet :
      (user_id client_id : ℕ) (refused : Grant → Bool) (g : Grant)
      → find (λ g. g.user_id == user_id && g.client_id == client_id) db.grants ≡ some g
      → refused g ≡ false
      → lock_grant user_id client_id refused (quiet db) ≡ returned g (quiet db)
  unfolding lock_grant lock_consent_grant_by_user_client select query
  lock_grant-quiet user_id client_id refused g found kept = rw (found, kept) refl

  pub lock_family-quiet :
      (id : ℕ) (refused : RefreshFamily → Bool) (f : RefreshFamily)
      → find (λ f. f.id == id) db.families ≡ some f
      → refused f ≡ false
      → lock_family id refused (quiet db) ≡ returned f (quiet db)
  unfolding lock_family lock_refresh_token_family_by_id select query
  lock_family-quiet id refused f found kept = rw (found, kept) refl

  pub lock_generation-quiet :
      (id : ℕ) (refused : RefreshGeneration → Bool) (p : RefreshGeneration)
      → find (λ p. p.id == id) db.generations ≡ some p
      → refused p ≡ false
      → lock_generation id refused (quiet db) ≡ returned p (quiet db)
  unfolding lock_generation lock_refresh_token_by_id select query
  lock_generation-quiet id refused p found kept = rw (found, kept) refl

  pub lock_same_client-quiet :
      (id : ℕ) (authenticated client : Client)
      → find_client id db ≡ some client
      → same_authenticated_client client authenticated ≡ true
      → lock_same_client id authenticated (quiet db) ≡ returned client (quiet db)
  unfolding lock_same_client lock_oidc_client_by_id load_client_children select query
  lock_same_client-quiet id authenticated client found same =
      let again : find_client client.id db ≡ some client =
        ap (λ id. find_client id db) (find_client-id db id found) ∙ found in
      rw (found, again, same) refl
