-- ===== src/Store/Locks/Sound.antt =====
-- What each lock step establishes about the tables that it read.
use one_issuer.Base.{
  ℕ, ◌≡◌, inl, inr, Bool, true, false, not, ◌&&◌, some, [], ◌==◌, arith, find, find_sound, ==_iff,
  Option-cases,
}
use one_issuer.Errors.{invalid_grant}
use one_issuer.Domain.{User, Client, Grant, is_active}
use one_issuer.Token.{RefreshFamily, RefreshGeneration}
use one_issuer.Store.{Db, Conn, returned, raise_if, or_raise, select}
use one_issuer.Store.Laws.{
  >>=-eq-returned, select-eq-returned, or_raise-eq-returned, raise_if-eq-returned,
  checked-eq-returned,
}
use one_issuer.Store.Queries.{
  lock_user_by_id, find_client, lock_oidc_client_by_id, load_client_children,
  lock_consent_grant_by_user_client, lock_refresh_token_family_by_id, lock_refresh_token_by_id,
}
use one_issuer.Store.Locks.{
  same_authenticated_client, lock_active_user, lock_same_client, lock_grant, lock_family,
  lock_generation,
}

module _ (c : Conn) {c' : Conn} where
  pub lock_active_user-eq-returned :
      (id : ℕ) {u : User}
      → lock_active_user id c ≡ returned u c'
      → (find (λ u. u.id == id) c.db.users ≡ some u) × (is_active u.status ≡ true) × (c'.db ≡ c.db)
  unfolding lock_active_user lock_user_by_id
  lock_active_user-eq-returned id h =
      let (found, kept, same) =
        checked-eq-returned (λ db. find (λ u. u.id == id) db.users) (λ u. not (is_active u.status))
          invalid_grant c h in
      (found, ground arith, same)

  pub lock_grant-eq-returned :
      (user_id client_id : ℕ) (refused : Grant → Bool) {g : Grant}
      → lock_grant user_id client_id refused c ≡ returned g c'
      → (find (λ g. g.user_id == user_id && g.client_id == client_id) c.db.grants ≡ some g)
        × (refused g ≡ false)
        × (c'.db ≡ c.db)
  unfolding lock_grant lock_consent_grant_by_user_client
  lock_grant-eq-returned user_id client_id refused h =
      checked-eq-returned
        (λ db. find (λ g. g.user_id == user_id && g.client_id == client_id) db.grants) refused
        invalid_grant c h

  pub lock_family-eq-returned :
      (id : ℕ) (refused : RefreshFamily → Bool) {f : RefreshFamily}
      → lock_family id refused c ≡ returned f c'
      → (find (λ f. f.id == id) c.db.families ≡ some f) × (refused f ≡ false) × (c'.db ≡ c.db)
  unfolding lock_family lock_refresh_token_family_by_id
  lock_family-eq-returned id refused h =
      checked-eq-returned (λ db. find (λ f. f.id == id) db.families) refused invalid_grant c h

  pub lock_generation-eq-returned :
      (id : ℕ) (refused : RefreshGeneration → Bool) {p : RefreshGeneration}
      → lock_generation id refused c ≡ returned p c'
      → (find (λ p. p.id == id) c.db.generations ≡ some p) × (refused p ≡ false) × (c'.db ≡ c.db)
  unfolding lock_generation lock_refresh_token_by_id
  lock_generation-eq-returned id refused h =
      checked-eq-returned (λ db. find (λ p. p.id == id) db.generations) refused invalid_grant c h

pub find_client-id : (db : Db) (id : ℕ) {c : Client} → find_client id db ≡ some c → c.id ≡ id
unfolding find_client
find_client-id db id {c} h = (==_iff c.id id).0 (find_sound (λ c. c.id == id) db.clients h)

pub load_client_children-eq-returned :
    (bare stored : Client) (c : Conn) {loaded : Client} {c' : Conn}
    → find_client bare.id c.db ≡ some stored
    → load_client_children bare c ≡ returned loaded c'
    → (loaded ≡ record bare {
      redirect_uris = stored.redirect_uris;
      logout_uris = stored.logout_uris;
      scopes = stored.scopes;
    })
      × (c'.db ≡ c.db)
unfolding load_client_children
load_client_children-eq-returned bare stored c found h =
    let (redirects, c1, read1, h1) = >>=-eq-returned (select _) _ c h in
    let (logouts, c2, read2, h2) = >>=-eq-returned (select _) _ c1 h1 in
    let (scopes, c3, read3, h3) = >>=-eq-returned (select _) _ c2 h2 in
    let (eq1, same1) = select-eq-returned _ c read1 in
    let (eq2, same2) = select-eq-returned _ c1 read2 in
    let (eq3, same3) = select-eq-returned _ c2 read3 in (ground arith, ground arith)

-- The Client that the step returns is the stored one, its child tables included.
pub lock_same_client-eq-returned :
    (id : ℕ) (authenticated : Client) (c : Conn) {client : Client} {c' : Conn}
    → lock_same_client id authenticated c ≡ returned client c'
    → (find_client id c.db ≡ some client)
      × (same_authenticated_client client authenticated ≡ true)
      × (c'.db ≡ c.db)
unfolding lock_same_client lock_oidc_client_by_id
lock_same_client-eq-returned id authenticated c h =
    let (row, c1, read, h1) = >>=-eq-returned (select _) _ c h in
    let (bare, c2, present, h2) = >>=-eq-returned (or_raise row invalid_grant) _ c1 h1 in
    let (client, c3, loaded, h3) = >>=-eq-returned (load_client_children bare) _ c2 h2 in
    let (u, c4, passed, h4) =
      >>=-eq-returned
        (raise_if (not (same_authenticated_client client authenticated)) invalid_grant) _ c3 h3 in
    let (row_eq, same1) = select-eq-returned _ c read in
    let (bare_eq, same2) = or_raise-eq-returned row invalid_grant c1 present in
    let (ok_eq, same4) =
      raise_if-eq-returned (not (same_authenticated_client client authenticated)) invalid_grant c3
        passed in
    elim (Option-cases (find_client id c.db)) [
      | inl e ↦ absurd (ground arith)
      | inr (stored, e) ↦
          let bare_is : record stored { redirect_uris = []; logout_uris = []; scopes = [] } ≡ bare =
            ground arith in
          let same_id : bare.id ≡ id = ground (arith, find_client-id c.db id e) in
          let at_bare : find_client bare.id c2.db ≡ some stored = ground arith in
          let (whole, same3) = load_client_children-eq-returned bare stored c2 at_bare loaded in
          (ground arith, ground arith, ground arith)
    ]
