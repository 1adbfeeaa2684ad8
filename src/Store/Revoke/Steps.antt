-- ===== src/Store/Revoke/Steps.antt =====
-- The lock steps of RevokeToken: a row that is kept, or the end of the transaction.
use one_issuer.Base.{
  ℕ, ◌≡◌, refl, sym, ap, ◌∙◌, inl, inr, Bool, false, ◌&&◌, Option, none, some, [], ◌==◌, arith,
  find, Option-cases, Bool-cases,
}
use one_issuer.Domain.{Client}
use one_issuer.Store.{Db, Conn, returned, Tx, ◌>>=◌, pure}
use one_issuer.Store.Laws.{>>=-elim, select-eq-returned, pure-eq-returned}
use one_issuer.Store.Queries.{
  lock_user_by_id, find_client, lock_oidc_client_by_id, load_client_children,
  lock_consent_grant_by_user_client, lock_refresh_token_family_by_id, lock_refresh_token_by_id,
  lock_access_token_by_id,
}
use one_issuer.Store.Locks.Sound.{find_client-id, load_client_children-eq-returned}
use one_issuer.Store.Revoke.{kept, with_row, lock_whole_client}

-- A step that reads the value of f.
abbrev pub Reads : {A : Type 0} → Tx A → (Db → A) → Type 0
Reads {A} m f = (c c' : Conn) (a : A) → m c ≡ returned a c' → (a ≡ f c.db) × (c'.db ≡ c.db)

-- A locked row is refused, and all stays as it is, or it is kept and the rest runs.
pub with_row-elim :
    {A P : Type 0} (f : Db → Option A) (lock : Tx (Option A)) (refused : A → Bool)
    (next : A → Tx (Unit {0})) (c : Conn) {c' : Conn}
    → Reads lock f
    → with_row lock refused next c ≡ returned tt c'
    → (c'.db ≡ c.db → P)
    → ((a : A) (c1 : Conn)
        → c1.db ≡ c.db
        → f c.db ≡ some a
        → refused a ≡ false
        → next a c1 ≡ returned tt c'
        → P)
    → P
with_row-elim {A} {P} f lock refused next c {c'} reads h stopped ran = >>=-elim lock _ c h go
  where
    go :
        (row : Option A) (c1 : Conn)
        → lock c ≡ returned row c1
        → kept row refused next c1 ≡ returned tt c'
        → P
    go none c1 q h1 = stopped (ground (arith, reads c c1 none q))
    go (some row) c1 q h1 = elim (Bool-cases (refused row)) [
      | inl no_more ↦ stopped (ground (arith, (reads c c1 (some row) q).1))
      | inr on ↦
          let run : kept (some row) refused next c1 ≡ next row c1 = rw on refl in
          ran row c1 (reads c c1 (some row) q).1 (sym (reads c c1 (some row) q).0) on (sym run ∙ h1)
    ]

module _ (id : ℕ) where
  pub user-Reads : Reads (lock_user_by_id id) (λ db. find (λ u. u.id == id) db.users)
  unfolding lock_user_by_id
  user-Reads c c' a h = select-eq-returned _ c h

  pub family-Reads :
      Reads (lock_refresh_token_family_by_id id) (λ db. find (λ r. r.id == id) db.families)
  unfolding lock_refresh_token_family_by_id
  family-Reads c c' a h = select-eq-returned _ c h

  pub generation-Reads :
      Reads (lock_refresh_token_by_id id) (λ db. find (λ r. r.id == id) db.generations)
  unfolding lock_refresh_token_by_id
  generation-Reads c c' a h = select-eq-returned _ c h

  pub access-Reads : Reads (lock_access_token_by_id id) (λ db. find (λ r. r.id == id) db.accesses)
  unfolding lock_access_token_by_id
  access-Reads c c' a h = select-eq-returned _ c h

pub grant-Reads :
    (user_id client_id : ℕ)
    → Reads
        (lock_consent_grant_by_user_client user_id client_id)
        (λ db. find (λ g. g.user_id == user_id && g.client_id == client_id) db.grants)
unfolding lock_consent_grant_by_user_client
grant-Reads user_id client_id c c' a h = select-eq-returned _ c h

pub client-Reads : (id : ℕ) → Reads (lock_whole_client id) (find_client id)
unfolding lock_whole_client lock_oidc_client_by_id
client-Reads id c c' a h = >>=-elim (lock_oidc_client_by_id id) _ c h (λ row c1 q h1.
    let (row_eq, same1) = select-eq-returned _ c q in
    elim (Option-cases (find_client id c.db)) [
      | inl missing ↦ let none_row : row ≡ none = ground arith in (ground arith, ground arith)
      | inr (stored, found) ↦
          let bare : Client = record stored { redirect_uris = []; logout_uris = []; scopes = [] } in
          let some_row : row ≡ some bare = ground arith in
          whole stored c1 (rw some_row at h1)
            (ap (find_client bare.id) same1
              ∙ ap (λ i. find_client i c.db) (find_client-id c.db id found)
              ∙ found)
            same1 found
    ])
  where
    whole :
        (stored : Client) (c1 : Conn)
        → (load_client_children
                (record stored { redirect_uris = []; logout_uris = []; scopes = [] })
              >>= λ client. pure (some client))
            c1
          ≡ returned a c'
        → find_client stored.id c1.db ≡ some stored
        → c1.db ≡ c.db
        → find_client id c.db ≡ some stored
        → (a ≡ find_client id c.db) × (c'.db ≡ c.db)
    whole stored c1 h1 again same1 found =
        let bare : Client = record stored { redirect_uris = []; logout_uris = []; scopes = [] } in
        >>=-elim (load_client_children bare) _ c1 h1 (λ client c2 q2 h2.
          let (loaded, same2) = load_client_children-eq-returned bare stored c1 again q2 in
          pure-eq-returned (λ a c'. (a ≡ find_client id c.db) × (c'.db ≡ c.db)) (some client) c2 h2
            (ap some loaded ∙ sym found, same2 ∙ same1))
