-- ===== src/Store/Refresh/Dead.antt =====
-- A revoked family: no exchange of any of its Refresh Tokens returns tokens.
use one_issuer.Base.{
  ℕ, suc, ◌≡◌, ◌≢◌, ap, ◌∙◌, Bool, false, not, ◌&&◌, ◌==◌, arith, find_sound, any, none_of_find,
  ==_iff,
}
use one_issuer.Errors.{Result}
use one_issuer.Text.{Bytes, str_eq}
use one_issuer.Text.Order.{str_eq_refl}
use one_issuer.Token.{RefreshGeneration, RefreshInput, RefreshAuthority, RefreshMinted, Response}
use one_issuer.Store.{Db, Conn, returned}
use one_issuer.Store.Transaction.{start_db}
use one_issuer.Store.Queries.{is_unrevoked}
use one_issuer.Store.Refresh.{exchange_refresh_token}
use one_issuer.Store.Refresh.Invariant.{Keeps, start_db-keeps}
use one_issuer.Store.Refresh.Authorized.{IsAuthorized, exchange_refresh_token-IsAuthorized}

-- A generation with the hash that is not of the family.
abbrev pub is_elsewhere : ℕ → Bytes → RefreshGeneration → Bool
is_elsewhere family hash r = str_eq r.token_hash hash && not (r.family_id == family)

-- The family is revoked, and the hash is of no other family.
pub record IsDead (family : ℕ) (hash : Bytes) (db : Db) : Type 0 where
  pub revoked : any (is_unrevoked family) db.families ≡ false
  pub nowhere_else : any (is_elsewhere family hash) db.generations ≡ false

authorized_not_dead :
    (family : ℕ) (db : Db) (input : RefreshInput) (response : Response)
    → IsAuthorized db input response
    → IsDead family input.token_hash db
    → ⊥
authorized_not_dead family db input response a dead =
    let same =
      ap (λ h. str_eq h input.token_hash) a.generation_hash ∙ str_eq_refl input.token_hash in
    let here =
      none_of_find (λ r. r.id == a.presented.id) (is_elsewhere family input.token_hash)
        db.generations a.generation_stored dead.nowhere_else in
    let id =
      (==_iff a.family.id a.presented.family_id).0
        (find_sound (λ r. r.id == a.presented.family_id) db.families a.family_stored) in
    let gone =
      none_of_find (λ r. r.id == a.presented.family_id) (is_unrevoked family) db.families
        a.family_stored dead.revoked in
    ground (arith, same, here, id, gone, a.family_live)

-- While a family is revoked, ExchangeRefreshToken returns no tokens for any Refresh Token of it,
-- consumed or not, provided that other transactions neither lift the revocation nor store the hash
-- in another family.
pub revoked_family_never_exchanges :
    (sha256 : Bytes → Bytes) (others : ℕ → Db → Db)
    (mint : ℕ → RefreshAuthority → Result RefreshMinted) (family : ℕ) (input : RefreshInput)
    (c c' : Conn) (response : Response)
    → Keeps others (IsDead family input.token_hash)
    → IsDead family input.token_hash c.db
    → exchange_refresh_token sha256 others mint input c ≢ returned response c'
revoked_family_never_exchanges sha256 others mint family input c c' response keeps dead h =
    let (n, a) = exchange_refresh_token-IsAuthorized sha256 others mint input c c' response h in
    authorized_not_dead family (start_db others c.db (suc n)) input response a
      (start_db-keeps others (IsDead family input.token_hash) keeps c.db (suc n) dead)
