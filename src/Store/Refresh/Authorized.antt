-- ===== src/Store/Refresh/Authorized.antt =====
-- Who gets tokens from ExchangeRefreshToken, and with which Scopes.
use one_issuer.Base.{
  ℕ, suc, ◌<◌, ◌≡◌, sym, ap, inl, inr, true, ◌&&◌, none, some, List, [], ◌==◌, find, ltb→lt,
}
use one_issuer.Errors.{Result}
use one_issuer.Text.{Bytes, join_space, mem}
use one_issuer.Domain.{User, Client, Grant, active}
use one_issuer.Scope.{openid}
use one_issuer.Scope.Algebra.{IsSubset}
use one_issuer.Token.{
  RefreshFamily, RefreshGeneration, RefreshInput, RefreshAuthority, RefreshMinted, Response,
}
use one_issuer.Token.Narrowing.{select_refresh_access_scopes_sound}
use one_issuer.Store.{Db, Conn, returned}
use one_issuer.Store.Transaction.{start_db}
use one_issuer.Store.Queries.{find_client}
use one_issuer.Store.Locks.{same_authenticated_client}
use one_issuer.Store.Refresh.{Exchange, rotated, reuse_detected, exchange_refresh_token}
use one_issuer.Store.Refresh.Authority.{LockedIn-Passed}
use one_issuer.Store.Refresh.Branches.{Exchanged}
use one_issuer.Store.Refresh.Ending.{exchange_refresh_token-Succeeded}

-- The rows that stood in the tables, and their state, when the tokens were issued.
pub record IsAuthorized (db : Db) (input : RefreshInput) (response : Response) : Type 0 where
  pub user : User
  pub client : Client
  pub grant : Grant
  pub family : RefreshFamily
  pub presented : RefreshGeneration
  pub scopes : List Bytes
  pub generation_stored : find (λ r. r.id == presented.id) db.generations ≡ some presented
  pub generation_hash : presented.token_hash ≡ input.token_hash
  pub generation_unconsumed : presented.consumed_at ≡ none
  pub generation_unexpired : input.now < presented.expires_at
  pub family_stored : find (λ r. r.id == presented.family_id) db.families ≡ some family
  pub family_live : family.revoked_at ≡ none
  pub family_unexpired : input.now < family.absolute_expires_at
  pub user_stored : find (λ r. r.id == family.user_id) db.users ≡ some user
  pub user_active : user.status ≡ active
  pub client_stored : find_client family.client_id db ≡ some client
  pub client_same : same_authenticated_client client input.client ≡ true
  pub grant_stored :
      find (λ r. r.user_id == family.user_id && r.client_id == family.client_id) db.grants
      ≡ some grant
  pub grant_id : grant.id ≡ family.consent_grant_id
  pub grant_live : grant.revoked_at ≡ none
  pub scope_text : response.scope ≡ join_space scopes
  pub has_openid : mem openid scopes ≡ true
  pub in_family : IsSubset scopes family.scopes
  pub in_grant : IsSubset scopes grant.scopes
  pub in_client : IsSubset scopes client.scopes

pub rotated_or_reuse : {response : Response} → reuse_detected ≡ rotated response → ⊥
rotated_or_reuse h = cc

abbrev scope_of : Exchange → Bytes
scope_of (rotated response) = response.scope
scope_of reuse_detected = []

module _ (sha256 : Bytes → Bytes) (others : ℕ → Db → Db)
    (mint : ℕ → RefreshAuthority → Result RefreshMinted) where
  authorized :
      (n : ℕ) (db left : Db) (candidate : RefreshGeneration) (candidate_family : RefreshFamily)
      (input : RefreshInput) (response : Response)
      → Exchanged sha256 others mint n db left candidate candidate_family input (rotated response)
      → IsAuthorized db input response
  authorized n db left candidate candidate_family input response x = elim x.did [
    | inr (at, consumed, revoked, answer) ↦ absurd (rotated_or_reuse answer)
    | inl (unconsumed, issued) ↦
        let l = x.l in
        let p = LockedIn-Passed db candidate candidate_family input l x.locked in
        let (in_family, in_grant, in_client, _, has_openid) =
          select_refresh_access_scopes_sound input.requested_scopes l.family.scopes l.grant.scopes
            l.client.scopes issued.scopes issued.scopes_eq in
        record {
          user = l.user;
          client = l.client;
          grant = l.grant;
          family = l.family;
          presented = l.presented;
          scopes = issued.scopes;
          generation_stored = p.generation_stored;
          generation_hash = p.generation_hash;
          generation_unconsumed = unconsumed;
          generation_unexpired = ltb→lt _ _ issued.unexpired;
          family_stored = p.family_stored;
          family_live = p.family_live;
          family_unexpired = p.family_unexpired;
          user_stored = p.user_stored;
          user_active = p.user_active;
          client_stored = p.client_stored;
          client_same = p.client_same;
          grant_stored = p.grant_stored;
          grant_id = p.grant_id;
          grant_live = p.grant_live;
          scope_text = sym (ap scope_of issued.answer);
          has_openid = has_openid;
          in_family = in_family;
          in_grant = in_grant;
          in_client = in_client;
        }
  ]

  -- If ExchangeRefreshToken returns tokens, then in the tables that its committed attempt started
  -- from the presented hash is that of a stored generation, unconsumed and unexpired, of a family
  -- that is live and unexpired, whose User is active, whose Client is the authenticated one and
  -- active, and whose Grant is not revoked; and the Scopes of the response hold openid and are
  -- among those of the family, of the Grant and of the Client's current policy.
  pub exchange_refresh_token-IsAuthorized :
      (input : RefreshInput) (c c' : Conn) (response : Response)
      → exchange_refresh_token sha256 others mint input c ≡ returned response c'
      → (n : ℕ) × IsAuthorized (start_db others c.db (suc n)) input response
  exchange_refresh_token-IsAuthorized input c c' response h =
      let s = exchange_refresh_token-Succeeded sha256 others mint input c h in
      (
        s.attempt,
        authorized s.attempt (start_db others c.db (suc s.attempt)) c'.db s.candidate
            s.candidate_family input response s.exchanged,
      )
