-- ===== src/Introspection/Agreement.antt =====
-- Introspection and exchange agree: what is reported as active can be exchanged.
use one_issuer.Base.{
  none_of_not_some, ℕ, suc, ◌<◌, ◌≡◌, sym, ap, inl, inr, Bool, true, false, none, some, List, [],
  ◌∷◌, ◌==◌, arith, find, if◌then◌else◌, Bool-cases, none_of_find,
}
use one_issuer.Errors.{Error, ok, Result-cases}
use one_issuer.Text.{Bytes, str_eq, join_space}
use one_issuer.Text.Order.{str_eq_refl}
use one_issuer.Domain.{Client, active_client}
use one_issuer.Token.{RefreshGeneration, RefreshInput}
use one_issuer.Token.Secret.{digest_presented_refresh_token}
use one_issuer.Token.Narrowing.{select_refresh_access_scopes}
use one_issuer.Store.{Db, Conn, returned, raised, pure}
use one_issuer.Store.Laws.{Outcome-cases}
use one_issuer.Store.Transaction.{start_db}
use one_issuer.Store.Queries.{clashes}
use one_issuer.Store.Locks.{same_authenticated_client}
use one_issuer.Store.Snapshot.{RefreshTokenAuthority, get_refresh_token_authority}
use one_issuer.Store.Refresh.{Locked}
use one_issuer.Store.Refresh.Authority.{LockedIn}
use one_issuer.Introspection.{
  IntrospectionInput, IntrospectionResponse, inactive, unless_invalid_grant, introspection_refused,
  active_response, judged, introspect_digest, introspect_refresh, is_invalid_grant,
}
use one_issuer.Store.Refresh.Count.{NoClash}
use one_issuer.Store.Refresh.Invariant.{IsRefreshStore, Keeps, start_db-keeps}
use one_issuer.Store.Snapshot.Sound.{IsSnapshot, authority-IsSnapshot}

-- Identifiers are unique: a row that is found by another test is found by its identifier.
find_by_id :
    (p : RefreshGeneration → Bool) (rows : List RefreshGeneration) (r : RefreshGeneration)
    → NoClash rows
    → find p rows ≡ some r
    → find (λ x. x.id == r.id) rows ≡ some r
find_by_id p [] r apart found = cc
find_by_id p (x ∷ rows) r (fresh, apart) found = elim (Bool-cases (p x)) [
  | inl this ↦
      let same : x ≡ r = ground arith in
      let hit : (x.id == r.id) ≡ true = ground (arith, ap (λ r. r.id) same) in rw hit (ap some same)
  | inr other ↦
      let later : find p rows ≡ some r = ground arith in
      let unlike = none_of_find p (clashes x) rows later fresh in
      let miss : (x.id == r.id) ≡ false = ground (arith, unlike) in
      rw miss (find_by_id p rows r apart later)
]

-- The request of a Client that exchanges the token.
abbrev pub exchange_of : Bytes → Client → ℕ → RefreshInput
exchange_of digest client now = record {
  token_hash = digest;
  client = client;
  requested_scopes = none;
  request_id = [];
  now = now;
}

same_as_itself : (c : Client) → active_client c ≡ true → same_authenticated_client c c ≡ true
unfolding same_authenticated_client
same_as_itself c h = ground (arith, h, str_eq_refl c.client_id)

-- The rows of a token that can be exchanged, for these Scopes.
pub record IsExchangeable (db : Db) (digest : Bytes) (input : IntrospectionInput)
    (response : IntrospectionResponse) : Type 0 where
  l : Locked
  scopes : List Bytes
  locked : LockedIn db l.presented l.family (exchange_of digest l.client input.now) l
  unconsumed : l.presented.consumed_at ≡ none
  unexpired : input.now < l.presented.expires_at
  own_client : l.client.id ≡ input.client.id
  scopes_eq :
      select_refresh_access_scopes none l.family.scopes l.grant.scopes l.client.scopes ≡ ok scopes
  scope_text : response.scope ≡ join_space scopes

exchangeable :
    (db : Db) (digest : Bytes) (input : IntrospectionInput) (a : RefreshTokenAuthority)
    (scopes : List Bytes) (response : IntrospectionResponse)
    → IsRefreshStore db
    → IsSnapshot db digest a
    → introspection_refused input digest a ≡ false
    → select_refresh_access_scopes none a.family.scopes a.grant.scopes a.client.scopes ≡ ok scopes
    → response.scope ≡ join_space scopes
    → IsExchangeable db digest input response
exchangeable db digest input a scopes response store s kept selected text = record {
  l = record {
    user = a.user;
    client = a.client;
    grant = a.grant;
    family = a.family;
    presented = a.generation;
  };
  scopes = scopes;
  locked = record {
    user_found = s.user_found;
    user_active = ground (arith, kept);
    client_found = s.client_found;
    client_same = same_as_itself a.client (ground (arith, kept));
    grant_found = s.grant_found;
    grant_kept = ground (arith, kept);
    family_found = s.family_found;
    family_kept = ground (arith, kept);
    presented_found =
        find_by_id (λ r. str_eq r.token_hash digest) db.generations a.generation store.no_clash
          s.generation_found;
    presented_kept = ground (arith, kept);
  };
  unconsumed = none_of_not_some a.generation.consumed_at (ground (arith, kept));
  unexpired = ground (arith, kept);
  own_client = ground (arith, kept);
  scopes_eq = selected;
  scope_text = text;
}

module _ (sha256 : Bytes → Bytes) (issuer : Bytes) (others : ℕ → Db → Db) where
  judged-IsExchangeable :
      (db : Db) (digest : Bytes) (input : IntrospectionInput) (a : RefreshTokenAuthority)
      (response : IntrospectionResponse)
      → IsRefreshStore db
      → IsSnapshot db digest a
      → judged sha256 issuer others input digest a ≡ response
      → response.active ≡ true
      → IsExchangeable db digest input response
  judged-IsExchangeable db digest input a response store s e on =
      elim (Bool-cases (introspection_refused input digest a)) [
        | inl refused ↦ absurd (ground arith)
        | inr kept ↦
            elim (Result-cases
              (select_refresh_access_scopes none a.family.scopes a.grant.scopes a.client.scopes)) [
                | inr (bad, failed) ↦ absurd (ground arith)
                | inl (scopes, selected) ↦
                    let told : active_response sha256 issuer others a scopes ≡ response =
                      ground arith in
                    exchangeable db digest input a scopes response store s kept selected
                      (sym (ap (λ r. r.scope) told))
              ]
      ]

  -- If introspectRefresh reports an active token, on tables that satisfy the invariant, then in the
  -- tables that its snapshot was taken from the rows of the token pass every check under lock that
  -- ExchangeRefreshToken makes for the token's own Client, which is the Client that asks; the
  -- generation is unconsumed and unexpired; and the Scopes reported are those that a refresh
  -- without requested Scopes selects.
  pub introspect_refresh-IsExchangeable :
      (input : IntrospectionInput) (c c' : Conn) (response : IntrospectionResponse)
      → Keeps others IsRefreshStore
      → IsRefreshStore c.db
      → introspect_refresh sha256 issuer others input c ≡ returned (some response) c'
      → response.active ≡ true
      → (n : ℕ) × (digest : Bytes) × (digest_presented_refresh_token sha256 input.token ≡ ok digest)
        × IsExchangeable (start_db others c.db (suc n)) digest input response
  unfolding introspect_refresh
  introspect_refresh-IsExchangeable input c c' response keeps store h on =
      elim (Result-cases (digest_presented_refresh_token sha256 input.token)) [
        | inr (bad, e) ↦ absurd (ground arith)
        | inl (digest, e) ↦ let (n, x) = of_digest digest (rw e at h) in (n, digest, e, x)
      ]
    where
      told_inactive : (c1 : Conn) → pure (some inactive) c1 ≡ returned (some response) c' → ⊥
      told_inactive c1 h1 =
          let same : inactive ≡ response = ground arith in ground (arith, ap (λ r. r.active) same)

      of_failure :
          (bad : Error) (c1 : Conn)
          → (if is_invalid_grant bad then pure (some inactive) c1 else raised bad c1)
            ≡ returned (some response) c'
          → ⊥
      of_failure bad c1 h1 = elim (Bool-cases (is_invalid_grant bad)) [
        | inl refused ↦ told_inactive c1 (rw refused at h1)
        | inr other ↦ absurd (ground arith)
      ]

      of_digest :
          (digest : Bytes)
          → introspect_digest sha256 issuer others input (ok digest) c ≡ returned (some response) c'
          → (n : ℕ) × IsExchangeable (start_db others c.db (suc n)) digest input response
      of_digest digest h1 = elim (Outcome-cases (get_refresh_token_authority others digest c)) [
        | inl (a, c1, found) ↦
            let (n, s) = authority-IsSnapshot others digest c c1 a found in
            let told : judged sha256 issuer others input digest a ≡ response =
              ground (arith, found) in
            (
              n,
              judged-IsExchangeable (start_db others c.db (suc n)) digest input a response
                  (start_db-keeps others IsRefreshStore keeps c.db (suc n) store) s told on,
            )
        | inr (bad, c1, failed) ↦
            absurd (of_failure bad c1 (rw (failed, introspect_digest, unless_invalid_grant) at h1))
      ]
