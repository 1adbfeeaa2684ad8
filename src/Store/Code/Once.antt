-- ===== src/Store/Code/Once.antt =====
-- An Authorization Code is exchanged once, and only for what it was issued for.
use one_issuer.Base.{
  none_of_not_some, ℕ, suc, ◌<◌, ◌≡◌, ◌≢◌, refl, sym, ap, ◌∙◌, inl, inr, true, ◌&&◌, none, some,
  List, [], ◌∷◌, ◌==◌, arith, find, is_some, is_empty, ltb→lt, Bool-cases,
}
use one_issuer.Errors.{Result, ok, Result-cases}
use one_issuer.Text.{Bytes, codes, str_eq, mem, join_space}
use one_issuer.Text.Order.{str_eq→eq}
use one_issuer.Domain.{User, Client, Grant, Status, active, disabled, is_active}
use one_issuer.Scope.{canonical_scopes, intersection, difference}
use one_issuer.Scope.Canonical.{canonical_scopes-IsScopeList}
use one_issuer.Scope.Algebra.{IsSubset, subset_sound, difference-is_empty_iff, mem-intersection}
use one_issuer.Token.{ExchangeInput, Authority, Minted, Response}
use one_issuer.Token.Secret.{verify_s256}
use one_issuer.Store.{AuthorizationCode, Db, Conn, returned}
use one_issuer.Store.Transaction.{start_db}
use one_issuer.Store.Queries.{amend, code_is_live, code_consumed, find_client}
use one_issuer.Store.Locks.{same_authenticated_client}
use one_issuer.Store.Code.{
  CodeExchange, redeemed, replayed, canonical_code_scopes, exchange_authorization_code,
}
use one_issuer.Store.Code.Ending.{exchange_authorization_code-CodeSucceeded}
use one_issuer.Store.Refresh.Invariant.{Keeps, start_db-keeps}

-- The Code that a lookup of the hash finds is consumed.
abbrev pub IsRedeemed : Bytes → Db → Type 0
IsRedeemed hash db =
    (code : AuthorizationCode) × (find (λ r. str_eq r.code_hash hash) db.codes ≡ some code)
    × (is_some code.consumed_at ≡ true)

find-amend :
    (hash : Bytes) (at : ℕ) (code : AuthorizationCode) (rows : List AuthorizationCode)
    → find (λ r. str_eq r.code_hash hash) rows ≡ some code
    → code_is_live code.id at code ≡ true
    → find (λ r. str_eq r.code_hash hash) (amend (code_is_live code.id at) (code_consumed at) rows)
      ≡ some (code_consumed at code)
find-amend hash at code [] found live = cc
find-amend hash at code (x ∷ rows) found live = elim (Bool-cases (str_eq x.code_hash hash)) [
  | inl this ↦
      let same : x ≡ code = ground arith in
      let hit : code_is_live code.id at x ≡ true = ap (code_is_live code.id at) same ∙ live in
      rw (hit, this) (ap (λ r. some (code_consumed at r)) same)
  | inr other ↦ elim (Bool-cases (code_is_live code.id at x)) [
    | inl hit ↦ rw (hit, other) (find-amend hash at code rows (ground arith) live)
    | inr miss ↦ rw (miss, other) (find-amend hash at code rows (ground arith) live)
  ]
]

-- What stood in the tables when the Code was exchanged.
pub record IsCodeAuthorized (sha256 : Bytes → Bytes) (db : Db) (input : ExchangeInput)
    (response : Response) : Type 0 where
  code : AuthorizationCode
  user : User
  client : Client
  grant : Grant
  scopes : List Bytes
  code_stored : find (λ r. str_eq r.code_hash input.code_hash) db.codes ≡ some code
  unconsumed : code.consumed_at ≡ none
  unexpired : input.now < code.expires_at
  same_redirect : code.redirect_uri ≡ input.redirect_uri
  pkce_method : code.pkce_method ≡ codes "S256"
  pkce_fits : verify_s256 sha256 input.code_verifier code.pkce_challenge ≡ true
  user_stored : find (λ u. u.id == code.user_id) db.users ≡ some user
  user_active : user.status ≡ active
  client_stored : find_client code.client_id db ≡ some client
  client_same : same_authenticated_client client input.client ≡ true
  redirect_registered : mem code.redirect_uri client.redirect_uris ≡ true
  grant_stored :
      find (λ g. g.user_id == code.user_id && g.client_id == code.client_id) db.grants ≡ some grant
  grant_id : grant.id ≡ code.consent_grant_id
  grant_version : grant.version ≡ code.consent_grant_version
  grant_live : grant.revoked_at ≡ none
  scopes_eq : canonical_scopes code.scopes ≡ ok scopes
  scope_text : response.scope ≡ join_space scopes
  in_client : IsSubset scopes client.scopes
  in_grant : IsSubset scopes grant.scopes

is_active→eq : (s : Status) → is_active s ≡ true → s ≡ active
is_active→eq active h = refl
is_active→eq disabled h = cc

canonical_of :
    (scopes canonical : List Bytes)
    → canonical_code_scopes scopes ≡ ok canonical
    → canonical_scopes scopes ≡ ok canonical
canonical_of scopes canonical h = elim (Result-cases (canonical_scopes scopes)) [
  | inl (found, e) ↦ ground arith
  | inr (bad, e) ↦ absurd (ground arith)
]

abbrev scope_of : CodeExchange → Bytes
scope_of (redeemed response) = response.scope
scope_of replayed = []

in_grant_of :
    (scopes canonical grant client : List Bytes)
    → canonical_scopes scopes ≡ ok canonical
    → is_empty (difference canonical (intersection grant client)) ≡ true
    → IsSubset canonical grant
in_grant_of scopes canonical grant client e h s member =
    let v = (canonical_scopes-IsScopeList scopes canonical e).0 in
    ground (
      arith,
      (difference-is_empty_iff canonical (intersection grant client) v.all_supported).0 h s member,
      mem-intersection s grant client,
    )

module _ (sha256 : Bytes → Bytes) (others : ℕ → Db → Db)
    (mint : ℕ → Authority → Result Minted) where
  -- If ExchangeAuthorizationCode returns tokens, then in the tables that its committed attempt
  -- started from the Code was stored, unconsumed and unexpired, for the redirection that the
  -- request names and with a challenge that its verifier meets under S256; its User was active, its
  -- Client was the authenticated one, active and still registered with the redirection, and its
  -- Grant was of the version that the Code records and not revoked; and the Scopes of the response
  -- are those of the Code, all of them in the Client's policy and in the Grant.
  pub exchange_authorization_code-IsCodeAuthorized :
      (input : ExchangeInput) (c c' : Conn) (response : Response)
      → exchange_authorization_code sha256 others mint input c ≡ returned response c'
      → (n : ℕ) × IsCodeAuthorized sha256 (start_db others c.db (suc n)) input response
  exchange_authorization_code-IsCodeAuthorized input c c' response h =
      let s = exchange_authorization_code-CodeSucceeded sha256 others mint input c h in
      let d = s.did in
      let canonical = canonical_of s.code.scopes d.scopes d.scopes_eq in
      (
        s.attempt,
        record {
          code = s.code;
          user = d.user;
          client = d.client;
          grant = d.grant;
          scopes = d.scopes;
          code_stored = s.code_found;
          unconsumed = s.unconsumed;
          unexpired = ltb→lt _ _ d.unexpired;
          same_redirect = str_eq→eq _ _ (ground (arith, d.fits));
          pkce_method = str_eq→eq _ _ (ground (arith, d.fits));
          pkce_fits = ground (arith, d.fits);
          user_stored = d.user_found;
          user_active = is_active→eq d.user.status d.user_active;
          client_stored = d.client_found;
          client_same = d.client_same;
          redirect_registered = d.redirect;
          grant_stored = d.grant_found;
          grant_id = ground (arith, d.grant_kept);
          grant_version = ground (arith, d.grant_kept);
          grant_live = none_of_not_some d.grant.revoked_at (ground (arith, d.grant_kept));
          scopes_eq = canonical;
          scope_text = sym (ap scope_of d.answer);
          in_client = subset_sound d.scopes d.client.scopes d.in_client;
          in_grant =
              in_grant_of s.code.scopes d.scopes d.grant.scopes d.client.scopes canonical
                (ground (arith, d.grant_kept));
        },
      )

  success-IsRedeemed :
      (input : ExchangeInput) (c c' : Conn) (response : Response)
      → exchange_authorization_code sha256 others mint input c ≡ returned response c'
      → IsRedeemed input.code_hash c'.db
  success-IsRedeemed input c c' response h =
      let s = exchange_authorization_code-CodeSucceeded sha256 others mint input c h in
      let live : code_is_live s.code.id input.now s.code ≡ true =
        ground (arith, s.unconsumed, s.did.unexpired) in
      (
        code_consumed input.now s.code,
        ap (find (λ r. str_eq r.code_hash input.code_hash)) (sym s.did.codes_left)
            ∙ find-amend input.code_hash input.now s.code
                (start_db others c.db (suc s.attempt)).codes s.code_found live,
        refl,
      )

  -- An Authorization Code gives tokens at most once: after ExchangeAuthorizationCode returned tokens
  -- for it, no later call with the same hash returns any, whatever Client, redirection and verifier
  -- it presents, provided that what other transactions commit between the two calls and during the
  -- second leaves the Code consumed.
  pub exchange_authorization_code_once :
      (first second : ExchangeInput) (c c' d d' : Conn) (one two : Response)
      → Keeps others (IsRedeemed first.code_hash)
      → second.code_hash ≡ first.code_hash
      → exchange_authorization_code sha256 others mint first c ≡ returned one c'
      → (IsRedeemed first.code_hash c'.db → IsRedeemed first.code_hash d.db)
      → exchange_authorization_code sha256 others mint second d ≢ returned two d'
  exchange_authorization_code_once first second c c' d d' one two keeps same h later again =
      let s = exchange_authorization_code-CodeSucceeded sha256 others mint second d again in
      let (code, found, consumed) =
        start_db-keeps others (IsRedeemed first.code_hash) keeps d.db (suc s.attempt)
          (later (success-IsRedeemed first c c' one h)) in
      let found' : find (λ r. str_eq r.code_hash first.code_hash)
            (start_db others d.db (suc s.attempt)).codes
          ≡ some s.code =
        ap
          (λ hash. find (λ r. str_eq r.code_hash hash) (start_db others d.db (suc s.attempt)).codes)
          (sym same)
        ∙ s.code_found in
      let one_row : some code ≡ some s.code = sym found ∙ found' in
      ground (arith, one_row, consumed, s.unconsumed)
