-- ===== src/Store/Refresh/Successor.antt =====
-- The Refresh Token that ExchangeRefreshToken answers with, and the Scopes that it names.
use one_issuer.Base.{
  ℕ, suc, ◌+◌, ◌<◌, ◌≡◌, refl, sym, ap, ◌∙◌, inl, inr, true, none, some, List, [], ◌∷◌, ◌==◌, find,
  arith,
}
use one_issuer.Errors.{Result, ok, Result-cases}
use one_issuer.Text.{Bytes, str_eq, join_space}
use one_issuer.Text.Order.{str_eq→eq, str_eq_refl}
use one_issuer.Token.{
  RefreshFamily, RefreshGeneration, RefreshInput, RefreshAuthority, RefreshMinted, Response,
}
use one_issuer.Token.Secret.{digest_presented_refresh_token}
use one_issuer.Token.Narrowing.{select_refresh_access_scopes, select_refresh_access_scopes_exact}
use one_issuer.Store.{Db, Conn, returned}
use one_issuer.Store.Transaction.{start_db}
use one_issuer.Store.Refresh.{
  Locked, Exchange, rotated, reuse_detected, digest_is, valid_refresh_minted, replacement,
  exchange_refresh_token,
}
use one_issuer.Store.Refresh.Authority.{LockedIn-Passed}
use one_issuer.Store.Refresh.Authorized.{rotated_or_reuse}
use one_issuer.Store.Refresh.Branches.{Issued, Exchanged}
use one_issuer.Store.Refresh.Ending.{exchange_refresh_token-Succeeded}

-- The token of a response is the next generation after the presented one, and can be used.
pub record IsSuccessor (sha256 : Bytes → Bytes) (db left : Db) (input : RefreshInput)
    (response : Response) : Type 0 where
  pub presented : RefreshGeneration
  pub presented_stored : find (λ r. r.id == presented.id) db.generations ≡ some presented
  pub presented_hash : presented.token_hash ≡ input.token_hash
  pub next : RefreshGeneration
  pub digest : digest_presented_refresh_token sha256 response.refresh_token ≡ ok next.token_hash
  pub next_stored : find (λ r. str_eq r.token_hash next.token_hash) left.generations ≡ some next
  pub next_number : next.generation ≡ presented.generation + 1
  pub next_unconsumed : next.consumed_at ≡ none
  pub next_issued : next.issued_at ≡ input.now
  pub next_unexpired : input.now < next.expires_at
  pub exact : (ss : List Bytes) → input.requested_scopes ≡ some ss → response.scope ≡ join_space ss

digest_is-digest :
    (sha256 : Bytes → Bytes) (clear hash : Bytes)
    → digest_is sha256 clear hash ≡ true
    → digest_presented_refresh_token sha256 clear ≡ ok hash
unfolding digest_is
digest_is-digest sha256 clear hash h =
    elim (Result-cases (digest_presented_refresh_token sha256 clear)) [
      | inr (bad, e) ↦ absurd (ground arith)
      | inl (digest, e) ↦ e ∙ ap (λ (d : Bytes). ok d) (str_eq→eq digest hash (ground arith))
    ]

minted_digest :
    (sha256 : Bytes → Bytes) (minted : RefreshMinted) (presented : RefreshGeneration)
    (family : RefreshFamily) (now : ℕ)
    → valid_refresh_minted sha256 minted presented family now ≡ true
    → (digest_is sha256 minted.replacement_clear_token minted.replacement_token_hash ≡ true)
      × (minted.issued_at ≡ now)
      × (now < minted.replacement_expires_at)
unfolding valid_refresh_minted
minted_digest sha256 minted presented family now h = (ground arith, ground arith, ground arith)

abbrev token_of : Exchange → Bytes
token_of (rotated response) = response.refresh_token
token_of reuse_detected = []

abbrev scope_of : Exchange → Bytes
scope_of (rotated response) = response.scope
scope_of reuse_detected = []

first_stored :
    (row : RefreshGeneration) (rows : List RefreshGeneration)
    → find (λ r. str_eq r.token_hash row.token_hash) (row ∷ rows) ≡ some row
first_stored row rows = rw (str_eq_refl row.token_hash) refl

module _ (sha256 : Bytes → Bytes) (others : ℕ → Db → Db)
    (mint : ℕ → RefreshAuthority → Result RefreshMinted) where
  requested_exact :
      (n : ℕ) (db left : Db) (l : Locked) (input : RefreshInput) (exchange : Exchange)
      (issued : Issued sha256 others mint n db left l input exchange) (ss : List Bytes)
      → input.requested_scopes ≡ some ss
      → issued.scopes ≡ ss
  requested_exact n db left l input exchange issued ss e =
      select_refresh_access_scopes_exact ss l.family.scopes l.grant.scopes l.client.scopes
        issued.scopes
        (ap (λ o. select_refresh_access_scopes o l.family.scopes l.grant.scopes l.client.scopes)
            (sym e)
          ∙ issued.scopes_eq)

  succeeded :
      (n : ℕ) (db left : Db) (candidate : RefreshGeneration) (candidate_family : RefreshFamily)
      (input : RefreshInput) (response : Response)
      → Exchanged sha256 others mint n db left candidate candidate_family input (rotated response)
      → IsSuccessor sha256 db left input response
  succeeded n db left candidate candidate_family input response x = elim x.did [
    | inr (at, consumed, revoked, answer) ↦ absurd (rotated_or_reuse answer)
    | inl (unconsumed, issued) ↦
        let l = x.l in
        let p = LockedIn-Passed db candidate candidate_family input l x.locked in
        let (own, now_issued, later) =
          minted_digest sha256 issued.minted l.presented l.family input.now issued.minted_valid in
        record {
          presented = l.presented;
          presented_stored = p.generation_stored;
          presented_hash = p.generation_hash;
          next = replacement l issued.minted;
          digest =
              ap (digest_presented_refresh_token sha256) (sym (ap token_of issued.answer))
              ∙ digest_is-digest sha256 _ _ own;
          next_stored =
              sym (
                ap
                  (λ d.
                    find (λ r. str_eq r.token_hash issued.minted.replacement_token_hash)
                      d.generations)
                  issued.writes.left_eq)
              ∙ first_stored (replacement l issued.minted) _;
          next_number = refl;
          next_unconsumed = refl;
          next_issued = now_issued;
          next_unexpired = later;
          exact = λ ss e.
              sym (ap scope_of issued.answer)
              ∙ ap join_space (requested_exact n db left l input (rotated response) issued ss e);
        }
  ]

  -- Each response of ExchangeRefreshToken has the successor of the presented token.
  pub exchange_refresh_token-IsSuccessor :
      (input : RefreshInput) (c c' : Conn) (response : Response)
      → exchange_refresh_token sha256 others mint input c ≡ returned response c'
      → (n : ℕ) × IsSuccessor sha256 (start_db others c.db (suc n)) c'.db input response
  exchange_refresh_token-IsSuccessor input c c' response h =
      let s = exchange_refresh_token-Succeeded sha256 others mint input c h in
      (
        s.attempt,
        succeeded s.attempt (start_db others c.db (suc s.attempt)) c'.db s.candidate
            s.candidate_family input response s.exchanged,
      )
