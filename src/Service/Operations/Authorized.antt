-- ===== src/Service/Operations/Authorized.antt =====
-- What the repository guarantees holds of Exchange, Refresh and Revoke of the token service.
use one_issuer.Base.{ℕ, suc, ◌≡◌, inl, inr, false, ◌&&◌, arith, is_empty, Bool-cases}
use one_issuer.Text.{Bytes}
use one_issuer.Token.{ExchangeInput, RefreshInput, Response}
use one_issuer.Store.{Db, Conn, returned}
use one_issuer.Store.Transaction.{start_db}
use one_issuer.Store.Code.Once.{IsCodeAuthorized, exchange_authorization_code-IsCodeAuthorized}
use one_issuer.Store.Refresh.Successor.{IsSuccessor, exchange_refresh_token-IsSuccessor}
use one_issuer.Store.Revoke.Owner.{OwnRevocation, revoke_token-OwnRevocation}
use one_issuer.Service.Verify.{Jose}
use one_issuer.Service.Mint.{Settings, Signer, mint, mint_refresh}
use one_issuer.Service.Operations.{
  RevocationInput, bad_requested, exchange_input_refused, refresh_input_refused,
  revocation_input_skipped, exchange, refresh, revocation_lookup, revoke,
}

module _ (signer : Signer) (settings : Settings) (others : ℕ → Db → Db) where
  -- If Refresh of the service returns tokens, then the Scopes that the request names, if any, are as
  -- CanonicalScopes returns them, and the response names exactly these; and the Refresh Token of the
  -- response can be presented next: it has the format and, in the tables that the call leaves, its
  -- digest is looked up as an unconsumed generation, issued now and not yet expired, whose number is
  -- the next after that of the stored generation with the presented hash.
  pub refresh-IsSuccessor :
      (random : ℕ → Bytes) (input : RefreshInput) (c c' : Conn) (response : Response)
      → refresh signer settings others random input c ≡ returned response c'
      → (bad_requested input.requested_scopes ≡ false)
        × ((n : ℕ) × IsSuccessor signer.sha256 (start_db others c.db (suc n)) c'.db input response)
  unfolding refresh
  refresh-IsSuccessor random input c c' response h =
      elim (Bool-cases (refresh_input_refused input)) [
        | inl refused ↦ absurd (ground arith)
        | inr usable ↦ elim (Bool-cases (bad_requested input.requested_scopes)) [
          | inl bad ↦ absurd (ground arith)
          | inr good ↦ (
            good,
            exchange_refresh_token-IsSuccessor signer.sha256 others
                (λ n. mint_refresh signer settings (random n)) input c c' response (ground arith),
          )
        ]
      ]

  pub exchange-IsCodeAuthorized :
      (random : ℕ → Bytes) (input : ExchangeInput) (c c' : Conn) (response : Response)
      → exchange signer settings others random input c ≡ returned response c'
      → (n : ℕ) × IsCodeAuthorized signer.sha256 (start_db others c.db (suc n)) input response
  unfolding exchange
  exchange-IsCodeAuthorized random input c c' response h =
      elim (Bool-cases (exchange_input_refused input)) [
        | inl refused ↦ absurd (ground arith)
        | inr usable ↦
            exchange_authorization_code-IsCodeAuthorized signer.sha256 others
              (λ n. mint signer settings (random n)) input c c' response (ground arith)
      ]

  -- A successful revocation of the service is one of the repository for the digests of what was
  -- presented, or changed nothing.
  pub revoke-OwnRevocation :
      (jose : Jose) (input : RevocationInput) (c c' : Conn)
      → revoke signer settings others jose input c ≡ returned tt c'
      → (n : ℕ) × OwnRevocation
          (revocation_lookup signer settings others jose input)
          (start_db others c.db n)
          c'.db
  unfolding revoke
  revoke-OwnRevocation jose input c c' h = elim (Bool-cases (revocation_input_skipped input)) [
    | inl skipped ↦ (0, inl (ground arith))
    | inr usable ↦
        let lookup = revocation_lookup signer settings others jose input in
        elim (Bool-cases (is_empty lookup.access_jti_hash && is_empty lookup.refresh_token_hash)) [
          | inl nothing ↦ (0, inl (ground arith))
          | inr found ↦ revoke_token-OwnRevocation others lookup c c' (rw (usable, found) at h)
        ]
  ]
