-- ===== src/Store/Code/Ending.antt =====
-- How ExchangeAuthorizationCode returns tokens: by a committed attempt that redeemed the Code.
use one_issuer.Base.{
  ℕ, suc, ◌≡◌, refl, sym, ap, subst, ◌∙◌, inl, inr, not, ◌||◌, none, some, ◌==◌, arith, find,
  is_empty, length, Option-cases,
}
use one_issuer.Errors.{Result, invalid_grant}
use one_issuer.Text.{Bytes, str_eq}
use one_issuer.Token.{ExchangeInput, Authority, Minted, Response}
use one_issuer.Store.{AuthorizationCode, Db, Conn, returned, raise_if, or_raise, in_tx}
use one_issuer.Store.Laws.{
  >>=-elim, raise_if-eq-returned, or_raise-eq-returned, pure-eq-returned, select-eq-returned,
}
use one_issuer.Store.Transaction.{start_db, Ended, in_tx-Ended}
use one_issuer.Store.Queries.{
  lock_authorization_code_by_hash, has_authorization_code_exchange_rejection,
}
use one_issuer.Store.Code.{
  CodeExchange, redeemed, replayed, replay_code, record_replay, redeem_code, exchange_found,
  exchange_code_tx, report_code, exchange_authorization_code,
}
use one_issuer.Store.Code.Redeemed.{Redeemed, redeem_code-eq-returned}

-- The branch of a consumed Code never returns tokens.
replay_code-eq-returned :
    (code : AuthorizationCode) (input : ExchangeInput) (c : Conn) {exchange : CodeExchange}
    {c' : Conn}
    → replay_code code input c ≡ returned exchange c'
    → exchange ≡ replayed
unfolding replay_code
replay_code-eq-returned code input c h =
    >>=-elim (has_authorization_code_exchange_rejection code.id) _ c h (λ recorded c1 q1 h1.
      >>=-elim (record_replay recorded code input) _ c1 h1
        (λ _ c2 q2 h2. pure-eq-returned (λ exchange c'. exchange ≡ replayed) replayed c2 h2 refl))

module _ (sha256 : Bytes → Bytes) (others : ℕ → Db → Db)
    (mint : ℕ → Authority → Result Minted) where
  -- The committed attempt behind a response.
  pub record CodeSucceeded (input : ExchangeInput) (db left : Db) (response : Response)
      : Type 0 where
    pub attempt : ℕ
    pub code : AuthorizationCode
    pub code_found :
        find (λ r. str_eq r.code_hash input.code_hash) (start_db others db (suc attempt)).codes
        ≡ some code
    pub unconsumed : code.consumed_at ≡ none
    pub did :
        Redeemed sha256 others mint
          (start_db others db (suc attempt))
          left
          code
          input
          (redeemed response)

  found-eq-returned :
      (attempt : ℕ) (input : ExchangeInput) (code : AuthorizationCode) (c : Conn)
      {response : Response} {c' : Conn}
      → exchange_found sha256 others mint attempt input code c ≡ returned (redeemed response) c'
      → (code.consumed_at ≡ none)
        × Redeemed sha256 others mint c.db c'.db code input (redeemed response)
  found-eq-returned attempt input code c {response} {c'} h = elim (Option-cases code.consumed_at) [
    | inl e ↦
        let chosen : exchange_found sha256 others mint attempt input code
            ≡ redeem_code sha256 others mint attempt code input =
          ground arith in
        (
          e,
          redeem_code-eq-returned sha256 others mint attempt code input c
              (sym (ap (λ m. m c) chosen) ∙ h),
        )
    | inr (at, e) ↦
        let chosen : exchange_found sha256 others mint attempt input code ≡ replay_code code input =
          ground arith in
        let answer = replay_code-eq-returned code input c (sym (ap (λ m. m c) chosen) ∙ h) in
        absurd (ground arith)
  ]

  tx-eq-returned :
      (attempt : ℕ) (input : ExchangeInput) (c : Conn) {response : Response} {c' : Conn}
      → exchange_code_tx sha256 others mint input attempt c ≡ returned (redeemed response) c'
      → (code : AuthorizationCode) × (find (λ r. str_eq r.code_hash input.code_hash) c.db.codes
          ≡ some code)
        × (code.consumed_at ≡ none)
        × Redeemed sha256 others mint c.db c'.db code input (redeemed response)
  unfolding exchange_code_tx lock_authorization_code_by_hash
  tx-eq-returned attempt input c {response} {c'} h =
      >>=-elim (lock_authorization_code_by_hash input.code_hash) _ c h (λ row c1 q1 h1.
        >>=-elim (or_raise row invalid_grant) _ c1 h1 (λ code c2 q2 h2.
          let (row_eq, same1) = select-eq-returned _ c q1 in
          let (some_row, same2) = or_raise-eq-returned row invalid_grant c1 q2 in
          let (unconsumed, did) = found-eq-returned attempt input code c2 h2 in
          let start : c2.db ≡ c.db = ap (λ c. c.db) same2 ∙ same1 in
          (
            code,
            sym row_eq ∙ some_row,
            unconsumed,
            subst (λ db. Redeemed sha256 others mint db c'.db code input (redeemed response)) start
                did,
          )))

  report_code-eq-returned :
      (exchange : CodeExchange) (c : Conn) {response : Response} {c' : Conn}
      → report_code sha256 others mint exchange c ≡ returned response c'
      → (exchange ≡ redeemed response) × (c ≡ c')
  unfolding report_code
  report_code-eq-returned (redeemed r) c h = (ground arith, ground arith)
  report_code-eq-returned replayed c h = cc

  pub exchange_authorization_code-CodeSucceeded :
      (input : ExchangeInput) (c : Conn) {response : Response} {c' : Conn}
      → exchange_authorization_code sha256 others mint input c ≡ returned response c'
      → CodeSucceeded input c.db c'.db response
  unfolding exchange_authorization_code
  exchange_authorization_code-CodeSucceeded input c {response} {c'} h =
      let bad =
        not (length input.code_hash == 32)
        || (input.client.id == 0)
        || is_empty input.redirect_uri
        || is_empty input.code_verifier
        || (input.now == 0) in
      let operation = exchange_code_tx sha256 others mint input in
      >>=-elim (raise_if bad invalid_grant) _ c h (λ _ c1 q1 h1.
        >>=-elim (in_tx others operation) _ c1 h1 (λ exchange c2 q2 h2.
          let at1 = ap (λ c. c.db) (raise_if-eq-returned bad invalid_grant c q1).1 in
          let (is_redeemed, last) = report_code-eq-returned exchange c2 h2 in
          let (n, ran) =
            subst (λ o. Ended others operation c.db o) q2
              (in_tx-Ended others operation c.db c1 at1) in
          let (code, found, unconsumed, did) =
            tx-eq-returned n input ran.before
              (ran.result ∙ ap (λ e. returned e ran.after) is_redeemed) in
          let left : ran.after.db ≡ c'.db = sym ran.left_eq ∙ ap (λ c. c.db) last in
          record {
            attempt = n;
            code = code;
            code_found =
                ap (λ db. find (λ r. str_eq r.code_hash input.code_hash) db.codes) (sym ran.found)
                ∙ found;
            unconsumed = unconsumed;
            did = Redeemed-congr code input ran.found left did;
          }))
    where
      Redeemed-congr :
          {d1 d2 l1 l2 : Db} (code : AuthorizationCode) (input : ExchangeInput)
          → d1 ≡ d2
          → l1 ≡ l2
          → Redeemed sha256 others mint d1 l1 code input (redeemed response)
          → Redeemed sha256 others mint d2 l2 code input (redeemed response)
      Redeemed-congr code input d l r = rw (← d, ← l) r
