-- ===== src/Store/Code/Branches.antt =====
-- What an ExchangeAuthorizationCode transaction went through when it reported tokens.
use one_issuer.Base.{ℕ, ◌≡◌, refl, sym, ap, ◌∙◌, not, Option, none, some, List, arith, is_some}
use one_issuer.Errors.{invalid_grant}
use one_issuer.Text.{Bytes}
use one_issuer.Domain.{Grant}
use one_issuer.Token.{ExchangeInput, Minted, InitialRefresh}
use one_issuer.Store.{AuthorizationCode, Conn, returned, raise_if, or_raise}
use one_issuer.Store.Laws.{
  >>=-eq-returned, raise_if-eq-returned, or_raise-eq-returned, pure-eq-returned,
}
use one_issuer.Store.Queries.{
  amend, code_is_live, code_consumed, create_refresh_token_family, create_refresh_token,
  create_access_token, consume_authorization_code, insert_protocol_audit,
}
use one_issuer.Store.Effects.{
  create_refresh_token-eq-returned, create_access_token-eq-returned,
  insert_protocol_audit-eq-returned, create_refresh_token_family-eq-returned,
  consume_authorization_code-eq-returned,
}
use one_issuer.Store.Code.{CodeExchange, redeemed, start_family, audit_initial, redeem_writes}
use one_issuer.Store.Minted.{initial_family, initial_generation, code_access, code_response}

-- The start of a family leaves the table of Codes, and so does the last event.
start_family-codes :
    (code : AuthorizationCode) (grant : Grant) (scopes : List Bytes) (minted : Minted)
    (initial : Option InitialRefresh) (c : Conn) {family : Option ℕ} {c' : Conn}
    → start_family code grant scopes minted initial c ≡ returned family c'
    → c'.db.codes ≡ c.db.codes
unfolding start_family
start_family-codes code grant scopes minted none c h = ground arith
start_family-codes code grant scopes minted (some initial) c h =
    let (_, c1, q1, h1) =
      >>=-eq-returned (raise_if (not (is_some code.origin_session_id)) invalid_grant) _ c h in
    let (binding, c2, q2, h2) =
      >>=-eq-returned (or_raise code.session_binding_id invalid_grant) _ c1 h1 in
    let family = initial_family code grant scopes minted initial binding in
    let (_, c3, q3, h3) = >>=-eq-returned (create_refresh_token_family family) _ c2 h2 in
    let (_, c4, q4, h4) =
      >>=-eq-returned (create_refresh_token (initial_generation minted initial)) _ c3 h3 in
    let (_, same1) =
      raise_if-eq-returned (not (is_some code.origin_session_id)) invalid_grant c q1 in
    let (_, same2) = or_raise-eq-returned code.session_binding_id invalid_grant c1 q2 in
    let db3 = create_refresh_token_family-eq-returned c2 family q3 in
    let (_, db4) = create_refresh_token-eq-returned c3 (initial_generation minted initial) q4 in
    pure-eq-returned (λ a c'. c'.db.codes ≡ c.db.codes) _ c4 h4
      (sym (ap (λ db. db.codes) db4)
        ∙ sym (ap (λ db. db.codes) db3)
        ∙ ap (λ c. c.db.codes) same2
        ∙ ap (λ c. c.db.codes) same1)

audit_initial-codes :
    (code : AuthorizationCode) (input : ExchangeInput) (initial : Option InitialRefresh) (c : Conn)
    {c' : Conn}
    → audit_initial code input initial c ≡ returned tt c'
    → c'.db.codes ≡ c.db.codes
unfolding audit_initial
audit_initial-codes code input none c h = ground arith
audit_initial-codes code input (some initial) c h =
    let (_, _, db) = insert_protocol_audit-eq-returned _ _ _ _ _ _ _ _ c h in
    sym (ap (λ db. db.codes) db)

-- The Code is consumed, and the tokens are in the answer.
pub redeem_writes-eq-returned :
    (code : AuthorizationCode) (grant : Grant) (scopes : List Bytes) (minted : Minted)
    (input : ExchangeInput) (c : Conn) {exchange : CodeExchange} {c' : Conn}
    → redeem_writes code grant scopes minted input c ≡ returned exchange c'
    → (amend (code_is_live code.id input.now) (code_consumed input.now) c.db.codes ≡ c'.db.codes)
      × (redeemed (code_response scopes minted) ≡ exchange)
unfolding redeem_writes
redeem_writes-eq-returned code grant scopes minted input c h =
    let (family, c1, q1, h1) =
      >>=-eq-returned (start_family code grant scopes minted minted.initial_refresh) _ c h in
    let (_, c2, q2, h2) =
      >>=-eq-returned (create_access_token (code_access code grant scopes minted family)) _ c1 h1 in
    let (taken, c3, q3, h3) =
      >>=-eq-returned (consume_authorization_code code.id input.now) _ c2 h2 in
    let (_, c4, q4, h4) = >>=-eq-returned (raise_if (not taken) invalid_grant) _ c3 h3 in
    let (_, c5, q5, h5) = >>=-eq-returned (insert_protocol_audit _ _ _ _ _ _ _ _) _ c4 h4 in
    let (_, c6, q6, h6) = >>=-eq-returned (insert_protocol_audit _ _ _ _ _ _ _ _) _ c5 h5 in
    let (_, c7, q7, h7) =
      >>=-eq-returned (audit_initial code input minted.initial_refresh) _ c6 h6 in
    let keep1 = start_family-codes code grant scopes minted minted.initial_refresh c q1 in
    let (_, db2) =
      create_access_token-eq-returned c1 (code_access code grant scopes minted family) q2 in
    let (_, db3) = consume_authorization_code-eq-returned c2 code.id input.now q3 in
    let (_, same4) = raise_if-eq-returned (not taken) invalid_grant c3 q4 in
    let (_, _, db5) = insert_protocol_audit-eq-returned _ _ _ _ _ _ _ _ c4 q5 in
    let (_, _, db6) = insert_protocol_audit-eq-returned _ _ _ _ _ _ _ _ c5 q6 in
    let keep7 = audit_initial-codes code input minted.initial_refresh c6 q7 in
    let keep2 = ap (λ db. db.codes) db2 in
    let consume = amend (code_is_live code.id input.now) (code_consumed input.now) in
    pure-eq-returned
      (λ exchange c'.
        (consume c.db.codes ≡ c'.db.codes) × (redeemed (code_response scopes minted) ≡ exchange))
      _ c7 h7
      (
        ap consume (sym keep1 ∙ keep2)
            ∙ ap (λ db. db.codes) db3
            ∙ sym (ap (λ c. c.db.codes) same4)
            ∙ ap (λ db. db.codes) db5
            ∙ ap (λ db. db.codes) db6
            ∙ sym keep7,
        refl,
      )
