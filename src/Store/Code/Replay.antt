-- ===== src/Store/Code/Replay.antt =====
-- A consumed Authorization Code that comes back is refused, and recorded once.
use one_issuer.Base.{
  ℕ, ◌≡◌, refl, ◌∙◌, inl, inr, true, false, some, [], ◌∷◌, ◌==◌, arith, find, any, is_empty, length,
  if◌then◌else◌, Bool-cases,
}
use one_issuer.Errors.{Result, invalid_grant}
use one_issuer.Text.{Bytes, str_eq}
use one_issuer.Text.Sort.{sort_strings}
use one_issuer.Token.{ExchangeInput, Authority, Minted}
use one_issuer.Audit.{
  Event, event_of, valid_request_id, compact, rejected, target_authorization_code,
  authorization_code_exchange_rejected,
}
use one_issuer.Store.{AuthorizationCode, Db, returned, raised, pure, query, select, in_tx}
use one_issuer.Store.Quiet.{
  quiet, >>=-returned, new_event-eq-ok, insert_protocol_audit-quiet, in_tx-quiet,
}
use one_issuer.Store.Queries.{
  is_of_kind, lock_authorization_code_by_hash, has_authorization_code_exchange_rejection,
  insert_protocol_audit,
}
use one_issuer.Store.Code.{
  replayed, replay_code, record_replay, exchange_found, exchange_code_tx, report_code,
  exchange_authorization_code,
}

-- The event of a replay, added where there is none for the Code.
abbrev pub with_rejection : Db → AuthorizationCode → ExchangeInput → Db
with_rejection db code input = if any (is_of_kind 1 code.id) db.audits then db else (record db {
  audits =
      event_of authorization_code_exchange_rejected rejected code.user_id target_authorization_code
        code.id input.request_id [] input.now
      ∷ db.audits;
})

replay_code-quiet :
    (code : AuthorizationCode) (input : ExchangeInput) (db : Db)
    → (code.id == 0) ≡ false
    → (input.now == 0) ≡ false
    → valid_request_id input.request_id ≡ true
    → replay_code code input (quiet db) ≡ returned replayed (quiet (with_rejection db code input))
unfolding replay_code record_replay has_authorization_code_exchange_rejection select query compact
    sort_strings
replay_code-quiet code input db id at request =
    elim (Bool-cases (any (is_of_kind 1 code.id) db.audits)) [
      | inl recorded ↦ rw recorded refl
      | inr unrecorded ↦
          let event : Event =
            event_of authorization_code_exchange_rejected rejected code.user_id
              target_authorization_code code.id input.request_id [] input.now in
          rw unrecorded (
            >>=-returned
              (insert_protocol_audit authorization_code_exchange_rejected rejected code.user_id
                target_authorization_code code.id input.request_id [] input.now)
              (λ _. pure replayed) (quiet db)
              (insert_protocol_audit-quiet _ _ _ _ _ _ _ _ db event
                (new_event-eq-ok authorization_code_exchange_rejected rejected code.user_id
                  target_authorization_code code.id input.request_id [] input.now id at request
                  refl)
                unrecorded))
    ]

rejection_recorded :
    (db : Db) (code : AuthorizationCode) (input : ExchangeInput)
    → any (is_of_kind 1 code.id) (with_rejection db code input).audits ≡ true
rejection_recorded db code input = elim (Bool-cases (any (is_of_kind 1 code.id) db.audits)) [
  | inl recorded ↦ rw recorded recorded
  | inr unrecorded ↦ rw unrecorded (ground arith)
]

only_audits :
    (db : Db) (code : AuthorizationCode) (input : ExchangeInput)
    → record (with_rejection db code input) { audits = db.audits } ≡ db
only_audits db code input = elim (Bool-cases (any (is_of_kind 1 code.id) db.audits)) [
  | inl recorded ↦ rw recorded refl
  | inr unrecorded ↦ rw unrecorded refl
]

module _ (sha256 : Bytes → Bytes) (others : ℕ → Db → Db)
    (mint : ℕ → Authority → Result Minted) where
  -- A request that the first checks let pass.
  pub record WellPosed (input : ExchangeInput) : Type 0 where
    pub size : (length input.code_hash == 32) ≡ true
    pub client_set : (input.client.id == 0) ≡ false
    pub redirect_set : is_empty input.redirect_uri ≡ false
    pub verifier_set : is_empty input.code_verifier ≡ false
    pub now_set : (input.now == 0) ≡ false

  -- A Code that is stored as consumed: the call, with no database failure, reports ErrInvalidGrant,
  -- whatever else the request holds; the audit trail then holds a rejection of the Code; nothing
  -- else changes; and where a rejection is recorded already, nothing changes at all.
  pub exchange_authorization_code-replay :
      (db : Db) (input : ExchangeInput) (code : AuthorizationCode) (at : ℕ)
      → WellPosed input
      → find (λ r. str_eq r.code_hash input.code_hash) (others 0 db).codes ≡ some code
      → code.consumed_at ≡ some at
      → (code.id == 0) ≡ false
      → valid_request_id input.request_id ≡ true
      → (left : Db) × (exchange_authorization_code sha256 others mint input (quiet db)
          ≡ raised invalid_grant (quiet left))
        × (any (is_of_kind 1 code.id) left.audits ≡ true)
        × (record left { audits = (others 0 db).audits } ≡ others 0 db)
        × (any (is_of_kind 1 code.id) (others 0 db).audits ≡ true → left ≡ others 0 db)
  unfolding exchange_authorization_code exchange_code_tx lock_authorization_code_by_hash select
      query report_code
  exchange_authorization_code-replay db input code at w found consumed id request =
      let start = others 0 db in
      let left = with_rejection start code input in
      let chosen : exchange_found sha256 others mint 0 input code (quiet start)
          ≡ replay_code code input (quiet start) =
        rw consumed refl in
      let body : exchange_code_tx sha256 others mint input 0 (quiet start)
          ≡ returned replayed (quiet left) =
        rw found (chosen ∙ replay_code-quiet code input start id w.now_set request) in
      (
        left,
        rw (w.size, w.client_set, w.redirect_set, w.verifier_set, w.now_set)
            (>>=-returned (in_tx others (exchange_code_tx sha256 others mint input)) _ (quiet db) (
              in_tx-quiet others (exchange_code_tx sha256 others mint input) db left replayed
                body)),
        rejection_recorded start code input,
        only_audits start code input,
        λ recorded. rw recorded refl,
      )
