-- ===== src/Service/Access/Answered.antt =====
-- Introspect of internal/token/lifecycle.go answers every caller, whatever it presents.
use one_issuer.Base.{
  ℕ, ◌≡◌, sym, ap, inl, inr, Bool, true, false, Option, none, some, [], arith, if◌then◌else◌,
  Bool-cases, subst,
}
use one_issuer.Errors.{Error, Result, ok, err}
use one_issuer.Text.{Bytes, codes, str_eq}
use one_issuer.Token.Secret.{hash_jti}
use one_issuer.Store.{Db, Conn, returned, raised, Tx, pure}
use one_issuer.Store.Laws.{Outcome-cases}
use one_issuer.Store.Settled.{Settles, >>=-Settles}
use one_issuer.Store.Settled.Snapshots.{
  is_token_error, get_refresh_token_authority-Settles, get_access_token_authority-Settles,
}
use one_issuer.Store.Snapshot.{get_refresh_token_authority}
use one_issuer.Store.Snapshot.Access.{get_access_token_authority}
use one_issuer.Introspection.{
  IntrospectionInput, IntrospectionResponse, inactive, judged, is_invalid_grant,
  unless_invalid_grant, introspect_digest, introspect_refresh,
}
use one_issuer.Service.Claims.{AccessTokenClaims}
use one_issuer.Service.Verify.{Jose}
use one_issuer.Service.Access.{
  judged_access, is_invalid_token, unless_invalid_token, introspect_claims, introspect_access,
  or_else, introspection_input_refused, introspect,
}

-- No error is expected.
abbrev never : Error → Bool
never e = false

unless_invalid_grant-Settles :
    {A B : Type 0} (m : Tx A) (other : Tx B) (next : A → Tx B) (c : Conn)
    → Settles is_invalid_grant (m c)
    → ((c1 : Conn) → c1.faults ≡ [] → Settles never (other c1))
    → ((a : A) (c1 : Conn) → c1.faults ≡ [] → Settles never (next a c1))
    → Settles never (unless_invalid_grant m other next c)
unless_invalid_grant-Settles m other next c h on_error on_result = elim (Outcome-cases (m c)) [
  | inl (a, c1, e) ↦
      subst (Settles never)
        (sym (
          ap
            (λ o. elim o [
              | returned a c' ↦ next a c'
              | raised e c' ↦ if is_invalid_grant e then other c' else raised e c'
            ])
            e))
        (on_result a c1 (subst (Settles is_invalid_grant) e h))
  | inr (bad, c1, e) ↦
      let (known, still) = subst (Settles is_invalid_grant) e h in
      subst (Settles never)
        (sym (
          ap
            (λ o. elim o [
              | returned a c' ↦ next a c'
              | raised e c' ↦ if is_invalid_grant e then other c' else raised e c'
            ])
            e))
        (rw known (on_error c1 still))
]

module _ (sha256 : Bytes → Bytes) (jose : Jose) (issuer : Bytes) (clock_skew : ℕ)
    (others : ℕ → Db → Db) where
  same_error :
      (e : Error)
      → is_token_error e ≡ true
      → is_invalid_token sha256 jose issuer clock_skew others e ≡ true
  same_error e h = ground arith

  unless_invalid_token-Settles :
      {A B : Type 0} (m : Tx A) (other : Tx B) (next : A → Tx B) (c : Conn)
      → Settles is_token_error (m c)
      → ((c1 : Conn) → c1.faults ≡ [] → Settles never (other c1))
      → ((a : A) (c1 : Conn) → c1.faults ≡ [] → Settles never (next a c1))
      → Settles never (unless_invalid_token sha256 jose issuer clock_skew others m other next c)
  unless_invalid_token-Settles m other next c h on_error on_result = elim (Outcome-cases (m c)) [
    | inl (a, c1, e) ↦
        subst (Settles never)
          (sym (
            ap
              (λ o. elim o [
                | returned a c' ↦ next a c'
                | raised e c' ↦
                    if is_invalid_token sha256 jose issuer clock_skew others e
                    then other c'
                    else raised e c'
              ])
              e))
          (on_result a c1 (subst (Settles is_token_error) e h))
    | inr (bad, c1, e) ↦
        let (known, still) = subst (Settles is_token_error) e h in
        subst (Settles never)
          (sym (
            ap
              (λ o. elim o [
                | returned a c' ↦ next a c'
                | raised e c' ↦
                    if is_invalid_token sha256 jose issuer clock_skew others e
                    then other c'
                    else raised e c'
              ])
              e))
          (rw (same_error bad known) (on_error c1 still))
  ]

  digest-Settles :
      (input : IntrospectionInput) (r : Result Bytes) (c : Conn)
      → c.faults ≡ []
      → Settles never (introspect_digest sha256 issuer others input r c)
  digest-Settles input (err e) c h = h
  digest-Settles input (ok digest) c h =
      unless_invalid_grant-Settles (get_refresh_token_authority others digest)
        (pure (some inactive)) (λ a. pure (some (judged sha256 issuer others input digest a))) c
        (get_refresh_token_authority-Settles others digest c h) (λ c1 h1. h1) (λ a c1 h1. h1)

  claims-Settles :
      (input : IntrospectionInput) (r : Result AccessTokenClaims) (c : Conn)
      → c.faults ≡ []
      → Settles never (introspect_claims sha256 jose issuer clock_skew others input r c)
  claims-Settles input (err e) c h = h
  claims-Settles input (ok claims) c h =
      unless_invalid_token-Settles
        (get_access_token_authority others (hash_jti sha256 claims.jwt_id) input.now)
        (pure (some inactive))
        (λ a. pure (some (judged_access sha256 jose issuer clock_skew others input claims a))) c
        (get_access_token_authority-Settles others _ input.now c h) (λ c1 h1. h1) (λ a c1 h1. h1)

  or_else-Settles :
      (m : Tx (Option IntrospectionResponse)) (rest : Tx IntrospectionResponse) (c : Conn)
      → Settles never (m c)
      → ((c1 : Conn) → c1.faults ≡ [] → Settles never (rest c1))
      → Settles never (or_else sha256 jose issuer clock_skew others m rest c)
  or_else-Settles m rest c h next =
      >>=-Settles never m (λ o. elim o [ none ↦ rest | some response ↦ pure response ]) c h found
    where
      found :
          (o : Option IntrospectionResponse) (c1 : Conn)
          → c1.faults ≡ []
          → Settles never (
              (elim o as (λ _. Tx IntrospectionResponse) [
                | none ↦ rest
                | some response ↦ pure response
              ])
                c1)
      found none c1 h1 = next c1 h1
      found (some response) c1 h1 = h1

  introspect-Settles :
      (input : IntrospectionInput) (c : Conn)
      → c.faults ≡ []
      → Settles never (introspect sha256 jose issuer clock_skew others input c)
  unfolding introspect introspect_refresh introspect_access
  introspect-Settles input c h =
      elim (Bool-cases (introspection_input_refused sha256 jose issuer clock_skew others input)) [
        | inl refused ↦ rw refused h
        | inr usable ↦ elim (Bool-cases (str_eq input.hint (codes "refresh_token"))) [
          | inl hinted ↦
              rw (usable, hinted)
                (or_else-Settles (introspect_refresh sha256 issuer others input)
                  (or_else sha256 jose issuer clock_skew others
                    (introspect_access sha256 jose issuer clock_skew others input) (pure inactive))
                  c (digest-Settles input _ c h)
                  (λ c1 h1.
                    or_else-Settles (introspect_access sha256 jose issuer clock_skew others input)
                      (pure inactive) c1 (claims-Settles input _ c1 h1) (λ c2 h2. h2)))
          | inr other ↦
              rw (usable, other)
                (or_else-Settles (introspect_access sha256 jose issuer clock_skew others input)
                  (or_else sha256 jose issuer clock_skew others
                    (introspect_refresh sha256 issuer others input) (pure inactive))
                  c (claims-Settles input _ c h)
                  (λ c1 h1.
                    or_else-Settles (introspect_refresh sha256 issuer others input) (pure inactive)
                      c1 (digest-Settles input _ c1 h1) (λ c2 h2. h2)))
        ]
      ]

  -- On a connection that reports no failure, Introspect answers every request, and no failure is left
  -- to come: a value that is no token of the caller gets an answer, never an error, whatever other
  -- transactions commit.
  pub introspect-answers :
      (input : IntrospectionInput) (c : Conn)
      → c.faults ≡ []
      → (response : IntrospectionResponse) × (c' : Conn) × (introspect sha256 jose issuer clock_skew
            others input c
          ≡ returned response c')
        × (c'.faults ≡ [])
  introspect-answers input c h =
      elim (Outcome-cases (introspect sha256 jose issuer clock_skew others input c)) [
        | inl (response, c1, e) ↦
            (response, c1, e, subst (Settles never) e (introspect-Settles input c h))
        | inr (bad, c1, e) ↦
            let (impossible, still) = subst (Settles never) e (introspect-Settles input c h) in
            absurd (ground arith)
      ]
