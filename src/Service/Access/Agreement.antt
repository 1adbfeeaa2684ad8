-- ===== src/Service/Access/Agreement.antt =====
-- Introspection and UserInfo agree on Access Tokens, and UserInfo tells no more than the Scopes.
use one_issuer.Base.{
  ℕ, ◌≡◌, refl, sym, ap, ◌∙◌, inl, inr, true, some, arith, if◌then◌else◌, Bool-cases,
}
use one_issuer.Errors.{Error, ok, Result-cases}
use one_issuer.Text.{Bytes, str_eq, mem, join_space}
use one_issuer.Scope.{openid}
use one_issuer.Token.Secret.{hash_jti}
use one_issuer.Store.{Db, Conn, returned, raised, pure}
use one_issuer.Store.Laws.{Outcome-cases}
use one_issuer.Store.Snapshot.Access.{AccessAuthority, get_access_token_authority}
use one_issuer.Introspection.{IntrospectionInput, IntrospectionResponse, inactive}
use one_issuer.Service.Claims.{AccessTokenClaims, UserInfo, user_info_of}
use one_issuer.Service.Verify.{Jose}
use one_issuer.Service.Access.{
  access_authority_matches, verified, user_info_for_access_token, effective_access_scopes,
  active_access, judged_access, is_invalid_token, unless_invalid_token, introspect_claims,
  introspect_access,
}
use one_issuer.Service.Access.Scopes.{
  claim_text, matches-IsMatched, effective_access_scopes-IsMatched,
}
use one_issuer.Text.Order.{str_eq→eq}

subject_of :
    (a : AccessAuthority) → (user_info_of a.metadata.scopes a.user).subject ≡ a.user.subject
unfolding user_info_of
subject_of a = refl

module _ (sha256 : Bytes → Bytes) (jose : Jose) (issuer : Bytes) (clock_skew : ℕ)
    (others : ℕ → Db → Db) where
  -- The answer of UserInfo to the same token, in the same state.
  pub record IsTold (token : Bytes) (now : ℕ) (c c' : Conn) (a : AccessAuthority) : Type 0 where
    pub claims : AccessTokenClaims
    pub genuine : verified sha256 jose issuer clock_skew others token now ≡ ok claims
    pub found :
        get_access_token_authority others (hash_jti sha256 claims.jwt_id) now c ≡ returned a c'
    pub current : access_authority_matches sha256 jose issuer clock_skew others a claims now ≡ true

  active_judged :
      (input : IntrospectionInput) (claims : AccessTokenClaims) (a : AccessAuthority)
      (r : IntrospectionResponse)
      → judged_access sha256 jose issuer clock_skew others input claims a ≡ r
      → r.active ≡ true
      → (access_authority_matches sha256 jose issuer clock_skew others a claims input.now ≡ true)
        × (str_eq a.client.client_id input.client.client_id ≡ true)
        × (r ≡ active_access sha256 jose issuer clock_skew others a (effective_access_scopes a))
        × (mem openid (effective_access_scopes a) ≡ true)
  unfolding judged_access
  active_judged input claims a r h on = (ground arith, ground arith, ground arith, ground arith)

  told_inactive :
      (c1 c' : Conn) (r : IntrospectionResponse)
      → pure (some inactive) c1 ≡ returned (some r) c'
      → r.active ≡ true
      → ⊥
  told_inactive c1 c' r h on =
      let same : inactive ≡ r = ground arith in ground (arith, ap (λ r. r.active) same)

  of_failure :
      (bad : Error) (c1 c' : Conn) (r : IntrospectionResponse)
      → (if is_invalid_token sha256 jose issuer clock_skew others bad
          then pure (some inactive) c1
          else raised bad c1)
        ≡ returned (some r) c'
      → r.active ≡ true
      → ⊥
  of_failure bad c1 c' r h on =
      elim (Bool-cases (is_invalid_token sha256 jose issuer clock_skew others bad)) [
        | inl refused ↦ told_inactive c1 c' r (rw refused at h) on
        | inr other ↦ absurd (ground arith)
      ]

  -- What introspection found where it reports an active Access Token.
  introspected :
      (input : IntrospectionInput) (c c' : Conn) (r : IntrospectionResponse)
      → introspect_access sha256 jose issuer clock_skew others input c ≡ returned (some r) c'
      → r.active ≡ true
      → (a : AccessAuthority) × IsTold input.token input.now c c' a
        × (str_eq a.client.client_id input.client.client_id ≡ true)
        × (r ≡ active_access sha256 jose issuer clock_skew others a (effective_access_scopes a))
        × (mem openid (effective_access_scopes a) ≡ true)
  unfolding introspect_access
  introspected input c c' r h on =
      elim (Result-cases (verified sha256 jose issuer clock_skew others input.token input.now)) [
        | inr (bad, e) ↦ absurd (ground arith)
        | inl (claims, e) ↦ of_claims claims e (rw e at h)
      ]
    where
      of_claims :
          (claims : AccessTokenClaims)
          → verified sha256 jose issuer clock_skew others input.token input.now ≡ ok claims
          → introspect_claims sha256 jose issuer clock_skew others input (ok claims) c
            ≡ returned (some r) c'
          → (a : AccessAuthority) × IsTold input.token input.now c c' a
            × (str_eq a.client.client_id input.client.client_id ≡ true)
            × (r ≡ active_access sha256 jose issuer clock_skew others a (effective_access_scopes a))
            × (mem openid (effective_access_scopes a) ≡ true)
      of_claims claims e h1 =
          elim (Outcome-cases
            (get_access_token_authority others (hash_jti sha256 claims.jwt_id) input.now c)) [
              | inr (bad, c1, failed) ↦ absurd (
                  of_failure bad c1 c' r
                    (rw (failed, introspect_claims, unless_invalid_token) at h1) on)
              | inl (a, c1, found) ↦
                  let same : judged_access sha256 jose issuer clock_skew others input claims a ≡ r =
                    ground (arith, found) in
                  let there : c1 ≡ c' = ground (arith, found) in
                  let (current, own, answer, openid_in) = active_judged input claims a r same on in
                  (
                    a,
                    record {
                      claims = claims;
                      genuine = e;
                      found = found ∙ ap (λ c. returned a c) there;
                      current = current;
                    },
                    own,
                    answer,
                    openid_in,
                  )
            ]

  user_info-IsTold :
      (token : Bytes) (now : ℕ) (c c' : Conn) (a : AccessAuthority)
      → IsTold token now c c' a
      → user_info_for_access_token sha256 jose issuer clock_skew others token now c
        ≡ returned (user_info_of a.metadata.scopes a.user) c'
  unfolding user_info_for_access_token
  user_info-IsTold token now c c' a t = ground (arith, t.genuine, t.found, t.current)

  -- If introspectAccess reports an active token, then UserInfo, asked with the same token in the same
  -- state, answers, and names the same subject; the Client that introspects is the one that
  -- the token names; and the
  -- Scopes reported are the whole scope claim of the token, as it is written there.
  pub introspect_access-UserInfo :
      (input : IntrospectionInput) (c c' : Conn) (r : IntrospectionResponse)
      → introspect_access sha256 jose issuer clock_skew others input c ≡ returned (some r) c'
      → r.active ≡ true
      → (info : UserInfo) × (claims : AccessTokenClaims) × (user_info_for_access_token sha256 jose
            issuer clock_skew others input.token input.now c
          ≡ returned info c')
        × (info.subject ≡ r.subject)
        × (verified sha256 jose issuer clock_skew others input.token input.now ≡ ok claims)
        × (r.scope ≡ claims.scope)
        × (r.client_id ≡ claims.client_id)
        × (r.client_id ≡ input.client.client_id)
  introspect_access-UserInfo input c c' r h on =
      let (a, t, own, answer, openid_in) = introspected input c c' r h on in
      let (scopes, matched) =
        matches-IsMatched sha256 jose issuer clock_skew others a t.claims input.now t.current in
      (
        user_info_of a.metadata.scopes a.user,
        t.claims,
        user_info-IsTold input.token input.now c c' a t,
        subject_of a ∙ sym (ap (λ r. r.subject) answer),
        t.genuine,
        ap (λ r. r.scope) answer
            ∙ ap join_space (
                effective_access_scopes-IsMatched sha256 jose issuer clock_skew others a t.claims
                  input.now scopes matched)
            ∙ claim_text t.claims.scope scopes matched.claimed,
        ap (λ r. r.client_id) answer ∙ sym matched.client_named,
        ap (λ r. r.client_id) answer ∙ str_eq→eq a.client.client_id input.client.client_id own,
      )
