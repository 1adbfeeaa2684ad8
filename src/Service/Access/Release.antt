-- ===== src/Service/Access/Release.antt =====
-- When UserInfoForAccessToken of internal/token/token.go tells something of a User, and what.
use one_issuer.Base.{
  none_of_not_some, ℕ, suc, ◌<◌, ◌≡◌, sym, inl, inr, true, false, none, List, arith, Bool-cases,
  subst,
}
use one_issuer.Errors.{ok, Result-cases}
use one_issuer.Text.{Bytes, mem}
use one_issuer.Domain.{User, is_active, active_client}
use one_issuer.Scope.{profile, email}
use one_issuer.Scope.Canonical.{canonical_scopes_sound}
use one_issuer.Token.Secret.{hash_jti}
use one_issuer.Store.{Db, Conn, returned}
use one_issuer.Store.Laws.{>>=-elim}
use one_issuer.Store.Transaction.{start_db}
use one_issuer.Store.Snapshot.Access.{AccessAuthority, get_access_token_authority}
use one_issuer.Store.Snapshot.Access.Rows.{IsAccessSnapshot, access_authority-IsAccessSnapshot}
use one_issuer.Service.Claims.{AccessTokenClaims, UserInfo, user_info_of, parse_scope_claim}
use one_issuer.Service.Verify.{Jose}
use one_issuer.Service.Access.{
  rows_current, access_authority_matches, verified, told, user_info_of_claims,
  user_info_for_access_token,
}
use one_issuer.Service.Access.Scopes.{matches-IsMatched}

-- The rows of a live token: nothing is revoked, expired or disabled.
pub record IsLive (a : AccessAuthority) (now : ℕ) : Type 0 where
  pub unrevoked : a.metadata.revoked_at ≡ none
  pub unexpired : now < a.metadata.expires_at
  pub user_same : a.user.id ≡ a.metadata.user_id
  pub user_active : is_active a.user.status ≡ true
  pub client_active : active_client a.client ≡ true
  pub grant_same : a.grant.id ≡ a.metadata.consent_grant_id
  pub grant_kept : a.grant.revoked_at ≡ none

rows_current-IsLive : (a : AccessAuthority) (now : ℕ) → rows_current a now ≡ true → IsLive a now
unfolding rows_current
rows_current-IsLive a now h = record {
  unrevoked = none_of_not_some a.metadata.revoked_at (ground arith);
  unexpired = ground arith;
  user_same = ground arith;
  user_active = ground arith;
  client_active = ground arith;
  grant_same = ground arith;
  grant_kept = none_of_not_some a.grant.revoked_at (ground arith);
}

-- The optional claims stay within the Scopes.
abbrev pub Within : List Bytes → UserInfo → Type 0
Within scopes info =
    ((mem profile scopes ≡ false) → (info.name ≡ none) × (info.preferred_username ≡ none))
    × ((mem email scopes ≡ false) → (info.email ≡ none) × (info.email_verified ≡ none))

user_info_of-Within :
    (stored scopes : List Bytes) (user : User)
    → ((s : Bytes) → mem s scopes ≡ mem s stored)
    → Within scopes (user_info_of stored user)
unfolding user_info_of
user_info_of-Within stored scopes user same = (
  λ h. (ground (arith, same profile), ground (arith, same profile)),
  λ h. (ground (arith, same email), ground (arith, same email)),
)

module _ (sha256 : Bytes → Bytes) (jose : Jose) (issuer : Bytes) (clock_skew : ℕ)
    (others : ℕ → Db → Db) where
  -- What stands behind an answer of UserInfo.
  pub record IsReleased (db : Db) (token : Bytes) (now : ℕ) (info : UserInfo) : Type 0 where
    pub claims : AccessTokenClaims
    pub a : AccessAuthority
    pub scopes : List Bytes
    pub genuine : verified sha256 jose issuer clock_skew others token now ≡ ok claims
    pub stored : IsAccessSnapshot db (hash_jti sha256 claims.jwt_id) a
    pub live : IsLive a now
    pub claimed : parse_scope_claim claims.scope ≡ ok scopes
    pub subject_named : claims.subject ≡ a.user.subject
    pub answer : info ≡ user_info_of a.metadata.scopes a.user
    pub within : Within scopes info

  released :
      (db : Db) (token : Bytes) (now : ℕ) (info : UserInfo) (claims : AccessTokenClaims)
      (a : AccessAuthority)
      → verified sha256 jose issuer clock_skew others token now ≡ ok claims
      → IsAccessSnapshot db (hash_jti sha256 claims.jwt_id) a
      → access_authority_matches sha256 jose issuer clock_skew others a claims now ≡ true
      → user_info_of a.metadata.scopes a.user ≡ info
      → IsReleased db token now info
  released db token now info claims a genuine stored matches answer =
      let (scopes, t) =
        matches-IsMatched sha256 jose issuer clock_skew others a claims now matches in
      let same = (canonical_scopes_sound a.metadata.scopes scopes t.canonical).2 in
      record {
        claims = claims;
        a = a;
        scopes = scopes;
        genuine = genuine;
        stored = stored;
        live = rows_current-IsLive a now t.rows;
        claimed = t.claimed;
        subject_named = t.subject_named;
        answer = sym answer;
        within =
            subst (Within scopes) answer (user_info_of-Within a.metadata.scopes scopes a.user same);
      }

  -- If UserInfo answers, then the token is genuine and within its times by its own claims, and in the
  -- tables that the snapshot was taken from its identifier is that of a stored token, neither revoked
  -- nor expired, whose User, of the subject that the token names, and Client are active and whose
  -- Grant is not revoked. The answer tells the subject, the names only where the scope claim has
  -- profile, and the e-mail address only where it has email.
  pub user_info_for_access_token-IsReleased :
      (token : Bytes) (now : ℕ) (c c' : Conn) (info : UserInfo)
      → user_info_for_access_token sha256 jose issuer clock_skew others token now c
        ≡ returned info c'
      → (n : ℕ) × IsReleased (start_db others c.db (suc n)) token now info
  unfolding user_info_for_access_token
  user_info_for_access_token-IsReleased token now c c' info h =
      elim (Result-cases (verified sha256 jose issuer clock_skew others token now)) [
        | inr (bad, e) ↦ absurd (ground arith)
        | inl (claims, e) ↦ of_claims claims e (rw e at h)
      ]
    where
      of_claims :
          (claims : AccessTokenClaims)
          → verified sha256 jose issuer clock_skew others token now ≡ ok claims
          → user_info_of_claims sha256 jose issuer clock_skew others now (ok claims) c
            ≡ returned info c'
          → (n : ℕ) × IsReleased (start_db others c.db (suc n)) token now info
      of_claims claims e h1 =
          >>=-elim (get_access_token_authority others (hash_jti sha256 claims.jwt_id) now)
            (told sha256 jose issuer clock_skew others claims now) c h1
            (λ a c1 q h2.
              let (n, stored) = access_authority-IsAccessSnapshot others _ now c c1 a q in
              elim (Bool-cases
                (access_authority_matches sha256 jose issuer clock_skew others a claims now)) [
                  | inl matches ↦ (
                    n,
                    released (start_db others c.db (suc n)) token now info claims a e stored matches
                        (ground arith),
                  )
                  | inr differs ↦ absurd (ground arith)
                ])
