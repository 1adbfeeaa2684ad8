-- ===== src/Oidc/TokenRequest/Grants.antt =====
-- What the grants of an accepted token request are like, parameter by parameter.
use one_issuer.Base.{
  ◌<◌, ◌≤◌, ap, ◌∙◌, not, ◌&&◌, ◌≡◌, refl, sym, ◌⊎◌, inl, inr, Bool, true, false, Option, none,
  some, List, [], ◌∷◌, arith, ltb, is_empty, Bool-cases, Option-cases,
}
use one_issuer.Errors.{Result, ok, err}
use one_issuer.Text.{Bytes, codes, str_eq, mem}
use one_issuer.Text.Order.{str_eq→eq, any_of_mem}
use one_issuer.Domain.{Client}
use one_issuer.Scope.{canonical_scopes}
use one_issuer.Scope.Canonical.{canonical_scopes_idempotent}
use one_issuer.Token.Secret.{digest_presented_refresh_token, digest_presented_code, valid_verifier}
use one_issuer.Url.{Values, entries, get, count_of}
use one_issuer.Oidc.Checked.{accepted}
use one_issuer.Oidc.Lists.{split_strict_space_list}
use one_issuer.Oidc.TokenRequest.{
  Fosite, VerifiedTokenRequest, only_token_parameters, parse_refresh_scope, canonical_of_parts,
  requested_scopes, authorization_code_grant, refresh_token_grant, code_request, refresh_request,
  check_form, grant_request, code_parameters, refresh_parameters, lacks_code_parameter,
  single_parameters, repeats_token_parameter,
}

-- The code grant of an accepted request.
pub record IsCodeGrant (sha256 : Bytes → Bytes) (form : Values) (r : VerifiedTokenRequest)
    : Type 0 where
  pub one_type : count_of form (codes "grant_type") ≡ 1
  pub grant_type : get form (codes "grant_type") ≡ codes "authorization_code"
  pub same_type : r.grant_type ≡ get form (codes "grant_type")
  pub only :
      (name : Bytes)
      → 0 < count_of form name
      → mem name (
          codes "grant_type"
          ∷ codes "code"
          ∷ codes "redirect_uri"
          ∷ codes "code_verifier"
          ∷ codes "client_id"
          ∷ codes "scope"
          ∷ [])
        ≡ true
  pub code : digest_presented_code sha256 (get form (codes "code")) ≡ ok r.code_hash
  pub redirect : is_empty r.redirect_uri ≡ false
  pub same_redirect : r.redirect_uri ≡ get form (codes "redirect_uri")
  pub verifier : valid_verifier r.code_verifier ≡ true
  pub same_verifier : r.code_verifier ≡ get form (codes "code_verifier")

-- The refresh grant of an accepted request; requested Scopes are canonical.
pub record IsRefreshGrant (sha256 : Bytes → Bytes) (form : Values) (r : VerifiedTokenRequest)
    : Type 0 where
  pub one_type : count_of form (codes "grant_type") ≡ 1
  pub grant_type : get form (codes "grant_type") ≡ codes "refresh_token"
  pub same_type : r.grant_type ≡ get form (codes "grant_type")
  pub only :
      (name : Bytes)
      → 0 < count_of form name
      → mem name
          (codes "grant_type" ∷ codes "refresh_token" ∷ codes "client_id" ∷ codes "scope" ∷ [])
        ≡ true
  pub token :
      digest_presented_refresh_token sha256 (get form (codes "refresh_token"))
      ≡ ok r.refresh_token_hash
  pub unrequested : count_of form (codes "scope") ≡ 0 → r.scopes ≡ none
  pub canonical : {ss : List Bytes} → r.scopes ≡ some ss → canonical_scopes ss ≡ ok ss

only_token_parameters-mem :
    (form : Values) (allowed : List Bytes) (name : Bytes)
    → only_token_parameters form allowed ≡ true
    → 0 < count_of form name
    → mem name allowed ≡ true
unfolding only_token_parameters entries
only_token_parameters-mem [] allowed name h present = absurd (omega arith)
only_token_parameters-mem ((key, found) ∷ rest) allowed name h present =
    elim (Bool-cases (str_eq key name)) [
      | inl same ↦ sym (ap (λ (n : Bytes). mem n allowed) (str_eq→eq key name same)) ∙ ground arith
      | inr other ↦ only_token_parameters-mem rest allowed name (ground arith) (ground arith)
    ]

unrequested_scopes :
    (form : Values) (o : Option (List Bytes))
    → requested_scopes form ≡ some o
    → count_of form (codes "scope") ≡ 0
    → o ≡ none
unfolding requested_scopes
unrequested_scopes form o h none_given = ground (arith, none_given)

canonical_of_parts-eq-some :
    (parts ss : List Bytes) (r : Result (List Bytes))
    → canonical_of_parts parts r ≡ some ss
    → r ≡ ok ss
canonical_of_parts-eq-some parts ss (err e) h = cc
canonical_of_parts-eq-some parts ss (ok canonical) h = ground arith

parse_refresh_scope-canonical :
    (raw : Bytes) (ss : List Bytes)
    → parse_refresh_scope raw ≡ some ss
    → canonical_scopes ss ≡ ok ss
unfolding parse_refresh_scope
parse_refresh_scope-canonical raw ss h = elim (Option-cases (split_strict_space_list raw)) [
  | inl bad ↦ absurd (ground arith)
  | inr (parts, e) ↦
      canonical_scopes_idempotent parts ss
        (canonical_of_parts-eq-some parts ss (canonical_scopes parts) (ground arith))
]

requested_scopes-canonical :
    (form : Values) (ss : List Bytes)
    → requested_scopes form ≡ some (some ss)
    → canonical_scopes ss ≡ ok ss
unfolding requested_scopes
requested_scopes-canonical form ss h =
    parse_refresh_scope-canonical (get form (codes "scope")) ss (ground arith)

-- What the checks on the form let through.
pub record IsForm (form : Values) : Type 0 where
  pub one_type : count_of form (codes "grant_type") ≡ 1
  pub known_type :
      (str_eq (get form (codes "grant_type")) authorization_code_grant ≡ true)
      ⊎ (str_eq (get form (codes "grant_type")) refresh_token_grant ≡ true)
  pub no_secret : count_of form (codes "client_secret") ≡ 0
  pub no_repeat : repeats_token_parameter form ≡ false

either : (a b : Bool) → (not a && not b) ≡ false → (a ≡ true) ⊎ (b ≡ true)
either true b h = inl refl
either false b h = inr (ground arith)

module _ (fosite : Fosite) (sha256 : Bytes → Bytes) (form : Values) where
  code_request-IsCodeGrant :
      (client : Client) (r : VerifiedTokenRequest)
      → IsForm form
      → str_eq (get form (codes "grant_type")) authorization_code_grant ≡ true
      → code_request fosite sha256 client form ≡ accepted r
      → (r.client ≡ client) × IsCodeGrant sha256 form r
  unfolding code_request lacks_code_parameter
  code_request-IsCodeGrant client r checked type h =
      let only : only_token_parameters form code_parameters ≡ true = ground arith in
      (
        ground arith,
        record {
          one_type = checked.one_type;
          grant_type = str_eq→eq _ _ type;
          same_type = ground arith;
          only = λ name present. only_token_parameters-mem form code_parameters name only present;
          code = ground arith;
          redirect = ground arith;
          same_redirect = ground arith;
          verifier = ground arith;
          same_verifier = ground arith;
        },
      )

  refresh_request-IsRefreshGrant :
      (client : Client) (r : VerifiedTokenRequest)
      → IsForm form
      → str_eq (get form (codes "grant_type")) refresh_token_grant ≡ true
      → refresh_request fosite sha256 client form ≡ accepted r
      → (r.client ≡ client) × IsRefreshGrant sha256 form r
  unfolding refresh_request
  refresh_request-IsRefreshGrant client r checked type h =
      let only : only_token_parameters form refresh_parameters ≡ true = ground arith in
      let scopes : requested_scopes form ≡ some r.scopes = ground arith in
      (
        ground arith,
        record {
          one_type = checked.one_type;
          grant_type = str_eq→eq _ _ type;
          same_type = ground arith;
          only =
              λ name present. only_token_parameters-mem form refresh_parameters name only present;
          token = ground arith;
          unrequested = unrequested_scopes form r.scopes scopes;
          canonical = λ {ss} e. requested_scopes-canonical form ss (scopes ∙ ap some e);
        },
      )

  pub grant_request-split :
      (client : Client) (r : VerifiedTokenRequest)
      → IsForm form
      → grant_request fosite sha256 client form ≡ accepted r
      → (r.client ≡ client) × (IsCodeGrant sha256 form r ⊎ IsRefreshGrant sha256 form r)
  unfolding grant_request
  grant_request-split client r checked h =
      elim (Bool-cases (str_eq (get form (codes "grant_type")) authorization_code_grant)) [
        | inl code ↦
            let (same, grant) = code_request-IsCodeGrant client r checked code (ground arith) in
            (same, inl grant)
        | inr other ↦ elim checked.known_type [
          | inl code ↦ absurd (ground arith)
          | inr refresh ↦
              let (same, grant) =
                refresh_request-IsRefreshGrant client r checked refresh (ground arith) in
              (same, inr grant)
        ]
      ]

  pub check_form-IsForm :
      (authorization : List Bytes) {u : Unit {0}}
      → check_form fosite sha256 form authorization ≡ accepted u
      → IsForm form
  unfolding check_form
  check_form-IsForm authorization h = record {
    one_type = ground arith;
    known_type = either _ _ (ground arith);
    no_secret = ground arith;
    no_repeat = ground arith;
  }

  pub no_parameter_twice :
      (name : Bytes) → IsForm form → mem name single_parameters ≡ true → count_of form name ≤ 1
  unfolding repeats_token_parameter
  no_parameter_twice name checked listed =
      let once =
        any_of_mem (λ n. ltb 1 (count_of form n)) name single_parameters checked.no_repeat listed in
      ground (arith, once)
