-- ===== src/Oidc/Authorize/Verified.antt =====
-- What a request that ParseAuthorizationRequest of internal/oidc/authorize.go accepted is like.
use one_issuer.Base.{
  ◌*◌, ℕ, ◌≤◌, ◌≡◌, sym, ap, ◌∙◌, ◌⊎◌, inl, inr, true, false, not, ◌&&◌, some, List, [], ◌∷◌, arith,
  length, ◌==◌, subst,
}
use one_issuer.Text.{Bytes, codes, str_eq, mem, join_space}
use one_issuer.Text.Base64.{decode}
use one_issuer.Text.Sort.{Ascending}
use one_issuer.Domain.{Client}
use one_issuer.Url.{Values, entries, get, count_of}
use one_issuer.Scope.{openid, supported}
use one_issuer.Oidc.Checked.{accepted, Checked-cases}
use one_issuer.Oidc.Lists.{
  parse_scope, valid_s256_challenge, parse_prompt, parse_max_age, prompt_none, prompt_create,
  prompt_login,
}
use one_issuer.Oidc.Authorize.{
  VerifiedAuthorizationRequest, AuthorizationClientResolver, redirect_uri_name, state_name,
  nonce_name, trusted_state, check_syntax, check_profile, verify_parameters, trust,
  parse_authorization_request, bad_opaque, repeats_parameter, security_parameters,
}
use one_issuer.Oidc.Authorize.Redirect.{IsTrusted, IsTrusted-values}
use one_issuer.Text.Order.{str_eq→eq}
use one_issuer.Oidc.Authorize.Parameters.{
  IsOpaque, no_parameter_twice, opaque_listed, challenge-decoded, none_or_this, single-IsOpaque,
  trusted_state-eq-get, prompts_agree, age_bounded, scopes_allowed,
}

-- The parameters of an accepted request, as its Values spell them.
record IsProfile (client : Client) (redirect_uri state : Bytes) (values : Values)
    (r : VerifiedAuthorizationRequest) : Type 0 where
  same_client : r.client ≡ client
  same_redirect : r.redirect_uri ≡ redirect_uri
  same_state : r.state ≡ state
  code_flow : get values (codes "response_type") ≡ codes "code"
  same_type : r.response_type ≡ codes "code"
  query_mode :
      ((count_of values (codes "response_mode") == 1)
        && not (str_eq (get values (codes "response_mode")) (codes "query")))
      ≡ false
  same_mode : r.response_mode ≡ codes "query"
  scopes : parse_scope (get values (codes "scope")) client.scopes ≡ some r.scopes
  same_challenge : r.pkce_challenge ≡ get values (codes "code_challenge")
  challenge : valid_s256_challenge r.pkce_challenge ≡ true
  method : get values (codes "code_challenge_method") ≡ codes "S256"
  nonce : r.nonce ≡ get values nonce_name
  prompts : parse_prompt (entries values (codes "prompt")) ≡ some r.prompts
  max_age : parse_max_age (entries values (codes "max_age")) ≡ some r.max_age

-- What the checks of the syntax let through.
record IsSyntax (values : Values) : Type 0 where
  no_repeat : repeats_parameter values ≡ false
  no_object : count_of values (codes "request") ≡ 0
  no_object_uri : count_of values (codes "request_uri") ≡ 0
  state_fits : bad_opaque values state_name ≡ false
  nonce_fits : bad_opaque values nonce_name ≡ false

module _ (client : Client) (redirect_uri state : Bytes) (values : Values) where
  check_profile-IsProfile :
      (r : VerifiedAuthorizationRequest)
      → check_profile client redirect_uri state values ≡ accepted r
      → IsProfile client redirect_uri state values r
  unfolding check_profile
  check_profile-IsProfile r h = record {
    same_client = ground arith;
    same_redirect = ground arith;
    same_state = ground arith;
    code_flow = str_eq→eq _ _ (ground arith);
    same_type = ground arith;
    query_mode = ground arith;
    same_mode = ground arith;
    scopes = ground arith;
    same_challenge = ground arith;
    challenge = ground arith;
    method = str_eq→eq _ _ (ground arith);
    nonce = ground arith;
    prompts = ground arith;
    max_age = ground arith;
  }

  check_syntax-IsSyntax :
      (u : Unit {0}) → check_syntax client redirect_uri state values ≡ accepted u → IsSyntax values
  unfolding check_syntax
  check_syntax-IsSyntax u h = record {
    no_repeat = ground arith;
    no_object = ground arith;
    no_object_uri = ground arith;
    state_fits = ground arith;
    nonce_fits = ground arith;
  }

-- A request that was verified against the registry.
pub record IsVerified (clients : AuthorizationClientResolver) (raw_query : Bytes)
    (r : VerifiedAuthorizationRequest) : Type 0 where
  pub values : Values
  pub trusted : IsTrusted clients raw_query r.client values
  pub no_repeat :
      (name : Bytes)
      → mem name (
          codes "client_id"
          ∷ codes "redirect_uri"
          ∷ codes "response_type"
          ∷ codes "response_mode"
          ∷ codes "scope"
          ∷ codes "code_challenge"
          ∷ codes "code_challenge_method"
          ∷ codes "state"
          ∷ codes "nonce"
          ∷ codes "prompt"
          ∷ codes "max_age"
          ∷ [])
        ≡ true
      → count_of values name ≤ 1
  pub no_object : count_of values (codes "request") ≡ 0
  pub no_object_uri : count_of values (codes "request_uri") ≡ 0
  pub to : r.redirect_uri ≡ get values (codes "redirect_uri")
  pub code_flow : get values (codes "response_type") ≡ codes "code"
  pub same_type : r.response_type ≡ get values (codes "response_type")
  pub query_mode :
      (entries values (codes "response_mode") ≡ [])
      ⊎ (entries values (codes "response_mode") ≡ codes "query" ∷ [])
  pub same_mode : r.response_mode ≡ codes "query"
  pub method : get values (codes "code_challenge_method") ≡ codes "S256"
  pub same_challenge : r.pkce_challenge ≡ get values (codes "code_challenge")
  pub challenge : (raw : Bytes) × (decode r.pkce_challenge ≡ some raw) × (length raw ≡ 32)
  pub same_state : r.state ≡ get values (codes "state")
  pub opaque_state : IsOpaque r.state
  pub same_nonce : r.nonce ≡ get values (codes "nonce")
  pub opaque_nonce : IsOpaque r.nonce
  pub scopes_ascending : Ascending r.scopes
  pub has_openid : mem openid r.scopes ≡ true
  pub asked :
      (parts : List Bytes) × (get values (codes "scope") ≡ join_space parts)
      × ((s : Bytes) → mem s r.scopes ≡ mem s parts)
  pub scope_allowed :
      (s : Bytes) → mem s r.scopes ≡ true → (supported s ≡ true) × (mem s r.client.scopes ≡ true)
  pub none_alone : (mem prompt_none r.prompts ≡ false) ⊎ (length r.prompts ≡ 1)
  pub exclusive : (mem prompt_create r.prompts && mem prompt_login r.prompts) ≡ false
  pub age : {n : ℕ} → r.max_age ≡ some n → n ≤ 30 * 24 * 60 * 60

accepted_parts :
    (clients : AuthorizationClientResolver) (raw : Bytes) (r : VerifiedAuthorizationRequest)
    → parse_authorization_request clients raw ≡ accepted r
    → (client : Client) × (values : Values) × IsTrusted clients raw client values
      × IsSyntax values
      × IsProfile client (get values redirect_uri_name) (trusted_state values) values r
unfolding parse_authorization_request verify_parameters
accepted_parts clients raw r h = elim (Checked-cases (trust clients raw)) [
  | inl ((client, values), found) ↦
      let uri = get values redirect_uri_name in
      let state = trusted_state values in
      elim (Checked-cases (check_syntax client uri state values)) [
        | inl (u, passed) ↦ (
          client,
          values,
          IsTrusted-values clients raw client values found,
          check_syntax-IsSyntax client uri state values u passed,
          check_profile-IsProfile client uri state values r (ground arith),
        )
        | inr (e, failed) ↦ absurd (ground arith)
      ]
  | inr (e, failed) ↦ absurd (ground arith)
]

-- A request that ParseAuthorizationRequest accepts names the Client that ResolveActive returned and a
-- redirection registered with it, is within the size limit, repeats no security parameter and holds no
-- request object. Its response_type is code; its response_mode, if any, is query; its challenge, for
-- the method S256, decodes to 32 bytes. The Scopes are in canonical order those of the scope
-- parameter, hold openid, and are all supported and among the Client's; State and nonce are handed on,
-- and are absent or clean text of at most 1024 bytes; the prompt `none` stands only alone and `create`
-- never beside `login`; and a max_age is at most 30 days.
pub accepted_request-IsVerified :
    (clients : AuthorizationClientResolver) (raw : Bytes) (r : VerifiedAuthorizationRequest)
    → parse_authorization_request clients raw ≡ accepted r
    → IsVerified clients raw r
accepted_request-IsVerified clients raw r h =
    let (client, values, trusted, syntax, p) = accepted_parts clients raw r h in
    let (ascending, openid_in, asked, allowed) = scopes_allowed _ _ _ p.scopes in
    let (alone, apart) = prompts_agree _ _ p.prompts in
    let (state_listed, nonce_listed, mode_listed) = opaque_listed in
    let once = λ (name : Bytes) (listed : mem name security_parameters ≡ true).
      no_parameter_twice values name syntax.no_repeat listed in
    let state =
      p.same_state ∙ trusted_state-eq-get values (once _ state_listed) syntax.state_fits in
    record {
      values = values;
      trusted = subst (λ (c : Client). IsTrusted clients raw c values) (sym p.same_client) trusted;
      no_repeat = once;
      no_object = syntax.no_object;
      no_object_uri = syntax.no_object_uri;
      to = p.same_redirect;
      code_flow = p.code_flow;
      same_type = p.same_type ∙ sym p.code_flow;
      query_mode = none_or_this _ _ (once _ mode_listed) p.query_mode;
      same_mode = p.same_mode;
      method = p.method;
      same_challenge = p.same_challenge;
      challenge = challenge-decoded r.pkce_challenge p.challenge;
      same_state = state;
      opaque_state =
          subst IsOpaque (sym state)
            (single-IsOpaque (entries values state_name) (once _ state_listed) syntax.state_fits);
      same_nonce = p.nonce;
      opaque_nonce =
          subst IsOpaque (sym p.nonce)
            (single-IsOpaque (entries values nonce_name) (once _ nonce_listed) syntax.nonce_fits);
      scopes_ascending = ascending;
      has_openid = openid_in;
      asked = asked;
      scope_allowed = λ s m.
          let (known, listed) = allowed s m in
          (known, ap (λ (c : Client). mem s c.scopes) p.same_client ∙ listed);
      none_alone = alone;
      exclusive = apart;
      age = age_bounded _ _ p.max_age;
    }
