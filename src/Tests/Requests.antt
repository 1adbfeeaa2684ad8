-- ===== src/Tests/Requests.antt =====
-- Requests at the protocol boundary, on which the parsers of Oidc run.
use one_issuer.Base.{◌≤◌, ◌≡◌, ◌↔◌, ◌⊎◌, refl, true, none, some, List, [], ◌∷◌, if◌then◌else◌}
use one_issuer.Errors.{ok, err, client_not_found}
use one_issuer.Text.{Bytes, codes, mem, join_space, str_eq}
use one_issuer.Text.Sort.{Ascending, sort_strings}
use one_issuer.Text.Decimal.{decimal}
use one_issuer.Scope.{openid, profile}
use one_issuer.Oidc.Checked.{rejected, accepted}
use one_issuer.Oidc.Lists.{parse_max_age, max_age_seconds, parse_prompt, parse_scope}
use one_issuer.Oidc.Lists.MaxAge.{parse_max_age_iff}
use one_issuer.Oidc.Lists.Prompts.{IsPromptList, parse_prompt_iff}
use one_issuer.Oidc.Lists.Scopes.{IsScopeRequest, parse_scope_iff}
use one_issuer.Oidc.Authorize.{
  AuthorizationClientResolver, AuthorizationError, ErrorCode, VerifiedAuthorizationRequest,
  trusted_error, parse_authorization_request,
}
use one_issuer.Oidc.Authorize.Redirect.{IsLocal, IsRedirected, authorization_error-IsRedirected}
use one_issuer.Oidc.Authorize.Verified.{IsVerified, accepted_request-IsVerified}
use one_issuer.Tests.Samples.{app}

parse_max_age_iff_example :
    (parse_max_age (codes "3600" ∷ []) ≡ some (some 3600))
    ↔ ((codes "3600" ≡ decimal 3600) × (3600 ≤ max_age_seconds))
parse_max_age_iff_example = parse_max_age_iff (codes "3600") 3600

leading_zero : parse_max_age (codes "03600" ∷ []) ≡ none
unfolding parse_max_age one_issuer.Text.has_prefix
leading_zero = refl

parse_prompt_iff_example :
    (parse_prompt (codes "login consent" ∷ []) ≡ some (codes "consent" ∷ codes "login" ∷ [])) ↔ (
      (parts : List Bytes) × IsPromptList parts
      × (codes "login consent" ≡ join_space parts)
      × (codes "consent" ∷ codes "login" ∷ [] ≡ sort_strings parts))
parse_prompt_iff_example =
    parse_prompt_iff (codes "login consent") (codes "consent" ∷ codes "login" ∷ [])

sorted_prompts :
    parse_prompt (codes "login consent" ∷ []) ≡ some (codes "consent" ∷ codes "login" ∷ [])
unfolding parse_prompt mem one_issuer.Text.Split.contains_any one_issuer.Text.Split.ends_with_space
    one_issuer.Text.Split.has_outer_space one_issuer.Text.Split.split_on
    one_issuer.Text.Split.starts_with_space one_issuer.Text.has_prefix one_issuer.Text.str_lt
    sort_strings str_eq
sorted_prompts = refl

prompt_conflict : parse_prompt (codes "none login" ∷ []) ≡ none
unfolding parse_prompt mem one_issuer.Text.Split.contains_any one_issuer.Text.Split.ends_with_space
    one_issuer.Text.Split.has_outer_space one_issuer.Text.Split.split_on
    one_issuer.Text.Split.starts_with_space one_issuer.Text.has_prefix str_eq
prompt_conflict = refl

parse_scope_iff_example :
    (parse_scope (codes "profile openid openid") app.scopes ≡ some (openid ∷ profile ∷ [])) ↔ (
      (parts : List Bytes) × IsScopeRequest parts app.scopes
      × (codes "profile openid openid" ≡ join_space parts)
      × Ascending (openid ∷ profile ∷ [])
      × ((s : Bytes) → mem s (openid ∷ profile ∷ []) ≡ mem s parts))
parse_scope_iff_example =
    parse_scope_iff (codes "profile openid openid") app.scopes (openid ∷ profile ∷ [])

repeated_scope :
    parse_scope (codes "profile openid openid") app.scopes ≡ some (openid ∷ profile ∷ [])
unfolding parse_scope mem one_issuer.Oidc.Lists.split_strict_space_list one_issuer.Scope.sorted_set
    one_issuer.Scope.supported one_issuer.Text.Ascending.keys one_issuer.Text.Split.contains_any
    one_issuer.Text.Split.ends_with_space one_issuer.Text.Split.has_outer_space
    one_issuer.Text.Split.split_on one_issuer.Text.Split.starts_with_space
    one_issuer.Text.has_prefix one_issuer.Text.str_lt sort_strings str_eq
repeated_scope = refl

-- A registry that knows one Client.
abbrev registry : AuthorizationClientResolver
registry = record {
  resolve_active =
      λ client_id. if str_eq client_id app.client_id then ok app else err client_not_found;
  redirect_uri_matches = λ client candidate. mem candidate client.redirect_uris;
}

abbrev callback : Bytes
callback = codes "https://app.example.com/callback"

abbrev good_query : Bytes
good_query =
    codes
      "client_id=app&redirect_uri=https%3A%2F%2Fapp.example.com%2Fcallback&response_type=code&scope=openid+profile&code_challenge=AAAAAAAAAAAAAAAAAAAAAAAAAAAAAAAAAAAAAAAAAAA&code_challenge_method=S256&state=xyz&prompt=login&max_age=600"

abbrev token_query : Bytes
token_query =
    codes
      "client_id=app&redirect_uri=https%3A%2F%2Fapp.example.com%2Fcallback&response_type=token&scope=openid&code_challenge=AAAAAAAAAAAAAAAAAAAAAAAAAAAAAAAAAAAAAAAAAAA&code_challenge_method=S256&state=xyz"

abbrev good_request : VerifiedAuthorizationRequest
good_request = record {
  client = app;
  redirect_uri = callback;
  response_type = codes "code";
  response_mode = codes "query";
  scopes = openid ∷ profile ∷ [];
  pkce_challenge = codes "AAAAAAAAAAAAAAAAAAAAAAAAAAAAAAAAAAAAAAAAAAA";
  state = codes "xyz";
  nonce = [];
  prompts = codes "login" ∷ [];
  max_age = some 600;
}

good_query_parsed : parse_authorization_request registry good_query ≡ accepted good_request
unfolding parse_authorization_request mem one_issuer.Oidc.Authorize.check_profile
    one_issuer.Oidc.Authorize.check_syntax one_issuer.Oidc.Authorize.lacks_parameter
    one_issuer.Oidc.Authorize.repeats_parameter one_issuer.Oidc.Authorize.trust
    one_issuer.Oidc.Authorize.trusted_state one_issuer.Oidc.Authorize.valid_opaque_parameter
    one_issuer.Oidc.Authorize.verify_parameters one_issuer.Oidc.Lists.collect_prompts
    one_issuer.Oidc.Lists.is_prompt one_issuer.Oidc.Lists.prompts_conflict
    one_issuer.Oidc.Lists.split_strict_space_list one_issuer.Oidc.Lists.valid_s256_challenge
    one_issuer.Scope.sorted_set one_issuer.Scope.supported one_issuer.Text.Ascending.keys
    one_issuer.Text.Base64.decode one_issuer.Text.Base64.value_of one_issuer.Text.Decimal.is_digit
    one_issuer.Text.Decimal.parse_uint32 one_issuer.Text.Decimal.value_from
    one_issuer.Text.Sort.insert_string one_issuer.Text.Split.contains_any one_issuer.Text.Split.cut
    one_issuer.Text.Split.ends_with_space one_issuer.Text.Split.has_byte
    one_issuer.Text.Split.has_outer_space one_issuer.Text.Split.is_ascii_space
    one_issuer.Text.Split.split_on one_issuer.Text.Split.starts_with_space
    one_issuer.Text.Utf8.following one_issuer.Text.Utf8.is_first one_issuer.Text.Utf8.second_high
    one_issuer.Text.Utf8.second_low one_issuer.Text.Utf8.utf8_from one_issuer.Text.Utf8.valid_utf8
    one_issuer.Text.has_prefix one_issuer.Text.str_lt one_issuer.Token.Secret.decodes_to_length
    one_issuer.Url.add_pieces one_issuer.Url.add_value one_issuer.Url.entries
    one_issuer.Url.hex_value one_issuer.Url.parse_query one_issuer.Url.query_unescape
    one_issuer.Url.unescape_from one_issuer.Url.valid_values_utf8 parse_max_age parse_prompt
    parse_scope sort_strings str_eq
good_query_parsed = refl

accepted_request-IsVerified_example : IsVerified registry good_query good_request
accepted_request-IsVerified_example =
    accepted_request-IsVerified registry good_query good_request good_query_parsed

abbrev wrong_type : AuthorizationError
wrong_type = trusted_error callback (codes "xyz") ErrorCode.unsupported_response_type

token_query_parsed : parse_authorization_request registry token_query ≡ rejected wrong_type
unfolding parse_authorization_request mem one_issuer.Oidc.Authorize.check_profile
    one_issuer.Oidc.Authorize.check_syntax one_issuer.Oidc.Authorize.lacks_parameter
    one_issuer.Oidc.Authorize.repeats_parameter one_issuer.Oidc.Authorize.trust
    one_issuer.Oidc.Authorize.trusted_state one_issuer.Oidc.Authorize.valid_opaque_parameter
    one_issuer.Oidc.Authorize.verify_parameters one_issuer.Oidc.Lists.collect_prompts
    one_issuer.Oidc.Lists.is_prompt one_issuer.Oidc.Lists.prompts_conflict
    one_issuer.Oidc.Lists.split_strict_space_list one_issuer.Oidc.Lists.valid_s256_challenge
    one_issuer.Scope.sorted_set one_issuer.Scope.supported one_issuer.Text.Ascending.keys
    one_issuer.Text.Base64.decode one_issuer.Text.Base64.value_of one_issuer.Text.Decimal.is_digit
    one_issuer.Text.Decimal.parse_uint32 one_issuer.Text.Decimal.value_from
    one_issuer.Text.Sort.insert_string one_issuer.Text.Split.contains_any one_issuer.Text.Split.cut
    one_issuer.Text.Split.ends_with_space one_issuer.Text.Split.has_byte
    one_issuer.Text.Split.has_outer_space one_issuer.Text.Split.is_ascii_space
    one_issuer.Text.Split.split_on one_issuer.Text.Split.starts_with_space
    one_issuer.Text.Utf8.following one_issuer.Text.Utf8.is_first one_issuer.Text.Utf8.second_high
    one_issuer.Text.Utf8.second_low one_issuer.Text.Utf8.utf8_from one_issuer.Text.Utf8.valid_utf8
    one_issuer.Text.has_prefix one_issuer.Text.str_lt one_issuer.Token.Secret.decodes_to_length
    one_issuer.Url.add_pieces one_issuer.Url.add_value one_issuer.Url.entries
    one_issuer.Url.hex_value one_issuer.Url.parse_query one_issuer.Url.query_unescape
    one_issuer.Url.unescape_from one_issuer.Url.valid_values_utf8 parse_max_age parse_prompt
    parse_scope sort_strings str_eq
token_query_parsed = refl

authorization_error-IsRedirected_example :
    IsLocal wrong_type
    ⊎ ((wrong_type.safe_to_redirect ≡ true) × IsRedirected registry token_query wrong_type)
authorization_error-IsRedirected_example =
    authorization_error-IsRedirected registry token_query wrong_type token_query_parsed
