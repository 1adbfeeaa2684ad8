-- ===== src/Oidc/Authorize.antt =====
-- ParseAuthorizationRequest of internal/oidc/authorize.go: the redirect trust state machine. The
-- Client registry is the parameter `AuthorizationClientResolver`, as in the source.
use one_issuer.Base.{
  ℕ, ◌*◌, Bool, true, false, not, ◌&&◌, ◌||◌, Option, none, some, List, [], ◌∷◌, length, leb, ltb,
  ◌==◌, if◌then◌else◌, is_empty, any,
}
use one_issuer.Errors.{Error, client_not_found, Result, ok, err}
use one_issuer.Text.{Bytes, codes, str_eq}
use one_issuer.Text.Utf8.{valid_utf8}
use one_issuer.Domain.{Client}
use one_issuer.Url.{Values, entries, get, count_of, parse_query, valid_values_utf8, clean_text}
use one_issuer.Oidc.Checked.{Checked, rejected, accepted, ◌>>=◌, ◌>>◌, reject_when, or_reject}
use one_issuer.Oidc.Lists.{parse_scope, valid_s256_challenge, parse_prompt, parse_max_age}
pub mod Redirect
pub mod Parameters
pub mod Verified

-- `ErrorCode`
pub data ErrorCode : Type 0 where
  invalid_request unauthorized_client unsupported_response_type invalid_scope : ErrorCode
  server_error temporarily_unavailable unsupported_response_mode login_required : ErrorCode
  consent_required interaction_required access_denied : ErrorCode
  request_not_supported request_uri_not_supported : ErrorCode

pub record AuthorizationError : Type 0 where
  pub code : ErrorCode
  pub http_status : ℕ
  pub safe_to_redirect : Bool
  pub redirect_uri : Bytes
  pub state : Bytes

pub record VerifiedAuthorizationRequest : Type 0 where
  pub client : Client
  pub redirect_uri : Bytes
  pub response_type : Bytes
  pub response_mode : Bytes
  pub scopes : List Bytes
  pub pkce_challenge : Bytes
  pub state : Bytes
  pub nonce : Bytes
  pub prompts : List Bytes
  pub max_age : Option ℕ

pub record AuthorizationClientResolver : Type 0 where
  pub resolve_active : Bytes → Result Client
  pub redirect_uri_matches : Client → Bytes → Bool

abbrev pub max_authorize_query_bytes : ℕ
max_authorize_query_bytes = 8 * 1024

abbrev pub max_opaque_parameter_bytes : ℕ
max_opaque_parameter_bytes = 1024

-- `localAuthorizationError`
abbrev pub local_error : ErrorCode → ℕ → AuthorizationError
local_error code status = record {
  code = code;
  http_status = status;
  safe_to_redirect = false;
  redirect_uri = [];
  state = [];
}

-- `trustedError`
abbrev pub trusted_error : Bytes → Bytes → ErrorCode → AuthorizationError
trusted_error redirect_uri state code = record {
  code = code;
  http_status = 302;
  safe_to_redirect = true;
  redirect_uri = redirect_uri;
  state = state;
}

unfoldable pub valid_opaque_parameter : Bytes → Bool
valid_opaque_parameter value =
    leb 1 (length value) && leb (length value) max_opaque_parameter_bytes && clean_text value

-- `len(values[name]) != 1 || values.Get(name) == ""`
abbrev pub not_single : Values → Bytes → Bool
not_single values name = not (count_of values name == 1) || is_empty (get values name)

abbrev pub client_id_name : Bytes
client_id_name = codes "client_id"

abbrev pub redirect_uri_name : Bytes
redirect_uri_name = codes "redirect_uri"

abbrev pub state_name : Bytes
state_name = codes "state"

abbrev pub nonce_name : Bytes
nonce_name = codes "nonce"

abbrev pub response_mode_name : Bytes
response_mode_name = codes "response_mode"

abbrev pub security_parameters : List Bytes
security_parameters =
    client_id_name
    ∷ redirect_uri_name
    ∷ codes "response_type"
    ∷ response_mode_name
    ∷ codes "scope"
    ∷ codes "code_challenge"
    ∷ codes "code_challenge_method"
    ∷ state_name
    ∷ nonce_name
    ∷ codes "prompt"
    ∷ codes "max_age"
    ∷ []

abbrev pub required_parameters : List Bytes
required_parameters =
    codes "response_type"
    ∷ codes "scope"
    ∷ codes "code_challenge"
    ∷ codes "code_challenge_method"
    ∷ []

-- Some security parameter stands more than once.
unfoldable pub repeats_parameter : Values → Bool
repeats_parameter values = any (λ name. ltb 1 (count_of values name)) security_parameters

-- Some required parameter is missing or empty.
unfoldable pub lacks_parameter : Values → Bool
lacks_parameter values = any (not_single values) required_parameters

-- The State that an error may carry: the one of the request, where it is single and valid.
unfoldable pub trusted_state : Values → Bytes
trusted_state values =
    if (count_of values state_name == 1) && valid_opaque_parameter (get values state_name)
    then get values state_name
    else []

-- `len(values[name]) == 1 && !validOpaqueParameter(values.Get(name))`
abbrev pub bad_opaque : Values → Bytes → Bool
bad_opaque values name =
    (count_of values name == 1) && not (valid_opaque_parameter (get values name))

abbrev pub verified :
    Client
    → Bytes
    → Bytes
    → Values
    → List Bytes
    → List Bytes
    → Option ℕ
    → VerifiedAuthorizationRequest
verified client redirect_uri state values scopes prompts max_age = record {
  client = client;
  redirect_uri = redirect_uri;
  response_type = codes "code";
  response_mode = codes "query";
  scopes = scopes;
  pkce_challenge = get values (codes "code_challenge");
  state = state;
  nonce = get values nonce_name;
  prompts = prompts;
  max_age = max_age;
}

-- The checks after the redirection is trusted.
module _ (client : Client) (redirect_uri state : Bytes) (values : Values) where
  abbrev pub fail : ErrorCode → AuthorizationError
  fail = trusted_error redirect_uri state

  -- Duplicates, request objects, missing parameters and opaque values.
  unfoldable pub check_syntax : Checked AuthorizationError (Unit {0})
  check_syntax = do
    reject_when (repeats_parameter values) (fail ErrorCode.invalid_request)
    reject_when (ltb 0 (count_of values (codes "request"))) (fail ErrorCode.request_not_supported)
    reject_when (ltb 0 (count_of values (codes "request_uri")))
        (fail ErrorCode.request_uri_not_supported)
    reject_when (lacks_parameter values) (fail ErrorCode.invalid_request)
    reject_when (bad_opaque values state_name) (fail ErrorCode.invalid_request)
    reject_when (bad_opaque values nonce_name) (fail ErrorCode.invalid_request)

  unfoldable pub check_profile : Checked AuthorizationError VerifiedAuthorizationRequest
  check_profile = do
    reject_when (not (str_eq (get values (codes "response_type")) (codes "code")))
        (fail ErrorCode.unsupported_response_type)
    reject_when
        ((count_of values response_mode_name == 1)
          && not (str_eq (get values response_mode_name) (codes "query")))
        (fail ErrorCode.unsupported_response_mode)
    scopes ←
        or_reject (parse_scope (get values (codes "scope")) client.scopes)
          (fail ErrorCode.invalid_scope)
    reject_when
        (not (valid_s256_challenge (get values (codes "code_challenge")))
          || not (str_eq (get values (codes "code_challenge_method")) (codes "S256")))
        (fail ErrorCode.invalid_request)
    prompts ←
        or_reject (parse_prompt (entries values (codes "prompt"))) (fail ErrorCode.invalid_request)
    max_age ←
        or_reject (parse_max_age (entries values (codes "max_age")))
          (fail ErrorCode.invalid_request)
    accepted (verified client redirect_uri state values scopes prompts max_age)

  unfoldable pub verify_parameters : Checked AuthorizationError VerifiedAuthorizationRequest
  verify_parameters = do check_syntax; check_profile

-- `errors.Is(err, clientdomain.ErrNotFound)`
abbrev pub resolution_error : Error → AuthorizationError
resolution_error client_not_found = local_error ErrorCode.invalid_request 400
resolution_error _ = local_error ErrorCode.server_error 500

abbrev pub resolved : Result Client → Checked AuthorizationError Client
resolved (err e) = rejected (resolution_error e)
resolved (ok client) = accepted client

module _ (clients : AuthorizationClientResolver) where
  -- The Client and the redirection that a request may be answered to, or a local error.
  unfoldable pub trust : Bytes → Checked AuthorizationError (Client × Values)
  trust raw_query = do
    reject_when (ltb max_authorize_query_bytes (length raw_query) || not (valid_utf8 raw_query))
        (local_error ErrorCode.invalid_request 400)
    values ← or_reject (parse_query raw_query) (local_error ErrorCode.invalid_request 400)
    reject_when (not (valid_values_utf8 values)) (local_error ErrorCode.invalid_request 400)
    reject_when (not_single values client_id_name || not_single values redirect_uri_name)
        (local_error ErrorCode.invalid_request 400)
    client ← resolved (clients.resolve_active (get values client_id_name))
    reject_when (not (clients.redirect_uri_matches client (get values redirect_uri_name)))
        (local_error ErrorCode.invalid_request 400)
    accepted (client, values)

  unfoldable pub parse_authorization_request :
      Bytes → Checked AuthorizationError VerifiedAuthorizationRequest
  parse_authorization_request raw_query = trust raw_query >>= λ (client, values).
      verify_parameters client (get values redirect_uri_name) (trusted_state values) values
