-- ===== src/Tests/Clients.antt =====
-- Requests at the token endpoints: how Clients authenticate, and what they are answered.
use one_issuer.Base.{
  ℕ, ◌≡◌, ◌⊎◌, refl, true, false, none, some, List, [], ◌∷◌, length, arith, if◌then◌else◌,
}
use one_issuer.Errors.{ok, err, client_not_found}
use one_issuer.Text.{Bytes, codes, mem, str_eq}
use one_issuer.Text.Base64.{AreBytes}
use one_issuer.Domain.{Client, confidential, client_secret_basic}
use one_issuer.Token.Secret.{hash_refresh_token}
use one_issuer.Url.{Values, query_escape}
use one_issuer.Oidc.Checked.{accepted, rejected}
use one_issuer.Oidc.Basic.{
  max_basic_authorization_bytes, parse_strict_basic, basic_header, bad_value,
}
use one_issuer.Oidc.Basic.RoundTrip.{IsCredential, parse_strict_basic-basic_header}
use one_issuer.Oidc.TokenRequest.{
  Template, Fosite, TokenError, token_error, VerifiedTokenRequest, TokenClientResolver,
  parse_token_request, refresh_token_grant,
}
use one_issuer.Oidc.TokenRequest.Challenge.{IsAnswer, token_request-IsAnswer}
use one_issuer.Oidc.Lifecycle.{VerifiedLifecycleRequest, parse_introspection_request}
use one_issuer.Oidc.Lifecycle.Confidential.{IsIntrospection, parse_introspection_request_outcome}
use one_issuer.Oidc.LogoutRequest.{
  LogoutRequest, parse_logout_request, IsLogoutRequest, parse_logout_request-IsLogoutRequest,
}
use one_issuer.Tests.Samples.{app, digest, token_a}

abbrev backend_name : Bytes
backend_name = codes "back end"

abbrev secret : Bytes
secret = codes "s3:cret%"

name-IsCredential : IsCredential backend_name
unfolding one_issuer.Text.Utf8.valid_utf8 one_issuer.Oidc.Basic.has_ascii_control
name-IsCredential = record { bytes = ground arith; good = refl }

secret-IsCredential : IsCredential secret
unfolding one_issuer.Text.Utf8.valid_utf8 one_issuer.Oidc.Basic.has_ascii_control
secret-IsCredential = record { bytes = ground arith; good = refl }

header_length : length (basic_header backend_name secret) ≡ 34
unfolding basic_header one_issuer.Text.Base64.Padded.std_encode query_escape
    one_issuer.Url.escape_byte one_issuer.Url.hex_digit one_issuer.Url.is_unreserved
header_length = refl

parse_strict_basic-basic_header_example :
    parse_strict_basic (basic_header backend_name secret) ≡ some (backend_name, secret)
parse_strict_basic-basic_header_example =
    parse_strict_basic-basic_header backend_name secret name-IsCredential secret-IsCredential
      (rw header_length (ground arith))

abbrev template : Bytes → ℕ → Template
template name status = record { error_field = name; code_field = status }

abbrev fosite : Fosite
fosite = record {
  invalid_request = template (codes "invalid_request") 400;
  unsupported_grant_type = template (codes "unsupported_grant_type") 400;
  invalid_client = template (codes "invalid_client") 401;
  invalid_grant = template (codes "invalid_grant") 400;
  invalid_scope = template (codes "invalid_scope") 400;
  has = λ names name. mem name names;
}

-- A registry of the public Client app and of one confidential Client.
abbrev backend : Client
backend = record app {
  id = 6;
  client_id = backend_name;
  type = confidential;
  token_endpoint_auth_method = client_secret_basic;
}

abbrev clients : TokenClientResolver
clients = record {
  resolve_active = λ name. if str_eq name app.client_id then ok app else err client_not_found;
  validate_secret = λ name given. if str_eq given secret then ok backend else err client_not_found;
}

abbrev refresh_form : Values
refresh_form =
    (codes "client_id", codes "app" ∷ [])
    ∷ (codes "grant_type", codes "refresh_token" ∷ [])
    ∷ (codes "refresh_token", token_a ∷ [])
    ∷ []

abbrev refresh_request : VerifiedTokenRequest
refresh_request = record {
  grant_type = refresh_token_grant;
  client = app;
  code_hash = [];
  refresh_token_hash = hash_refresh_token digest token_a;
  redirect_uri = [];
  code_verifier = [];
  scopes = none;
}

abbrev bearer : List Bytes
bearer = codes "Bearer abc" ∷ []

bearer_refused :
    parse_token_request fosite digest clients
      ((codes "grant_type", codes "refresh_token" ∷ []) ∷ [])
      bearer
    ≡ rejected (token_error fosite.invalid_client true)
unfolding parse_token_request one_issuer.Oidc.Basic.fold_case
    one_issuer.Oidc.Basic.has_ascii_control one_issuer.Oidc.Basic.is_basic
    one_issuer.Oidc.TokenRequest.authenticate_token_client one_issuer.Oidc.TokenRequest.check_form
    one_issuer.Oidc.TokenRequest.repeats_token_parameter one_issuer.Text.Split.cut
    one_issuer.Text.Split.has_byte one_issuer.Text.Utf8.valid_utf8 one_issuer.Url.entries
    one_issuer.Url.valid_values_utf8 parse_strict_basic str_eq
bearer_refused = refl

token_request-IsAnswer_example : IsAnswer fosite bearer (token_error fosite.invalid_client true)
token_request-IsAnswer_example =
    token_request-IsAnswer fosite digest clients
      ((codes "grant_type", codes "refresh_token" ∷ []) ∷ []) bearer
      (token_error fosite.invalid_client true) bearer_refused

abbrev token_form : Values
token_form = (codes "token", token_a ∷ []) ∷ []

parse_introspection_request_outcome_example :
    ((r : VerifiedLifecycleRequest)
      → parse_introspection_request fosite clients token_form bearer ≡ accepted r
      → IsIntrospection clients token_form bearer r)
    × ((e : TokenError)
        → parse_introspection_request fosite clients token_form bearer ≡ rejected e
        → (e ≡ token_error fosite.invalid_request false)
          ⊎ (e ≡ token_error fosite.invalid_client true))
parse_introspection_request_outcome_example =
    parse_introspection_request_outcome fosite clients token_form bearer

bearer_may_not_introspect :
    parse_introspection_request fosite clients token_form bearer
    ≡ rejected (token_error fosite.invalid_client true)
unfolding parse_introspection_request mem one_issuer.Oidc.Basic.fold_case
    one_issuer.Oidc.Basic.has_ascii_control one_issuer.Oidc.Basic.is_basic
    one_issuer.Oidc.Lifecycle.valid_lifecycle_form
    one_issuer.Oidc.TokenRequest.authenticate_token_client
    one_issuer.Oidc.TokenRequest.only_token_parameters one_issuer.Text.Base64.digit_of
    one_issuer.Text.Base64.encode one_issuer.Text.Split.cut one_issuer.Text.Split.has_byte
    one_issuer.Text.Utf8.valid_utf8 one_issuer.Url.entries one_issuer.Url.valid_values_utf8
    parse_strict_basic str_eq
bearer_may_not_introspect = refl

abbrev logout_form : Values
logout_form =
    (codes "client_id", codes "app" ∷ [])
    ∷ (codes "post_logout_redirect_uri", codes "https://app.example.com/bye" ∷ [])
    ∷ (codes "state", codes "xyz" ∷ [])
    ∷ []

abbrev logout : LogoutRequest
logout = record {
  id_token_hint = [];
  client_id = codes "app";
  logout_hint = [];
  post_logout_redirect_uri = codes "https://app.example.com/bye";
  state = codes "xyz";
  ui_locales = [];
}

logout_parsed : parse_logout_request logout_form ≡ some logout
unfolding parse_logout_request one_issuer.Text.Split.has_byte one_issuer.Text.Utf8.valid_utf8
    one_issuer.Url.entries str_eq
logout_parsed = refl

parse_logout_request-IsLogoutRequest_example : IsLogoutRequest logout
parse_logout_request-IsLogoutRequest_example =
    parse_logout_request-IsLogoutRequest logout_form logout logout_parsed
