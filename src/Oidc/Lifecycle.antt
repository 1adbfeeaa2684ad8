-- ===== src/Oidc/Lifecycle.antt =====
-- ParseRevocationRequest and ParseIntrospectionRequest of internal/oidc/lifecycle_request.go.
use one_issuer.Base.{
  ℕ, Bool, true, false, not, ◌&&◌, ◌||◌, List, [], ◌∷◌, length, ltb, ◌==◌, if◌then◌else◌, is_empty,
}
use one_issuer.Text.{Bytes, codes}
use one_issuer.Domain.{Client, is_confidential, is_secret_basic}
use one_issuer.Url.{Values, get, count_of, valid_values_utf8}
use one_issuer.Oidc.Checked.{Checked, rejected, accepted, ◌>>=◌, ◌>>◌, reject_when}
use one_issuer.Oidc.Authorize.{not_single, client_id_name}
use one_issuer.Oidc.TokenRequest.{
  Fosite, TokenError, token_error, TokenClientResolver, Authentication, refused, authenticated,
  authenticate_token_client, only_token_parameters, client_of,
}
pub mod Confidential

-- VerifiedRevocationRequest and VerifiedIntrospectionRequest have the same fields.
pub record VerifiedLifecycleRequest : Type 0 where
  pub client : Client
  pub token : Bytes
  pub hint : Bytes

abbrev pub lifecycle_parameters : List Bytes
lifecycle_parameters =
    codes "token" ∷ codes "token_type_hint" ∷ client_id_name ∷ codes "client_secret" ∷ []

unfoldable pub valid_lifecycle_form : Values → Bool
valid_lifecycle_form form =
    not (
      not_single form (codes "token")
      || ltb 1 (count_of form (codes "token_type_hint"))
      || ltb 1 (count_of form client_id_name)
      || ltb 1 (count_of form (codes "client_secret")))
    && only_token_parameters form lifecycle_parameters

abbrev pub lifecycle_request : Client → Values → VerifiedLifecycleRequest
lifecycle_request client form = record {
  client = client;
  token = get form (codes "token");
  hint = get form (codes "token_type_hint");
}

-- The caller of introspection is a confidential Client, or is asked to authenticate as one.
abbrev pub confidential_only : Fosite → Authentication → Checked TokenError Client
confidential_only fosite (refused challenged) = rejected (token_error fosite.invalid_client true)
confidential_only fosite (authenticated client challenged) =
    if not (is_confidential client.type) || not (is_secret_basic client.token_endpoint_auth_method)
    then rejected
        (token_error fosite.invalid_client (challenged || not (is_confidential client.type)))
    else accepted client

module _ (fosite : Fosite) (clients : TokenClientResolver) where
  unfoldable pub parse_revocation_request :
      Values → List Bytes → Checked TokenError VerifiedLifecycleRequest
  parse_revocation_request form authorization = do
    reject_when (not (valid_values_utf8 form) || not (valid_lifecycle_form form))
        (token_error fosite.invalid_request false)
    reject_when (ltb 0 (count_of form (codes "client_secret")))
        (token_error fosite.invalid_client (not (is_empty authorization)))
    (client, challenged) ← client_of fosite (authenticate_token_client clients form authorization)
    accepted (lifecycle_request client form)

  unfoldable pub parse_introspection_request :
      Values → List Bytes → Checked TokenError VerifiedLifecycleRequest
  parse_introspection_request form authorization = do
    reject_when (not (valid_values_utf8 form) || not (valid_lifecycle_form form))
        (token_error fosite.invalid_request false)
    reject_when (ltb 0 (count_of form (codes "client_secret")))
        (token_error fosite.invalid_client true)
    client ← confidential_only fosite (authenticate_token_client clients form authorization)
    accepted (lifecycle_request client form)
