-- ===== src/Oidc/TokenRequest.antt =====
-- ParseTokenRequest of internal/oidc/token_request.go, with the authentication of the Client that all
-- token endpoints share. Fosite, SHA-256 and the Client registry are parameters; `authorization` is
-- the list of the Authorization headers.
use one_issuer.Base.{
  ℕ, Bool, true, false, not, ◌&&◌, ◌||◌, Option, none, some, List, [], ◌∷◌, length, ltb, ◌==◌,
  if◌then◌else◌, is_empty, any, all,
}
use one_issuer.Errors.{Result, ok, err}
use one_issuer.Text.{Bytes, codes, str_eq, mem}
use one_issuer.Domain.{Client, is_public, is_confidential, is_auth_none, is_secret_basic}
use one_issuer.Scope.{canonical_scopes}
use one_issuer.Token.Secret.{digest_presented_refresh_token, digest_presented_code, valid_verifier}
use one_issuer.Url.{Values, get, count_of, valid_values_utf8}
use one_issuer.Oidc.Checked.{Checked, rejected, accepted, ◌>>=◌, ◌>>◌, reject_when, or_reject}
use one_issuer.Oidc.Lists.{split_strict_space_list}
use one_issuer.Oidc.Authorize.{not_single, client_id_name, redirect_uri_name}
use one_issuer.Oidc.Basic.{parse_strict_basic}
pub mod Identity
pub mod Grants
pub mod Authenticated
pub mod Challenge

-- fosite.RFC6749Error, of which the code reads two fields.
pub record Template : Type 0 where
  pub error_field : Bytes
  pub code_field : ℕ

-- What is used of Fosite: its error templates and fosite.Arguments.Has.
pub record Fosite : Type 0 where
  pub invalid_request : Template
  pub unsupported_grant_type : Template
  pub invalid_client : Template
  pub invalid_grant : Template
  pub invalid_scope : Template
  pub has : List Bytes → Bytes → Bool

pub record TokenError : Type 0 where
  pub code : Bytes
  pub http_status : ℕ
  pub basic_challenge : Bool

-- `tokenError`, for a template that is not nil
abbrev pub token_error : Template → Bool → TokenError
token_error template basic = record {
  code = template.error_field;
  http_status = template.code_field;
  basic_challenge = basic;
}

-- A nil slice of Scopes is `none`.
pub record VerifiedTokenRequest : Type 0 where
  pub grant_type : Bytes
  pub client : Client
  pub code_hash : Bytes
  pub refresh_token_hash : Bytes
  pub redirect_uri : Bytes
  pub code_verifier : Bytes
  pub scopes : Option (List Bytes)

-- Beside an error a resolver returns the zero Client, as the Client service does, so that the error
-- is all there is to model of such a result.
pub record TokenClientResolver : Type 0 where
  pub resolve_active : Bytes → Result Client
  pub validate_secret : Bytes → Bytes → Result Client

-- The results of `authenticateTokenClient`, each with the flag that asks for a challenge.
pub data Authentication : Type 0 where
  refused : Bool → Authentication
  authenticated : Client → Bool → Authentication

abbrev pub by_secret : Result Client → Authentication
by_secret (err e) = refused true
by_secret (ok client) =
    if not (is_confidential client.type) || not (is_secret_basic client.token_endpoint_auth_method)
    then refused true
    else authenticated client true

abbrev pub by_name : Result Client → Authentication
by_name (err e) = refused false
by_name (ok client) =
    if not (is_public client.type) || not (is_auth_none client.token_endpoint_auth_method)
    then refused (is_confidential client.type)
    else authenticated client false

abbrev pub by_credential : TokenClientResolver → Option (Bytes × Bytes) → Authentication
by_credential clients none = refused true
by_credential clients (some (client_id, secret)) =
    by_secret (clients.validate_secret client_id secret)

unfoldable pub authenticate_token_client :
    TokenClientResolver → Values → List Bytes → Authentication
authenticate_token_client clients form [] =
    if not_single form client_id_name
    then refused false
    else by_name (clients.resolve_active (get form client_id_name))
authenticate_token_client clients form (header ∷ []) =
    if ltb 0 (count_of form client_id_name)
    then refused true
    else by_credential clients (parse_strict_basic header)
authenticate_token_client clients form (header ∷ other ∷ more) = refused true

-- `onlyTokenParameters`
unfoldable pub only_token_parameters : Values → List Bytes → Bool
only_token_parameters form allowed = all (λ (name, found). mem name allowed) form

abbrev pub canonical_of_parts : List Bytes → Result (List Bytes) → Option (List Bytes)
canonical_of_parts parts (err e) = none
canonical_of_parts parts (ok canonical) =
    if not (length canonical == length parts) then none else some canonical

-- The test of the raw value and its split are those of `splitStrictSpaceList`.
unfoldable pub parse_refresh_scope : Bytes → Option (List Bytes)
parse_refresh_scope raw = elim (split_strict_space_list raw) [
  | none ↦ none
  | some parts ↦ canonical_of_parts parts (canonical_scopes parts)
]

abbrev pub authorization_code_grant : Bytes
authorization_code_grant = codes "authorization_code"

abbrev pub refresh_token_grant : Bytes
refresh_token_grant = codes "refresh_token"

abbrev pub single_parameters : List Bytes
single_parameters =
    client_id_name
    ∷ codes "client_secret"
    ∷ codes "scope"
    ∷ codes "code"
    ∷ redirect_uri_name
    ∷ codes "code_verifier"
    ∷ refresh_token_grant
    ∷ []

unfoldable pub repeats_token_parameter : Values → Bool
repeats_token_parameter form = any (λ name. ltb 1 (count_of form name)) single_parameters

abbrev pub code_parameters : List Bytes
code_parameters =
    codes "grant_type"
    ∷ codes "code"
    ∷ redirect_uri_name
    ∷ codes "code_verifier"
    ∷ client_id_name
    ∷ codes "scope"
    ∷ []

abbrev pub refresh_parameters : List Bytes
refresh_parameters = codes "grant_type" ∷ refresh_token_grant ∷ client_id_name ∷ codes "scope" ∷ []

abbrev pub ok_or : {A : Type 0} → Result A → TokenError → Checked TokenError A
ok_or (err e) failure = rejected failure
ok_or (ok a) failure = accepted a

-- The scope parameter of a refresh: absent, or canonical.
unfoldable pub requested_scopes : Values → Option (Option (List Bytes))
requested_scopes form =
    if count_of form (codes "scope") == 1
    then elim (parse_refresh_scope (get form (codes "scope"))) [
      | none ↦ none
      | some ss ↦ some (some ss)
    ]
    else some none

abbrev pub client_of : Fosite → Authentication → Checked TokenError (Client × Bool)
client_of fosite (refused challenged) = rejected (token_error fosite.invalid_client challenged)
client_of fosite (authenticated client challenged) = accepted (client, challenged)

module _ (fosite : Fosite) (sha256 : Bytes → Bytes) where
  -- `newFositeClient` lists these grant types and this response type for every Client.
  abbrev pub grant_types : List Bytes
  grant_types = authorization_code_grant ∷ refresh_token_grant ∷ []

  unfoldable pub grant_unsupported : Bytes → Bool
  grant_unsupported grant_type =
      not (fosite.has grant_types grant_type)
      || (str_eq grant_type authorization_code_grant
          && not (fosite.has (codes "code" ∷ []) (codes "code")))

  unfoldable pub lacks_code_parameter : Values → Bool
  lacks_code_parameter form =
      not (only_token_parameters form code_parameters)
      || is_empty (get form (codes "code"))
      || is_empty (get form redirect_uri_name)
      || is_empty (get form (codes "code_verifier"))

  unfoldable pub code_request : Client → Values → Checked TokenError VerifiedTokenRequest
  code_request client form = do
    reject_when (lacks_code_parameter form) (token_error fosite.invalid_request false)
    code_hash ←
        ok_or (digest_presented_code sha256 (get form (codes "code")))
          (token_error fosite.invalid_grant false)
    reject_when (not (valid_verifier (get form (codes "code_verifier"))))
        (token_error fosite.invalid_grant false)
    accepted (record {
      grant_type = get form (codes "grant_type");
      client = client;
      code_hash = code_hash;
      refresh_token_hash = [];
      redirect_uri = get form redirect_uri_name;
      code_verifier = get form (codes "code_verifier");
      scopes = none;
    })

  unfoldable pub refresh_request : Client → Values → Checked TokenError VerifiedTokenRequest
  refresh_request client form = do
    reject_when
        (not (only_token_parameters form refresh_parameters)
          || is_empty (get form refresh_token_grant))
        (token_error fosite.invalid_request false)
    refresh_hash ←
        ok_or (digest_presented_refresh_token sha256 (get form refresh_token_grant))
          (token_error fosite.invalid_grant false)
    scopes ← or_reject (requested_scopes form) (token_error fosite.invalid_scope false)
    accepted (record {
      grant_type = get form (codes "grant_type");
      client = client;
      code_hash = [];
      refresh_token_hash = refresh_hash;
      redirect_uri = [];
      code_verifier = [];
      scopes = scopes;
    })

  -- The checks before the Client authenticates.
  unfoldable pub check_form : Values → List Bytes → Checked TokenError (Unit {0})
  check_form form authorization = do
    reject_when (not (valid_values_utf8 form)) (token_error fosite.invalid_request false)
    reject_when (not_single form (codes "grant_type")) (token_error fosite.invalid_request false)
    reject_when (repeats_token_parameter form) (token_error fosite.invalid_request false)
    reject_when
        (not (str_eq (get form (codes "grant_type")) authorization_code_grant)
          && not (str_eq (get form (codes "grant_type")) refresh_token_grant))
        (token_error fosite.unsupported_grant_type false)
    reject_when (ltb 0 (count_of form (codes "client_secret")))
        (token_error fosite.invalid_client (not (is_empty authorization)))

  unfoldable pub grant_request : Client → Values → Checked TokenError VerifiedTokenRequest
  grant_request client form =
      if str_eq (get form (codes "grant_type")) authorization_code_grant
      then code_request client form
      else refresh_request client form

  unfoldable pub parse_token_request :
      TokenClientResolver → Values → List Bytes → Checked TokenError VerifiedTokenRequest
  parse_token_request clients form authorization =
      check_form form authorization
      >> client_of fosite (authenticate_token_client clients form authorization)
      >>= λ (client, challenged).
          reject_when (grant_unsupported (get form (codes "grant_type")))
            (token_error fosite.invalid_client challenged)
          >> grant_request client form
