-- ===== src/Oidc/TokenRequest/Identity.antt =====
-- How a Client identified itself that authenticateTokenClient of internal/oidc/token_request.go accepts.
use one_issuer.Base.{
  ◌≡◌, refl, ◌⊎◌, inl, inr, Bool, true, false, Option, none, some, List, [], ◌∷◌, arith, ltb,
  Bool-cases,
}
use one_issuer.Errors.{Result, ok, err}
use one_issuer.Text.{Bytes}
use one_issuer.Domain.{Client, is_public, is_confidential, is_auth_none, is_secret_basic}
use one_issuer.Url.{Values, get, count_of}
use one_issuer.Oidc.Authorize.{not_single, client_id_name}
use one_issuer.Oidc.Basic.{parse_strict_basic}
use one_issuer.Oidc.TokenRequest.{
  TokenClientResolver, Authentication, refused, authenticated, by_secret, by_name, by_credential,
  authenticate_token_client,
}

pub Authentication-cases :
    (a : Authentication)
    → ((client : Client) × (challenged : Bool) × (a ≡ authenticated client challenged))
      ⊎ ((challenged : Bool) × (a ≡ refused challenged))
Authentication-cases (authenticated client challenged) = inl (client, challenged, refl)
Authentication-cases (refused challenged) = inr (challenged, refl)

-- A confidential Client proved its secret: one header, and no identifier in the form beside it.
pub record ProvedSecret (clients : TokenClientResolver) (form : Values) (authorization : List Bytes)
    (client : Client) : Type 0 where
  pub header : Bytes
  pub client_id : Bytes
  pub secret : Bytes
  pub one_header : authorization ≡ header ∷ []
  pub no_name : ltb 0 (count_of form client_id_name) ≡ false
  pub parsed : parse_strict_basic header ≡ some (client_id, secret)
  pub validated : clients.validate_secret client_id secret ≡ ok client
  pub confidential : is_confidential client.type ≡ true
  pub by_basic : is_secret_basic client.token_endpoint_auth_method ≡ true

-- A public Client gave its name: no header, and one identifier in the form.
pub record GaveName (clients : TokenClientResolver) (form : Values) (authorization : List Bytes)
    (client : Client) : Type 0 where
  pub no_header : authorization ≡ []
  pub one_name : not_single form client_id_name ≡ false
  pub client_active : clients.resolve_active (get form client_id_name) ≡ ok client
  pub public : is_public client.type ≡ true
  pub by_none : is_auth_none client.token_endpoint_auth_method ≡ true

by_name-authenticated :
    {client : Client} {challenged : Bool} (r : Result Client)
    → by_name r ≡ authenticated client challenged
    → (r ≡ ok client)
      × (is_public client.type ≡ true)
      × (is_auth_none client.token_endpoint_auth_method ≡ true)
by_name-authenticated (err e) h = cc
by_name-authenticated {client} (ok c) h = (ground arith, ground arith, ground arith)

by_secret-authenticated :
    {client : Client} {challenged : Bool} (r : Result Client)
    → by_secret r ≡ authenticated client challenged
    → (r ≡ ok client)
      × (is_confidential client.type ≡ true)
      × (is_secret_basic client.token_endpoint_auth_method ≡ true)
by_secret-authenticated (err e) h = cc
by_secret-authenticated {client} (ok c) h = (ground arith, ground arith, ground arith)

by_credential-authenticated :
    (clients : TokenClientResolver) (o : Option (Bytes × Bytes)) {client : Client}
    {challenged : Bool}
    → by_credential clients o ≡ authenticated client challenged
    → (client_id : Bytes) × (secret : Bytes) × (o ≡ some (client_id, secret))
      × (by_secret (clients.validate_secret client_id secret) ≡ authenticated client challenged)
by_credential-authenticated clients none h = cc
by_credential-authenticated clients (some (client_id, secret)) h = (client_id, secret, refl, h)

-- An authenticated Client proved its secret or, if it is public, gave its name.
pub authenticate_token_client_sound :
    (clients : TokenClientResolver) (form : Values) (authorization : List Bytes) {client : Client}
    {challenged : Bool}
    → authenticate_token_client clients form authorization ≡ authenticated client challenged
    → ProvedSecret clients form authorization client ⊎ GaveName clients form authorization client
unfolding authenticate_token_client
authenticate_token_client_sound clients form [] {client} {challenged} h =
    elim (Bool-cases (not_single form client_id_name)) [
      | inl missing ↦ absurd (ground arith)
      | inr single ↦
          let (found, public, by_none) =
            by_name-authenticated {challenged = challenged}
              (clients.resolve_active (get form client_id_name)) (ground arith) in
          inr (record {
            no_header = refl;
            one_name = single;
            client_active = found;
            public = public;
            by_none = by_none;
          })
    ]
authenticate_token_client_sound clients form (header ∷ []) {client} {challenged} h =
    elim (Bool-cases (ltb 0 (count_of form client_id_name))) [
      | inl named ↦ absurd (ground arith)
      | inr unnamed ↦
          let (client_id, secret, parsed, checked) =
            by_credential-authenticated clients (parse_strict_basic header) {client = client}
              {challenged = challenged} (ground arith) in
          let (validated, confidential, by_basic) = by_secret-authenticated _ checked in
          inl (record {
            header = header;
            client_id = client_id;
            secret = secret;
            one_header = refl;
            no_name = unnamed;
            parsed = parsed;
            validated = validated;
            confidential = confidential;
            by_basic = by_basic;
          })
    ]
authenticate_token_client_sound clients form (header ∷ other ∷ more) h = cc
