-- ===== src/Oidc/Authorize/Redirect.antt =====
-- Where ParseAuthorizationRequest of internal/oidc/authorize.go lets an error or a request go.
use one_issuer.Base.{
  ℕ, ◌≡◌, refl, sym, ◌⊎◌, inl, inr, true, false, ◌&&◌, some, [], arith, length, ◌==◌, Bool-cases,
  ◌≤◌, subst,
}
use one_issuer.Errors.{Error, client_not_found, ok}
use one_issuer.Text.{Bytes}
use one_issuer.Domain.{Client}
use one_issuer.Url.{Values, get, count_of, parse_query}
use one_issuer.Oidc.Checked.{rejected, accepted, Checked-cases}
use one_issuer.Oidc.Authorize.{
  ErrorCode, AuthorizationError, AuthorizationClientResolver, max_authorize_query_bytes,
  local_error, valid_opaque_parameter, not_single, client_id_name, redirect_uri_name, state_name,
  trusted_state, check_syntax, check_profile, verify_parameters, resolution_error, trust,
  parse_authorization_request,
}

-- What the trust state machine found out before it trusts a redirection.
pub record IsTrusted (clients : AuthorizationClientResolver) (raw_query : Bytes) (client : Client)
    (values : Values) : Type 0 where
  pub bounded : length raw_query ≤ max_authorize_query_bytes
  pub parsed : parse_query raw_query ≡ some values
  pub one_client : not_single values client_id_name ≡ false
  pub one_redirect : not_single values redirect_uri_name ≡ false
  pub client_active : clients.resolve_active (get values client_id_name) ≡ ok client
  pub registered : clients.redirect_uri_matches client (get values redirect_uri_name) ≡ true

-- An error that is answered here and carries nothing of the request.
pub record IsLocal (e : AuthorizationError) : Type 0 where
  pub stays : e.safe_to_redirect ≡ false
  pub no_redirect : e.redirect_uri ≡ []
  pub no_state : e.state ≡ []

pub IsTrusted-values :
    (clients : AuthorizationClientResolver) (raw : Bytes) (client : Client) (values : Values)
    → trust clients raw ≡ accepted (client, values)
    → IsTrusted clients raw client values
unfolding trust
IsTrusted-values clients raw client values h = record {
  bounded = ground arith;
  parsed = ground arith;
  one_client = ground arith;
  one_redirect = ground arith;
  client_active = ground arith;
  registered = ground arith;
}

local_error-IsLocal : (code : ErrorCode) (status : ℕ) → IsLocal (local_error code status)
local_error-IsLocal code status = record { stays = refl; no_redirect = refl; no_state = refl }

resolution_error-IsLocal : (e : Error) → IsLocal (resolution_error e)
resolution_error-IsLocal client_not_found = local_error-IsLocal _ _
resolution_error-IsLocal e = record {
  stays = ground arith;
  no_redirect = ground arith;
  no_state = ground arith;
}

-- A request whose redirection is not trusted is answered locally.
trust-IsLocal :
    (clients : AuthorizationClientResolver) (raw : Bytes) (e : AuthorizationError)
    → trust clients raw ≡ rejected e
    → IsLocal e
unfolding trust
trust-IsLocal clients raw e h = record {
  stays = ground arith;
  no_redirect = ground arith;
  no_state = ground arith;
}

-- The error goes back with this redirection and State.
record IsAnswer (redirect_uri state : Bytes) (e : AuthorizationError) : Type 0 where
  goes : e.safe_to_redirect ≡ true
  found : e.http_status ≡ 302
  to : e.redirect_uri ≡ redirect_uri
  with_state : e.state ≡ state

module _ (client : Client) (redirect_uri state : Bytes) (values : Values) where
  check_syntax-IsAnswer :
      (e : AuthorizationError)
      → check_syntax client redirect_uri state values ≡ rejected e
      → IsAnswer redirect_uri state e
  unfolding check_syntax
  check_syntax-IsAnswer e h = record {
    goes = ground arith;
    found = ground arith;
    to = ground arith;
    with_state = ground arith;
  }

  check_profile-IsAnswer :
      (e : AuthorizationError)
      → check_profile client redirect_uri state values ≡ rejected e
      → IsAnswer redirect_uri state e
  unfolding check_profile
  check_profile-IsAnswer e h = record {
    goes = ground arith;
    found = ground arith;
    to = ground arith;
    with_state = ground arith;
  }

  verify_parameters-IsAnswer :
      (e : AuthorizationError)
      → verify_parameters client redirect_uri state values ≡ rejected e
      → IsAnswer redirect_uri state e
  unfolding verify_parameters
  verify_parameters-IsAnswer e h =
      elim (Checked-cases (check_syntax client redirect_uri state values)) [
        | inl (u, passed) ↦ check_profile-IsAnswer e (ground arith)
        | inr (e', failed) ↦ check_syntax-IsAnswer e (ground arith)
      ]

-- The State of an answer: none, or the single valid one of the request.
abbrev pub IsStateOf : Bytes → Values → Type 0
IsStateOf state values =
    (state ≡ [])
    ⊎ ((state ≡ get values state_name)
        × (count_of values state_name ≡ 1)
        × (valid_opaque_parameter state ≡ true))

trusted_state-IsStateOf : (values : Values) → IsStateOf (trusted_state values) values
unfolding trusted_state
trusted_state-IsStateOf values =
    elim (Bool-cases
      ((count_of values state_name == 1) && valid_opaque_parameter (get values state_name))) [
        | inl valid ↦ inr (rw valid refl, ground arith, ground arith)
        | inr invalid ↦ inl (rw invalid refl)
      ]

-- The error goes to a redirection that is registered for the Client that the request names.
pub record IsRedirected (clients : AuthorizationClientResolver) (raw_query : Bytes)
    (e : AuthorizationError) : Type 0 where
  pub client : Client
  pub values : Values
  pub trusted : IsTrusted clients raw_query client values
  pub to : e.redirect_uri ≡ get values redirect_uri_name
  pub found : e.http_status ≡ 302
  pub of_request : IsStateOf e.state values

-- An error of ParseAuthorizationRequest either stays here, without redirection and State, or goes, as
-- a 302, to the one redirection that the request names; then the request is within its size and well
-- formed, it names one Client, the registry has that Client as active and the redirection as
-- registered with it, and the State that goes along is none or the single valid one of the request.
pub authorization_error-IsRedirected :
    (clients : AuthorizationClientResolver) (raw : Bytes) (e : AuthorizationError)
    → parse_authorization_request clients raw ≡ rejected e
    → IsLocal e ⊎ ((e.safe_to_redirect ≡ true) × IsRedirected clients raw e)
unfolding parse_authorization_request
authorization_error-IsRedirected clients raw e h = elim (Checked-cases (trust clients raw)) [
  | inl ((client, values), found) ↦
      let answer =
        verify_parameters-IsAnswer client (get values redirect_uri_name) (trusted_state values)
          values e (ground arith) in
      inr (
        answer.goes,
        record {
          client = client;
          values = values;
          trusted = IsTrusted-values clients raw client values found;
          to = answer.to;
          found = answer.found;
          of_request =
              subst (λ (s : Bytes). IsStateOf s values) (sym answer.with_state)
                (trusted_state-IsStateOf values);
        },
      )
  | inr (e', failed) ↦ inl (trust-IsLocal clients raw e (ground arith))
]
