-- ===== src/Oidc/TokenRequest/Challenge.antt =====
-- Which errors the token endpoints of internal/oidc answer with, and when they ask for a challenge.
use one_issuer.Base.{
  ◌≡◌, refl, sym, ap, ◌∙◌, ◌⊎◌, inl, inr, Bool, true, false, not, Option, none, some, List, [], ◌∷◌,
  arith, is_empty, Bool-cases,
}
use one_issuer.Errors.{Result, ok, err}
use one_issuer.Text.{Bytes, codes, str_eq}
use one_issuer.Domain.{Client}
use one_issuer.Url.{Values, get}
use one_issuer.Oidc.Checked.{rejected, ◌>>◌, reject_when, Checked-cases}
use one_issuer.Oidc.Basic.{parse_strict_basic}
use one_issuer.Oidc.TokenRequest.{
  Template, Fosite, TokenError, TokenClientResolver, Authentication, refused, authenticated,
  by_secret, by_credential, authenticate_token_client, authorization_code_grant, code_request,
  refresh_request, check_form, grant_request, parse_token_request, grant_unsupported, token_error,
}
use one_issuer.Oidc.TokenRequest.Identity.{Authentication-cases}

-- The flag of an authentication.
abbrev pub challenge_of : Authentication → Bool
challenge_of (refused challenged) = challenged
challenge_of (authenticated client challenged) = challenged

by_secret-challenge : (r : Result Client) → challenge_of (by_secret r) ≡ true
by_secret-challenge (err e) = refl
by_secret-challenge (ok c) = ground arith

by_credential-challenge :
    (clients : TokenClientResolver) (o : Option (Bytes × Bytes))
    → challenge_of (by_credential clients o) ≡ true
by_credential-challenge clients none = refl
by_credential-challenge clients (some (client_id, secret)) =
    by_secret-challenge (clients.validate_secret client_id secret)

-- Whoever sends a header is challenged.
pub authenticate-challenge :
    (clients : TokenClientResolver) (form : Values) (authorization : List Bytes)
    → (challenge_of (authenticate_token_client clients form authorization) ≡ true)
      ⊎ (authorization ≡ [])
unfolding authenticate_token_client
authenticate-challenge clients form [] = inr refl
authenticate-challenge clients form (header ∷ []) =
    inl (ground (arith, by_credential-challenge clients (parse_strict_basic header)))
authenticate-challenge clients form (header ∷ other ∷ more) = inl refl

-- The answers: the Client is challenged; or it failed to authenticate and sent no header; or the
-- request is at fault, and there is no challenge.
abbrev pub IsAnswer : Fosite → List Bytes → TokenError → Type 0
IsAnswer fosite authorization e =
    (e ≡ token_error fosite.invalid_client true)
    ⊎ (((e ≡ token_error fosite.invalid_client false) × (authorization ≡ []))
        ⊎ ((t : Template) × ((t ≡ fosite.invalid_request)
              ⊎ ((t ≡ fosite.unsupported_grant_type)
                  ⊎ ((t ≡ fosite.invalid_grant) ⊎ (t ≡ fosite.invalid_scope))))
            × (e ≡ token_error t false)))

client_error :
    (fosite : Fosite) (authorization : List Bytes) (challenged : Bool) (e : TokenError)
    → (challenged ≡ true) ⊎ (authorization ≡ [])
    → e ≡ token_error fosite.invalid_client challenged
    → IsAnswer fosite authorization e
client_error fosite authorization true e w h = inl h
client_error fosite authorization false e (inl w) h = cc
client_error fosite authorization false e (inr w) h = inr (inl (h, w))

module _ (fosite : Fosite) (sha256 : Bytes → Bytes) (form : Values)
    (authorization : List Bytes) where
  request_error :
      (e : TokenError)
      → e ≡ token_error fosite.invalid_request false
      → IsAnswer fosite authorization e
  request_error e h = inr (inr (fosite.invalid_request, inl refl, h))

  grant_error :
      (e : TokenError)
      → e ≡ token_error fosite.invalid_grant false
      → IsAnswer fosite authorization e
  grant_error e h = inr (inr (fosite.invalid_grant, inr (inr (inl refl)), h))

  check_form_error :
      (e : TokenError)
      → check_form fosite sha256 form authorization ≡ rejected e
      → (e ≡ token_error fosite.invalid_request false)
        ⊎ ((e ≡ token_error fosite.unsupported_grant_type false)
            ⊎ (e ≡ token_error fosite.invalid_client (not (is_empty authorization))))
  unfolding check_form
  check_form_error e h = ground arith

  code_request_error :
      (client : Client) (e : TokenError)
      → code_request fosite sha256 client form ≡ rejected e
      → (e ≡ token_error fosite.invalid_request false)
        ⊎ (e ≡ token_error fosite.invalid_grant false)
  unfolding code_request
  code_request_error client e h = ground arith

  refresh_request_error :
      (client : Client) (e : TokenError)
      → refresh_request fosite sha256 client form ≡ rejected e
      → (e ≡ token_error fosite.invalid_request false)
        ⊎ ((e ≡ token_error fosite.invalid_grant false)
            ⊎ (e ≡ token_error fosite.invalid_scope false))
  unfolding refresh_request
  refresh_request_error client e h = ground arith

  some_header : (hs : List Bytes) → (not (is_empty hs) ≡ true) ⊎ (hs ≡ [])
  some_header [] = inr refl
  some_header (h ∷ hs) = inl refl

  form_error :
      (e : TokenError)
      → (e ≡ token_error fosite.invalid_request false)
        ⊎ ((e ≡ token_error fosite.unsupported_grant_type false)
            ⊎ (e ≡ token_error fosite.invalid_client (not (is_empty authorization))))
      → IsAnswer fosite authorization e
  form_error e (inl h) = request_error e h
  form_error e (inr (inl h)) = inr (inr (fosite.unsupported_grant_type, inr (inl refl), h))
  form_error e (inr (inr h)) =
      client_error fosite authorization (not (is_empty authorization)) e (some_header authorization)
        h

  code_error :
      (e : TokenError)
      → (e ≡ token_error fosite.invalid_request false)
        ⊎ (e ≡ token_error fosite.invalid_grant false)
      → IsAnswer fosite authorization e
  code_error e (inl h) = request_error e h
  code_error e (inr h) = grant_error e h

  refresh_error :
      (e : TokenError)
      → (e ≡ token_error fosite.invalid_request false)
        ⊎ ((e ≡ token_error fosite.invalid_grant false)
            ⊎ (e ≡ token_error fosite.invalid_scope false))
      → IsAnswer fosite authorization e
  refresh_error e (inl h) = request_error e h
  refresh_error e (inr (inl h)) = grant_error e h
  refresh_error e (inr (inr h)) = inr (inr (fosite.invalid_scope, inr (inr (inr refl)), h))

  grant_request_error :
      (client : Client) (e : TokenError)
      → grant_request fosite sha256 client form ≡ rejected e
      → IsAnswer fosite authorization e
  unfolding grant_request
  grant_request_error client e h =
      elim (Bool-cases (str_eq (get form (codes "grant_type")) authorization_code_grant)) [
        | inl code ↦ code_error e (code_request_error client e (ground arith))
        | inr other ↦ refresh_error e (refresh_request_error client e (ground arith))
      ]

  authenticated_error :
      (clients : TokenClientResolver) (client : Client) (challenged : Bool) (e : TokenError)
      → (challenged ≡ true) ⊎ (authorization ≡ [])
      → (reject_when
            (grant_unsupported fosite sha256 (get form (codes "grant_type")))
            (token_error fosite.invalid_client challenged)
          >> grant_request fosite sha256 client form)
        ≡ rejected e
      → IsAnswer fosite authorization e
  authenticated_error clients client challenged e w h =
      elim (Bool-cases (grant_unsupported fosite sha256 (get form (codes "grant_type")))) [
        | inl unsupported ↦ client_error fosite authorization challenged e w (ground arith)
        | inr supported ↦ grant_request_error client e (ground arith)
      ]

-- An error of ParseTokenRequest is one of three. It is invalid_client with a challenge; or it is
-- invalid_client without one, and then the request had no Authorization header; or it is one of the
-- four other errors, and then it has no challenge.
pub token_request-IsAnswer :
    (fosite : Fosite) (sha256 : Bytes → Bytes) (clients : TokenClientResolver) (form : Values)
    (authorization : List Bytes) (e : TokenError)
    → parse_token_request fosite sha256 clients form authorization ≡ rejected e
    → IsAnswer fosite authorization e
unfolding parse_token_request
token_request-IsAnswer fosite sha256 clients form authorization e h =
    elim (Checked-cases (check_form fosite sha256 form authorization)) [
      | inr (e', failed) ↦
          form_error fosite sha256 form authorization e
            (check_form_error fosite sha256 form authorization e (ground arith))
      | inl (u, passed) ↦
          let asked = authenticate-challenge clients form authorization in
          elim (Authentication-cases (authenticate_token_client clients form authorization)) [
            | inl (client, challenged, who) ↦
                authenticated_error fosite sha256 form authorization clients client challenged e
                  (flag who asked) (ground arith)
            | inr (challenged, who) ↦
                client_error fosite authorization challenged e (flag who asked) (ground arith)
          ]
    ]
  where
    flag :
        {a b : Authentication}
        → a ≡ b
        → (challenge_of a ≡ true) ⊎ (authorization ≡ [])
        → (challenge_of b ≡ true) ⊎ (authorization ≡ [])
    flag p (inl q) = inl (ap challenge_of (sym p) ∙ q)
    flag p (inr q) = inr q
