-- ===== src/Oidc/Lifecycle/Confidential.antt =====
-- Who may introspect, and who may revoke: the parsers of internal/oidc/lifecycle_request.go.
use one_issuer.Base.{
  ◌≡◌, refl, sym, ap, ◌∙◌, ◌⊎◌, inl, inr, Bool, true, false, List, [], arith, is_empty, subst,
}
use one_issuer.Text.{Bytes, codes}
use one_issuer.Domain.{Client, is_public, is_confidential, public, confidential, ClientType}
use one_issuer.Url.{Values, get}
use one_issuer.Oidc.Checked.{rejected, accepted, Checked-cases}
use one_issuer.Oidc.TokenRequest.{
  Fosite, TokenError, token_error, TokenClientResolver, Authentication, refused, authenticated,
  authenticate_token_client,
}
use one_issuer.Oidc.TokenRequest.Identity.{ProvedSecret, GaveName, authenticate_token_client_sound}
use one_issuer.Oidc.Lifecycle.{
  VerifiedLifecycleRequest, valid_lifecycle_form, confidential_only, parse_introspection_request,
}
use one_issuer.Oidc.TokenRequest.Challenge.{challenge_of, authenticate-challenge}

-- A request of a Client that proved its secret, with a token in it.
pub record IsIntrospection (clients : TokenClientResolver) (form : Values)
    (authorization : List Bytes) (r : VerifiedLifecycleRequest) : Type 0 where
  pub proved : ProvedSecret clients form authorization r.client
  pub token : is_empty r.token ≡ false

not_public : (t : ClientType) → is_public t ≡ true → is_confidential t ≡ true → ⊥
not_public public h k = cc
not_public confidential h k = cc

proved_by :
    (clients : TokenClientResolver) (form : Values) (authorization : List Bytes) (client : Client)
    → is_confidential client.type ≡ true
    → ProvedSecret clients form authorization client ⊎ GaveName clients form authorization client
    → ProvedSecret clients form authorization client
proved_by clients form authorization client h (inl proved) = proved
proved_by clients form authorization client h (inr named) =
    absurd (not_public client.type named.public h)

confidential_only-accepted :
    (fosite : Fosite) (a : Authentication) (client : Client)
    → confidential_only fosite a ≡ accepted client
    → (is_confidential client.type ≡ true)
      × ((challenged : Bool) × (a ≡ authenticated client challenged))
confidential_only-accepted fosite (refused c) client h = cc
confidential_only-accepted fosite (authenticated c challenged) client h =
    (ground arith, (challenged, ground arith))

confidential_only-rejected :
    (fosite : Fosite) (a : Authentication) (e : TokenError)
    → confidential_only fosite a ≡ rejected e
    → ((client : Client) (challenged : Bool)
        → a ≡ authenticated client challenged
        → (challenged ≡ true) ⊎ (is_confidential client.type ≡ false))
    → e ≡ token_error fosite.invalid_client true
confidential_only-rejected fosite (refused c) e h k = ground arith
confidential_only-rejected fosite (authenticated c challenged) e h k = asked (k c challenged refl)
  where
    asked :
        (challenged ≡ true) ⊎ (is_confidential c.type ≡ false)
        → e ≡ token_error fosite.invalid_client true
    asked (inl p) = ground arith
    asked (inr p) = ground arith

public-not_confidential : (t : ClientType) → is_public t ≡ true → is_confidential t ≡ false
public-not_confidential public h = refl
public-not_confidential confidential h = cc

challenged_or_public :
    (clients : TokenClientResolver) (form : Values) (authorization : List Bytes) (client : Client)
    (challenged : Bool)
    → authenticate_token_client clients form authorization ≡ authenticated client challenged
    → (challenged ≡ true) ⊎ (is_confidential client.type ≡ false)
challenged_or_public clients form authorization client challenged who =
    split (authenticate-challenge clients form authorization)
      (authenticate_token_client_sound clients form authorization who)
  where
    split :
        (challenge_of (authenticate_token_client clients form authorization) ≡ true)
          ⊎ (authorization ≡ [])
        → ProvedSecret clients form authorization client
          ⊎ GaveName clients form authorization client
        → (challenged ≡ true) ⊎ (is_confidential client.type ≡ false)
    split (inl asked) w = inl (ap challenge_of (sym who) ∙ asked)
    split (inr no_header) (inl proved) = absurd (cc (proved.one_header, no_header))
    split (inr no_header) (inr named) = inr (public-not_confidential client.type named.public)

has_token :
    (form : Values) (r : VerifiedLifecycleRequest)
    → valid_lifecycle_form form ≡ true
    → r.token ≡ get form (codes "token")
    → is_empty r.token ≡ false
unfolding valid_lifecycle_form
has_token form r valid e = ap is_empty e ∙ ground arith

-- Introspection is for confidential Clients: a request that ParseIntrospectionRequest accepts has a
-- token and its Client proved its secret in the only Authorization header; and a request that it
-- refuses is answered with invalid_request, or with invalid_client and always a challenge.
pub parse_introspection_request_outcome :
    (fosite : Fosite) (clients : TokenClientResolver) (form : Values) (authorization : List Bytes)
    → ((r : VerifiedLifecycleRequest)
        → parse_introspection_request fosite clients form authorization ≡ accepted r
        → IsIntrospection clients form authorization r)
      × ((e : TokenError)
          → parse_introspection_request fosite clients form authorization ≡ rejected e
          → (e ≡ token_error fosite.invalid_request false)
            ⊎ (e ≡ token_error fosite.invalid_client true))
unfolding parse_introspection_request
parse_introspection_request_outcome fosite clients form authorization = (
  λ r h.
      elim (Checked-cases
        (confidential_only fosite (authenticate_token_client clients form authorization))) [
          | inl (client, passed) ↦
              let (keeps_secret, (challenged, who)) =
                confidential_only-accepted fosite _ client passed in
              let proved =
                proved_by clients form authorization client keeps_secret
                  (authenticate_token_client_sound clients form authorization who) in
              let same : r.client ≡ client = ground arith in
              record {
                proved =
                    subst (λ (c : Client). ProvedSecret clients form authorization c) (sym same)
                      proved;
                token = has_token form r (ground arith) (ground arith);
              }
          | inr (e, failed) ↦ absurd (ground arith)
        ],
  λ e h.
      elim (Checked-cases
        (confidential_only fosite (authenticate_token_client clients form authorization))) [
          | inl (client, passed) ↦ ground arith
          | inr (e', failed) ↦
              let asked =
                confidential_only-rejected fosite _ e' failed
                  (challenged_or_public clients form authorization) in
              ground arith
        ],
)
