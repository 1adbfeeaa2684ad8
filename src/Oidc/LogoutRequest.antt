-- ===== src/Oidc/LogoutRequest.antt =====
-- ParseLogoutRequest of internal/oidc/logout_request.go.
use one_issuer.Base.{
  ℕ, ◌*◌, ◌≤◌, ◌≡◌, refl, ap, ◌∙◌, ◌⊎◌, inl, inr, Bool, true, false, not, ◌&&◌, Option, none, some,
  List, [], ◌∷◌, arith, length, ltb, ◌==◌, if◌then◌else◌, is_empty, Bool-cases, subst,
}
use one_issuer.Text.{Bytes, codes, str_eq}
use one_issuer.Text.Order.{str_eq→eq}
use one_issuer.Url.{Values, entries, get, first_entry, clean_text}

pub record LogoutRequest : Type 0 where
  pub id_token_hint : Bytes
  pub client_id : Bytes
  pub logout_hint : Bytes
  pub post_logout_redirect_uri : Bytes
  pub state : Bytes
  pub ui_locales : Bytes

-- The names that are allowed, each with the length of its longest value.
abbrev pub allowed : List (Bytes × ℕ)
allowed =
    (codes "id_token_hint", 8 * 1024)
    ∷ (codes "client_id", 128)
    ∷ (codes "logout_hint", 1024)
    ∷ (codes "post_logout_redirect_uri", 2048)
    ∷ (codes "state", 1024)
    ∷ (codes "ui_locales", 1024)
    ∷ []

-- `maximum, exists := allowed[name]`
unfoldable pub maximum_of : Bytes → List (Bytes × ℕ) → Option ℕ
maximum_of name [] = none
maximum_of name ((key, maximum) ∷ rest) =
    if str_eq key name then some maximum else maximum_of name rest

abbrev pub valid_entry : Option ℕ → List Bytes → Bool
valid_entry none found = false
valid_entry (some maximum) found =
    (length found == 1)
    && not (is_empty (first_entry found))
    && not (ltb maximum (length (first_entry found)))
    && clean_text (first_entry found)

-- The loop over the parameters.
unfoldable pub valid_logout_values : Values → Bool
unfolding maximum_of
valid_logout_values [] = true
valid_logout_values ((name, found) ∷ rest) =
    valid_entry (maximum_of name allowed) found && valid_logout_values rest

-- `none` is ErrInvalidLogoutRequest.
unfoldable pub parse_logout_request : Values → Option LogoutRequest
unfolding valid_logout_values
parse_logout_request values =
    if not (valid_logout_values values)
    then none
    else some (record {
      id_token_hint = get values (codes "id_token_hint");
      client_id = get values (codes "client_id");
      logout_hint = get values (codes "logout_hint");
      post_logout_redirect_uri = get values (codes "post_logout_redirect_uri");
      state = get values (codes "state");
      ui_locales = get values (codes "ui_locales");
    })

-- A parameter that is present has the length of its bound at most.
abbrev pub IsBounded : ℕ → Bytes → Type 0
IsBounded maximum s = (s ≡ []) ⊎ ((length s ≤ maximum) × (clean_text s ≡ true))

entry-IsBounded :
    (maximum : ℕ) (found : List Bytes)
    → valid_entry (some maximum) found ≡ true
    → IsBounded maximum (first_entry found)
entry-IsBounded maximum [] h = inl refl
entry-IsBounded maximum (s ∷ more) h = inr (ground arith, ground arith)

valid_head :
    (key : Bytes) (found : List Bytes) (rest : Values)
    → valid_logout_values ((key, found) ∷ rest) ≡ true
    → valid_entry (maximum_of key allowed) found ≡ true
unfolding valid_logout_values
valid_head key found rest h = ground arith

valid_tail :
    (key : Bytes) (found : List Bytes) (rest : Values)
    → valid_logout_values ((key, found) ∷ rest) ≡ true
    → valid_logout_values rest ≡ true
unfolding valid_logout_values
valid_tail key found rest h = ground arith

get-IsBounded :
    (name : Bytes) (maximum : ℕ) (values : Values)
    → maximum_of name allowed ≡ some maximum
    → valid_logout_values values ≡ true
    → IsBounded maximum (get values name)
unfolding entries valid_logout_values
get-IsBounded name maximum [] known h = inl refl
get-IsBounded name maximum ((key, found) ∷ rest) known h = elim (Bool-cases (str_eq key name)) [
  | inl here ↦
      let same : maximum_of key allowed ≡ some maximum =
        ap (λ (k : Bytes). maximum_of k allowed) (str_eq→eq key name here) ∙ known in
      rw here (entry-IsBounded maximum found (rw same at (valid_head key found rest h)))
  | inr elsewhere ↦
      rw elsewhere (get-IsBounded name maximum rest known (valid_tail key found rest h))
]

-- The fields of an accepted request.
pub record IsLogoutRequest (r : LogoutRequest) : Type 0 where
  pub hint : IsBounded 8192 r.id_token_hint
  pub client : IsBounded 128 r.client_id
  pub logout_hint : IsBounded 1024 r.logout_hint
  pub redirect : IsBounded 2048 r.post_logout_redirect_uri
  pub state : IsBounded 1024 r.state
  pub locales : IsBounded 1024 r.ui_locales

known_names :
    (maximum_of (codes "id_token_hint") allowed ≡ some 8192)
    × (maximum_of (codes "client_id") allowed ≡ some 128)
    × (maximum_of (codes "logout_hint") allowed ≡ some 1024)
    × (maximum_of (codes "post_logout_redirect_uri") allowed ≡ some 2048)
    × (maximum_of (codes "state") allowed ≡ some 1024)
    × (maximum_of (codes "ui_locales") allowed ≡ some 1024)
unfolding maximum_of str_eq
known_names = (refl, refl, refl, refl, refl, refl)

-- Each field of a logout request that ParseLogoutRequest accepts is absent, or is clean text within
-- the bound of its parameter: 8192 bytes for the hint, 128 for the Client, 2048 for the redirection and
-- 1024 for the others.
pub parse_logout_request-IsLogoutRequest :
    (values : Values) (r : LogoutRequest) → parse_logout_request values ≡ some r → IsLogoutRequest r
unfolding parse_logout_request
parse_logout_request-IsLogoutRequest values r h =
    let valid : valid_logout_values values ≡ true = ground arith in
    let (hint, client, logout_hint, redirect, state, locales) = known_names in
    let bounded = λ (name : Bytes) (maximum : ℕ) (known : maximum_of name allowed ≡ some maximum).
      get-IsBounded name maximum values known valid in
    record {
      hint = subst (IsBounded 8192) (ground arith) (bounded _ _ hint);
      client = subst (IsBounded 128) (ground arith) (bounded _ _ client);
      logout_hint = subst (IsBounded 1024) (ground arith) (bounded _ _ logout_hint);
      redirect = subst (IsBounded 2048) (ground arith) (bounded _ _ redirect);
      state = subst (IsBounded 1024) (ground arith) (bounded _ _ state);
      locales = subst (IsBounded 1024) (ground arith) (bounded _ _ locales);
    }
