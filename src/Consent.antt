-- ===== src/Consent.antt =====
-- Service.Evaluate of internal/consent/consent.go: does a stored Grant cover a request?
use one_issuer.Base.{
  ℕ, Bool, true, false, not, ◌&&◌, ◌||◌, Option, none, some, List, [], ◌∷◌, ltb, ◌==◌, is_empty,
  is_some, if◌then◌else◌,
}
use one_issuer.Errors.{
  Error, Result, ok, err, consent_invalid, consent_not_found, ◌>>=◌, ◌>>◌, reject_if,
}
use one_issuer.Domain.{Client, Grant, valid_active_client}
use one_issuer.Text.{Bytes}
use one_issuer.Scope.{canonical_scopes, intersection, difference, subset}
pub mod Coverage

pub record Evaluation : Type 0 where
  pub grant : Option Grant
  pub effective : List Bytes
  pub already_granted : List Bytes
  pub new_scopes : List Bytes
  pub covers : Bool

-- The revocation, where there is one, is before the creation.
abbrev pub revoked_before : Option ℕ → ℕ → Bool
revoked_before none created = false
revoked_before (some at) created = ltb at created

-- `grant.ID == uuid.Nil || …`: the stored row contradicts itself or the request.
pub inconsistent : Grant → ℕ → Client → Bool
inconsistent g user_id c =
    (g.id == 0)
    || not (g.user_id == user_id)
    || not (g.client_id == c.id)
    || ltb g.version 1
    || (g.created_at == 0)
    || ltb g.updated_at g.created_at
    || revoked_before g.revoked_at g.created_at

pub not_granted : List Bytes → Evaluation
not_granted requested = record {
  grant = none;
  effective = [];
  already_granted = [];
  new_scopes = requested;
  covers = false;
}

abbrev pub effective_scopes : Grant → List Bytes → Client → List Bytes
effective_scopes g scopes c = if is_some g.revoked_at then [] else intersection scopes c.scopes

pub evaluation_of : Grant → List Bytes → Client → List Bytes → Evaluation
evaluation_of g scopes c requested =
    let effective = effective_scopes g scopes c in
    record {
      grant = some (record g { scopes = scopes });
      effective = effective;
      already_granted = intersection requested effective;
      new_scopes = difference requested effective;
      covers = is_empty (difference requested effective);
    }

pub evaluate_grant : ℕ → Client → List Bytes → Result Grant → Result Evaluation
unfolding inconsistent not_granted evaluation_of
evaluate_grant user_id c requested (err consent_not_found) = ok (not_granted requested)
evaluate_grant user_id c requested (err e) = err e
evaluate_grant user_id c requested (ok g) = do
  reject_if (inconsistent g user_id c) consent_invalid
  scopes ← elim (canonical_scopes g.scopes) [ err e ↦ err consent_invalid | ok scopes ↦ ok scopes ]
  ok (evaluation_of g scopes c requested)

-- `lookup` is the repository's GetConsentGrant for the user and the Client.
unfoldable pub evaluate : (ℕ → ℕ → Result Grant) → ℕ → Client → List Bytes → Result Evaluation
unfolding evaluate_grant
evaluate lookup user_id c requested = elim (canonical_scopes requested) [
  | err e ↦ err consent_invalid
  | ok canonical ↦
      if (user_id == 0) || not (valid_active_client c) || not (subset canonical c.scopes)
      then err consent_invalid
      else evaluate_grant user_id c canonical (lookup user_id c.id)
]
