-- ===== src/Service/Access/Scopes.antt =====
-- The Scopes of an Access Token that passes accessAuthorityMatches of internal/token/token.go.
use one_issuer.Base.{
  ℕ, ◌≡◌, refl, sym, ap, ◌∙◌, inl, inr, true, Option, none, some, List, arith, Bool-ext, all, subst,
}
use one_issuer.Errors.{Result, ok, err, Result-cases}
use one_issuer.Text.{Bytes, mem, join_space}
use one_issuer.Text.Order.{str_eq→eq}
use one_issuer.Text.Sort.{Ascending}
use one_issuer.Text.Ascending.{Ascending-ext}
use one_issuer.Scope.{supported, canonical_scopes, intersection, subset}
use one_issuer.Scope.Canonical.{canonical_scopes_sound, canonical_scopes-IsScopeList}
use one_issuer.Scope.Algebra.{
  IsSubset, subset_sound, mem-intersection, intersection-Ascending, difference-is_empty_iff,
  supported_of_mem,
}
use one_issuer.Token.{RefreshFamily, AccessMetadata}
use one_issuer.Token.Narrowing.{canonical_refresh_scopes, strs_eq→eq}
use one_issuer.Store.{Db}
use one_issuer.Store.Snapshot.Access.{AccessAuthority}
use one_issuer.Service.Claims.{AccessTokenClaims, parse_scope_claim, canonical_claim}
use one_issuer.Service.Verify.{Jose}
use one_issuer.Service.Access.{
  rows_current, within_family, family_current, family_fits, scopes_fit, claims_fit, scopes_match,
  access_authority_matches, effective_access_scopes, same_scopes, family_part,
}
use one_issuer.Text.Split.{split_on}

-- What accessAuthorityMatches found out, for the canonical Scopes of the metadata.
pub record IsMatched (a : AccessAuthority) (claims : AccessTokenClaims) (now : ℕ)
    (scopes : List Bytes) : Type 0 where
  pub canonical : canonical_scopes a.metadata.scopes ≡ ok scopes
  pub rows : rows_current a now ≡ true
  pub family : family_fits scopes a.metadata now a.metadata.refresh_family_id a.family ≡ true
  pub claimed : parse_scope_claim claims.scope ≡ ok scopes
  pub in_client : subset scopes a.client.scopes ≡ true
  pub granted : IsSubset scopes (intersection a.grant.scopes a.client.scopes)
  pub subject_named : claims.subject ≡ a.user.subject
  pub client_named : claims.client_id ≡ a.client.client_id

same_scopes_sound :
    (scopes : List Bytes) (r : Result (List Bytes)) → same_scopes scopes r ≡ true → r ≡ ok scopes
same_scopes_sound scopes (err e) h = cc
same_scopes_sound scopes (ok claimed) h = ap ok (sym (strs_eq→eq scopes claimed h))

pub claim_text :
    (raw : Bytes) (scopes : List Bytes)
    → parse_scope_claim raw ≡ ok scopes
    → join_space scopes ≡ raw
unfolding parse_scope_claim
claim_text raw scopes h = text (canonical_scopes (split_on b' ' raw)) (ground arith)
  where
    text : (r : Result (List Bytes)) → canonical_claim raw r ≡ ok scopes → join_space scopes ≡ raw
    text (err e) k = cc
    text (ok canonical) k = ground (arith, str_eq→eq (join_space canonical) raw)

-- What of a family's canonical Scopes is known to its Scopes.
within_family-IsSubset :
    (scopes family_scopes : List Bytes)
    → within_family scopes (canonical_refresh_scopes family_scopes) ≡ true
    → IsSubset scopes family_scopes
unfolding canonical_refresh_scopes
within_family-IsSubset scopes family_scopes h s m =
    elim (Result-cases (canonical_scopes family_scopes)) [
      | inr (e, bad) ↦ absurd (ground arith)
      | inl (family, e) ↦
          let (v, ascending, same) = canonical_scopes_sound family_scopes family e in
          sym (same s) ∙ subset_sound scopes family (ground arith) s m
    ]

family_fits-IsSubset :
    (scopes : List Bytes) (m : AccessMetadata) (now : ℕ) (o : Option ℕ) (f : Option RefreshFamily)
    → family_fits scopes m now o f ≡ true
    → (family : RefreshFamily) → f ≡ some family
    → IsSubset scopes family.scopes
unfolding family_current
family_fits-IsSubset scopes m now none none h family e = cc
family_fits-IsSubset scopes m now none (some g) h family e = cc
family_fits-IsSubset scopes m now (some id) none h family e = cc
family_fits-IsSubset scopes m now (some id) (some g) h family e =
    subst
      (λ (o : Option RefreshFamily). elim o [ none ↦ Unit {0} | some f ↦ IsSubset scopes f.scopes ])
      e (within_family-IsSubset scopes g.scopes (ground arith))

-- What is left of the Scopes is all of them.
pub intersection-IsSubset :
    (scopes left right : List Bytes)
    → Ascending scopes
    → all supported scopes ≡ true
    → ((s : Bytes)
        → mem s left ≡ true
        → supported s ≡ true
        → mem s right ≡ true
        → mem s scopes ≡ true)
    → IsSubset scopes left
    → IsSubset scopes right
    → intersection left right ≡ scopes
intersection-IsSubset scopes left right ascending known only in_left in_right =
    Ascending-ext (intersection left right) scopes (intersection-Ascending left right) ascending
      (λ s.
        Bool-ext (mem s (intersection left right)) (mem s scopes)
          (λ m.
            let parts = sym (mem-intersection s left right) ∙ m in
            only s (ground arith) (ground arith) (ground arith))
          (λ m.
            mem-intersection s left right
            ∙ ground (arith, supported_of_mem s scopes known m, in_left s m, in_right s m)))

with_family :
    (scopes effective : List Bytes) (f : Option RefreshFamily)
    → effective ≡ scopes
    → Ascending scopes
    → all supported scopes ≡ true
    → ((family : RefreshFamily) → f ≡ some family → IsSubset scopes family.scopes)
    → family_part f effective ≡ scopes
with_family scopes effective none e ascending known within = e
with_family scopes effective (some family) e ascending known within =
    ap (λ (ss : List Bytes). intersection ss family.scopes) e
    ∙ intersection-IsSubset scopes scopes family.scopes ascending known (λ s m k n. m) (λ s m. m)
        (within family refl)

module _ (sha256 : Bytes → Bytes) (jose : Jose) (issuer : Bytes) (clock_skew : ℕ)
    (others : ℕ → Db → Db) where
  -- For a token that matches its rows nothing of its Scopes is lost.
  pub effective_access_scopes-IsMatched :
      (a : AccessAuthority) (claims : AccessTokenClaims) (now : ℕ) (scopes : List Bytes)
      → IsMatched a claims now scopes
      → effective_access_scopes a ≡ scopes
  unfolding effective_access_scopes
  effective_access_scopes-IsMatched a claims now scopes t =
      let (v, ascending, same) = canonical_scopes_sound a.metadata.scopes scopes t.canonical in
      let known =
        (canonical_scopes-IsScopeList a.metadata.scopes scopes t.canonical).0.all_supported in
      with_family scopes _ a.family
        (intersection-IsSubset scopes a.metadata.scopes
          (intersection a.grant.scopes a.client.scopes) ascending known (λ s m k n. same s ∙ m)
          (λ s m. sym (same s) ∙ m) t.granted)
        ascending known
        (family_fits-IsSubset scopes a.metadata now a.metadata.refresh_family_id a.family t.family)

  pub matches-IsMatched :
      (a : AccessAuthority) (claims : AccessTokenClaims) (now : ℕ)
      → access_authority_matches sha256 jose issuer clock_skew others a claims now ≡ true
      → (scopes : List Bytes) × IsMatched a claims now scopes
  unfolding access_authority_matches scopes_fit claims_fit
  matches-IsMatched a claims now h = elim (Result-cases (canonical_scopes a.metadata.scopes)) [
    | inr (e, bad) ↦ absurd (ground arith)
    | inl (scopes, e) ↦
        let fits : scopes_match sha256 jose issuer clock_skew others a claims now (ok scopes)
            ≡ true =
          ap (scopes_match sha256 jose issuer clock_skew others a claims now) (sym e) ∙ h in
        let known = (canonical_scopes-IsScopeList a.metadata.scopes scopes e).0.all_supported in
        (
          scopes,
          record {
            canonical = e;
            rows = ground arith;
            family = ground arith;
            claimed = same_scopes_sound scopes (parse_scope_claim claims.scope) (ground arith);
            in_client = ground arith;
            granted =
                (difference-is_empty_iff scopes (intersection a.grant.scopes a.client.scopes)
                    known).0
                  (ground arith);
            subject_named = str_eq→eq claims.subject a.user.subject (ground arith);
            client_named = str_eq→eq claims.client_id a.client.client_id (ground arith);
          },
        )
  ]
