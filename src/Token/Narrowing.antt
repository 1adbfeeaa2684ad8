-- ===== src/Token/Narrowing.antt =====
-- CanonicalRefreshScopes and SelectRefreshAccessScopes of internal/token/refresh.go: the Scopes of
-- an Access Token that a refresh issues.
use one_issuer.Base.{
  ◌≡◌, refl, ◌∙◌, sym, inl, inr, true, false, not, ◌&&◌, ◌||◌, Option, none, some, List, [], ◌∷◌,
  arith, if◌then◌else◌,
}
use one_issuer.Errors.{Result, ok, err, invalid_grant, invalid_scope, Result-cases}
use one_issuer.Text.{Bytes, mem, strs_eq}
use one_issuer.Text.Order.{str_eq→eq}
use one_issuer.Text.Sort.{Ascending}
use one_issuer.Scope.{openid, offline_access, canonical_scopes, intersection, subset}
use one_issuer.Scope.Canonical.{canonical_scopes_sound, canonical_scopes-IsScopeList}
use one_issuer.Scope.Algebra.{IsSubset, subset_sound, mem-intersection, intersection-Ascending}

unfoldable pub canonical_refresh_scopes : List Bytes → Result (List Bytes)
canonical_refresh_scopes scopes = elim (canonical_scopes scopes) [
  | err e ↦ err invalid_grant
  | ok canonical ↦
      if not (mem openid canonical) || not (mem offline_access canonical)
      then err invalid_grant
      else ok canonical
]

-- The authority that is left of the family: what the Grant and the Client still allow.
unfoldable pub effective_scopes : List Bytes → List Bytes → List Bytes → List Bytes
effective_scopes family grant_scopes client_scopes =
    intersection (intersection family grant_scopes) client_scopes

narrow : Option (List Bytes) → List Bytes → Result (List Bytes)
narrow none effective = ok effective
narrow (some requested) effective = elim (canonical_scopes requested) [
  | err e ↦ err invalid_scope
  | ok canonical ↦
      if not (strs_eq canonical requested) || not (subset canonical effective)
      then err invalid_scope
      else ok canonical
]

unfoldable pub select_refresh_access_scopes :
    Option (List Bytes) → List Bytes → List Bytes → List Bytes → Result (List Bytes)
unfolding narrow
select_refresh_access_scopes requested family_scopes grant_scopes client_scopes =
    elim (canonical_refresh_scopes family_scopes) [
      | err e ↦ err invalid_grant
      | ok family ↦
          let effective = effective_scopes family grant_scopes client_scopes in
          if not (mem openid effective) || not (mem offline_access effective)
          then err invalid_grant
          else narrow requested effective
    ]

pub strs_eq→eq : (ss ts : List Bytes) → strs_eq ss ts ≡ true → ss ≡ ts
unfolding strs_eq
strs_eq→eq [] [] h = refl
strs_eq→eq [] (t ∷ ts) h = cc
strs_eq→eq (s ∷ ss) [] h = cc
strs_eq→eq (s ∷ ss) (t ∷ ts) h = ground (arith, str_eq→eq s t, strs_eq→eq ss ts)

-- What a successful selection went through.
record Selected (requested : Option (List Bytes))
    (family_scopes grant_scopes client_scopes scopes : List Bytes) : Type 0 where
  family : List Bytes
  family_eq : canonical_scopes family_scopes ≡ ok family
  has_openid : mem openid (effective_scopes family grant_scopes client_scopes) ≡ true
  has_offline : mem offline_access (effective_scopes family grant_scopes client_scopes) ≡ true
  narrowed : narrow requested (effective_scopes family grant_scopes client_scopes) ≡ ok scopes

select-Selected :
    (requested : Option (List Bytes)) (family_scopes grant_scopes client_scopes scopes : List Bytes)
    → select_refresh_access_scopes requested family_scopes grant_scopes client_scopes ≡ ok scopes
    → Selected requested family_scopes grant_scopes client_scopes scopes
unfolding select_refresh_access_scopes canonical_refresh_scopes
select-Selected requested family_scopes grant_scopes client_scopes scopes h =
    elim (Result-cases (canonical_scopes family_scopes)) [
      | inl (family, eq) ↦ record {
        family = family;
        family_eq = eq;
        has_openid = ground arith;
        has_offline = ground arith;
        narrowed = ground arith;
      }
      | inr (e, eq) ↦ absurd (ground arith)
    ]

-- A narrowed selection is within the effective authority, in canonical form, and holds openid.
narrow_sound :
    (requested : Option (List Bytes)) (effective scopes : List Bytes)
    → Ascending effective
    → mem openid effective ≡ true
    → narrow requested effective ≡ ok scopes
    → IsSubset scopes effective × Ascending scopes × (mem openid scopes ≡ true)
unfolding narrow
narrow_sound none effective scopes asc has h =
    let same : effective ≡ scopes = ground arith in
    (λ s m. rw same m, rw (← same) asc, rw (← same) has)
narrow_sound (some requested) effective scopes asc has h =
    elim (Result-cases (canonical_scopes requested)) [
      | inl (canonical, eq) ↦
          let same : canonical ≡ scopes = ground arith in
          let (v, sorted) = canonical_scopes-IsScopeList requested canonical eq in
          (
            subset_sound scopes effective (rw (← same) (ground arith)),
            rw (← same) sorted,
            rw (← same) v.has_openid,
          )
      | inr (e, eq) ↦ absurd (ground arith)
    ]

-- The Scopes selected for an Access Token are in canonical order, hold openid, and each of them is
-- in the family's Scopes, in the Grant's and in the Client's current ones.
pub select_refresh_access_scopes_sound :
    (requested : Option (List Bytes)) (family_scopes grant_scopes client_scopes scopes : List Bytes)
    → select_refresh_access_scopes requested family_scopes grant_scopes client_scopes ≡ ok scopes
    → IsSubset scopes family_scopes
      × IsSubset scopes grant_scopes
      × IsSubset scopes client_scopes
      × Ascending scopes
      × (mem openid scopes ≡ true)
unfolding effective_scopes
select_refresh_access_scopes_sound requested family_scopes grant_scopes client_scopes scopes h =
    let r = select-Selected requested family_scopes grant_scopes client_scopes scopes h in
    let (within, sorted, has) =
      narrow_sound requested (effective_scopes r.family grant_scopes client_scopes) scopes
        (intersection-Ascending _ client_scopes) r.has_openid r.narrowed in
    let same = (canonical_scopes_sound family_scopes r.family r.family_eq).2 in
    let inner = λ (s : Bytes). mem-intersection s r.family grant_scopes in
    let outer =
      λ (s : Bytes). mem-intersection s (intersection r.family grant_scopes) client_scopes in
    (
      λ s m. sym (same s) ∙ ground (arith, within s m, inner s, outer s),
      λ s m. ground (arith, within s m, inner s, outer s),
      λ s m. ground (arith, within s m, inner s, outer s),
      sorted,
      has,
    )

-- A request that names Scopes gets exactly those, never more and never fewer.
pub select_refresh_access_scopes_exact :
    (requested family_scopes grant_scopes client_scopes scopes : List Bytes)
    → select_refresh_access_scopes (some requested) family_scopes grant_scopes client_scopes
      ≡ ok scopes
    → scopes ≡ requested
unfolding narrow
select_refresh_access_scopes_exact requested family_scopes grant_scopes client_scopes scopes h =
    let r = select-Selected (some requested) family_scopes grant_scopes client_scopes scopes h in
    elim (Result-cases (canonical_scopes requested)) [
      | inl (canonical, eq) ↦ ground (arith, r.narrowed, strs_eq→eq canonical requested)
      | inr (e, eq) ↦ absurd (ground (arith, r.narrowed))
    ]

-- Once the Grant or the Client no longer has offline_access, no selection succeeds, whatever is
-- requested: the family's authority is gone.
pub select_refresh_access_scopes_offline :
    (requested : Option (List Bytes)) (family_scopes grant_scopes client_scopes : List Bytes)
    → (mem offline_access grant_scopes && mem offline_access client_scopes) ≡ false
    → select_refresh_access_scopes requested family_scopes grant_scopes client_scopes
      ≡ err invalid_grant
unfolding select_refresh_access_scopes canonical_refresh_scopes effective_scopes
select_refresh_access_scopes_offline requested family_scopes grant_scopes client_scopes h =
    elim (Result-cases (canonical_scopes family_scopes)) [
      | inl (family, eq) ↦ ground (
        arith,
        mem-intersection offline_access family grant_scopes,
        mem-intersection offline_access (intersection family grant_scopes) client_scopes,
      )
      | inr (e, eq) ↦ ground arith
    ]
