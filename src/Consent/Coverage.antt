-- ===== src/Consent/Coverage.antt =====
-- When a stored Grant covers a request, and how Evaluate splits the request.
use one_issuer.Base.{
  ℕ, ◌≡◌, refl, ap, ◌∙◌, sym, ◌↔◌, ◌⊎◌, inl, inr, Bool, true, false, not, ◌&&◌, ◌||◌, none, List,
  arith, all, is_empty, Bool-cases, Option-cases,
}
use one_issuer.Errors.{Result, ok, err, consent_not_found, Result-cases}
use one_issuer.Domain.{Client, Grant}
use one_issuer.Text.{Bytes, mem}
use one_issuer.Scope.{openid, supported, canonical_scopes, difference, subset}
use one_issuer.Scope.Canonical.{IsScopeList, canonical_scopes_sound, canonical_scopes-IsScopeList}
use one_issuer.Scope.Algebra.{
  IsSubset, difference-is_empty_iff, mem-intersection, mem-difference, supported_of_mem,
}
use one_issuer.Consent.{
  Evaluation, inconsistent, not_granted, effective_scopes, evaluation_of, evaluate_grant, evaluate,
}

-- What a successful evaluation went through.
pub record Evaluated (lookup : ℕ → ℕ → Result Grant) (user_id : ℕ) (c : Client)
    (requested : List Bytes) (ev : Evaluation) : Type 0 where
  pub canonical : List Bytes
  pub canonical_eq : canonical_scopes requested ≡ ok canonical
  pub allowed : subset canonical c.scopes ≡ true
  pub outcome : evaluate_grant user_id c canonical (lookup user_id c.id) ≡ ok ev

evaluate-Evaluated :
    (lookup : ℕ → ℕ → Result Grant) (user_id : ℕ) (c : Client) (requested : List Bytes)
    (ev : Evaluation)
    → evaluate lookup user_id c requested ≡ ok ev
    → Evaluated lookup user_id c requested ev
unfolding evaluate
evaluate-Evaluated lookup user_id c requested ev e =
    elim (Result-cases (canonical_scopes requested)) [
      | inl (canonical, found) ↦ record {
        canonical = canonical;
        canonical_eq = found;
        allowed = ground arith;
        outcome = ground arith;
      }
      | inr (bad, found) ↦ absurd (ground arith)
    ]

-- A Grant that Evaluate used: stored, consistent, and canonical after CanonicalScopes.
pub record Used (found : Result Grant) (user_id : ℕ) (c : Client) (canonical : List Bytes)
    (ev : Evaluation) : Type 0 where
  pub grant : Grant
  pub scopes : List Bytes
  pub stored : found ≡ ok grant
  pub consistent : inconsistent grant user_id c ≡ false
  pub scopes_eq : canonical_scopes grant.scopes ≡ ok scopes
  pub result : ev ≡ evaluation_of grant scopes c canonical

evaluate_grant-Used :
    (found : Result Grant) (user_id : ℕ) (c : Client) (canonical : List Bytes) (ev : Evaluation)
    → evaluate_grant user_id c canonical found ≡ ok ev
    → ((found ≡ err consent_not_found) × (ev ≡ not_granted canonical))
      ⊎ Used found user_id c canonical ev
unfolding evaluate_grant
evaluate_grant-Used (err consent_not_found) user_id c canonical ev e = inl (refl, ground arith)
evaluate_grant-Used (err _) user_id c canonical ev e = absurd (ground arith)
evaluate_grant-Used (ok g) user_id c canonical ev e =
    elim (Result-cases (canonical_scopes g.scopes)) [
      | inl (scopes, eq) ↦ inr (record {
        grant = g;
        scopes = scopes;
        stored = refl;
        consistent = ground arith;
        scopes_eq = eq;
        result = ground arith;
      })
      | inr (bad, eq) ↦ absurd (ground arith)
    ]

effective_subset :
    (g : Grant) (c : Client) (scopes canonical : List Bytes)
    → IsScopeList canonical
    → IsSubset canonical (effective_scopes g scopes c)
    → (g.revoked_at ≡ none) × IsSubset canonical scopes × IsSubset canonical c.scopes
unfolding mem
effective_subset g c scopes canonical v sub = elim (Option-cases g.revoked_at) [
  | inl live ↦ (
    live,
    λ s m. ground (arith, sub s m, mem-intersection s scopes c.scopes),
    λ s m. ground (arith, sub s m, mem-intersection s scopes c.scopes),
  )
  | inr (at, revoked) ↦ absurd (ground (arith, sub openid v.has_openid))
]

effective_superset :
    (g : Grant) (c : Client) (scopes canonical : List Bytes)
    → IsScopeList canonical
    → g.revoked_at ≡ none
    → IsSubset canonical scopes
    → IsSubset canonical c.scopes
    → IsSubset canonical (effective_scopes g scopes c)
effective_superset g c scopes canonical v live in_grant in_client s m = ground (
  arith,
  mem-intersection s scopes c.scopes,
  in_grant s m,
  in_client s m,
  supported_of_mem s canonical v.all_supported m,
)

-- The Grant's row, live, and holding with the Client every requested Scope.
abbrev pub IsCovered : (ℕ → ℕ → Result Grant) → ℕ → Client → List Bytes → Type 0
IsCovered lookup user_id c requested =
    (g : Grant) × (lookup user_id c.id ≡ ok g)
    × (g.revoked_at ≡ none)
    × IsSubset requested g.scopes
    × IsSubset requested c.scopes

Used-covers_iff :
    (lookup : ℕ → ℕ → Result Grant) (user_id : ℕ) (c : Client) (canonical : List Bytes)
    (ev : Evaluation)
    → IsScopeList canonical
    → Used (lookup user_id c.id) user_id c canonical ev
    → (ev.covers ≡ true) ↔ IsCovered lookup user_id c canonical
unfolding evaluation_of
Used-covers_iff lookup user_id c canonical ev v u = (
  λ h.
      let (live, in_grant, in_client) =
        effective_subset u.grant c u.scopes canonical v
          (empty_iff.0 (sym (ap (λ r. r.covers) u.result) ∙ h)) in
      (u.grant, u.stored, live, λ s m. sym (same s) ∙ in_grant s m, in_client),
  λ (g, stored, live, in_grant, in_client).
      let one : g ≡ u.grant = ground (arith, u.stored) in
      ap (λ r. r.covers) u.result
      ∙ empty_iff.1 (
          effective_superset u.grant c u.scopes canonical v (rw (← one) live)
            (λ s m. same s ∙ rw (← one) (in_grant s m)) in_client),
)
  where
    empty_iff :
        (is_empty (difference canonical (effective_scopes u.grant u.scopes c)) ≡ true)
        ↔ IsSubset canonical (effective_scopes u.grant u.scopes c)
    empty_iff =
        difference-is_empty_iff canonical (effective_scopes u.grant u.scopes c) v.all_supported

    same : (s : Bytes) → mem s u.scopes ≡ mem s u.grant.scopes
    same = (canonical_scopes_sound u.grant.scopes u.scopes u.scopes_eq).2

IsCovered-congr :
    (lookup : ℕ → ℕ → Result Grant) (user_id : ℕ) (c : Client) (ss ts : List Bytes)
    → ((s : Bytes) → mem s ss ≡ mem s ts)
    → IsCovered lookup user_id c ss
    → IsCovered lookup user_id c ts
IsCovered-congr lookup user_id c ss ts same (g, stored, live, in_grant, in_client) =
    (g, stored, live, λ s m. in_grant s (same s ∙ m), λ s m. in_client s (same s ∙ m))

-- Where Evaluate succeeds, it reports a covered request exactly when the repository holds a Grant
-- of the user for the Client that is not revoked and that, like the Client's current policy,
-- contains every requested Scope.
pub evaluate-covers_iff :
    (lookup : ℕ → ℕ → Result Grant) (user_id : ℕ) (c : Client) (requested : List Bytes)
    (ev : Evaluation)
    → evaluate lookup user_id c requested ≡ ok ev
    → (ev.covers ≡ true) ↔ IsCovered lookup user_id c requested
unfolding not_granted
evaluate-covers_iff lookup user_id c requested ev e =
    let r = evaluate-Evaluated lookup user_id c requested ev e in
    let v = (canonical_scopes-IsScopeList requested r.canonical r.canonical_eq).0 in
    let same = (canonical_scopes_sound requested r.canonical r.canonical_eq).2 in
    elim (evaluate_grant-Used (lookup user_id c.id) user_id c r.canonical ev r.outcome) [
      | inl (missing, none_found) ↦
          (λ h. absurd (ground (arith, none_found)), λ (g, stored, _, _, _). absurd (ground arith))
      | inr used ↦
          let (to, from) = Used-covers_iff lookup user_id c r.canonical ev v used in
          (
            λ h. IsCovered-congr lookup user_id c r.canonical requested same (to h),
            λ h.
                from (IsCovered-congr lookup user_id c requested r.canonical (λ s. sym (same s)) h),
          )
    ]

Used-split :
    (found : Result Grant) (user_id : ℕ) (c : Client) (canonical : List Bytes) (ev : Evaluation)
    → all supported canonical ≡ true
    → ((found ≡ err consent_not_found) × (ev ≡ not_granted canonical))
      ⊎ Used found user_id c canonical ev
    → (s : Bytes)
    → (mem s canonical ≡ (mem s ev.already_granted || mem s ev.new_scopes))
      × ((mem s ev.already_granted && mem s ev.new_scopes) ≡ false)
unfolding not_granted evaluation_of mem
Used-split found user_id c canonical ev sup (inl (missing, eq)) s =
    (ground (arith, eq), ground (arith, eq))
Used-split found user_id c canonical ev sup (inr u) s =
    let effective = effective_scopes u.grant u.scopes c in
    let in_old : mem s ev.already_granted ≡ (supported s && mem s effective && mem s canonical) =
      ap (λ r. mem s r.already_granted) u.result ∙ mem-intersection s canonical effective in
    let in_new : mem s ev.new_scopes ≡ (supported s && not (mem s effective) && mem s canonical) =
      ap (λ r. mem s r.new_scopes) u.result ∙ mem-difference s canonical effective in
    rw (in_old, in_new)
      (elim (Bool-cases (mem s canonical)) [
        | inl m ↦ rw (m, supported_of_mem s canonical sup m) (flip_cases (mem s effective))
        | inr n ↦ rw n (outside (supported s) (mem s effective))
      ])
  where
    flip_cases :
        (b : Bool)
        → (true ≡ (b && true || not b && true)) × ((b && true && (not b && true)) ≡ false)
    flip_cases b = ground arith

    outside :
        (a b : Bool)
        → (false ≡ (a && b && false || a && not b && false))
          × ((a && b && false && (a && not b && false)) ≡ false)
    outside a b = ground arith

-- Where Evaluate succeeds, every requested Scope is either already granted or new, never both, and
-- nothing else is reported as granted or new.
pub evaluate-splits :
    (lookup : ℕ → ℕ → Result Grant) (user_id : ℕ) (c : Client) (requested : List Bytes)
    (ev : Evaluation)
    → evaluate lookup user_id c requested ≡ ok ev
    → (s : Bytes)
    → (mem s requested ≡ (mem s ev.already_granted || mem s ev.new_scopes))
      × ((mem s ev.already_granted && mem s ev.new_scopes) ≡ false)
evaluate-splits lookup user_id c requested ev e s =
    let r = evaluate-Evaluated lookup user_id c requested ev e in
    let v = (canonical_scopes-IsScopeList requested r.canonical r.canonical_eq).0 in
    let same = (canonical_scopes_sound requested r.canonical r.canonical_eq).2 in
    let (parts, apart) =
      Used-split (lookup user_id c.id) user_id c r.canonical ev v.all_supported
        (evaluate_grant-Used (lookup user_id c.id) user_id c r.canonical ev r.outcome) s in
    (sym (same s) ∙ parts, apart)
