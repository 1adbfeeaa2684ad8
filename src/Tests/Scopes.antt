-- ===== src/Tests/Scopes.antt =====
-- Runs of the Scope algebra, of the consent evaluation and of the narrowing of Scopes.
use one_issuer.Base.{ℕ, ◌≡◌, ◌↔◌, refl, true, false, ◌&&◌, ◌||◌, some, List, [], ◌∷◌}
use one_issuer.Errors.{Result, ok, err, invalid_grant}
use one_issuer.Text.{Bytes, codes, mem}
use one_issuer.Text.Sort.{Ascending}
use one_issuer.Domain.{Grant}
use one_issuer.Scope.{
  openid, profile, email, offline_access, canonical_scopes, supported, difference,
}
use one_issuer.Scope.Canonical.{IsScopeList, canonical_scopes_iff}
use one_issuer.Scope.Algebra.{IsSubset, difference-empty_iff}
use one_issuer.Consent.{Evaluation, evaluate}
use one_issuer.Consent.Coverage.{IsCovered, evaluate-covers_iff, evaluate-splits}
use one_issuer.Token.Narrowing.{
  select_refresh_access_scopes, select_refresh_access_scopes_sound,
  select_refresh_access_scopes_exact, select_refresh_access_scopes_offline,
}
use one_issuer.Tests.Samples.{app, consented}

abbrev asked : List Bytes
asked = openid ∷ profile ∷ email ∷ []

abbrev canonical : List Bytes
canonical = email ∷ openid ∷ profile ∷ []

canonical_scopes_iff_example :
    (canonical_scopes asked ≡ ok canonical)
    ↔ (IsScopeList asked × Ascending canonical × ((s : Bytes) → mem s canonical ≡ mem s asked))
canonical_scopes_iff_example = canonical_scopes_iff asked canonical

sorts : canonical_scopes asked ≡ ok canonical
unfolding canonical_scopes difference evaluate mem one_issuer.Scope.intersection
    one_issuer.Scope.subset one_issuer.Text.Ascending.keys one_issuer.Text.Sort.contains
    one_issuer.Text.Sort.has_repeat one_issuer.Text.Sort.sort_strings one_issuer.Text.str_eq
    one_issuer.Text.str_lt one_issuer.Text.strs_eq
    one_issuer.Token.Narrowing.canonical_refresh_scopes one_issuer.Token.Narrowing.effective_scopes
    select_refresh_access_scopes supported
sorts = refl

difference-empty_iff_example :
    (difference (openid ∷ []) asked ≡ [])
    ↔ ((s : Bytes) → supported s ≡ true → mem s (openid ∷ []) ≡ true → mem s asked ≡ true)
difference-empty_iff_example = difference-empty_iff (openid ∷ []) asked

-- The one stored Grant.
abbrev lookup : ℕ → ℕ → Result Grant
lookup user_id client_id = ok consented

abbrev wanted : List Bytes
wanted = profile ∷ openid ∷ []

abbrev evaluated : Evaluation
evaluated = record {
  grant = some consented;
  effective = consented.scopes;
  already_granted = openid ∷ profile ∷ [];
  new_scopes = [];
  covers = true;
}

evaluates : evaluate lookup 1 app wanted ≡ ok evaluated
unfolding evaluate canonical_scopes difference mem one_issuer.Scope.intersection
    one_issuer.Scope.subset one_issuer.Text.Ascending.keys one_issuer.Text.Sort.contains
    one_issuer.Text.Sort.has_repeat one_issuer.Text.Sort.sort_strings one_issuer.Text.str_eq
    one_issuer.Text.str_lt one_issuer.Text.strs_eq
    one_issuer.Token.Narrowing.canonical_refresh_scopes one_issuer.Token.Narrowing.effective_scopes
    select_refresh_access_scopes supported
evaluates = refl

evaluate-covers_iff_example : (true ≡ true) ↔ IsCovered lookup 1 app wanted
evaluate-covers_iff_example = evaluate-covers_iff lookup 1 app wanted evaluated evaluates

evaluate-splits_example :
    (mem openid wanted ≡ (mem openid evaluated.already_granted || mem openid evaluated.new_scopes))
    × ((mem openid evaluated.already_granted && mem openid evaluated.new_scopes) ≡ false)
evaluate-splits_example = evaluate-splits lookup 1 app wanted evaluated evaluates openid

abbrev full : List Bytes
full = offline_access ∷ openid ∷ profile ∷ []

abbrev narrowed : List Bytes
narrowed = openid ∷ profile ∷ []

narrows : select_refresh_access_scopes (some narrowed) full full full ≡ ok narrowed
unfolding select_refresh_access_scopes canonical_scopes mem one_issuer.Scope.intersection
    one_issuer.Scope.subset one_issuer.Text.Ascending.keys one_issuer.Text.Sort.contains
    one_issuer.Text.Sort.has_repeat one_issuer.Text.Sort.sort_strings one_issuer.Text.str_eq
    one_issuer.Text.str_lt one_issuer.Text.strs_eq
    one_issuer.Token.Narrowing.canonical_refresh_scopes one_issuer.Token.Narrowing.effective_scopes
    supported
narrows = refl

select_refresh_access_scopes_sound_example :
    IsSubset narrowed full
    × IsSubset narrowed full
    × IsSubset narrowed full
    × Ascending narrowed
    × (mem openid narrowed ≡ true)
select_refresh_access_scopes_sound_example =
    select_refresh_access_scopes_sound (some narrowed) full full full narrowed narrows

select_refresh_access_scopes_exact_example : narrowed ≡ narrowed
select_refresh_access_scopes_exact_example =
    select_refresh_access_scopes_exact narrowed full full full narrowed narrows

select_refresh_access_scopes_offline_example :
    select_refresh_access_scopes (some narrowed) full narrowed full ≡ err invalid_grant
unfolding mem one_issuer.Text.str_eq
select_refresh_access_scopes_offline_example =
    select_refresh_access_scopes_offline (some narrowed) full narrowed full refl
