-- ===== src/Scope/Canonical.antt =====
-- What CanonicalScopes accepts and what it returns.
use one_issuer.Base.{
  ◌≡◌, refl, ap, ◌∙◌, sym, ◌↔◌, true, false, ◌&&◌, List, [], ◌∷◌, ◌≤◌, ◌<◌, arith, length, all,
}
use one_issuer.Errors.{ok}
use one_issuer.Text.{Bytes, mem}
use one_issuer.Text.Sort.{
  insert_string, sort_strings, sort_strings-IsSorted, has_repeat, Ascending, mem-sort_strings,
  length-sort_strings,
}
use one_issuer.Text.Ascending.{
  Distinct, Ascending-Distinct, Ascending-ext, Ascending-of_IsSorted, Distinct-of_sort_strings,
  has_repeat-sort_strings, contains-mem,
}
use one_issuer.Scope.{openid, supported, canonical_scopes}

-- A Scope list that the profile accepts: one to four supported values, none twice, with openid.
pub record IsScopeList (scopes : List Bytes) : Type 0 where
  pub nonempty : 0 < length scopes
  pub at_most : length scopes ≤ 4
  pub all_supported : all supported scopes ≡ true
  pub distinct : Distinct scopes
  pub has_openid : mem openid scopes ≡ true

sorted : (ss : List Bytes) → Distinct ss → Ascending (sort_strings ss)
sorted ss d =
    Ascending-of_IsSorted (sort_strings ss) (sort_strings-IsSorted ss)
      (has_repeat-sort_strings ss d)

pub canonical_scopes_complete :
    (ss : List Bytes) → IsScopeList ss → canonical_scopes ss ≡ ok (sort_strings ss)
unfolding canonical_scopes
canonical_scopes_complete ss v = ground (
  arith,
  has_repeat-sort_strings ss v.distinct,
  contains-mem (sort_strings ss) openid (sorted ss v.distinct),
  mem-sort_strings openid ss,
)

sorted_no_repeat :
    (ss ts : List Bytes)
    → canonical_scopes ss ≡ ok ts
    → (ts ≡ sort_strings ss) × (has_repeat (sort_strings ss) ≡ false)
unfolding canonical_scopes
sorted_no_repeat ss ts e = ground arith

-- An accepted list is a Scope list, and the result is the ascending list of its members.
pub canonical_scopes_sound :
    (ss ts : List Bytes)
    → canonical_scopes ss ≡ ok ts
    → IsScopeList ss × Ascending ts × ((s : Bytes) → mem s ts ≡ mem s ss)
unfolding canonical_scopes
canonical_scopes_sound ss ts e =
    let (same, no_repeat) = sorted_no_repeat ss ts e in
    let ascending = Ascending-of_IsSorted (sort_strings ss) (sort_strings-IsSorted ss) no_repeat in
    (
      record {
        nonempty = ground arith;
        at_most = ground arith;
        all_supported = ground arith;
        distinct = Distinct-of_sort_strings ss (Ascending-Distinct (sort_strings ss) ascending);
        has_openid =
            sym (mem-sort_strings openid ss)
            ∙ ground (arith, contains-mem (sort_strings ss) openid ascending);
      },
      rw same ascending,
      λ s. rw same (mem-sort_strings s ss),
    )

-- CanonicalScopes succeeds with a result exactly when its input is a list of one to four supported
-- Scopes, none of them twice and openid among them, and the result is the strictly ascending list
-- of the same Scopes.
pub canonical_scopes_iff :
    (ss ts : List Bytes)
    → (canonical_scopes ss ≡ ok ts)
      ↔ (IsScopeList ss × Ascending ts × ((s : Bytes) → mem s ts ≡ mem s ss))
canonical_scopes_iff ss ts = (
  canonical_scopes_sound ss ts,
  λ (v, ascending, same).
      canonical_scopes_complete ss v
      ∙ ap ok (
          Ascending-ext (sort_strings ss) ts (sorted ss v.distinct) ascending
            (λ s. mem-sort_strings s ss ∙ sym (same s))),
)

all-supported-insert_string :
    (t : Bytes) (ts : List Bytes)
    → all supported (insert_string t ts) ≡ (supported t && all supported ts)
unfolding insert_string
all-supported-insert_string t [] = refl
all-supported-insert_string t (u ∷ ts) = ground (arith, all-supported-insert_string t ts)

all-supported-sort_strings : (ts : List Bytes) → all supported (sort_strings ts) ≡ all supported ts
unfolding sort_strings
all-supported-sort_strings [] = refl
all-supported-sort_strings (t ∷ ts) =
    all-supported-insert_string t (sort_strings ts)
    ∙ ap (◌&&◌ (supported t)) (all-supported-sort_strings ts)

-- What CanonicalScopes returns is a Scope list in canonical form.
pub canonical_scopes-IsScopeList :
    (ss ts : List Bytes) → canonical_scopes ss ≡ ok ts → IsScopeList ts × Ascending ts
canonical_scopes-IsScopeList ss ts e =
    let (v, ascending, same) = canonical_scopes_sound ss ts e in
    let sorted = (sorted_no_repeat ss ts e).0 in
    let size : length ts ≡ length ss = rw sorted (length-sort_strings ss) in
    (
      record {
        nonempty = omega (arith, size, v.nonempty);
        at_most = omega (arith, size, v.at_most);
        all_supported = rw sorted (all-supported-sort_strings ss ∙ v.all_supported);
        distinct = Ascending-Distinct ts ascending;
        has_openid = same openid ∙ v.has_openid;
      },
      ascending,
    )

-- A canonical list stays as it is: CanonicalScopes is idempotent.
pub canonical_scopes_idempotent :
    (ss ts : List Bytes) → canonical_scopes ss ≡ ok ts → canonical_scopes ts ≡ ok ts
canonical_scopes_idempotent ss ts e =
    let (v, ascending) = canonical_scopes-IsScopeList ss ts e in
    (canonical_scopes_iff ts ts).1 (v, ascending, λ s. refl)
