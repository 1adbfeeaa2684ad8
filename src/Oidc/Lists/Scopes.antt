-- ===== src/Oidc/Lists/Scopes.antt =====
-- What parseScope of internal/oidc/authorize.go accepts.
use one_issuer.Base.{
  ◌≡◌, refl, sym, ap, ◌∙◌, ◌↔◌, inl, inr, Bool, true, ◌&&◌, Option, some, List, [], ◌∷◌, arith, all,
  Bool-cases, Option-cases, subst,
}
use one_issuer.Text.{Bytes, str_eq, mem, join_space}
use one_issuer.Text.Order.{str_eq→eq}
use one_issuer.Text.Sort.{Ascending}
use one_issuer.Text.Ascending.{mem-sort_strings-keys, sort_strings-keys-Ascending, Ascending-ext}
use one_issuer.Text.Split.Tokens.{IsWord, AreWords}
use one_issuer.Scope.{openid, profile, email, offline_access, supported, sorted_set}
use one_issuer.Oidc.Lists.{split_strict_space_list, select_scopes, scopes_of_parts, parse_scope}
use one_issuer.Oidc.Lists.Prompts.{split_strict-join_space, split_strict-eq-some}

-- A request for Scopes that a Client with these Scopes may make.
pub record IsScopeRequest (parts allowed : List Bytes) : Type 0 where
  pub all_supported : all supported parts ≡ true
  pub all_allowed : all (λ scope. mem scope allowed) parts ≡ true
  pub has_openid : mem openid parts ≡ true

all_both :
    (p q : Bytes → Bool) (ss : List Bytes) → all (λ s. p s && q s) ss ≡ (all p ss && all q ss)
all_both p q [] = refl
all_both p q (s ∷ ss) = ground (arith, all_both p q ss)

supported-IsWord : (v : Bytes) → supported v ≡ true → IsWord v
unfolding supported
supported-IsWord v h = elim (Bool-cases (str_eq v openid)) [
  | inl e ↦ subst IsWord (sym (str_eq→eq v openid e)) (omega arith)
  | inr a ↦ elim (Bool-cases (str_eq v profile)) [
    | inl e ↦ subst IsWord (sym (str_eq→eq v profile e)) (omega arith)
    | inr b ↦ elim (Bool-cases (str_eq v email)) [
      | inl e ↦ subst IsWord (sym (str_eq→eq v email e)) (omega arith)
      | inr c ↦ subst IsWord (sym (str_eq→eq v offline_access (ground arith))) (omega arith)
    ]
  ]
]

pub all-supported-AreWords : (parts : List Bytes) → all supported parts ≡ true → AreWords parts
all-supported-AreWords [] h = tt
all-supported-AreWords (v ∷ rest) h =
    (supported-IsWord v (ground arith), all-supported-AreWords rest (ground arith))

selected :
    (parts allowed ss : List Bytes)
    → select_scopes parts allowed ≡ some ss
    → IsScopeRequest parts allowed × (ss ≡ sorted_set parts)
selected parts allowed ss h =
    let both = all_both supported (λ scope. mem scope allowed) parts in
    (
      record {
        all_supported = ground arith;
        all_allowed = ground arith;
        has_openid = ground arith;
      },
      ground arith,
    )

parsed_scopes :
    (raw : Bytes) (allowed ss : List Bytes)
    → parse_scope raw allowed ≡ some ss
    → (parts : List Bytes) × IsScopeRequest parts allowed
      × (raw ≡ join_space parts)
      × (ss ≡ sorted_set parts)
unfolding parse_scope
parsed_scopes raw allowed ss h = elim (Option-cases (split_strict_space_list raw)) [
  | inl missing ↦ absurd (cc (h, missing))
  | inr (parts, e) ↦
      let (request, same) = selected parts allowed ss (ground arith) in
      (parts, request, split_strict-eq-some raw parts e, same)
]

scopes_parsed :
    (parts allowed : List Bytes)
    → IsScopeRequest parts allowed
    → parse_scope (join_space parts) allowed ≡ some (sorted_set parts)
unfolding parse_scope mem
scopes_parsed [] allowed v = cc (v.has_openid)
scopes_parsed (w ∷ ws) allowed v =
    ap (λ (o : Option (List Bytes)). scopes_of_parts o allowed)
      (split_strict-join_space w ws (all-supported-AreWords (w ∷ ws) v.all_supported))
    ∙ ground (arith, all_both supported (λ scope. mem scope allowed) (w ∷ ws))

sorted_set-Ascending : (ss : List Bytes) → Ascending (sorted_set ss)
unfolding sorted_set
sorted_set-Ascending ss = sort_strings-keys-Ascending ss

mem-sorted_set : (s : Bytes) (ss : List Bytes) → mem s (sorted_set ss) ≡ mem s ss
unfolding sorted_set
mem-sorted_set s ss = mem-sort_strings-keys s ss

-- A scope parameter is accepted exactly when it is a list of Scopes joined by single spaces, each of
-- them supported and one of the Client's, with openid among them, repetitions allowed; and the result
-- is the ascending list of the same Scopes without repetition.
pub parse_scope_iff :
    (raw : Bytes) (allowed ss : List Bytes)
    → (parse_scope raw allowed ≡ some ss) ↔ (
        (parts : List Bytes) × IsScopeRequest parts allowed
        × (raw ≡ join_space parts)
        × Ascending ss
        × ((s : Bytes) → mem s ss ≡ mem s parts))
parse_scope_iff raw allowed ss = (
  λ h.
      let (parts, request, joined, same) = parsed_scopes raw allowed ss h in
      (
        parts,
        request,
        joined,
        subst Ascending (sym same) (sorted_set-Ascending parts),
        λ s. ap (mem s) same ∙ mem-sorted_set s parts,
      ),
  λ (parts, request, joined, ascending, members).
      ap (λ (r : Bytes). parse_scope r allowed) joined
      ∙ scopes_parsed parts allowed request
      ∙ ap some (
          Ascending-ext (sorted_set parts) ss (sorted_set-Ascending parts) ascending
            (λ s. mem-sorted_set s parts ∙ sym (members s))),
)
