-- ===== src/Oidc/Authorize/Parameters.antt =====
-- What the checks of internal/oidc/authorize.go say of single parameters.
use one_issuer.Base.{
  Option-cases, if◌then◌else◌, ℕ, ◌≤◌, ◌≡◌, refl, sym, ap, ◌∙◌, ◌⊎◌, inl, inr, Bool, true, false,
  not, ◌&&◌, Option, some, List, [], ◌∷◌, arith, length, ltb, ◌==◌, ◌≢◌,
}
use one_issuer.Text.{Bytes, codes, str_eq, mem, join_space}
use one_issuer.Text.Base64.{decode}
use one_issuer.Token.Secret.{decodes_to_length}
use one_issuer.Text.Sort.{Ascending, sort_strings, mem-sort_strings, length-sort_strings}
use one_issuer.Url.{Values, entries, get, count_of, first_entry, clean_text}
use one_issuer.Scope.{openid, supported}
use one_issuer.Oidc.Lists.{
  parse_scope, valid_s256_challenge, parse_prompt, parse_max_age, max_age_seconds, prompt_none,
  prompt_create, prompt_login,
}
use one_issuer.Oidc.Lists.Prompts.{IsPromptList, parse_prompt_iff}
use one_issuer.Oidc.Lists.Scopes.{parse_scope_iff}
use one_issuer.Oidc.Lists.MaxAge.{parse_max_age_iff}
use one_issuer.Oidc.Authorize.{
  valid_opaque_parameter, state_name, trusted_state, bad_opaque, repeats_parameter,
  security_parameters,
}
use one_issuer.Text.Order.{str_eq→eq, all_of_mem, any_of_mem}

-- A State or nonce: none, or clean text of at most 1024 bytes.
abbrev pub IsOpaque : Bytes → Type 0
IsOpaque s = (s ≡ []) ⊎ ((length s ≤ 1024) × (clean_text s ≡ true))

pub no_parameter_twice :
    (values : Values) (name : Bytes)
    → repeats_parameter values ≡ false
    → mem name security_parameters ≡ true
    → count_of values name ≤ 1
unfolding repeats_parameter
no_parameter_twice values name h listed =
    let once = any_of_mem (λ n. ltb 1 (count_of values n)) name security_parameters h listed in
    ground (arith, once)

-- The parameters that are read by their one entry.
pub opaque_listed :
    (mem (codes "state") security_parameters ≡ true)
    × (mem (codes "nonce") security_parameters ≡ true)
    × (mem (codes "response_mode") security_parameters ≡ true)
unfolding mem str_eq
opaque_listed = (refl, refl, refl)

pub challenge-decoded :
    (s : Bytes)
    → valid_s256_challenge s ≡ true
    → (raw : Bytes) × (decode s ≡ some raw) × (length raw ≡ 32)
unfolding valid_s256_challenge decodes_to_length
challenge-decoded s h = elim (Option-cases (decode s)) [
  | inl bad ↦ absurd (ground arith)
  | inr (raw, e) ↦ (raw, e, ground arith)
]

-- A parameter with one entry at most, which is the given value where it is there.
pub none_or_this :
    (found : List Bytes) (s : Bytes)
    → length found ≤ 1
    → ((length found == 1) && not (str_eq (first_entry found) s)) ≡ false
    → (found ≡ []) ⊎ (found ≡ s ∷ [])
none_or_this [] s once h = inl refl
none_or_this (t ∷ []) s once h = inr (ap (λ (x : Bytes). x ∷ []) (str_eq→eq t s (ground arith)))
none_or_this (t ∷ u ∷ more) s once h = absurd (omega arith)

opaque_text :
    (s : Bytes) → valid_opaque_parameter s ≡ true → (length s ≤ 1024) × (clean_text s ≡ true)
unfolding valid_opaque_parameter
opaque_text s h = (ground arith, ground arith)

pub single-IsOpaque :
    (found : List Bytes)
    → length found ≤ 1
    → ((length found == 1) && not (valid_opaque_parameter (first_entry found))) ≡ false
    → IsOpaque (first_entry found)
single-IsOpaque [] h k = inl refl
single-IsOpaque (s ∷ []) h k = inr (opaque_text s (ground arith))
single-IsOpaque (s ∷ t ∷ more) h k = absurd (omega arith)

-- A State that is not refused is the one that errors carry.
pub trusted_state-eq-get :
    (values : Values)
    → count_of values state_name ≤ 1
    → bad_opaque values state_name ≡ false
    → trusted_state values ≡ get values state_name
unfolding trusted_state
trusted_state-eq-get values once fits = by_entries (entries values state_name) once fits
  where
    by_entries :
        (found : List Bytes)
        → length found ≤ 1
        → ((length found == 1) && not (valid_opaque_parameter (first_entry found))) ≡ false
        → (if (length found == 1) && valid_opaque_parameter (first_entry found)
            then first_entry found
            else [])
          ≡ first_entry found
    by_entries [] h k = refl
    by_entries (s ∷ []) h k = ground arith
    by_entries (s ∷ t ∷ more) h k = absurd (omega arith)

IsPromptList-sorted :
    (parts ps : List Bytes)
    → IsPromptList parts
    → ps ≡ sort_strings parts
    → ((mem prompt_none ps ≡ false) ⊎ (length ps ≡ 1))
      × ((mem prompt_create ps && mem prompt_login ps) ≡ false)
IsPromptList-sorted parts ps v e =
    let same : (s : Bytes) → mem s ps ≡ mem s parts =
      λ s. ap (mem s) e ∙ mem-sort_strings s parts in
    let size : length ps ≡ length parts = ap length e ∙ length-sort_strings parts in
    (
      alone (same prompt_none) size v.none_alone,
      ground (arith, same prompt_create, same prompt_login, v.exclusive),
    )
  where
    alone : {a b : Bool} {m n : ℕ} → a ≡ b → m ≡ n → (b ≡ false) ⊎ (n ≡ 1) → (a ≡ false) ⊎ (m ≡ 1)
    alone p q (inl h) = inl (p ∙ h)
    alone p q (inr h) = inr (q ∙ h)

no_prompts :
    (ps : List Bytes)
    → parse_prompt [] ≡ some ps
    → ((mem prompt_none ps ≡ false) ⊎ (length ps ≡ 1))
      × ((mem prompt_create ps && mem prompt_login ps) ≡ false)
unfolding parse_prompt mem
no_prompts [] h = (inl refl, refl)
no_prompts (p ∷ ps) h = cc

two_prompts :
    (raw other : Bytes) (more : List Bytes) {ps : List Bytes}
    → parse_prompt (raw ∷ other ∷ more) ≢ some ps
unfolding parse_prompt
two_prompts raw other more h = cc

no_age : {o : Option ℕ} {n : ℕ} → parse_max_age [] ≡ some o → o ≢ some n
unfolding parse_max_age
no_age h e = cc

two_ages :
    (raw other : Bytes) (more : List Bytes) {o : Option ℕ}
    → parse_max_age (raw ∷ other ∷ more) ≢ some o
unfolding parse_max_age
two_ages raw other more h = cc

pub prompts_agree :
    (found ps : List Bytes)
    → parse_prompt found ≡ some ps
    → ((mem prompt_none ps ≡ false) ⊎ (length ps ≡ 1))
      × ((mem prompt_create ps && mem prompt_login ps) ≡ false)
prompts_agree [] ps h = no_prompts ps h
prompts_agree (raw ∷ []) ps h =
    let (parts, v, joined, same) = (parse_prompt_iff raw ps).0 h in
    IsPromptList-sorted parts ps v same
prompts_agree (raw ∷ other ∷ more) ps h = absurd (two_prompts raw other more h)

pub age_bounded :
    (found : List Bytes) (o : Option ℕ)
    → parse_max_age found ≡ some o
    → {n : ℕ} → o ≡ some n
    → n ≤ max_age_seconds
age_bounded [] o h e = absurd (no_age h e)
age_bounded (raw ∷ []) o h {n} e = ((parse_max_age_iff raw n).0 (h ∙ ap some e)).1
age_bounded (raw ∷ other ∷ more) o h e = absurd (two_ages raw other more h)

pub scopes_allowed :
    (raw : Bytes) (allowed ss : List Bytes)
    → parse_scope raw allowed ≡ some ss
    → Ascending ss
      × (mem openid ss ≡ true)
      × ((parts : List Bytes) × (raw ≡ join_space parts) × ((s : Bytes) → mem s ss ≡ mem s parts))
      × ((s : Bytes) → mem s ss ≡ true → (supported s ≡ true) × (mem s allowed ≡ true))
scopes_allowed raw allowed ss h =
    let (parts, request, joined, ascending, same) = (parse_scope_iff raw allowed ss).0 h in
    (
      ascending,
      same openid ∙ request.has_openid,
      (parts, joined, same),
      λ s m.
          let member : mem s parts ≡ true = sym (same s) ∙ m in
          (
            all_of_mem supported s parts request.all_supported member,
            all_of_mem (λ scope. mem scope allowed) s parts request.all_allowed member,
          ),
    )
