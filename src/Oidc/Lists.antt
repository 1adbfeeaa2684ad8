-- ===== src/Oidc/Lists.antt =====
-- The parameters of an authorization request that are lists or numbers: parseScope, parsePrompt,
-- parseMaxAge and splitStrictSpaceList of internal/oidc/authorize.go.
use one_issuer.Base.{
  ℕ, ◌+◌, ◌*◌, Bool, true, false, not, ◌&&◌, ◌||◌, Option, none, some, List, [], ◌∷◌, length, ltb,
  ◌==◌, if◌then◌else◌, is_empty, any, all,
}
use one_issuer.Text.{Bytes, codes, str_eq, mem, has_prefix}
use one_issuer.Text.Sort.{sort_strings, contains}
use one_issuer.Text.Split.{split_on, has_outer_space, contains_any}
use one_issuer.Text.Decimal.{is_digit, parse_uint32}
use one_issuer.Text.Base64.{decode}
use one_issuer.Token.Secret.{decodes_to_length}
use one_issuer.Scope.{openid, supported, sorted_set}
pub mod MaxAge
pub mod Prompts
pub mod Scopes

-- "\t\r\n"
abbrev pub line_breaks : Bytes
line_breaks = 9 ∷ 13 ∷ 10 ∷ []

unfoldable pub split_strict_space_list : Bytes → Option (List Bytes)
split_strict_space_list raw =
    if is_empty raw || has_outer_space raw || contains_any raw line_breaks
    then none
    else if any is_empty (split_on b' ' raw)
    then none
    else some (split_on b' ' raw)

-- The loop over the parts, and the tests after it.
abbrev pub select_scopes : List Bytes → List Bytes → Option (List Bytes)
select_scopes parts allowed =
    if not (all (λ scope. supported scope && mem scope allowed) parts)
    then none
    else if not (mem openid parts)
    then none
    else some (sorted_set parts)

abbrev pub scopes_of_parts : Option (List Bytes) → List Bytes → Option (List Bytes)
scopes_of_parts none allowed = none
scopes_of_parts (some parts) allowed = select_scopes parts allowed

unfoldable pub parse_scope : Bytes → List Bytes → Option (List Bytes)
parse_scope raw allowed = scopes_of_parts (split_strict_space_list raw) allowed

-- `validS256Challenge`
unfoldable pub valid_s256_challenge : Bytes → Bool
unfolding decodes_to_length
valid_s256_challenge value = (length value == 43) && decodes_to_length value 32

abbrev pub prompt_none : Bytes
prompt_none = codes "none"

abbrev pub prompt_login : Bytes
prompt_login = codes "login"

abbrev pub prompt_consent : Bytes
prompt_consent = codes "consent"

abbrev pub prompt_create : Bytes
prompt_create = codes "create"

unfoldable pub is_prompt : Bytes → Bool
is_prompt value =
    str_eq value prompt_none
    || str_eq value prompt_login
    || str_eq value prompt_consent
    || str_eq value prompt_create

-- The loop over the parts with the set of those seen: an unknown value and a repeated one fail.
unfoldable pub collect_prompts : List Bytes → List Bytes → Option (List Bytes)
collect_prompts [] seen = some seen
collect_prompts (value ∷ rest) seen =
    let more = collect_prompts rest (value ∷ seen) in
    if not (is_prompt value) then none else if mem value seen then none else more

-- `none` stands alone, and `create` and `login` exclude one another.
unfoldable pub prompts_conflict : List Bytes → Bool
prompts_conflict seen =
    (mem prompt_none seen && not (length seen == 1))
    || (mem prompt_create seen && mem prompt_login seen)

abbrev pub finish_prompts : Option (List Bytes) → Option (List Bytes)
finish_prompts none = none
finish_prompts (some seen) = if prompts_conflict seen then none else some (sort_strings seen)

abbrev pub prompts_of_parts : Option (List Bytes) → Option (List Bytes)
prompts_of_parts none = none
prompts_of_parts (some parts) = finish_prompts (collect_prompts parts [])

-- `PromptSet` is the list of its values.
unfoldable pub parse_prompt : List Bytes → Option (List Bytes)
unfolding split_strict_space_list collect_prompts prompts_conflict is_prompt
parse_prompt [] = some []
parse_prompt (raw ∷ []) = prompts_of_parts (split_strict_space_list raw)
parse_prompt (raw ∷ other ∷ more) = none

-- `PromptSet.Has`
unfoldable pub has_prompt : List Bytes → Bytes → Bool
has_prompt prompts value = contains prompts value

abbrev pub max_age_seconds : ℕ
max_age_seconds = 30 * 24 * 60 * 60

abbrev pub bounded_age : Option ℕ → Option (Option ℕ)
bounded_age none = none
bounded_age (some value) = if ltb max_age_seconds value then none else some (some value)

-- `nil, true` is `some none`.
unfoldable pub parse_max_age : List Bytes → Option (Option ℕ)
parse_max_age [] = some none
parse_max_age (raw ∷ []) =
    if is_empty raw || (ltb 1 (length raw) && has_prefix raw (b'0' ∷ []))
    then none
    else if not (all is_digit raw)
    then none
    else bounded_age (parse_uint32 raw)
parse_max_age (raw ∷ other ∷ more) = none
