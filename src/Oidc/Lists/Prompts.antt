-- ===== src/Oidc/Lists/Prompts.antt =====
-- What parsePrompt of internal/oidc/authorize.go accepts.
use one_issuer.Base.{
  ◌+◌, ◌≡◌, ◌<◌, refl, sym, ap, ◌∙◌, ◌↔◌, ◌⊎◌, inl, inr, Bool, true, false, not, ◌&&◌, ◌||◌, none,
  some, List, [], ◌∷◌, arith, length, all, All, Bool-cases, ◌==◌, if◌then◌else◌, Option-cases, ◌≢◌,
  subst,
}
use one_issuer.Text.{Bytes, str_eq, mem, join_space}
use one_issuer.Text.Order.{str_eq→eq, str_eq_iff}
use one_issuer.Text.Sort.{sort_strings, Ascending, mem-sort_strings, sort_strings-IsSorted}
use one_issuer.Text.Ascending.{
  Distinct, Ascending-ext, Ascending-of_IsSorted, has_repeat-sort_strings,
}
use one_issuer.Text.Split.{split_on}
use one_issuer.Text.Split.Laws.{join_space-split_on, split_nonempty}
use one_issuer.Text.Split.Tokens.{
  IsWord, AreWords, has_outer_space-join_space, no_line_break-join_space, split_on-words,
  join_space-nonempty, no_empty_word,
}
use one_issuer.Oidc.Lists.{
  split_strict_space_list, is_prompt, collect_prompts, prompts_conflict, finish_prompts,
  prompts_of_parts, parse_prompt, prompt_none, prompt_login, prompt_consent, prompt_create,
}

-- A list of words joined by spaces is split into these words.
pub split_strict-join_space :
    (w : Bytes) (ws : List Bytes)
    → AreWords (w ∷ ws)
    → split_strict_space_list (join_space (w ∷ ws)) ≡ some (w ∷ ws)
unfolding split_strict_space_list
split_strict-join_space w ws h =
    rw
      (
        join_space-nonempty w ws h,
        has_outer_space-join_space w ws h,
        no_line_break-join_space (w ∷ ws) h,
        split_on-words w ws h,
        no_empty_word (w ∷ ws) h,
      )
      refl

split_strict-parts :
    (raw : Bytes) (parts : List Bytes)
    → split_strict_space_list raw ≡ some parts
    → split_on b' ' raw ≡ parts
unfolding split_strict_space_list
split_strict-parts raw parts h = ground arith

-- What is split was joined.
pub split_strict-eq-some :
    (raw : Bytes) (parts : List Bytes)
    → split_strict_space_list raw ≡ some parts
    → raw ≡ join_space parts
split_strict-eq-some raw parts h =
    sym (join_space-split_on raw) ∙ ap join_space (split_strict-parts raw parts h)

-- The set that the loop collects, and the test that no part is in it before.
abbrev onto : List Bytes → List Bytes → List Bytes
onto [] seen = seen
onto (v ∷ rest) seen = onto rest (v ∷ seen)

abbrev are_fresh : List Bytes → List Bytes → Bool
are_fresh [] seen = true
are_fresh (v ∷ rest) seen = not (mem v seen) && are_fresh rest (v ∷ seen)

collect_prompts-onto :
    (parts seen : List Bytes)
    → collect_prompts parts seen
      ≡ (if all is_prompt parts && are_fresh parts seen then some (onto parts seen) else none)
unfolding collect_prompts
collect_prompts-onto [] seen = refl
collect_prompts-onto (v ∷ rest) seen = ground (arith, collect_prompts-onto rest (v ∷ seen))

mem-onto :
    (s : Bytes) (parts seen : List Bytes) → mem s (onto parts seen) ≡ (mem s parts || mem s seen)
unfolding mem
mem-onto s [] seen = refl
mem-onto s (v ∷ rest) seen = ground (arith, mem-onto s rest (v ∷ seen))

length-onto : (parts seen : List Bytes) → length (onto parts seen) ≡ length parts + length seen
length-onto [] seen = omega arith
length-onto (v ∷ rest) seen = omega (arith, length-onto rest (v ∷ seen))

-- No part of one list is in the other.
abbrev Apart : List Bytes → List Bytes → Type 0
Apart parts seen = All (λ v. mem v seen ≡ false) parts

swapped : (u v : Bytes) → str_eq u v ≡ str_eq v u
swapped u v = ground (arith, str_eq_iff u v, str_eq_iff v u)

Apart-cons :
    (v : Bytes) (rest seen : List Bytes)
    → mem v rest ≡ false
    → Apart rest seen
    → Apart rest (v ∷ seen)
unfolding mem
Apart-cons v [] seen h k = tt
Apart-cons v (u ∷ rest) seen h (k, ks) =
    (ground (arith, swapped u v), Apart-cons v rest seen (ground arith) ks)

Apart-uncons :
    (v : Bytes) (rest seen : List Bytes)
    → Apart rest (v ∷ seen)
    → (mem v rest ≡ false) × Apart rest seen
unfolding mem
Apart-uncons v [] seen k = (refl, tt)
Apart-uncons v (u ∷ rest) seen (k, ks) =
    let (absent, old) = Apart-uncons v rest seen ks in
    (ground (arith, swapped u v), (ground arith, old))

are_fresh-Distinct :
    (parts seen : List Bytes) → are_fresh parts seen ≡ true → Distinct parts × Apart parts seen
are_fresh-Distinct [] seen h = (tt, tt)
are_fresh-Distinct (v ∷ rest) seen h =
    let (d, apart) = are_fresh-Distinct rest (v ∷ seen) (ground arith) in
    let (absent, old) = Apart-uncons v rest seen apart in ((absent, d), (ground arith, old))

Distinct-are_fresh :
    (parts seen : List Bytes) → Distinct parts → Apart parts seen → are_fresh parts seen ≡ true
Distinct-are_fresh [] seen d a = refl
Distinct-are_fresh (v ∷ rest) seen (h, d) (k, a) =
    ground (arith, Distinct-are_fresh rest (v ∷ seen) d (Apart-cons v rest seen h a))

Apart-nil : (parts : List Bytes) → Apart parts []
unfolding mem
Apart-nil [] = tt
Apart-nil (v ∷ rest) = (refl, Apart-nil rest)

onto-Distinct :
    (parts seen : List Bytes)
    → Distinct parts
    → Apart parts seen
    → Distinct seen
    → Distinct (onto parts seen)
onto-Distinct [] seen d a ds = ds
onto-Distinct (v ∷ rest) seen (h, d) (k, a) ds =
    onto-Distinct rest (v ∷ seen) d (Apart-cons v rest seen h a) (k, ds)

sorted : (ss : List Bytes) → Distinct ss → Ascending (sort_strings ss)
sorted ss d =
    Ascending-of_IsSorted (sort_strings ss) (sort_strings-IsSorted ss)
      (has_repeat-sort_strings ss d)

-- The order in which the set was collected is forgotten.
sort-onto :
    (parts : List Bytes) → Distinct parts → sort_strings (onto parts []) ≡ sort_strings parts
unfolding mem
sort-onto parts d =
    Ascending-ext _ _ (sorted _ (onto-Distinct parts [] d (Apart-nil parts) tt)) (sorted parts d)
      (λ s.
        mem-sort_strings s (onto parts [])
        ∙ mem-onto s parts []
        ∙ ground (arith, mem-sort_strings s parts))

-- A list of prompt values that the profile accepts.
pub record IsPromptList (parts : List Bytes) : Type 0 where
  pub nonempty : 0 < length parts
  pub all_known : all is_prompt parts ≡ true
  pub distinct : Distinct parts
  pub none_alone : (mem prompt_none parts ≡ false) ⊎ (length parts ≡ 1)
  pub exclusive : (mem prompt_create parts && mem prompt_login parts) ≡ false

conflict-onto : (parts : List Bytes) → prompts_conflict (onto parts []) ≡ prompts_conflict parts
unfolding prompts_conflict mem
conflict-onto parts = ground (
  arith,
  mem-onto prompt_none parts [],
  mem-onto prompt_create parts [],
  mem-onto prompt_login parts [],
  length-onto parts [],
)

finish-collect :
    (parts : List Bytes)
    → finish_prompts (collect_prompts parts []) ≡ (
        if all is_prompt parts && are_fresh parts [] && not (prompts_conflict parts)
        then some (sort_strings (onto parts []))
        else none)
finish-collect parts = ground (arith, collect_prompts-onto parts [], conflict-onto parts)

no_conflict :
    (parts : List Bytes)
    → prompts_conflict parts ≡ false
    → ((mem prompt_none parts ≡ false) ⊎ (length parts ≡ 1))
      × ((mem prompt_create parts && mem prompt_login parts) ≡ false)
unfolding prompts_conflict
no_conflict parts h = elim (Bool-cases (mem prompt_none parts)) [
  | inl asked ↦ (inr (ground arith), ground arith)
  | inr free ↦ (inl free, ground arith)
]

agreed :
    (parts : List Bytes)
    → (mem prompt_none parts ≡ false) ⊎ (length parts ≡ 1)
    → (mem prompt_create parts && mem prompt_login parts) ≡ false
    → prompts_conflict parts ≡ false
unfolding prompts_conflict
agreed parts (inl free) h = ground arith
agreed parts (inr alone) h = ground arith

is_prompt-IsWord : (v : Bytes) → is_prompt v ≡ true → IsWord v
unfolding is_prompt
is_prompt-IsWord v h = elim (Bool-cases (str_eq v prompt_none)) [
  | inl e ↦ subst IsWord (sym (str_eq→eq v prompt_none e)) (omega arith)
  | inr a ↦ elim (Bool-cases (str_eq v prompt_login)) [
    | inl e ↦ subst IsWord (sym (str_eq→eq v prompt_login e)) (omega arith)
    | inr b ↦ elim (Bool-cases (str_eq v prompt_consent)) [
      | inl e ↦ subst IsWord (sym (str_eq→eq v prompt_consent e)) (omega arith)
      | inr c ↦ subst IsWord (sym (str_eq→eq v prompt_create (ground arith))) (omega arith)
    ]
  ]
]

all_prompts-AreWords : (parts : List Bytes) → all is_prompt parts ≡ true → AreWords parts
all_prompts-AreWords [] h = tt
all_prompts-AreWords (v ∷ rest) h =
    (is_prompt-IsWord v (ground arith), all_prompts-AreWords rest (ground arith))

parse_prompt-parts :
    (raw : Bytes) → parse_prompt (raw ∷ []) ≡ prompts_of_parts (split_strict_space_list raw)
unfolding parse_prompt
parse_prompt-parts raw = refl

split_strict-nonempty : (raw : Bytes) → split_strict_space_list raw ≢ some []
unfolding split_strict_space_list split_on
split_strict-nonempty [] h = cc
split_strict-nonempty (c ∷ s) h = elim (Bool-cases (c == b' ')) [
  | inl here ↦ ground arith
  | inr other ↦ let (p, ps, e) = split_nonempty b' ' s in ground arith
]

finished-IsPromptList :
    (parts ps : List Bytes)
    → 0 < length parts
    → finish_prompts (collect_prompts parts []) ≡ some ps
    → IsPromptList parts × (ps ≡ sort_strings parts)
finished-IsPromptList parts ps size h =
    let e = sym (finish-collect parts) ∙ h in
    let fresh = (are_fresh-Distinct parts [] (ground arith)).0 in
    let (alone, apart) = no_conflict parts (ground arith) in
    (
      record {
        nonempty = size;
        all_known = ground arith;
        distinct = fresh;
        none_alone = alone;
        exclusive = apart;
      },
      ground (arith, sort-onto parts fresh),
    )

has_parts :
    (raw : Bytes) (parts : List Bytes) → split_strict_space_list raw ≡ some parts → 0 < length parts
has_parts raw [] e = absurd (split_strict-nonempty raw e)
has_parts raw (p ∷ ps) e = omega arith

parsed_prompts :
    (raw : Bytes) (ps : List Bytes)
    → parse_prompt (raw ∷ []) ≡ some ps
    → (parts : List Bytes) × IsPromptList parts
      × (raw ≡ join_space parts)
      × (ps ≡ sort_strings parts)
parsed_prompts raw ps h = elim (Option-cases (split_strict_space_list raw)) [
  | inl missing ↦ absurd (cc (sym (parse_prompt-parts raw) ∙ h, missing))
  | inr (parts, e) ↦
      let finished : finish_prompts (collect_prompts parts []) ≡ some ps =
        sym (parse_prompt-parts raw ∙ ap prompts_of_parts e) ∙ h in
      let (v, same) = finished-IsPromptList parts ps (has_parts raw parts e) finished in
      (parts, v, split_strict-eq-some raw parts e, same)
]

prompts_parsed :
    (parts : List Bytes)
    → IsPromptList parts
    → parse_prompt (join_space parts ∷ []) ≡ some (sort_strings parts)
prompts_parsed [] v = absurd (omega (arith, v.nonempty))
prompts_parsed (w ∷ ws) v =
    parse_prompt-parts (join_space (w ∷ ws))
    ∙ ap prompts_of_parts (split_strict-join_space w ws (all_prompts-AreWords (w ∷ ws) v.all_known))
    ∙ finish-collect (w ∷ ws)
    ∙ ground (
      arith,
      v.all_known,
      Distinct-are_fresh (w ∷ ws) [] v.distinct (Apart-nil (w ∷ ws)),
      agreed (w ∷ ws) v.none_alone v.exclusive,
      sort-onto (w ∷ ws) v.distinct,
    )

-- A prompt parameter is accepted exactly when it is a list of known values joined by single spaces,
-- not empty, none of them twice, `none` only alone and `create` never beside `login`; and the result
-- is the same values in ascending order.
pub parse_prompt_iff :
    (raw : Bytes) (ps : List Bytes)
    → (parse_prompt (raw ∷ []) ≡ some ps) ↔ (
        (parts : List Bytes) × IsPromptList parts
        × (raw ≡ join_space parts)
        × (ps ≡ sort_strings parts))
parse_prompt_iff raw ps = (
  parsed_prompts raw ps,
  λ (parts, v, joined, same).
      ap (λ (s : Bytes). parse_prompt (s ∷ [])) joined
      ∙ prompts_parsed parts v
      ∙ ap some (sym same),
)
