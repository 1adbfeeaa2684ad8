-- ===== src/Text/Split/Laws.antt =====
-- Split is undone by Join, and Join by Split.
use one_issuer.Base.{
  ℕ, ◌≡◌, refl, sym, ap, ap₂, ◌∙◌, inl, inr, false, List, [], ◌∷◌, ◌++◌, arith, ◌==◌, ==_iff, All,
  Bool-cases, subst,
}
use one_issuer.Text.{Bytes, join_space}
use one_issuer.Text.Split.{split_on, onto_first, has_byte}

pub split_nonempty :
    (sep : ℕ) (s : Bytes) → (p : Bytes) × (ps : List Bytes) × (split_on sep s ≡ p ∷ ps)
unfolding split_on
split_nonempty sep [] = ([], [], refl)
split_nonempty sep (c ∷ s) = elim (Bool-cases (c == sep)) [
  | inl here ↦ ([], split_on sep s, rw here refl)
  | inr other ↦ let (p, ps, e) = split_nonempty sep s in (c ∷ p, ps, rw (other, e) refl)
]

join-onto_first :
    (c : ℕ) (p : Bytes) (ps : List Bytes)
    → join_space (onto_first c (p ∷ ps)) ≡ c ∷ join_space (p ∷ ps)
unfolding join_space
join-onto_first c p [] = refl
join-onto_first c p (q ∷ ps) = refl

join-new_part :
    (p : Bytes) (ps : List Bytes) → join_space ([] ∷ p ∷ ps) ≡ b' ' ∷ join_space (p ∷ ps)
unfolding join_space
join-new_part p ps = refl

joined_nil : join_space (split_on b' ' []) ≡ []
unfolding join_space split_on
joined_nil = refl

part_head : (sep c : ℕ) (s : Bytes) → has_byte sep (c ∷ s) ≡ false → (c == sep) ≡ false
unfolding has_byte
part_head sep c s h = ground arith

part_tail : (sep c : ℕ) (s : Bytes) → has_byte sep (c ∷ s) ≡ false → has_byte sep s ≡ false
unfolding has_byte
part_tail sep c s h = ground arith

part_onto :
    (sep c : ℕ) (s : Bytes)
    → (c == sep) ≡ false
    → has_byte sep s ≡ false
    → has_byte sep (c ∷ s) ≡ false
unfolding has_byte
part_onto sep c s h k = ground arith

-- Joining what was split gives the string back.
pub join_space-split_on : (s : Bytes) → join_space (split_on b' ' s) ≡ s
unfolding split_on
join_space-split_on [] = joined_nil
join_space-split_on (c ∷ s) =
    let (p, ps, e) = split_nonempty b' ' s in
    let back : join_space (p ∷ ps) ≡ s = ap join_space (sym e) ∙ join_space-split_on s in
    elim (Bool-cases (c == b' ')) [
      | inl here ↦
          rw (here, e)
            (join-new_part p ps
              ∙ ap₂ (λ (d : ℕ) (t : Bytes). d ∷ t) (sym ((==_iff c b' ').0 here)) back)
      | inr other ↦ rw (other, e) (join-onto_first c p ps ∙ ap (λ (t : Bytes). c ∷ t) back)
    ]

-- No part holds the separator.
abbrev pub AreParts : ℕ → List Bytes → Type 0
AreParts sep ps = All (λ p. has_byte sep p ≡ false) ps

pub split_on-part : (sep : ℕ) (s : Bytes) → has_byte sep s ≡ false → split_on sep s ≡ s ∷ []
unfolding split_on has_byte
split_on-part sep [] h = refl
split_on-part sep (c ∷ s) h =
    rw (part_head sep c s h, split_on-part sep s (part_tail sep c s h)) refl

split_on-append :
    (sep : ℕ) (p s : Bytes)
    → has_byte sep p ≡ false
    → split_on sep (p ++ (sep ∷ s)) ≡ p ∷ split_on sep s
unfolding split_on has_byte
split_on-append sep [] s h = ground arith
split_on-append sep (c ∷ p) s h =
    rw (part_head sep c p h, split_on-append sep p s (part_tail sep c p h)) refl

-- Splitting what was joined gives the parts back.
pub split_on-join_space :
    (p : Bytes) (ps : List Bytes)
    → AreParts b' ' (p ∷ ps)
    → split_on b' ' (join_space (p ∷ ps)) ≡ p ∷ ps
unfolding join_space
split_on-join_space p [] (h, hs) = split_on-part b' ' p h
split_on-join_space p (q ∷ ps) (h, hs) =
    split_on-append b' ' p (join_space (q ∷ ps)) h
    ∙ ap (λ (ts : List Bytes). p ∷ ts) (split_on-join_space q ps hs)

-- Every part of a split is free of the separator.
pub split_on-AreParts : (sep : ℕ) (s : Bytes) → AreParts sep (split_on sep s)
unfolding split_on has_byte
split_on-AreParts sep [] = (refl, tt)
split_on-AreParts sep (c ∷ s) =
    let (p, ps, e) = split_nonempty sep s in
    let parts : AreParts sep (p ∷ ps) = subst (AreParts sep) e (split_on-AreParts sep s) in
    elim (Bool-cases (c == sep)) [
      | inl here ↦ rw (here, e) (refl, parts)
      | inr other ↦ rw (other, e) (part_onto sep c p other parts.0, parts.1)
    ]
