-- ===== src/Store/Refresh/Count.antt =====
-- Counting the unconsumed generations of a family, and what the writes of a rotation do to them.
use one_issuer.Base.{
  ℕ, suc, ◌≤◌, ◌≡◌, refl, ap, ◌∙◌, Bool, true, false, not, ◌&&◌, ◌||◌, none, some, List, [], ◌∷◌,
  ◌==◌, arith, any, find, is_some, if◌then◌else◌, Bool-cases, inl, inr,
}
use one_issuer.Token.{RefreshGeneration}
use one_issuer.Store.Queries.{amend, is_unconsumed, consumed, clashes}

abbrev pub is_live_of : ℕ → RefreshGeneration → Bool
is_live_of family r = r.family_id == family && not (is_some r.consumed_at)

abbrev pub live_count : ℕ → List RefreshGeneration → ℕ
live_count family [] = 0
live_count family (r ∷ rs) =
    let rest = live_count family rs in if is_live_of family r then suc rest else rest

-- Identifiers, hashes and generation numbers of a family are unique.
abbrev pub NoClash : List RefreshGeneration → Type 0
NoClash [] = Unit
NoClash (r ∷ rs) = (any (clashes r) rs ≡ false) × NoClash rs

-- Consuming makes no generation live.
pub live_count-amend :
    (family id at : ℕ) (rs : List RefreshGeneration)
    → live_count family (amend (is_unconsumed id) (consumed at) rs) ≤ live_count family rs
live_count-amend family id at [] = ground arith
live_count-amend family id at (r ∷ rs) = elim (Bool-cases (is_unconsumed id r)) [
  | inl u ↦ rw u (ground (arith, live_count-amend family id at rs))
  | inr k ↦ rw k (ground (arith, live_count-amend family id at rs))
]

-- Consuming a live generation of a family leaves one less.
pub live_count-consume :
    (family id at : ℕ) (rs : List RefreshGeneration) (r : RefreshGeneration)
    → find (λ r. r.id == id) rs ≡ some r
    → r.consumed_at ≡ none
    → r.family_id ≡ family
    → suc (live_count family (amend (is_unconsumed id) (consumed at) rs)) ≤ live_count family rs
live_count-consume family id at [] r found live of = cc
live_count-consume family id at (x ∷ rs) r found live of = elim (Bool-cases (x.id == id)) [
  | inl this ↦
      let same : x ≡ r = ground arith in
      let live_x : x.consumed_at ≡ none = ap (λ r. r.consumed_at) same ∙ live in
      let of_x : x.family_id ≡ family = ap (λ r. r.family_id) same ∙ of in
      let u : is_unconsumed id x ≡ true = ground arith in
      rw u (ground (arith, live_count-amend family id at rs))
  | inr other ↦
      let k : is_unconsumed id x ≡ false = ground arith in
      rw k (ground (arith, live_count-consume family id at rs r (ground arith) live of))
]

-- Consuming changes no key.
pub any-clashes-amend :
    (new : RefreshGeneration) (id at : ℕ) (rs : List RefreshGeneration)
    → any (clashes new) (amend (is_unconsumed id) (consumed at) rs) ≡ any (clashes new) rs
any-clashes-amend new id at [] = refl
any-clashes-amend new id at (r ∷ rs) = elim (Bool-cases (is_unconsumed id r)) [
  | inl u ↦ rw u (ap (◌||◌ (clashes new r)) (any-clashes-amend new id at rs))
  | inr k ↦ rw k (ap (◌||◌ (clashes new r)) (any-clashes-amend new id at rs))
]

pub NoClash-amend :
    (id at : ℕ) (rs : List RefreshGeneration)
    → NoClash rs
    → NoClash (amend (is_unconsumed id) (consumed at) rs)
NoClash-amend id at [] h = tt
NoClash-amend id at (r ∷ rs) (apart, h) = elim (Bool-cases (is_unconsumed id r)) [
  | inl u ↦ rw u (any-clashes-amend r id at rs ∙ apart, NoClash-amend id at rs h)
  | inr k ↦ rw k (any-clashes-amend r id at rs ∙ apart, NoClash-amend id at rs h)
]
