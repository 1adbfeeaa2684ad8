-- ===== src/Store/Refresh/Replay.antt =====
-- A Refresh Token is used once, and not at all once its family is revoked.
use one_issuer.Base.{
  ℕ, suc, ◌≡◌, ◌≢◌, refl, sym, ap, ◌∙◌, inl, inr, Bool, true, false, not, ◌&&◌, some, List, [], ◌∷◌,
  ◌==◌, arith, find, any, any_of_find, none_of_find, is_some, Bool-cases,
}
use one_issuer.Errors.{Result}
use one_issuer.Text.{Bytes, str_eq}
use one_issuer.Text.Order.{str_eq→eq, str_eq_refl}
use one_issuer.Token.{
  RefreshFamily, RefreshGeneration, RefreshInput, RefreshAuthority, RefreshMinted, Response,
}
use one_issuer.Store.{Db, Conn, returned}
use one_issuer.Store.Transaction.{start_db}
use one_issuer.Store.Queries.{amend, is_unconsumed, consumed, clashes}
use one_issuer.Store.Refresh.{rotated, replacement, exchange_refresh_token}
use one_issuer.Store.Refresh.Authority.{LockedIn-Passed}
use one_issuer.Store.Refresh.Branches.{Exchanged}
use one_issuer.Store.Refresh.Ending.{exchange_refresh_token-Succeeded}
use one_issuer.Store.Refresh.Count.{NoClash, any-clashes-amend}
use one_issuer.Store.Refresh.Invariant.{IsRefreshStore, Keeps, start_db-keeps}

abbrev pub is_usable : Bytes → RefreshGeneration → Bool
is_usable hash r = str_eq r.token_hash hash && not (is_some r.consumed_at)

-- No stored generation with the hash is unconsumed.
abbrev pub IsSpent : Bytes → Db → Type 0
IsSpent hash db = any (is_usable hash) db.generations ≡ false

other_hash :
    (x r : RefreshGeneration) (hash : Bytes)
    → r.token_hash ≡ hash
    → str_eq r.token_hash x.token_hash ≡ false
    → str_eq x.token_hash hash ≡ false
other_hash x r hash same differs = elim (Bool-cases (str_eq x.token_hash hash)) [
  | inl eq ↦
      let both : r.token_hash ≡ x.token_hash = same ∙ sym (str_eq→eq x.token_hash hash eq) in
      absurd (ground (arith, ap (λ h. str_eq h x.token_hash) both, str_eq_refl x.token_hash))
  | inr other ↦ other
]

-- Those that a row does not clash with have another hash.
unusable_of_no_clash :
    (r : RefreshGeneration) (hash : Bytes) (rs : List RefreshGeneration)
    → r.token_hash ≡ hash
    → any (clashes r) rs ≡ false
    → any (is_usable hash) rs ≡ false
unusable_of_no_clash r hash [] same h = refl
unusable_of_no_clash r hash (x ∷ rs) same h = elim (Bool-cases (str_eq x.token_hash hash)) [
  | inl eq ↦
      let clash : str_eq x.token_hash r.token_hash ≡ true = ap (str_eq x.token_hash) same ∙ eq in
      absurd (ground arith)
  | inr other ↦ ground (arith, unusable_of_no_clash r hash rs same)
]

-- Once the one row with the hash is consumed, none is usable.
consume-unusable :
    (hash : Bytes) (id at : ℕ) (rs : List RefreshGeneration) (r : RefreshGeneration)
    → NoClash rs
    → find (λ r. r.id == id) rs ≡ some r
    → r.token_hash ≡ hash
    → any (is_usable hash) (amend (is_unconsumed id) (consumed at) rs) ≡ false
consume-unusable hash id at [] r apart found same = refl
consume-unusable hash id at (x ∷ rs) r (fresh, apart) found same = elim (Bool-cases (x.id == id)) [
  | inl this ↦
      let eq : x ≡ r = ground arith in
      let tail =
        unusable_of_no_clash x hash (amend (is_unconsumed id) (consumed at) rs)
          (ap (λ r. r.token_hash) eq ∙ same) (any-clashes-amend x id at rs ∙ fresh) in
      ground (arith, tail)
  | inr other ↦
      let stored = none_of_find (λ r. r.id == id) (clashes x) rs {a = r} (ground arith) fresh in
      let differs : str_eq r.token_hash x.token_hash ≡ false = ground (arith, stored) in
      let unlike = other_hash x r hash same differs in
      ground (arith, unlike, consume-unusable hash id at rs r apart (ground arith) same)
]

module _ (sha256 : Bytes → Bytes) (others : ℕ → Db → Db)
    (mint : ℕ → RefreshAuthority → Result RefreshMinted) where
  rotated-IsSpent :
      (n : ℕ) (db left : Db) (candidate : RefreshGeneration) (family : RefreshFamily)
      (input : RefreshInput) (response : Response)
      → Exchanged sha256 others mint n db left candidate family input (rotated response)
      → IsRefreshStore db
      → IsSpent input.token_hash left
  rotated-IsSpent n db left candidate family input response x h = elim x.did [
    | inr (at, consumed, revoked, answer) ↦ absurd (ground arith)
    | inl (unconsumed, issued) ↦
        let p = LockedIn-Passed db candidate family input x.l x.locked in
        let new = replacement x.l issued.minted in
        let id = x.l.presented.id in
        let fresh =
          sym (any-clashes-amend new id input.now db.generations) ∙ issued.writes.no_clash in
        let apart =
          none_of_find (λ r. r.id == id) (clashes new) db.generations p.generation_stored fresh in
        let unlike =
          other_hash new x.l.presented input.token_hash p.generation_hash (ground (arith, apart)) in
        let rest =
          consume-unusable input.token_hash id input.now db.generations x.l.presented h.no_clash
            p.generation_stored p.generation_hash in
        ap (λ db. any (is_usable input.token_hash) db.generations) (sym issued.writes.left_eq)
        ∙ ground (arith, unlike, rest)
  ]

  usable_of_rotated :
      (n : ℕ) (db left : Db) (candidate : RefreshGeneration) (family : RefreshFamily)
      (input : RefreshInput) (response : Response)
      → Exchanged sha256 others mint n db left candidate family input (rotated response)
      → any (is_usable input.token_hash) db.generations ≡ true
  usable_of_rotated n db left candidate family input response x = elim x.did [
    | inr (at, consumed, revoked, answer) ↦ absurd (ground arith)
    | inl (unconsumed, issued) ↦
        let p = LockedIn-Passed db candidate family input x.l x.locked in
        let same =
          ap (λ h. str_eq h input.token_hash) p.generation_hash ∙ str_eq_refl input.token_hash in
        any_of_find (λ r. r.id == x.l.presented.id) (is_usable input.token_hash) db.generations
          p.generation_stored (ground (arith, same))
  ]

  -- A Refresh Token of which no stored generation is unconsumed gets no tokens, if the other
  -- transactions do not bring it back.
  pub spent_never_exchanges :
      (input : RefreshInput) (c c' : Conn) (response : Response)
      → Keeps others (IsSpent input.token_hash)
      → IsSpent input.token_hash c.db
      → exchange_refresh_token sha256 others mint input c ≢ returned response c'
  spent_never_exchanges input c c' response keeps spent h =
      let s = exchange_refresh_token-Succeeded sha256 others mint input c h in
      let start = start_db others c.db (suc s.attempt) in
      let usable =
        usable_of_rotated s.attempt start c'.db s.candidate s.candidate_family input response
          s.exchanged in
      let unusable =
        start_db-keeps others (IsSpent input.token_hash) keeps c.db (suc s.attempt) spent in
      ground (arith, usable, unusable)

  -- A Refresh Token that ExchangeRefreshToken gave tokens for is spent.
  exchange_refresh_token-IsSpent :
      (input : RefreshInput) (c c' : Conn) (response : Response)
      → Keeps others IsRefreshStore
      → IsRefreshStore c.db
      → exchange_refresh_token sha256 others mint input c ≡ returned response c'
      → IsSpent input.token_hash c'.db
  exchange_refresh_token-IsSpent input c c' response keeps store h =
      let s = exchange_refresh_token-Succeeded sha256 others mint input c h in
      rotated-IsSpent s.attempt (start_db others c.db (suc s.attempt)) c'.db s.candidate
        s.candidate_family input response s.exchanged
        (start_db-keeps others IsRefreshStore keeps c.db (suc s.attempt) store)

  -- A Refresh Token gives tokens at most once: after ExchangeRefreshToken returned tokens for it,
  -- on tables that satisfy the invariant, no later call with the same hash returns any, whatever
  -- other transactions commit between the two and during them, provided that they keep the
  -- invariant and do not store the hash as unconsumed again.
  pub exchange_refresh_token_once :
      (first second : RefreshInput) (c c' d d' : Conn) (one two : Response)
      → Keeps others IsRefreshStore
      → Keeps others (IsSpent first.token_hash)
      → IsRefreshStore c.db
      → second.token_hash ≡ first.token_hash
      → exchange_refresh_token sha256 others mint first c ≡ returned one c'
      → (IsSpent first.token_hash c'.db → IsSpent first.token_hash d.db)
      → exchange_refresh_token sha256 others mint second d ≢ returned two d'
  exchange_refresh_token_once first second c c' d d' one two keeps keeps_spent store same h later =
      let spent = later (exchange_refresh_token-IsSpent first c c' one keeps store h) in
      spent_never_exchanges second d d' two (rw same keeps_spent) (rw same spent)
