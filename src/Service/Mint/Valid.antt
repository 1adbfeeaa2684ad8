-- ===== src/Service/Mint/Valid.antt =====
-- What the minting callbacks of internal/token/token.go make passes the checks of the repository.
use one_issuer.Base.{
  ℕ, zero, suc, ◌+◌, ◌≤◌, ◌≡◌, ◌≢◌, refl, sym, ap, ◌∙◌, inl, inr, Bool, true, false, Option, some,
  List, [], ◌∷◌, arith, length, is_empty, subst, ap₂, Option-cases,
}
use one_issuer.Errors.{Result, ok, err, Result-cases}
use one_issuer.Text.{Bytes, codes, mem, take, drop}
use one_issuer.Text.Order.{str_eq_refl}
use one_issuer.Text.Base64.{AreBytes}
use one_issuer.Scope.{offline_access, canonical_scopes}
use one_issuer.Token.{Authority, Minted, InitialRefresh}
use one_issuer.Token.Secret.{generate_refresh_token, hash_refresh_token, hash_jti, digest-generate}
use one_issuer.Token.Lifetime.{refresh_deadlines, refresh_deadlines_bounds}
use one_issuer.Store.Refresh.{digest_is}
use one_issuer.Store.Minted.{valid_initial, valid_refresh_part, valid_minted_tokens}
use one_issuer.Service.Mint.{
  Settings, valid_lifetimes, Signer, draw, mint_initial, initial_refresh, mint_tokens, mint,
  id_claims, access_claims, minted_tokens, some_initial,
}
use one_issuer.Service.Claims.{apply_profile_claims, new_jti}
use one_issuer.Scope.Canonical.{canonical_scopes_sound}

-- What is relied on of the parameters: a digest has 32 bytes, no UUID of the generator is nil, and a
-- token that was signed is not empty.
pub record IsSigner (signer : Signer) : Type 0 where
  pub digest_size : (s : Bytes) → length (signer.sha256 s) ≡ 32
  pub uuid_set : (raw : Bytes) → signer.uuid_of raw ≢ 0
  pub token_set :
      (payload typ token : Bytes) → signer.sign payload typ ≡ some token → is_empty token ≡ false

take-AreBytes : (n : ℕ) (s : Bytes) → AreBytes s → AreBytes (take n s)
unfolding take
take-AreBytes zero s h = tt
take-AreBytes (suc n) [] h = tt
take-AreBytes (suc n) (c ∷ s) (h, hs) = (h, take-AreBytes n s hs)

drop-AreBytes : (n : ℕ) (s : Bytes) → AreBytes s → AreBytes (drop n s)
unfolding drop
drop-AreBytes zero s h = h
drop-AreBytes (suc n) [] h = tt
drop-AreBytes (suc n) (c ∷ s) (h, hs) = drop-AreBytes n s hs

length-take : (n : ℕ) (s : Bytes) → n ≤ length s → length (take n s) ≡ n
unfolding take
length-take zero s h = refl
length-take (suc n) [] h = absurd (omega arith)
length-take (suc n) (c ∷ s) h = ap suc (length-take n s (omega arith))

-- What is drawn are bytes, as many as were asked for.
pub draw-eq-ok :
    (n : ℕ) (source : Bytes) {raw rest : Bytes}
    → AreBytes source
    → draw n source ≡ ok (raw, rest)
    → AreBytes raw × AreBytes rest × (length raw ≡ n)
unfolding draw
draw-eq-ok n source {raw} {rest} bytes h =
    let first : take n source ≡ raw = ground arith in
    let later : drop n source ≡ rest = ground arith in
    (
      subst AreBytes first (take-AreBytes n source bytes),
      subst AreBytes later (drop-AreBytes n source bytes),
      sym (ap length first) ∙ length-take n source (ground arith),
    )

pub digest_is-generate :
    (sha256 : Bytes → Bytes) (raw : Bytes)
    → AreBytes raw
    → length raw ≡ 32
    → digest_is sha256 (generate_refresh_token sha256 raw).0 (generate_refresh_token sha256 raw).1
      ≡ true
unfolding digest_is
digest_is-generate sha256 raw bytes size = ground (
  arith,
  digest-generate sha256 raw bytes size,
  str_eq_refl (generate_refresh_token sha256 raw).1,
)

pub clear_set :
    (sha256 : Bytes → Bytes) (raw : Bytes) → is_empty (generate_refresh_token sha256 raw).0 ≡ false
unfolding generate_refresh_token
clear_set sha256 raw = refl

pub hash_size :
    (signer : Signer)
    → IsSigner signer
    → (raw : Bytes) → length (generate_refresh_token signer.sha256 raw).1 ≡ 32
unfolding generate_refresh_token hash_refresh_token
hash_size signer good raw = good.digest_size _

pub jti_size :
    (signer : Signer) → IsSigner signer → (jti : Bytes) → length (hash_jti signer.sha256 jti) ≡ 32
unfolding hash_jti
jti_size signer good jti = good.digest_size _

-- The parts of a first Refresh Token.
record IsInitial (signer : Signer) (settings : Settings) (a : Authority) (initial : InitialRefresh)
    : Type 0 where
  raw : Bytes
  raw_bytes : AreBytes raw
  raw_size : length raw ≡ 32
  deadlines :
      refresh_deadlines a.issued_at settings.refresh_token_ttl settings.refresh_absolute_ttl
      ≡ ok (initial.expires_at, initial.absolute_expires_at)
  family_set : initial.family_id ≢ 0
  token_set : initial.token_id ≢ 0
  hash : initial.token_hash ≡ (generate_refresh_token signer.sha256 raw).1
  clear : initial.clear_token ≡ (generate_refresh_token signer.sha256 raw).0

mint_initial-IsInitial :
    (signer : Signer) (settings : Settings) (a : Authority) (source : Bytes)
    (initial : InitialRefresh)
    → IsSigner signer
    → AreBytes source
    → mint_initial signer settings a source ≡ ok initial
    → IsInitial signer settings a initial
unfolding mint_initial
mint_initial-IsInitial signer settings a source initial good bytes h =
    elim (Result-cases (draw 32 source)) [
      | inr (e, q1) ↦ absurd (ground arith)
      | inl ((raw, s1), q1) ↦ elim (Result-cases (draw 16 s1)) [
        | inr (e, q2) ↦ absurd (ground arith)
        | inl ((family_raw, s2), q2) ↦ elim (Result-cases (draw 16 s2)) [
          | inr (e, q3) ↦ absurd (ground arith)
          | inl ((token_raw, s3), q3) ↦
              elim (Result-cases (
                refresh_deadlines a.issued_at settings.refresh_token_ttl
                  settings.refresh_absolute_ttl)) [
                    | inr (e, q4) ↦ absurd (ground arith)
                    | inl ((rolling, absolute), q4) ↦
                        let (raw_bytes, rest_bytes, size) = draw-eq-ok 32 source bytes q1 in
                        let family_eq : initial.family_id ≡ signer.uuid_of family_raw =
                          ground arith in
                        let token_eq : initial.token_id ≡ signer.uuid_of token_raw = ground arith in
                        record {
                          raw = raw;
                          raw_bytes = raw_bytes;
                          raw_size = size;
                          deadlines = q4 ∙ ground arith;
                          family_set = λ z. good.uuid_set family_raw (sym family_eq ∙ z);
                          token_set = λ z. good.uuid_set token_raw (sym token_eq ∙ z);
                          hash = ground arith;
                          clear = ground arith;
                        }
                  ]
        ]
      ]
    ]

-- Such a token passes the check of the repository.
IsInitial-valid :
    (signer : Signer) (settings : Settings) (a : Authority) (value : Minted)
    (initial : InitialRefresh)
    → IsSigner signer
    → value.issued_at ≡ a.issued_at
    → IsInitial signer settings a initial
    → valid_initial signer.sha256 value initial ≡ true
unfolding valid_initial
IsInitial-valid signer settings a value initial good same t =
    let (after, month, before, year) = refresh_deadlines_bounds _ _ _ _ _ t.deadlines in
    let size : length initial.token_hash ≡ 32 = ap length t.hash ∙ hash_size signer good t.raw in
    let set : is_empty initial.clear_token ≡ false =
      ap is_empty t.clear ∙ clear_set signer.sha256 t.raw in
    let own : digest_is signer.sha256 initial.clear_token initial.token_hash ≡ true =
      ap₂ (digest_is signer.sha256) t.clear t.hash
      ∙ digest_is-generate signer.sha256 t.raw t.raw_bytes t.raw_size in
    ground (arith, t.family_set, t.token_set)

-- Minted tokens: the checks on the Access Token and the ID Token, and the first Refresh Token.
record IsMint (signer : Signer) (settings : Settings) (a : Authority) (offline : Bool)
    (value : Minted) : Type 0 where
  access_set : value.access_token_id ≢ 0
  hash : length value.jti_hash ≡ 32
  access_token : is_empty value.access_token ≡ false
  id_token : is_empty value.id_token ≡ false
  issued : value.issued_at ≡ a.issued_at
  access_expires : value.access_expires_at ≡ a.issued_at + settings.access_token_ttl
  id_expires : value.id_expires_at ≡ a.issued_at + settings.id_token_ttl
  rest : Bytes
  rest_bytes : AreBytes rest
  initial : initial_refresh signer settings offline a rest ≡ ok value.initial_refresh

mint_tokens-IsMint :
    (signer : Signer) (settings : Settings) (source : Bytes) (a : Authority) (scopes : List Bytes)
    (value : Minted)
    → IsSigner signer
    → AreBytes source
    → mint_tokens signer settings source a scopes ≡ ok value
    → IsMint signer settings a (mem offline_access scopes) value
unfolding mint_tokens
mint_tokens-IsMint signer settings source a scopes value good bytes h =
    elim (Result-cases (draw 16 source)) [
      | inr (e, q1) ↦ absurd (ground arith)
      | inl ((jti_raw, s1), q1) ↦ elim (Result-cases (draw 16 s1)) [
        | inr (e, q2) ↦ absurd (ground arith)
        | inl ((id_raw, s2), q2) ↦ signed_tokens jti_raw s1 id_raw s2 q1 q2
      ]
    ]
  where
    signed_tokens :
        (jti_raw s1 id_raw s2 : Bytes)
        → draw 16 source ≡ ok (jti_raw, s1)
        → draw 16 s1 ≡ ok (id_raw, s2)
        → IsMint signer settings a (mem offline_access scopes) value
    signed_tokens jti_raw s1 id_raw s2 q1 q2 =
        let id_payload =
          signer.encode_id (apply_profile_claims scopes a.user (id_claims signer settings a)) in
        let access_payload =
          signer.encode_access
            (access_claims signer settings a.client a.user scopes a.issued_at (new_jti jti_raw)) in
        elim (Option-cases (signer.sign id_payload (codes "JWT"))) [
          | inl q3 ↦ absurd (ground arith)
          | inr (id_token, q3) ↦ elim (Option-cases (signer.sign access_payload (codes "at+jwt"))) [
            | inl q4 ↦ absurd (ground arith)
            | inr (access_token, q4) ↦
                elim (Result-cases
                  (initial_refresh signer settings (mem offline_access scopes) a s2)) [
                    | inr (e, q5) ↦ absurd (ground arith)
                    | inl (initial, q5) ↦
                        let made : minted_tokens signer settings a jti_raw id_raw id_token
                              access_token initial
                            ≡ value =
                          ground arith in
                        let bytes1 = (draw-eq-ok 16 source bytes q1).1 in
                        record {
                          access_set = λ z.
                              good.uuid_set id_raw
                                (ap (λ (m : Minted). m.access_token_id) made ∙ z);
                          hash =
                              sym (ap (λ (m : Minted). length m.jti_hash) made)
                              ∙ jti_size signer good (new_jti jti_raw);
                          access_token =
                              sym (ap (λ (m : Minted). is_empty m.access_token) made)
                              ∙ good.token_set _ _ access_token q4;
                          id_token =
                              sym (ap (λ (m : Minted). is_empty m.id_token) made)
                              ∙ good.token_set _ _ id_token q3;
                          issued = sym (ap (λ (m : Minted). m.issued_at) made);
                          access_expires = sym (ap (λ (m : Minted). m.access_expires_at) made);
                          id_expires = sym (ap (λ (m : Minted). m.id_expires_at) made);
                          rest = s2;
                          rest_bytes = (draw-eq-ok 16 s1 bytes1 q2).1;
                          initial = q5 ∙ ap (λ (m : Minted). ok m.initial_refresh) made;
                        }
                  ]
          ]
        ]

some_initial-eq-ok :
    (r : Result InitialRefresh) {o : Option InitialRefresh}
    → some_initial r ≡ ok o
    → (initial : InitialRefresh) × (r ≡ ok initial) × (o ≡ some initial)
some_initial-eq-ok (err e) h = cc
some_initial-eq-ok (ok initial) h = (initial, refl, ground arith)

initial_refresh-valid :
    (signer : Signer) (settings : Settings) (a : Authority) (offline : Bool) (value : Minted)
    (rest : Bytes) (o : Option InitialRefresh)
    → IsSigner signer
    → AreBytes rest
    → value.issued_at ≡ a.issued_at
    → initial_refresh signer settings offline a rest ≡ ok o
    → valid_refresh_part signer.sha256 value offline o ≡ true
unfolding initial_refresh valid_refresh_part
initial_refresh-valid signer settings a false value rest o good bytes same h = ground arith
initial_refresh-valid signer settings a true value rest o good bytes same h =
    let (initial, made, there) = some_initial-eq-ok (mint_initial signer settings a rest) h in
    let valid =
      IsInitial-valid signer settings a value initial good same
        (mint_initial-IsInitial signer settings a rest initial good bytes made) in
    ap (valid_refresh_part signer.sha256 value true) there ∙ valid

IsMint-valid :
    (signer : Signer) (settings : Settings) (a : Authority) (offline : Bool) (value : Minted)
    → IsSigner signer
    → valid_lifetimes settings ≡ true
    → IsMint signer settings a offline value
    → valid_minted_tokens signer.sha256 value a.issued_at offline ≡ true
unfolding valid_minted_tokens valid_lifetimes
IsMint-valid signer settings a offline value good times t =
    let part =
      initial_refresh-valid signer settings a offline value t.rest value.initial_refresh good
        t.rest_bytes t.issued t.initial in
    ground (
      arith, t.access_set, t.hash, t.access_token, t.id_token, t.issued, t.access_expires,
      t.id_expires,
    )

-- What mint makes, with the lifetimes that NewService allows, passes validMintedTokens of the
-- repository for the authority that it was made for: digests have their size, all lifetimes are within
-- their bounds, and there is a Refresh Token, with the digest that is stored for it, exactly where
-- offline_access is among the Scopes. It is assumed that a digest has 32 bytes, that no new UUID is
-- nil and that signed tokens are not empty.
pub mint-valid :
    (signer : Signer) (settings : Settings) (source : Bytes) (a : Authority) (value : Minted)
    → IsSigner signer
    → valid_lifetimes settings ≡ true
    → AreBytes source
    → mint signer settings source a ≡ ok value
    → valid_minted_tokens signer.sha256 value a.issued_at (mem offline_access a.scopes) ≡ true
unfolding mint
mint-valid signer settings source a value good times bytes h =
    elim (Result-cases (canonical_scopes a.scopes)) [
      | inr (e, q) ↦ absurd (ground arith)
      | inl (scopes, q) ↦
          let same = (canonical_scopes_sound a.scopes scopes q).2 offline_access in
          subst
            (λ (offline : Bool). valid_minted_tokens signer.sha256 value a.issued_at offline ≡ true)
            same
            (IsMint-valid signer settings a (mem offline_access scopes) value good times
              (mint_tokens-IsMint signer settings source a scopes value good bytes (ground arith)))
    ]
