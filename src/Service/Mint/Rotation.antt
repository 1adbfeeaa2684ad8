-- ===== src/Service/Mint/Rotation.antt =====
-- What mintRefresh of internal/token/token.go makes passes validRefreshMinted of the repository.
use one_issuer.Base.{
  ℕ, ◌+◌, ◌≡◌, ◌≢◌, sym, ap, ap₂, ◌∙◌, inl, inr, true, false, some, List, arith, length, is_empty,
  Option-cases,
}
use one_issuer.Errors.{ok, Result-cases}
use one_issuer.Text.{Bytes, codes}
use one_issuer.Text.Base64.{AreBytes}
use one_issuer.Scope.{canonical_scopes}
use one_issuer.Token.{RefreshAuthority, RefreshMinted}
use one_issuer.Token.Secret.{generate_refresh_token}
use one_issuer.Token.Lifetime.{replacement_refresh_expiry, replacement_refresh_expiry_bounds}
use one_issuer.Store.Refresh.{digest_is, valid_refresh_minted, max_int64}
use one_issuer.Service.Claims.{new_jti}
use one_issuer.Service.Mint.{
  Settings, valid_lifetimes, Signer, draw, access_claims, rotated_tokens, mint_rotation,
  mint_refresh,
}
use one_issuer.Service.Mint.Valid.{
  IsSigner, draw-eq-ok, digest_is-generate, clear_set, hash_size, jti_size,
}

-- The parts of a rotation.
record IsRotation (signer : Signer) (settings : Settings) (a : RefreshAuthority)
    (value : RefreshMinted) : Type 0 where
  raw : Bytes
  raw_bytes : AreBytes raw
  raw_size : length raw ≡ 32
  expiry :
      replacement_refresh_expiry a.issued_at settings.refresh_token_ttl a.family.absolute_expires_at
      ≡ ok value.replacement_expires_at
  access_set : value.access_token_id ≢ 0
  replacement_set : value.replacement_token_id ≢ 0
  jti : length value.jti_hash ≡ 32
  hash : value.replacement_token_hash ≡ (generate_refresh_token signer.sha256 raw).1
  clear : value.replacement_clear_token ≡ (generate_refresh_token signer.sha256 raw).0
  access_token : is_empty value.access_token ≡ false
  issued : value.issued_at ≡ a.issued_at
  access_expires : value.access_expires_at ≡ a.issued_at + settings.access_token_ttl

module _ (signer : Signer) (settings : Settings) (a : RefreshAuthority) (value : RefreshMinted)
    (good : IsSigner signer) where
  rotated-IsRotation :
      (raw replacement_raw jti_raw id_raw access_token : Bytes) (expires : ℕ) (payload : Bytes)
      → AreBytes raw
      → length raw ≡ 32
      → replacement_refresh_expiry a.issued_at settings.refresh_token_ttl
          a.family.absolute_expires_at
        ≡ ok expires
      → signer.sign payload (codes "at+jwt") ≡ some access_token
      → rotated_tokens signer settings a raw replacement_raw jti_raw id_raw access_token expires
        ≡ value
      → IsRotation signer settings a value
  rotated-IsRotation raw replacement_raw jti_raw id_raw access_token expires payload bytes size
        expiry token made =
      record {
        raw = raw;
        raw_bytes = bytes;
        raw_size = size;
        expiry = expiry ∙ ap (λ (m : RefreshMinted). ok m.replacement_expires_at) made;
        access_set =
            λ z. good.uuid_set id_raw (ap (λ (m : RefreshMinted). m.access_token_id) made ∙ z);
        replacement_set = λ z.
            good.uuid_set replacement_raw
              (ap (λ (m : RefreshMinted). m.replacement_token_id) made ∙ z);
        jti =
            sym (ap (λ (m : RefreshMinted). length m.jti_hash) made)
            ∙ jti_size signer good (new_jti jti_raw);
        hash = sym (ap (λ (m : RefreshMinted). m.replacement_token_hash) made);
        clear = sym (ap (λ (m : RefreshMinted). m.replacement_clear_token) made);
        access_token =
            sym (ap (λ (m : RefreshMinted). is_empty m.access_token) made)
            ∙ good.token_set _ _ access_token token;
        issued = sym (ap (λ (m : RefreshMinted). m.issued_at) made);
        access_expires = sym (ap (λ (m : RefreshMinted). m.access_expires_at) made);
      }

  mint_rotation-IsRotation :
      (source : Bytes) (scopes : List Bytes)
      → AreBytes source
      → mint_rotation signer settings source a scopes ≡ ok value
      → IsRotation signer settings a value
  unfolding mint_rotation
  mint_rotation-IsRotation source scopes bytes h = elim (Result-cases (draw 32 source)) [
    | inr (e, q1) ↦ absurd (ground arith)
    | inl ((raw, s1), q1) ↦ elim (Result-cases (draw 16 s1)) [
      | inr (e, q2) ↦ absurd (ground arith)
      | inl ((replacement_raw, s2), q2) ↦
          elim (Result-cases (
            replacement_refresh_expiry a.issued_at settings.refresh_token_ttl
              a.family.absolute_expires_at)) [
                | inr (e, q3) ↦ absurd (ground arith)
                | inl (expires, q3) ↦ elim (Result-cases (draw 16 s2)) [
                  | inr (e, q4) ↦ absurd (ground arith)
                  | inl ((jti_raw, s3), q4) ↦ elim (Result-cases (draw 16 s3)) [
                    | inr (e, q5) ↦ absurd (ground arith)
                    | inl ((id_raw, s4), q5) ↦
                        let payload = signer.encode_access (
                          access_claims signer settings a.client a.user scopes a.issued_at
                            (new_jti jti_raw)) in
                        let (raw_bytes, rest, size) = draw-eq-ok 32 source bytes q1 in
                        elim (Option-cases (signer.sign payload (codes "at+jwt"))) [
                          | inl q6 ↦ absurd (ground arith)
                          | inr (access_token, q6) ↦
                              rotated-IsRotation raw replacement_raw jti_raw id_raw access_token
                                expires payload raw_bytes size q3 q6 (ground arith)
                        ]
                  ]
                ]
              ]
    ]
  ]

  IsRotation-valid :
      valid_lifetimes settings ≡ true
      → value.replacement_token_id ≢ a.presented.id
      → a.presented.generation ≢ max_int64
      → IsRotation signer settings a value
      → valid_refresh_minted signer.sha256 value a.presented a.family a.issued_at ≡ true
  unfolding valid_refresh_minted valid_lifetimes
  IsRotation-valid times other room t =
      let (after, month, within) = replacement_refresh_expiry_bounds _ _ _ _ t.expiry in
      let size : length value.replacement_token_hash ≡ 32 =
        ap length t.hash ∙ hash_size signer good t.raw in
      let set : is_empty value.replacement_clear_token ≡ false =
        ap is_empty t.clear ∙ clear_set signer.sha256 t.raw in
      let own : digest_is signer.sha256 value.replacement_clear_token value.replacement_token_hash
          ≡ true =
        ap₂ (digest_is signer.sha256) t.clear t.hash
        ∙ digest_is-generate signer.sha256 t.raw t.raw_bytes t.raw_size in
      ground
        (arith, t.access_set, t.replacement_set, t.jti, t.access_token, t.issued, t.access_expires)

-- What mintRefresh makes, with the lifetimes that NewService allows, passes validRefreshMinted of the
-- repository for the authority that it was made for, provided that the new identifier is not that of
-- the presented token and that the generation number is not the last one. The assumptions on digests,
-- UUIDs and signed tokens are those of IsSigner.
pub mint_refresh-valid :
    (signer : Signer) (settings : Settings) (source : Bytes) (a : RefreshAuthority)
    (value : RefreshMinted)
    → IsSigner signer
    → valid_lifetimes settings ≡ true
    → AreBytes source
    → value.replacement_token_id ≢ a.presented.id
    → a.presented.generation ≢ max_int64
    → mint_refresh signer settings source a ≡ ok value
    → valid_refresh_minted signer.sha256 value a.presented a.family a.issued_at ≡ true
unfolding mint_refresh
mint_refresh-valid signer settings source a value good times bytes other room h =
    elim (Result-cases (canonical_scopes a.access_scopes)) [
      | inr (e, q) ↦ absurd (ground arith)
      | inl (scopes, q) ↦
          IsRotation-valid signer settings a value good times other room (
            mint_rotation-IsRotation signer settings a value good source scopes bytes
              (ground arith))
    ]
