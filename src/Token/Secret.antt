-- ===== src/Token/Secret.antt =====
-- Opaque secrets: the Refresh Tokens of internal/token/refresh.go and the Authorization Codes of
-- internal/authorization/authorization.go, and the digests under which they are stored. SHA-256
-- and the random source are parameters.
use one_issuer.Base.{
  ℕ, ◌+◌, ◌≡◌, refl, Bool, true, false, not, ◌&&◌, ◌||◌, none, some, [], ◌∷◌, ◌++◌, arith, length,
  length-append, ◌==◌, if◌then◌else◌, leb, ltb, all,
}
use one_issuer.Errors.{Result, ok, err, invalid_grant, authorization_not_found}
use one_issuer.Text.{Bytes, codes, str_eq, has_prefix, drop}
use one_issuer.Text.Base64.{encode, decode, AreBytes, decode-encode, length-encode}

abbrev pub refresh_token_prefix : Bytes
refresh_token_prefix = codes "r1_"

abbrev pub code_prefix : Bytes
code_prefix = codes "c1_"

-- `raw, err := Strict().DecodeString(…); err == nil && len(raw) == n`
unfoldable pub decodes_to_length : Bytes → ℕ → Bool
decodes_to_length s n = elim (decode s) [ none ↦ false | some raw ↦ length raw == n ]

-- A prefix and 43 digits that spell 32 bytes.
unfoldable pub well_formed : Bytes → Bytes → Bool
unfolding decodes_to_length
well_formed prefix s =
    (length s == length prefix + 43)
    && has_prefix s prefix
    && decodes_to_length (drop (length prefix) s) 32

-- `newCode`, from the 32 bytes that the random source gave.
unfoldable pub new_code : Bytes → Bytes
new_code raw = code_prefix ++ encode raw

-- `isVerifierCharacter`
unfoldable pub is_verifier_character : ℕ → Bool
is_verifier_character c =
    (leb b'A' c && leb c b'Z')
    || (leb b'a' c && leb c b'z')
    || (leb b'0' c && leb c b'9')
    || (c == b'-')
    || (c == b'.')
    || (c == b'_')
    || (c == b'~')

-- `ValidateVerifier(verifier) == nil`
unfoldable pub valid_verifier : Bytes → Bool
unfolding is_verifier_character
valid_verifier v = not (ltb (length v) 43 || ltb 128 (length v)) && all is_verifier_character v

module _ (sha256 : Bytes → Bytes) where
  unfoldable pub hash_refresh_token : Bytes → Bytes
  hash_refresh_token token = sha256 (codes "oneissuer:refresh-token:v1:" ++ token)

  unfoldable pub hash_code : Bytes → Bytes
  hash_code code = sha256 (codes "oneissuer:authorization-code:v1:" ++ code)

  unfoldable pub hash_jti : Bytes → Bytes
  hash_jti jti = sha256 (codes "oneissuer:access-token-jti:v1:" ++ jti)

  -- The value and its digest, from the 32 bytes that the random source gave.
  unfoldable pub generate_refresh_token : Bytes → Bytes × Bytes
  unfolding hash_refresh_token
  generate_refresh_token raw =
      (refresh_token_prefix ++ encode raw, hash_refresh_token (refresh_token_prefix ++ encode raw))

  unfoldable pub digest_presented_refresh_token : Bytes → Result Bytes
  digest_presented_refresh_token token =
      if well_formed refresh_token_prefix token
      then ok (hash_refresh_token token)
      else err invalid_grant

  unfoldable pub digest_presented_code : Bytes → Result Bytes
  digest_presented_code code =
      if well_formed code_prefix code then ok (hash_code code) else err authorization_not_found

  -- `VerifyS256(verifier, expectedChallenge) == nil`
  unfoldable pub verify_s256 : Bytes → Bytes → Bool
  unfolding valid_verifier
  verify_s256 verifier challenge =
      valid_verifier verifier
      && (length challenge == 43)
      && str_eq (encode (sha256 verifier)) challenge

has_prefix-append : (p s : Bytes) → has_prefix (p ++ s) p ≡ true
unfolding has_prefix
has_prefix-append [] [] = refl
has_prefix-append [] (c ∷ s) = refl
has_prefix-append (c ∷ p) s = ground (arith, has_prefix-append p s)

drop-append : (p s : Bytes) → drop (length p) (p ++ s) ≡ s
unfolding drop
drop-append [] s = refl
drop-append (c ∷ p) s = drop-append p s

-- A secret made of a prefix and 32 encoded bytes is well formed.
pub well_formed-encode :
    (prefix raw : Bytes)
    → AreBytes raw
    → length raw ≡ 32
    → well_formed prefix (prefix ++ encode raw) ≡ true
unfolding well_formed
well_formed-encode prefix raw bytes size =
    rw
      (
        has_prefix-append prefix (encode raw),
        drop-append prefix (encode raw),
        decode-encode raw bytes,
        decodes_to_length,
      )
      (ground (arith, length-append prefix (encode raw), length-encode raw))

-- A generated Refresh Token, presented again, is accepted and has the digest that was stored.
pub digest-generate :
    (sha256 : Bytes → Bytes) (raw : Bytes)
    → AreBytes raw
    → length raw ≡ 32
    → digest_presented_refresh_token sha256 (generate_refresh_token sha256 raw).0
      ≡ ok (generate_refresh_token sha256 raw).1
unfolding digest_presented_refresh_token generate_refresh_token
digest-generate sha256 raw bytes size = rw (well_formed-encode refresh_token_prefix raw bytes size)

-- So it is for an Authorization Code.
pub digest-new_code :
    (sha256 : Bytes → Bytes) (raw : Bytes)
    → AreBytes raw
    → length raw ≡ 32
    → digest_presented_code sha256 (new_code raw) ≡ ok (hash_code sha256 (new_code raw))
unfolding digest_presented_code new_code
digest-new_code sha256 raw bytes size = rw (well_formed-encode code_prefix raw bytes size)

-- No string is both a Refresh Token and an Authorization Code: what one endpoint issues the other
-- refuses, whatever the digest.
pub grammars_disjoint :
    (sha256 : Bytes → Bytes) (s digest : Bytes)
    → digest_presented_refresh_token sha256 s ≡ ok digest
    → digest_presented_code sha256 s ≡ err authorization_not_found
unfolding digest_presented_refresh_token digest_presented_code well_formed has_prefix
grammars_disjoint sha256 [] digest h = ground arith
grammars_disjoint sha256 (c ∷ s) digest h = ground arith
